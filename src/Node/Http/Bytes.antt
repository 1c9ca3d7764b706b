-- ===== src/Node/Http/Bytes.antt =====
-- What `build_http_response` of magnum-tcp/src/main.rs answers is bytes.
use magnus_tcp.Base.{
  ℕ, ◌<◌, Bool, true, false, Option, none, some, Option-cases, inl, inr, List, [], ◌∷◌, ◌++◌,
  length, All, All-append, All-drop, if◌then◌else◌, arith,
}
use magnus_tcp.Net.{IsByte}
use magnus_tcp.Text.{codes, next_word, first_line}
use magnus_tcp.Text.Utf8.{encode, from_utf8, encode-from_utf8}
use magnus_tcp.Text.Decimal.{decimal, decimal-IsAscii}
use magnus_tcp.Text.Parts.{
  IsCode, encode-IsByte, encode-IsCode, All-first_line, AllBoth, next_word-AllBoth,
}
use magnus_tcp.Node.Http.{
  crlf, blank_line, text_or, word_or, request_line, posted, response_body, response_status,
  format_response, build_http_response,
}

All-weaken : (P Q : ℕ → Type 0) → ((c : ℕ) → P c → Q c) → (s : List ℕ) → All P s → All Q s
All-weaken P Q h [] a = tt
All-weaken P Q h (c ∷ s) (p, a) = (h c p, All-weaken P Q h s a)

decimal-IsCode : (n : ℕ) → All IsCode (decimal n)
decimal-IsCode n =
    All-weaken _ IsCode (λ c (h : c < 0x80). omega arith) (decimal n) (decimal-IsAscii n)

-- The text of bytes.
text-IsCode : (bytes : List ℕ) → All IsByte bytes → All IsCode (text_or (from_utf8 bytes) [])
text-IsCode bytes h = elim (Option-cases (from_utf8 bytes)) [
  | inl nothing ↦ rw nothing tt
  | inr (s, text) ↦ rw text (encode-IsCode s (rw (encode-from_utf8 bytes s text) h))
]

word_or-IsCode :
    (w : Option (List ℕ × List ℕ)) (default : List ℕ)
    → AllBoth IsCode w
    → All IsCode default
    → let (a, rest) = word_or w default in All IsCode a × All IsCode rest
word_or-IsCode none default h d = (d, tt)
word_or-IsCode (some (a, rest)) default h d = h

request_line-IsCode :
    (req : List ℕ)
    → All IsCode req
    → let (method, path) = request_line req in All IsCode method × All IsCode path
unfolding request_line
request_line-IsCode req h =
    let (method, rest) =
      word_or-IsCode (next_word (first_line req)) (codes "GET")
        (next_word-AllBoth IsCode (first_line req) (All-first_line IsCode req h)) (omega arith) in
    (method, (word_or-IsCode _ (codes "/") (next_word-AllBoth IsCode _ rest) (omega arith)).0)

posted-IsCode : (req : List ℕ) → All IsCode req → All IsCode (posted req)
unfolding posted
posted-IsCode req h = All-drop IsCode _ req h

either_IsCode :
    (test : Bool) (s t : List ℕ) → All IsCode s → All IsCode t → All IsCode (if test then s else t)
either_IsCode true s t h k = h
either_IsCode false s t h k = k

joined : (s t : List ℕ) → All IsCode s → All IsCode t → All IsCode (s ++ t)
joined = All-append IsCode

one_of_five :
    (p q r t : Bool) (s1 s2 s3 s4 s5 : List ℕ)
    → All IsCode s1
    → All IsCode s2
    → All IsCode s3
    → All IsCode s4
    → All IsCode s5
    → All IsCode (if p then s1 else (if q then s2 else (if r then s3 else (if t then s4 else s5))))
one_of_five true q r t s1 s2 s3 s4 s5 h1 h2 h3 h4 h5 = h1
one_of_five false true r t s1 s2 s3 s4 s5 h1 h2 h3 h4 h5 = h2
one_of_five false false true t s1 s2 s3 s4 s5 h1 h2 h3 h4 h5 = h3
one_of_five false false false t s1 s2 s3 s4 s5 h1 h2 h3 h4 h5 = either_IsCode t s4 s5 h4 h5

response_body-IsCode :
    (req method path : List ℕ) (secs : ℕ)
    → All IsCode req
    → All IsCode method
    → All IsCode path
    → All IsCode (response_body req method path secs)
unfolding response_body
response_body-IsCode req method path secs h m p =
    let hello : All IsCode (codes "Hello from Magnum-TCP!" ++ crlf) = omega arith in
    let time : All IsCode (codes "Unix timestamp: " ++ (decimal secs ++ crlf)) =
      joined (codes "Unix timestamp: ") (decimal secs ++ crlf) (omega arith)
        (joined (decimal secs) crlf (decimal-IsCode secs) (omega arith)) in
    let post : All IsCode (codes "You posted: " ++ (posted req ++ crlf)) =
      joined (codes "You posted: ") (posted req ++ crlf) (omega arith)
        (joined (posted req) crlf (posted-IsCode req h) (omega arith)) in
    let missing : All IsCode
        (codes "404 Not Found: " ++ (method ++ (codes " " ++ (path ++ crlf)))) =
      joined (codes "404 Not Found: ") (method ++ (codes " " ++ (path ++ crlf))) (omega arith) (
        joined method (codes " " ++ (path ++ crlf)) m
          (omega arith, joined path crlf p (omega arith))) in
    one_of_five _ _ _ _ (codes "Hello from Magnum-TCP!" ++ crlf) req
      (codes "Unix timestamp: " ++ (decimal secs ++ crlf))
      (codes "You posted: " ++ (posted req ++ crlf))
      (codes "404 Not Found: " ++ (method ++ (codes " " ++ (path ++ crlf)))) hello h time post
      missing

response_status-IsCode : (method path : List ℕ) → All IsCode (response_status method path)
unfolding response_status
response_status-IsCode method path =
    either_IsCode _ (codes "200 OK") (codes "404 Not Found") (omega arith) (omega arith)

format_response-IsByte :
    (status body : List ℕ)
    → All IsCode status
    → All IsCode body
    → All IsByte (format_response status body)
unfolding format_response
format_response-IsByte status body h k = encode-IsByte _ (
    joined (codes "HTTP/1.1 ") _ (omega arith) (
      joined status _ h (
        joined (crlf ++ (codes "Content-Type: text/plain" ++ (crlf ++ codes "Content-Length: "))) _
          (omega arith)
          (joined (decimal (length (encode body))) _ (decimal-IsCode (length (encode body)))
            (joined (crlf ++ (codes "Connection: close" ++ blank_line)) body (omega arith) k)))))

pub build_http_response-IsByte :
    (request : List ℕ) (secs : ℕ)
    → All IsByte request
    → All IsByte (build_http_response request secs)
unfolding build_http_response
build_http_response-IsByte request secs h =
    let req : List ℕ = text_or (from_utf8 request) [] in
    let text : All IsCode req = text-IsCode request h in
    let (m, p) = request_line-IsCode req text in
    format_response-IsByte _ _ (response_status-IsCode _ _)
      (response_body-IsCode req _ _ secs text m p)
