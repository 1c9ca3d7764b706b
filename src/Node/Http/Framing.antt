-- ===== src/Node/Http/Framing.antt =====
-- What a client reads of a response of `build_http_response` of magnum-tcp/src/main.rs.
use magnus_tcp.Base.{
  ℕ, ◌≡◌, refl, ap, ◌∙◌, Bool, true, false, Option, none, some, List, [], ◌∷◌, ◌++◌, length, ◌==◌,
  if◌then◌else◌, arith,
}
use magnus_tcp.Text.{codes, text_eq}
use magnus_tcp.Text.Utf8.{
  encode, encode_char, from_utf8, encode-from_utf8, encode_ascii, encode-append,
}
use magnus_tcp.Text.Decimal.{decimal, decimal-IsAscii, read_decimal, read_decimal-decimal, IsAscii}
use magnus_tcp.Node.Http.{
  crlf, blank_line, text_or, request_line, response_body, response_status, format_response,
  build_http_response,
}

abbrev strip_prefix : (prefix s : List ℕ) → Option (List ℕ)
strip_prefix [] s = some s
strip_prefix (p ∷ ps) [] = none
strip_prefix (p ∷ ps) (c ∷ s) = if p == c then strip_prefix ps s else none

-- The text up to a carriage return, and the rest from there on.
abbrev until_cr : List ℕ → List ℕ × List ℕ
until_cr [] = ([], [])
until_cr (c ∷ s) =
    let (line, rest) = until_cr s in if c == 13 then ([], c ∷ s) else (c ∷ line, rest)

-- The bytes behind the header, if there are as many as it says.
abbrev whole_body : (status : List ℕ) → ℕ → Option (List ℕ) → Option (List ℕ × List ℕ)
whole_body status n none = none
whole_body status n (some body) = if length body == n then some (status, body) else none

abbrev after_status : List ℕ × List ℕ → Option (List ℕ × List ℕ)
after_status (status, s) =
    elim (strip_prefix
      (crlf ++ (codes "Content-Type: text/plain" ++ (crlf ++ codes "Content-Length: "))) s) [
        | none ↦ none
        | some s' ↦
            let (n, rest) = read_decimal s' 0 in
            whole_body status n
              (strip_prefix (crlf ++ (codes "Connection: close" ++ blank_line)) rest)
      ]

-- The status and the body of a response whose header gives the number of the bytes that follow it.
unfoldable pub read_response : List ℕ → Option (List ℕ × List ℕ)
read_response s = elim (strip_prefix (codes "HTTP/1.1 ") s) [
  | none ↦ none
  | some s' ↦ after_status (until_cr s')
]

encode_ascii-append : (s t : List ℕ) → IsAscii s → encode (s ++ t) ≡ s ++ encode t
encode_ascii-append s t h = encode-append s t ∙ ap (λ r. r ++ encode t) (encode_ascii s h)

abbrev length_on : List ℕ → List ℕ
length_on body =
    decimal (length (encode body)) ++ (crlf ++ (codes "Connection: close" ++ (blank_line ++ body)))

read_length :
    (status body : List ℕ)
    → let (n, rest) = read_decimal (encode (length_on body)) 0 in
      whole_body status n (strip_prefix (crlf ++ (codes "Connection: close" ++ blank_line)) rest)
      ≡ some (status, encode body)
unfolding encode encode_char
read_length status body =
    let n : ℕ = length (encode body) in
    rw
      (
        encode_ascii-append (decimal n)
            (crlf ++ (codes "Connection: close" ++ (blank_line ++ body))) (decimal-IsAscii n),
        read_decimal-decimal n 13 (10 ∷ (codes "Connection: close" ++ (blank_line ++ encode body)))
            (omega arith),
      )
      (ground arith)

read_ok :
    (body : List ℕ)
    → read_response (format_response (codes "200 OK") body) ≡ some (codes "200 OK", encode body)
unfolding read_response format_response encode encode_char
read_ok body = read_length (codes "200 OK") body

read_not_found :
    (body : List ℕ)
    → read_response (format_response (codes "404 Not Found") body)
      ≡ some (codes "404 Not Found", encode body)
unfolding read_response format_response encode encode_char
read_not_found body = read_length (codes "404 Not Found") body

read_either :
    (test : Bool) (body : List ℕ)
    → let status = if test then codes "200 OK" else codes "404 Not Found" in
      read_response (format_response status body) ≡ some (status, encode body)
read_either true body = read_ok body
read_either false body = read_not_found body

-- Whatever the request, a client that takes the status line, the length in the header and what follows
-- the blank line reads the status and the body that the responder chose, and the length is that of the
-- body's bytes.
pub read_response-build_http_response :
    (request : List ℕ) (secs : ℕ)
    → let req = text_or (from_utf8 request) [] in
      let (method, path) = request_line req in
      read_response (build_http_response request secs)
      ≡ some (response_status method path, encode (response_body req method path secs))
unfolding build_http_response response_status
read_response-build_http_response request secs = read_either _ _

-- A request in UTF-8 whose first line asks to GET `/echo` is answered by `200 OK` and just the bytes of
-- the request.
pub echo_request :
    (request req : List ℕ) (secs : ℕ)
    → from_utf8 request ≡ some req
    → request_line req ≡ (codes "GET", codes "/echo")
    → read_response (build_http_response request secs) ≡ some (codes "200 OK", request)
unfolding response_status response_body
echo_request request req secs text line =
    read_response-build_http_response request secs
    ∙ rw (text, line, encode-from_utf8 request req text)

text_eq_self : (s : List ℕ) → text_eq s s ≡ true
text_eq_self [] = refl
text_eq_self (c ∷ s) = ground (arith, text_eq_self s)

-- A request for `/` by another method than GET and POST is answered by `200 OK` and a body that says that
-- it is not found.
pub other_method_ok :
    (request req method : List ℕ) (secs : ℕ)
    → from_utf8 request ≡ some req
    → request_line req ≡ (method, codes "/")
    → text_eq method (codes "GET") ≡ false
    → text_eq method (codes "POST") ≡ false
    → read_response (build_http_response request secs)
      ≡ some (codes "200 OK", encode (codes "404 Not Found: " ++ (method ++ (codes " /" ++ crlf))))
unfolding response_status response_body
other_method_ok request req method secs text line get post =
    read_response-build_http_response request secs ∙ rw (text, line, get, post)
