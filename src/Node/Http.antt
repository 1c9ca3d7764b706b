-- ===== src/Node/Http.antt =====
-- The HTTP server of magnum-tcp/src/main.rs, behind the sockets: the response to a request, and what is
-- sent to a connection as its bytes come in. Strings are lists of characters, as in Text.
use magnus_tcp.Base.{
  ℕ, ◌+◌, Bool, true, false, not, ◌&&◌, ◌||◌, Option, none, some, List, [], ◌∷◌, ◌++◌, length, drop,
  if◌then◌else◌,
}
use magnus_tcp.Retransmit.{is_nil}
use magnus_tcp.Text.{codes, text_eq, starts_with, has_window, find, next_word, first_line}
use magnus_tcp.Text.Utf8.{encode, from_utf8}
use magnus_tcp.Text.Decimal.{decimal}
pub mod Framing
pub mod Chunks
pub mod Bytes
pub mod Fetch
pub mod Visit
pub mod Server

abbrev pub crlf : List ℕ
crlf = 13 ∷ 10 ∷ []

abbrev pub blank_line : List ℕ
blank_line = crlf ++ crlf

-- `unwrap_or` on the text of some bytes, and on a word.
abbrev pub text_or : Option (List ℕ) → List ℕ → List ℕ
text_or (some s) default = s
text_or none default = default

abbrev pub word_or : Option (List ℕ × List ℕ) → List ℕ → List ℕ × List ℕ
word_or (some (w, rest)) default = (w, rest)
word_or none default = (default, [])

-- The method and the path, each with what it is when it is missing.
unfoldable pub request_line : List ℕ → List ℕ × List ℕ
request_line req =
    let (method, rest) = word_or (next_word (first_line req)) (codes "GET") in
    (method, (word_or (next_word rest) (codes "/")).0)

-- `(method, path) == (m, p)`.
abbrev pub is_route : (method path m p : List ℕ) → Bool
is_route method path m p = text_eq method m && text_eq path p

-- What stands behind the first blank line, if there is one.
unfoldable pub posted : List ℕ → List ℕ
posted req =
    let body_start : ℕ = elim (find req blank_line) [ none ↦ length req | some i ↦ i + 4 ] in
    drop body_start req

-- The body, at `secs` seconds of Unix time.
unfoldable pub response_body : (req method path : List ℕ) → (secs : ℕ) → List ℕ
response_body req method path secs =
    if is_route method path (codes "GET") (codes "/")
    then codes "Hello from Magnum-TCP!" ++ crlf
    else (if is_route method path (codes "GET") (codes "/echo")
        then req
        else (if is_route method path (codes "GET") (codes "/time")
            then codes "Unix timestamp: " ++ (decimal secs ++ crlf)
            else (if is_route method path (codes "POST") (codes "/")
                then codes "You posted: " ++ (posted req ++ crlf)
                else codes "404 Not Found: " ++ (method ++ (codes " " ++ (path ++ crlf))))))

unfoldable pub response_status : (method path : List ℕ) → List ℕ
response_status method path =
    if text_eq path (codes "/")
      || (is_route method path (codes "GET") (codes "/echo")
          || (is_route method path (codes "GET") (codes "/time")
              || is_route method path (codes "POST") (codes "/")))
    then codes "200 OK"
    else codes "404 Not Found"

-- The last `format!`, and the bytes of its result. `body.len()` counts bytes.
unfoldable pub format_response : (status body : List ℕ) → List ℕ
format_response status body = encode (
    codes "HTTP/1.1 "
    ++ (status
        ++ (crlf
            ++ (codes "Content-Type: text/plain"
                ++ (crlf
                    ++ (codes "Content-Length: "
                        ++ (decimal (length (encode body))
                            ++ (crlf ++ (codes "Connection: close" ++ (blank_line ++ body))))))))))

unfoldable pub build_http_response : (request : List ℕ) → (secs : ℕ) → List ℕ
build_http_response request secs =
    let req = text_or (from_utf8 request) [] in
    let (method, path) = request_line req in
    format_response (response_status method path) (response_body req method path secs)

unfoldable pub is_http : List ℕ → Bool
is_http buf =
    starts_with buf (codes "GET ")
    || (starts_with buf (codes "POST ")
        || (starts_with buf (codes "HEAD ")
            || (starts_with buf (codes "PUT ") || starts_with buf (codes "DELETE "))))

-- What is sent on the connection's channels: bytes, or the wish to close.
pub data Sending : Type 0 where
  bytes : List ℕ → Sending
  close : Sending

-- What the loop of `handle_connection` keeps.
pub record Serving : Type 0 where
  pub request_buf : List ℕ
  pub responded : Bool

abbrev pub fresh : Serving
fresh = record { request_buf = []; responded = false }

-- A round of the loop: a chunk that comes in at `secs` seconds, and what is sent.
unfoldable pub take_chunk : Serving → (chunk : List ℕ) → (secs : ℕ) → Serving × Option (List ℕ)
take_chunk s chunk secs =
    let buf = s.request_buf ++ chunk in
    let kept : Serving = record { request_buf = buf; responded = s.responded } in
    let done : Serving = record { request_buf = buf; responded = true } in
    if s.responded
    then (kept, none)
    else (if is_http buf && has_window buf blank_line
        then (done, some (build_http_response buf secs))
        else (if not (is_http buf) && not (is_nil buf) then (done, some buf) else (kept, none)))

-- All that is sent, as the chunks come in, each with its instant, up to the end of the connection's data.
-- Whether a send succeeds makes no difference.
unfoldable pub serve_chunks : Serving → List (List ℕ × ℕ) → List Sending
serve_chunks s [] = close ∷ []
serve_chunks s ((chunk, secs) ∷ chunks) =
    let (s', sent) = take_chunk s chunk secs in
    let rest = serve_chunks s' chunks in elim sent [ none ↦ rest | some b ↦ bytes b ∷ rest ]

unfoldable pub handle_connection : List (List ℕ × ℕ) → List Sending
handle_connection chunks = serve_chunks fresh chunks

-- The words that are logged.
unfoldable pub first_word : List ℕ → List ℕ
first_word buf = (word_or (next_word (text_or (from_utf8 buf) [])) []).0

unfoldable pub second_word : List ℕ → List ℕ
second_word buf =
    let (first, rest) = word_or (next_word (text_or (from_utf8 buf) [])) [] in
    (word_or (next_word rest) (codes "/")).0
