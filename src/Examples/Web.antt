-- ===== src/Examples/Web.antt =====
-- The HTTP server on concrete requests.
use magnus_tcp.Base.{arith, ℕ, ◌≡◌, refl, some, List, [], ◌∷◌, ◌++◌}
use magnus_tcp.Text.{
  codes, starts_with, has_window, find, next_word, first_line, skip_whitespace, word, after_word,
  is_whitespace,
}
use magnus_tcp.Text.Utf8.{encode, from_utf8, decode, decode_char}
use magnus_tcp.Node.Http.{
  crlf, blank_line, text_or, request_line, response_body, response_status, build_http_response,
  is_http, bytes, close, handle_connection, posted,
}
use magnus_tcp.Node.Http.Framing.{read_response, read_response-build_http_response, other_method_ok}
use magnus_tcp.Node.Http.Chunks.{cut_in_method}

abbrev get_time : List ℕ
get_time = codes "GET /time HTTP/1.1" ++ blank_line

read_response-build_http_response_example :
    let req = text_or (from_utf8 get_time) [] in
    let (method, path) = request_line req in
    read_response (build_http_response get_time 77)
    ≡ some (response_status method path, encode (response_body req method path 77))
read_response-build_http_response_example = read_response-build_http_response get_time 77

-- "é" stands in the body.
abbrev get_echo : List ℕ
get_echo = codes "GET /echo HTTP/1.1" ++ (blank_line ++ 0xC3 ∷ 0xA9 ∷ [])

abbrev delete_root : List ℕ
delete_root = codes "DELETE / HTTP/1.1" ++ blank_line

other_method_ok_example :
    read_response (build_http_response delete_root 77)
    ≡ some (
      codes "200 OK",
      encode (codes "404 Not Found: " ++ (codes "DELETE" ++ (codes " /" ++ crlf))),
    )
unfolding from_utf8 decode decode_char request_line next_word first_line skip_whitespace word
    after_word is_whitespace starts_with
other_method_ok_example =
    other_method_ok delete_root delete_root (codes "DELETE") 77 refl refl refl refl

cut_in_method_example :
    (handle_connection ((codes "GET / HTTP/1.1" ++ blank_line, 1) ∷ [])
      ≡ bytes (build_http_response (codes "GET / HTTP/1.1" ++ blank_line) 1) ∷ close ∷ [])
    × (handle_connection ((codes "GE", 1) ∷ (codes "T / HTTP/1.1" ++ blank_line, 1) ∷ [])
        ≡ bytes (codes "GE") ∷ close ∷ [])
unfolding is_http starts_with has_window
cut_in_method_example =
    cut_in_method (codes "GE") (codes "T / HTTP/1.1" ++ blank_line) 1 [] (omega arith) (omega arith)
      refl refl

-- What is posted is sent back.
posted_text : posted (codes "POST / HTTP/1.1" ++ (blank_line ++ codes "x=1")) ≡ codes "x=1"
unfolding posted find starts_with
posted_text = refl
