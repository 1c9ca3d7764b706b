-- ===== src/Examples/Fetching.antt =====
-- A client that asks the server for a page, on concrete inputs.
use magnus_tcp.Base.{ℕ, ◌+◌, ◌≡◌, refl, some, List, [], ◌∷◌, ◌++◌, length, arith}
use magnus_tcp.Connection.Handshake.{Ends}
use magnus_tcp.Connection.Transfer.Lossy.{segments, answers, damaged}
use magnus_tcp.Text.{
  codes, has_window, starts_with, first_line, next_word, skip_whitespace, word, after_word,
  is_whitespace,
}
use magnus_tcp.Text.Utf8.{encode, encode_char, from_utf8, decode, decode_char}
use magnus_tcp.Text.Decimal.{two_digits}
use magnus_tcp.Node.Http.{
  blank_line, is_http, build_http_response, format_response, request_line, text_or, response_status,
  response_body,
}
use magnus_tcp.Node.Http.Framing.{read_response}
use magnus_tcp.Node.Http.Visit.{Journey, visit, visit_lem}
use magnus_tcp.Examples.{nanos, hasher, client_ip, server_ip}

abbrev ends : Ends
ends = record {
  client_ip = client_ip;
  client_port = 12345;
  server_ip = server_ip;
  server_port = 80;
}

abbrev get_root : List ℕ
get_root = codes "GET / HTTP/1.1" ++ blank_line

-- The request is lost once and its acknowledgement once. Every segment of the response arrives first
-- with its second byte replaced.
abbrev rough : Journey
rough = record {
  client_nanos = 7;
  server_nanos = 8;
  syn_at = 10;
  syn_ack_at = 20;
  ack_at = 30;
  link = record {
    at = 100;
    losses = record { lost = segments; late = 0 } ∷ record { lost = answers; late = 7 } ∷ [];
    back = λ k. (200 + k, record { lost = damaged 1 99; late = 3 } ∷ []);
  };
  secs = 0;
}

length-response : length (build_http_response get_root 0) ≡ 108
unfolding build_http_response format_response encode encode_char from_utf8 decode decode_char
    request_line next_word first_line skip_whitespace word after_word is_whitespace starts_with
    response_status response_body
length-response = rw (two_digits 24 (omega arith) (omega arith)) refl

visit_lem_example :
    let req = text_or (from_utf8 get_root) [] in
    let (method, path) = request_line req in
    let got = visit nanos hasher rough ends 200 get_root in
    (got ≡ build_http_response get_root 0)
    × (read_response got
        ≡ some (response_status method path, encode (response_body req method path 0)))
unfolding is_http has_window starts_with
visit_lem_example =
    visit_lem nanos hasher rough ends 200 get_root (omega arith) (omega arith) refl refl
      (omega arith) (omega (arith, length-response)) (omega (arith, length-response))
