-- ===== src/Node/Http/Visit.antt =====
-- A client that connects to the HTTP server of magnum-tcp/src/main.rs and asks it, from the first SYN
-- to the last byte of the response.
use magnus_tcp.Base.{ℕ, ◌≤◌, ◌≡◌, true, some, List, [], arith, All, length}
use magnus_tcp.Float.{F64}
use magnus_tcp.Net.{IsByte}
use magnus_tcp.Tcb.{Hasher}
use magnus_tcp.Retransmit.{mss}
use magnus_tcp.SendBuffer.{send_buf_size}
use magnus_tcp.Text.{has_window}
use magnus_tcp.Text.Utf8.{encode, from_utf8}
use magnus_tcp.Connection.Handshake.{Ends, AreValid, three_way, three_way-eq}
use magnus_tcp.Connection.Handshake.Rest.{both-Idle, client_window, c, s}
use magnus_tcp.Node.Http.{
  blank_line, is_http, build_http_response, request_line, text_or, response_status, response_body,
}
use magnus_tcp.Node.Http.Framing.{read_response}
use magnus_tcp.Node.Http.Fetch.{Link, fetch, fetch_lem}

-- What happens outside the two connections: the clocks at the two ends when their initial numbers are
-- chosen and when each segment of the handshake arrives, what the link does then, and the time of day.
pub record Journey : Type 0 where
  pub client_nanos : ℕ
  pub server_nanos : ℕ
  pub syn_at : ℕ
  pub syn_ack_at : ℕ
  pub ack_at : ℕ
  pub link : Link
  pub secs : ℕ

-- What the client reads that opens a connection and sends a request.
unfoldable pub visit :
    {F : Type 0} → F64 F → Hasher → Journey → Ends → (rounds : ℕ) → (request : List ℕ) → List ℕ
visit f hash j e rounds request =
    let (client, server, last) =
      three_way f hash j.client_nanos j.server_nanos e j.syn_at j.syn_ack_at j.ack_at in
    fetch f j.link j.secs rounds client server request

-- For any two addresses and ports that fit their types, any hasher and any clock, and whatever finite
-- losses the link has once the connection is open: a client that opens a connection of this code to the
-- server and asks it with one of the five methods, up to a blank line, in at most 1460 bytes, reads the
-- response of the server, from which it takes the status and the body that the server chose, if the
-- response has at most 65536 bytes and there are rounds for as many bytes.
pub visit_lem :
    {F : Type 0} (f : F64 F) (hash : Hasher) (j : Journey) (e : Ends) (rounds : ℕ)
    (request : List ℕ)
    → AreValid e
    → All IsByte request
    → is_http request ≡ true
    → has_window request blank_line ≡ true
    → length request ≤ mss
    → let response = build_http_response request j.secs in
      length response ≤ send_buf_size
      → length response ≤ rounds
      → let req = text_or (from_utf8 request) [] in
        let (method, path) = request_line req in
        let got = visit f hash j e rounds request in
        (got ≡ response)
        × (read_response got
            ≡ some (response_status method path, encode (response_body req method path j.secs)))
unfolding visit
visit_lem f hash j e rounds request v bytes http whole one fits enough =
    let response = build_http_response request j.secs in
    rw (three_way-eq f hash j.client_nanos j.server_nanos e v j.syn_at j.syn_ack_at j.ack_at) (
      fetch_lem f j.link j.secs _ _ [] [] request
        (c f hash j.client_nanos j.server_nanos e v j.syn_at request response)
        (s f hash j.client_nanos j.server_nanos e v j.syn_at request response) rounds (omega arith)
        (omega arith) bytes tt
        (both-Idle f hash j.client_nanos j.server_nanos e v j.syn_at request response) http whole
        one
        (omega
          (arith, client_window f hash j.client_nanos j.server_nanos e v j.syn_at request response))
        fits enough)
