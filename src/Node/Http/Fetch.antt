-- ===== src/Node/Http/Fetch.antt =====
-- A request from one connection to another, and the response of the HTTP server of
-- magnum-tcp/src/main.rs, over a link that loses segments.
use magnus_tcp.Base.{
  ℕ, ◌≤◌, ◌<◌, ◌≡◌, refl, sym, ap, ◌∙◌, true, Option, none, some, List, [], ◌++◌, arith, All,
  All-append, All-behind, length, length-append, drop-length_append,
}
use magnus_tcp.Float.{F64}
use magnus_tcp.Net.{IsByte}
use magnus_tcp.Retransmit.{mss}
use magnus_tcp.SendBuffer.{send_buf_size}
use magnus_tcp.SendBuffer.Stream.{contents}
use magnus_tcp.Text.{has_window}
use magnus_tcp.Text.Utf8.{encode, from_utf8}
use magnus_tcp.Connection.{Connection, write_data}
use magnus_tcp.Connection.Transfer.{InStep, Round}
use magnus_tcp.Connection.Transfer.Lossy.{Loss, lossy_round, lossy_transfer}
use magnus_tcp.Connection.Transfer.Rounds.{Advances}
use magnus_tcp.Connection.Transfer.Rests.{Rests}
use magnus_tcp.Connection.Transfer.Recovery.{lossy_round-Advances, lossy_transfer-delivers}
use magnus_tcp.Connection.Transfer.Whole.{all_delivered}
use magnus_tcp.Connection.Transfer.Duplex.{Idle, write_data-InStep, turn_around, one_round}
use magnus_tcp.Node.Http.{
  blank_line, is_http, fresh, take_chunk, build_http_response, request_line, text_or,
  response_status, response_body,
}
use magnus_tcp.Node.Http.Framing.{read_response, read_response-build_http_response}
use magnus_tcp.Node.Http.Bytes.{build_http_response-IsByte}

-- What the link does: when the request is sent and what it loses, and the same for each round of the
-- response.
pub record Link : Type 0 where
  pub at : ℕ
  pub losses : List Loss
  pub back : ℕ → ℕ × List Loss

-- The handler's reply is written to the connection.
abbrev pub write_reply : {F : Type 0} → Connection F → Option (List ℕ) → Connection F
write_reply c none = c
write_reply c (some reply) = (write_data c reply).0

-- What the client reads. The client writes its request, the server's handler takes what arrives as the
-- first chunk, at `secs` seconds, and what it answers is written and sent back.
unfoldable pub fetch :
    {F : Type 0}
    → F64 F
    → Link
    → ℕ
    → (rounds : ℕ) → (client server : Connection F) → List ℕ
    → List ℕ
fetch f link secs rounds client server request =
    let up = lossy_round f link.at link.losses (write_data client request).0 server in
    let (serving, reply) = take_chunk fresh up.delivered secs in
    (lossy_transfer f link.back rounds (write_reply up.receiver reply) up.sender).0

-- A request that is whole is answered.
answered :
    (request : List ℕ) (secs : ℕ)
    → is_http request ≡ true
    → has_window request blank_line ≡ true
    → (take_chunk fresh request secs).1 ≡ some (build_http_response request secs)
unfolding take_chunk
answered request secs http whole = rw (http, whole) refl

module _ {F : Type 0} (f : F64 F) (link : Link) (secs irs irs' : ℕ) (out out' request : List ℕ)
    (a b : Connection F) where
  abbrev response : List ℕ
  response = build_http_response request secs

  -- What comes of the request.
  module _ (short : length (out ++ request) < 0x8000_0000) (bytes : All IsByte (out ++ request))
      (s : Idle irs irs' (out ++ request) out (out' ++ response) out' a b)
      (one : length request ≤ mss) (room : length request ≤ a.tcb.snd.wnd) where
    abbrev asked : Connection F
    asked = (write_data a request).0

    abbrev up : Round F
    up = lossy_round f link.at link.losses asked b

    written :
        (contents asked.send_buf ≡ request)
        × (asked.send_buf.len ≡ length request)
        × InStep irs (out ++ request) out asked b
    unfolding write_data
    written =
        write_data-InStep request s.there s.a_empty (drop-length_append out request) (omega arith)
          (omega (arith, length-append out request))

    before : Rests irs (out ++ request) a b out asked b
    unfolding write_data
    before = record {
      in_step = written.2;
      none_waits = s.a_quiet;
      keeps = record {
        received = refl;
        rcv = refl;
        send_buf = refl;
        snd = refl;
        queue = refl;
        cwnd = refl;
        ssthresh = refl;
        dup_ack_count = refl;
      };
    }

    after : Advances (Rests irs (out ++ request) a b) out asked up
    after =
        lossy_round-Advances f irs (out ++ request) short bytes a b link.at link.losses out asked b
          before

    length-up : length up.delivered ≡ length request
    length-up =
        one_round f irs (out ++ request) short bytes a b link.at link.losses out asked b before
          (omega (arith, written)) (unfold write_data in omega (arith, written))
        ∙ written.1

    arrived : up.delivered ≡ request
    arrived =
        (all_delivered irs (out ++ request) out up.delivered asked up.sender up.receiver written.2
          after.rests.in_step (length-up ∙ sym written.1)
          (omega (arith, after.taken, length-up, written))).0
        ∙ written.0

    answering : InStep irs' (out' ++ response) out' up.receiver up.sender
    answering = turn_around s.back after.rests.in_step after.rests.keeps

    -- The response on its way back.
    module _ (short' : length (out' ++ response) < 0x8000_0000) (bytes' : All IsByte out')
        (http : is_http request ≡ true) (whole : has_window request blank_line ≡ true)
        (fits : length response ≤ send_buf_size) (rounds : ℕ)
        (enough : length response ≤ rounds) where
      replied :
          let b' = (write_data up.receiver response).0 in
          (contents b'.send_buf ≡ response)
          × (b'.send_buf.len ≡ length response)
          × InStep irs' (out' ++ response) out' b' up.sender
      replied =
          write_data-InStep response answering
            (ap (λ sb. sb.len) after.rests.keeps.send_buf ∙ s.b_empty)
            (drop-length_append out' response) fits (omega (arith, length-append out' response))

      back_bytes : All IsByte (out' ++ response)
      back_bytes =
          All-append IsByte out' response bytes'
            (build_http_response-IsByte request secs (All-behind IsByte out request bytes))

      read_back :
          (lossy_transfer f link.back rounds (write_data up.receiver response).0 up.sender).0
          ≡ response
      read_back =
          (lossy_transfer-delivers f irs' (out' ++ response) out' short' back_bytes link.back rounds
            (write_data up.receiver response).0 up.sender replied.2
            (unfold write_data in ap (λ q. q.entries) after.rests.keeps.queue ∙ s.b_quiet)
            (omega (arith, replied))).0
          ∙ replied.0

      fetched : fetch f link secs rounds a b request ≡ response
      unfolding fetch
      fetched =
          ap (λ r. (lossy_transfer f link.back rounds (write_reply up.receiver r) up.sender).0)
            (ap (λ chunk. (take_chunk fresh chunk secs).1) arrived
              ∙ answered request secs http whole)
          ∙ read_back

-- Between a client and a server that are at rest in both directions with nothing queued, let the client
-- ask with one of the five methods, up to a blank line, in bytes that fit one segment and the server's
-- window. Then, whatever finite losses the link has on the way there and in each round back, the client
-- reads the response of the server, from which it takes the status and the body that the server chose,
-- if the response fits a send buffer and there are rounds for as many bytes.
pub fetch_lem :
    {F : Type 0} (f : F64 F) (link : Link) (secs irs irs' : ℕ) (out out' request : List ℕ)
    (a b : Connection F) (rounds : ℕ)
    → let response = build_http_response request secs in
      length (out ++ request) < 0x8000_0000
      → length (out' ++ response) < 0x8000_0000
      → All IsByte (out ++ request)
      → All IsByte out'
      → Idle irs irs' (out ++ request) out (out' ++ response) out' a b
      → is_http request ≡ true
      → has_window request blank_line ≡ true
      → length request ≤ mss
      → length request ≤ a.tcb.snd.wnd
      → length response ≤ send_buf_size
      → length response ≤ rounds
      → let req = text_or (from_utf8 request) [] in
        let (method, path) = request_line req in
        let got = fetch f link secs rounds a b request in
        (got ≡ response)
        × (read_response got
            ≡ some (response_status method path, encode (response_body req method path secs)))
fetch_lem f link secs irs irs' out out' request a b rounds short short' bytes bytes' s http whole
      one room fits enough =
    let got : fetch f link secs rounds a b request ≡ build_http_response request secs =
      fetched f link secs irs irs' out out' request a b short bytes s one room short' bytes' http
        whole fits rounds enough in
    (got, ap read_response got ∙ read_response-build_http_response request secs)
