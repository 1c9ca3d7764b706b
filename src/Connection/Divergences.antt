-- ===== src/Connection/Divergences.antt =====
-- Where magnum-tcp/src/tcp/connection.rs departs from the protocol, stated for all the inputs that
-- show it.
use magnus_tcp.Base.{
  ℕ, ◌≡◌, ◌≢◌, refl, ap, true, false, none, some, List, [], arith, wrapping_add, wrapping_sub,
  IsU32, ◌+◌, ◌<◌, ◌-◌, ◌%◌, min, ◌∙◌, length,
}
use magnus_tcp.Float.{F64}
use magnus_tcp.Tcb.{established, closed, close_wait, last_ack, fin_wait_1, ack_acceptable}
use magnus_tcp.Tcb.Seq.{ack_acceptable_iff}
use magnus_tcp.Header.{TcpSegment, build, no_flags}
use magnus_tcp.SendBuffer
use magnus_tcp.SendBuffer.{send_buf_size}
use magnus_tcp.Ring.{load_from}
use magnus_tcp.RecvBuffer.{RecvBuffer}
use magnus_tcp.Connection.{
  Connection, acking_builder, build_ack, build_fin_ack, send_fin, close_in, initiate_close,
  next_segment_to_send, send_segment, data_segment, data_flags,
}
use magnus_tcp.Connection.Steps.{answer, silence}
use magnus_tcp.Connection.Handlers.{handle_in, process_segment}
use magnus_tcp.Connection.Established.{established_ack, handle_established}
use magnus_tcp.Connection.Closing.{handle_last_ack}
use magnus_tcp.Connection.Sending.{IsSynced}
use magnus_tcp.Connection.Receiving.{recv_buf-established_ack, established_fin}

-- A segment that is sent has the send buffer's number.
number-next_segment :
    {F : Type 0} (c : Connection F) (max_payload now : ℕ) (segment : List ℕ)
    → (next_segment_to_send c max_payload now).1 ≡ some segment
    → (payload : List ℕ) × (segment
        ≡ data_segment (next_segment_to_send c max_payload now).0 c.send_buf.nxt data_flags payload)
unfolding next_segment_to_send send_segment SendBuffer.next_segment
number-next_segment c max_payload now segment h = (payload, ground arith)
  where
    inflight : ℕ
    inflight = wrapping_sub c.send_buf.nxt c.send_buf.una

    room : ℕ
    room = min c.tcb.cwnd c.tcb.snd.wnd - wrapping_sub c.tcb.snd.nxt c.tcb.snd.una

    payload : List ℕ
    payload =
        load_from c.send_buf.buf ((c.send_buf.head + inflight) % send_buf_size) 0
          (min (c.send_buf.len - inflight) (min max_payload room))

-- The FIN of a connection, with the sequence number given.
abbrev pub fin_at : {F : Type 0} → Connection F → ℕ → List ℕ
fin_at c seq = build (acking_builder c seq (record no_flags { fin = true; ack = true }))

-- A connection in CLOSE_WAIT closes. An acknowledgement that was acceptable before, in a segment with no
-- RST, and so does not acknowledge the FIN, then ends LAST_ACK: the connection is closed without an answer,
-- with the end of the FIN still ahead of `snd.una`. The numbers are of 32 bits, and fewer than 2 ^ 31 - 1
-- bytes are outstanding.
pub fin_taken_for_acked :
    {F : Type 0} (f : F64 F) (c : Connection F) (seg : TcpSegment) (now : ℕ)
    → c.tcb.state ≡ close_wait
    → IsU32 c.tcb.snd.una
    → IsU32 c.tcb.snd.nxt
    → IsU32 seg.header.ack_num
    → wrapping_sub c.tcb.snd.nxt c.tcb.snd.una < 0x7fff_ffff
    → seg.header.flags.rst ≡ false
    → seg.header.flags.ack ≡ true
    → ack_acceptable c.tcb.snd.una seg.header.ack_num c.tcb.snd.nxt ≡ true
    → let (c', fin) = initiate_close c in
      let (c'', reply) = process_segment f c' seg now in
      (fin ≡ some (fin_at c c.tcb.snd.nxt))
      × (c'.tcb.state ≡ last_ack)
      × (c''.tcb.state ≡ closed)
      × (reply ≡ silence)
      × (c''.tcb.snd.nxt ≡ wrapping_add c.tcb.snd.nxt 1)
      × (c''.tcb.snd.una ≡ seg.header.ack_num)
      × (0 < wrapping_sub c''.tcb.snd.nxt c''.tcb.snd.una)
unfolding initiate_close close_in send_fin build_fin_ack process_segment handle_in handle_last_ack
fin_taken_for_acked f c seg now state hu hn ha few rst ack h =
    let next : ℕ = wrapping_add c.tcb.snd.nxt 1 in
    let (ahead, behind) =
      (ack_acceptable_iff c.tcb.snd.una seg.header.ack_num c.tcb.snd.nxt hu ha hn (omega arith)).0
        h in
    let still : ack_acceptable c.tcb.snd.una seg.header.ack_num next ≡ true =
      (ack_acceptable_iff c.tcb.snd.una seg.header.ack_num next hu ha (omega arith) (omega arith)).1
        (ahead, omega arith) in
    rw (state, rst, ack, still) (refl, refl, refl, refl, refl, refl, omega arith)

-- A connection in `handle_established` that takes a bare FIN with another number than the one that its
-- receive buffer expects, with no RST and no fast retransmission, moves to CLOSE_WAIT and answers with
-- an acknowledgement of the number behind the FIN, though its buffer still expects what it did before.
pub fin_skips_gap :
    {F : Type 0} (f : F64 F) (c : Connection F) (seg : TcpSegment) (now : ℕ) (rb : RecvBuffer)
    → seg.header.flags.rst ≡ false
    → seg.header.flags.fin ≡ true
    → seg.payload ≡ []
    → (established_ack f c seg now).1 ≡ none
    → c.recv_buf ≡ some rb
    → IsU32 seg.header.seq
    → IsU32 rb.nxt
    → seg.header.seq ≢ rb.nxt
    → let (c', reply) = handle_established f c seg now in
      (c'.tcb.state ≡ close_wait)
      × (reply ≡ answer (build_ack c'))
      × (c'.tcb.rcv.nxt ≡ wrapping_add seg.header.seq 1)
      × (c'.tcb.rcv.nxt ≢ wrapping_add rb.nxt 1)
      × (c'.recv_buf ≡ some rb)
fin_skips_gap f c seg now rb rst fin bare early e hs hn ne =
    let got = established_fin f c seg now rst fin bare early in
    let kept = recv_buf-established_ack f c seg now ∙ e in
    let empty : length seg.payload ≡ 0 = ap length bare in
    rw got (refl, refl, omega (arith, empty), omega (arith, empty), kept)

-- What a segment that follows the FIN has in common with it.
close-next_segment :
    {F : Type 0} (c : Connection F) (max_payload now : ℕ) (segment : List ℕ)
    → IsSynced c
    → c.tcb.state ≡ established
    → let (c', fin) = initiate_close c in
      let (c'', next) = next_segment_to_send c' max_payload now in
      next ≡ some segment
      → (fin ≡ some (fin_at c c.send_buf.nxt))
        × (c'.tcb.state ≡ fin_wait_1)
        × ((payload : List ℕ) × (segment ≡ data_segment c'' c.send_buf.nxt data_flags payload))
unfolding initiate_close close_in send_fin build_fin_ack
close-next_segment c max_payload now segment s e =
    rw (e, close_in)
      (rw s.nxt_same (λ h. (refl, refl, number-next_segment _ max_payload now segment h)))

-- If the control block and the send buffer of an established connection agree and, after its FIN, it
-- sends a segment with bytes, then that segment has the same sequence number as the FIN.
pub fin_before_data :
    {F : Type 0} (c : Connection F) (max_payload now : ℕ) (segment : List ℕ)
    → IsSynced c
    → c.tcb.state ≡ established
    → (next_segment_to_send (initiate_close c).0 max_payload now).1 ≡ some segment
    → let (c', fin) = initiate_close c in
      let c'' = (next_segment_to_send c' max_payload now).0 in
      (fin ≡ some (fin_at c c.send_buf.nxt))
      × (c'.tcb.state ≡ fin_wait_1)
      × ((payload : List ℕ) × (segment ≡ data_segment c'' c.send_buf.nxt data_flags payload))
fin_before_data c max_payload now segment s e h = close-next_segment c max_payload now segment s e h
