-- ===== src/Connection/Receiving.antt =====
-- What an established connection of magnum-tcp/src/tcp/connection.rs does with the peer's bytes.
use magnus_tcp.Base.{
  true, ℕ, ◌+◌, ◌%◌, ◌<◌, ◌≡◌, refl, ◌∙◌, false, none, some, List, [], length, u32_mod, arith,
}
use magnus_tcp.Float.{F64}
use magnus_tcp.Header.{TcpSegment}
use magnus_tcp.Retransmit.{is_nil}
use magnus_tcp.RecvBuffer
use magnus_tcp.RecvBuffer.{RecvBuffer}
use magnus_tcp.RecvBuffer.Reassembly.{IsSlice, Tracks}
use magnus_tcp.RecvBuffer.Delivery.{insert-Tracks}
use magnus_tcp.Connection.{Connection, build_ack}
use magnus_tcp.Connection.Steps.{answer, set_rcv_nxt, take_fin}
use magnus_tcp.Tcb.{close_wait}
use magnus_tcp.Connection.Established.{
  new_ack, dup_ack, established_ack, receive, established_rest, handle_established,
}

pub recv_buf-established_ack :
    {F : Type 0} (f : F64 F) (c : Connection F) (seg : TcpSegment) (now : ℕ)
    → (established_ack f c seg now).0.recv_buf ≡ c.recv_buf
unfolding established_ack new_ack dup_ack
recv_buf-established_ack f c seg now = ground arith

-- The connection holds `out` and then the buffer's bytes of the stream, and acknowledges just those.
pub record AcknowledgesUpTo {F : Type 0} (irs : ℕ) (stream out : List ℕ) (c : Connection F)
    : Type 0 where
  pub rb : RecvBuffer
  pub holds : c.recv_buf ≡ some rb
  pub tracks : Tracks irs stream out rb
  pub next : c.tcb.rcv.nxt ≡ (irs + 1 + (length out + rb.len)) % u32_mod

-- What `receive` does with a receive buffer in place.
pub receive-some :
    {F : Type 0} (c : Connection F) (seg : TcpSegment) (rb : RecvBuffer)
    → c.recv_buf ≡ some rb
    → let rb' = RecvBuffer.insert rb seg.header.seq seg.payload in
      receive c seg ≡ set_rcv_nxt (record c { recv_buf = some rb' }) (RecvBuffer.next_expected rb')
unfolding receive
receive-some c seg rb e = rw e

pub receive_slice :
    {F : Type 0} (irs : ℕ) (stream out : List ℕ) (c : Connection F) (seg : TcpSegment)
    (rb : RecvBuffer)
    → length stream < 0x8000_0000
    → c.recv_buf ≡ some rb
    → Tracks irs stream out rb
    → IsSlice irs stream seg.header.seq seg.payload
    → AcknowledgesUpTo irs stream out (receive c seg)
receive_slice irs stream out c seg rb short e t s = rw (receive-some c seg rb e) (record {
  rb = rb';
  holds = refl;
  tracks = t';
  next = unfold RecvBuffer.next_expected in t'.expects;
})
  where
    rb' : RecvBuffer
    rb' = RecvBuffer.insert rb seg.header.seq seg.payload

    t' : Tracks irs stream out rb'
    t' = insert-Tracks irs stream short seg.header.seq seg.payload t s

pub established_data :
    {F : Type 0} (c : Connection F) (seg : TcpSegment)
    → seg.header.flags.fin ≡ false
    → is_nil seg.payload ≡ false
    → established_rest c seg ≡ (receive c seg, answer (build_ack (receive c seg)))
unfolding established_rest
established_data c seg fin full = rw (full, fin)

-- What `handle_established` makes of a bare FIN.
pub established_fin :
    {F : Type 0} (f : F64 F) (c : Connection F) (seg : TcpSegment) (now : ℕ)
    → seg.header.flags.rst ≡ false
    → seg.header.flags.fin ≡ true
    → seg.payload ≡ []
    → (established_ack f c seg now).1 ≡ none
    → handle_established f c seg now ≡ take_fin (established_ack f c seg now).0 seg close_wait
unfolding handle_established established_rest receive is_nil
established_fin f c seg now rst fin bare early = ground arith

-- What `handle_established` does behind the acknowledgement.
pub past_ack :
    {F : Type 0} (f : F64 F) (c : Connection F) (seg : TcpSegment) (now : ℕ)
    → seg.header.flags.rst ≡ false
    → (established_ack f c seg now).1 ≡ none
    → handle_established f c seg now ≡ established_rest (established_ack f c seg now).0 seg
unfolding handle_established
past_ack f c seg now rst early = ground arith

-- Let a receive buffer be on a stream of fewer than 2 ^ 31 bytes. When its established connection
-- takes a segment of that stream with bytes, with no RST, no FIN and no fast retransmission, the
-- buffer stays on the stream, and the answer is an acknowledgement whose number is that of the
-- first byte that it does not yet hold in order.
pub handle_established_data :
    {F : Type 0} (f : F64 F) (irs : ℕ) (stream out : List ℕ) (c : Connection F) (seg : TcpSegment)
    (now : ℕ) (rb : RecvBuffer)
    → length stream < 0x8000_0000
    → c.recv_buf ≡ some rb
    → Tracks irs stream out rb
    → IsSlice irs stream seg.header.seq seg.payload
    → seg.header.flags.rst ≡ false
    → seg.header.flags.fin ≡ false
    → is_nil seg.payload ≡ false
    → (established_ack f c seg now).1 ≡ none
    → let (c', reply) = handle_established f c seg now in
      AcknowledgesUpTo irs stream out c' × (reply ≡ answer (build_ack c'))
handle_established_data f irs stream out c seg now rb short e t s rst fin full early =
    rw (past_ack f c seg now rst early, established_data _ seg fin full)
      (
        receive_slice irs stream out (established_ack f c seg now).0 seg rb short
            (recv_buf-established_ack f c seg now ∙ e) t s,
        refl,
      )
