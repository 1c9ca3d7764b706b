-- ===== src/Connection/Transfer.antt =====
-- Bytes on their way from one connection of magnum-tcp/src/tcp/connection.rs to another, as the bytes
-- that the two send each other.
use magnus_tcp.Base.{
  ℕ, ◌+◌, ◌-◌, ◌%◌, ◌≤◌, ◌<◌, ◌≡◌, refl, sym, ap, ◌∙◌, true, false, Option, none, some, List, [],
  ◌∷◌, ◌++◌, min, arith, IsU32, u32_mod, wrapping_add, wrapping_sub, All, All-take, All-drop,
  length, take, drop, length-append, length-take, length-drop, take-take, drop-take, drop-drop,
  Bool-cases, inl, inr, ◌==◌, if◌then◌else◌,
}
use magnus_tcp.Float.{F64}
use magnus_tcp.Net.{IsByte}
use magnus_tcp.Tcb.{established, ack_acceptable}
use magnus_tcp.Tcb.Seq.{ack_acceptable_iff}
use magnus_tcp.Header.{TcpSegment, SegmentBuilder, build}
use magnus_tcp.Header.RoundTrip.{IsValid, segment_of}
use magnus_tcp.Retransmit.{mss, is_nil}
use magnus_tcp.Ring.Laws.{length-load_from}
use magnus_tcp.SendBuffer
use magnus_tcp.SendBuffer.Stream
use magnus_tcp.SendBuffer.Stream.{contents, inflight, length-contents}
use magnus_tcp.RecvBuffer
use magnus_tcp.RecvBuffer.{RecvBuffer}
use magnus_tcp.RecvBuffer.Reassembly.{IsSlice, Tracks}
use magnus_tcp.RecvBuffer.Delivery.{insert-Tracks, read-Tracks}
use magnus_tcp.RecvBuffer.Progress.{insert_in_order}
use magnus_tcp.Connection.{
  Connection, acking_builder, ack_flags, data_flags, data_segment, build_ack, current_window,
  send_segment, next_segment_to_send, read_received, received_available,
}
use magnus_tcp.Connection.Steps.{answer, silence, set_rcv_nxt}
use magnus_tcp.Connection.Established.{
  take_ack, new_ack, receive, established_ack, established_rest, handle_established,
}
use magnus_tcp.Connection.Handlers.{handle_in, process_segment}
use magnus_tcp.Connection.Exchange.{relay, deliver, deliver-build, sent}
use magnus_tcp.Connection.Congestion.{IsSteady, new_ack-IsSteady}
use magnus_tcp.Connection.Sending.{
  IsSynced, HasSent, allowed, to_send, next_bytes, length-next_bytes, next_segment_to_send-eq,
  send_segment-HasSent,
}
use magnus_tcp.Connection.Acking.{HasTaken, new_ack-HasTaken, bare_ack, established_ack_no_news}
use magnus_tcp.Connection.Receiving.{receive-some, established_data, past_ack}
use magnus_tcp.Connection.Fields.{
  FitsTypes, data_builder, data_builder-IsValid, acking_builder-IsValid, process_segment_in,
}
pub mod Data
pub mod Busy
pub mod Rounds
pub mod Whole
pub mod Lossy
pub mod Damage
pub mod Waits
pub mod Resend
pub mod Rests
pub mod Recovery
pub mod Duplex

-- `a` sends `stream` from its sequence number `irs + 1` on, `b` has given its application `out`, and
-- the two are at rest: all that was sent was received, acknowledged and read, and the send buffer of
-- `a` holds the next bytes of the stream.
pub record InStep {F : Type 0} (irs : ℕ) (stream out : List ℕ) (a b : Connection F) : Type 0 where
  pub rb : RecvBuffer
  pub holds : b.recv_buf ≡ some rb
  pub tracks : Tracks irs stream out rb
  pub in_order : rb.ooo ≡ []
  pub drained : rb.len ≡ 0
  pub expects : b.tcb.rcv.nxt ≡ rb.nxt
  pub a_state : a.tcb.state ≡ established
  pub b_state : b.tcb.state ≡ established
  pub synced : IsSynced a
  pub idle : inflight a.send_buf ≡ 0
  pub next : a.send_buf.nxt ≡ rb.nxt
  pub queued : contents a.send_buf ≡ take a.send_buf.len (drop (length out) stream)
  pub inside : length out + a.send_buf.len ≤ length stream
  pub window : 0 < a.tcb.snd.wnd
  pub steady : IsSteady a.tcb
  pub b_acked : b.tcb.snd.una ≡ b.tcb.snd.nxt
  pub a_expects : a.tcb.rcv.nxt ≡ b.tcb.snd.nxt
  pub fields_a : FitsTypes a
  pub fields_b : FitsTypes b

-- What a round leaves: the two connections, what is sent in answer to the acknowledgement, and what the
-- application was given.
pub record Round (F : Type 0) : Type 0 where
  pub sender : Connection F
  pub receiver : Connection F
  pub replies : Option (List ℕ)
  pub delivered : List ℕ

-- `a` sends a segment, if it may, `b` takes it and answers, `a` takes the answer, and the application
-- reads all that `b` has.
unfoldable pub round : {F : Type 0} → F64 F → ℕ → (a b : Connection F) → Round F
round f now a b =
    let (a1, m1) = next_segment_to_send a mss now in
    let (b1, m2) = relay f b m1 a.tcb.local_ip a.tcb.remote_ip now in
    let (a2, m3) = relay f a1 m2 b.tcb.local_ip b.tcb.remote_ip now in
    let (b2, got) = read_received b1 (received_available b1) in
    record { sender = a2; receiver = b2; replies = m3; delivered = got }
