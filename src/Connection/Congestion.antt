-- ===== src/Connection/Congestion.antt =====
-- The congestion window of magnum-tcp/src/tcp/connection.rs: its bounds, and how it moves.
use magnus_tcp.Base.{ℕ, ◌*◌, ◌≤◌, ◌<◌, arith, IsU32, wrapping_sub, List, [], ◌∷◌}
use magnus_tcp.Float.{F64}
use magnus_tcp.Tcb.{Tcb, TcbState}
use magnus_tcp.Header.{TcpSegment}
use magnus_tcp.Retransmit.{mss}
use magnus_tcp.Connection.{
  Connection, write_data, send_segment, next_segment_to_send, read_received, take_retransmits,
  send_fin, initiate_close, tick_time_wait, connect, send_probe, zero_window_probe,
}
use magnus_tcp.Connection.Opening.{handle_listen, handle_syn_sent, handle_syn_received}
use magnus_tcp.Connection.Established.{
  grown_cwnd, take_ack, new_ack, dup_ack, established_ack, receive, established_rest,
  handle_established,
}
use magnus_tcp.Connection.Closing.{
  handle_close_wait, handle_fin_wait_1, handle_fin_wait_2, handle_closing, handle_last_ack,
  handle_time_wait,
}
use magnus_tcp.Connection.Handlers.{handle_in, process_segment}
use magnus_tcp.Connection.Run.{Request, write, Event, arrive, ask, serve, step, run}

-- The window never falls below one segment, so no division by it fails; the threshold never falls
-- below two; and each fits its type.
pub record IsSteady (t : Tcb) : Type 0 where
  pub cwnd_min : mss ≤ t.cwnd
  pub cwnd_u32 : IsU32 t.cwnd
  pub ssthresh_min : 2 * mss ≤ t.ssthresh
  pub ssthresh_u32 : IsU32 t.ssthresh
  pub dup_u8 : t.dup_ack_count < 256

grown_cwnd-bounds :
    (cwnd ssthresh bytes_acked : ℕ)
    → IsU32 cwnd
    → (cwnd ≤ grown_cwnd cwnd ssthresh bytes_acked) × IsU32 (grown_cwnd cwnd ssthresh bytes_acked)
unfolding grown_cwnd
grown_cwnd-bounds cwnd ssthresh bytes_acked h = ground arith

module _ {F : Type 0} (c : Connection F) (v : IsSteady c.tcb) where
  pub new_ack-IsSteady :
      (f : F64 F) (seg : TcpSegment) (now : ℕ) → IsSteady (new_ack f c seg now).tcb
  unfolding new_ack
  new_ack-IsSteady f seg now = omega (
    arith,
    v,
    grown_cwnd-bounds c.tcb.cwnd c.tcb.ssthresh (wrapping_sub seg.header.ack_num c.tcb.snd.una)
        v.cwnd_u32,
  )

  dup_ack-IsSteady : IsSteady (dup_ack c).0.tcb
  unfolding dup_ack
  dup_ack-IsSteady = ground arith

  established_ack-IsSteady :
      (f : F64 F) (seg : TcpSegment) (now : ℕ) → IsSteady (established_ack f c seg now).0.tcb
  unfolding established_ack
  established_ack-IsSteady f seg now = ground (arith, new_ack-IsSteady f seg now, dup_ack-IsSteady)

  receive-IsSteady : (seg : TcpSegment) → IsSteady (receive c seg).tcb
  unfolding receive
  receive-IsSteady seg = ground arith

established_rest-IsSteady :
    {F : Type 0} (c : Connection F) (seg : TcpSegment)
    → IsSteady c.tcb
    → IsSteady (established_rest c seg).0.tcb
unfolding established_rest
established_rest-IsSteady c seg v = ground (arith, receive-IsSteady c v seg)

module _ {F : Type 0} (f : F64 F) where
  handle_established-IsSteady :
      (c : Connection F) (seg : TcpSegment) (now : ℕ)
      → IsSteady c.tcb
      → IsSteady (handle_established f c seg now).0.tcb
  unfolding handle_established
  handle_established-IsSteady c seg now v =
      let acked = established_ack-IsSteady c v f seg now in
      ground (arith, acked, established_rest-IsSteady (established_ack f c seg now).0 seg acked)

  handle_in-IsSteady :
      (s : TcbState) (c : Connection F) (seg : TcpSegment) (now : ℕ)
      → IsSteady c.tcb
      → IsSteady (handle_in s f c seg now).0.tcb
  unfolding handle_in handle_listen handle_syn_sent handle_syn_received handle_close_wait
      handle_fin_wait_1 handle_fin_wait_2 handle_closing handle_last_ack handle_time_wait take_ack
  handle_in-IsSteady TcbState.established c seg now v = handle_established-IsSteady c seg now v
  handle_in-IsSteady _ c seg now v = ground arith

  process_segment-IsSteady :
      (c : Connection F) (seg : TcpSegment) (now : ℕ)
      → IsSteady c.tcb
      → IsSteady (process_segment f c seg now).0.tcb
  unfolding process_segment
  process_segment-IsSteady c seg now v = handle_in-IsSteady c.tcb.state c seg now v

serve-IsSteady :
    {F : Type 0} (c : Connection F) (r : Request) → IsSteady c.tcb → IsSteady (serve c r).tcb
unfolding serve write_data next_segment_to_send send_segment read_received take_retransmits
    initiate_close send_fin tick_time_wait connect zero_window_probe send_probe
serve-IsSteady c (write bytes) v = v
serve-IsSteady c _ v = ground arith

step-IsSteady :
    {F : Type 0} (f : F64 F) (c : Connection F) (e : Event)
    → IsSteady c.tcb
    → IsSteady (step f c e).tcb
unfolding step
step-IsSteady f c (arrive seg now) v = process_segment-IsSteady f c seg now v
step-IsSteady f c (ask r) v = serve-IsSteady c r v

-- If a connection's congestion window is one segment or more, its threshold two or more, and both
-- and the count of duplicates fit their types, then no sequence of segments, requests and timer
-- ticks leads out of these bounds.
pub run-IsSteady :
    {F : Type 0} (f : F64 F) (c : Connection F) (events : List Event)
    → IsSteady c.tcb
    → IsSteady (run f c events).tcb
unfolding run
run-IsSteady f c [] v = v
run-IsSteady f c (e ∷ events) v = run-IsSteady f (step f c e) events (step-IsSteady f c e v)
