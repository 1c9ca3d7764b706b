-- ===== src/Connection/Syncing.antt =====
-- Along the runs of a connection of magnum-tcp/src/tcp/connection.rs that is open for data, the control
-- block and the send buffer go on agreeing.
use magnus_tcp.Base.{
  ℕ, ◌<◌, ◌≡◌, refl, ◌∙◌, ap, true, false, Bool, some, List, [], ◌∷◌, arith, IsU32, inl, inr, All,
  Option-cases,
}
use magnus_tcp.Float.{F64}
use magnus_tcp.Tcb.{TcbState, established, close_wait, closed}
use magnus_tcp.Header.{TcpSegment}
use magnus_tcp.SendBuffer
use magnus_tcp.SendBuffer.{SendBuffer}
use magnus_tcp.SendBuffer.Stream.{inflight, advance_nxt_lem}
use magnus_tcp.Connection.{
  Connection, write_data, next_segment_to_send, send_segment, read_received, take_retransmits,
  tick_time_wait, zero_window_probe, send_probe,
}
use magnus_tcp.Connection.Established.{
  established_ack, new_ack, take_ack, dup_ack, established_rest, receive, handle_established,
}
use magnus_tcp.Connection.Closing.{handle_close_wait}
use magnus_tcp.Connection.Handlers.{handle_in, process_segment}
use magnus_tcp.Connection.Run.{Request, Event, arrive, ask, serve, step, run}
use magnus_tcp.Connection.Sending.{IsSynced, flow_control, write_data-IsSynced}
use magnus_tcp.Connection.Acking.{handle_established-IsSynced}

-- Open for data, or done after that: the states of an open connection whose own side never closes.
abbrev pub not_closing : TcbState → Bool
not_closing established = true
not_closing close_wait = true
not_closing closed = true
not_closing _ = false

-- What a side that does not close takes and asks for: every request but a close and an active
-- opening, and segments whose acknowledgement number is a `u32`.
pub data Ordinary : Event → Type 0 where
  arrives : {seg : TcpSegment} {now : ℕ} → IsU32 seg.header.ack_num → Ordinary (arrive seg now)
  writes : {bytes : List ℕ} → Ordinary (ask (Request.write bytes))
  sends : {max_payload now : ℕ} → Ordinary (ask (Request.send_next max_payload now))
  reads : {size : ℕ} → Ordinary (ask (Request.read size))
  retransmits : {now : ℕ} → Ordinary (ask (Request.retransmit now))
  ticks : {now : ℕ} → Ordinary (ask (Request.tick now))
  probes : Ordinary (ask Request.probe)

-- The control block and the send buffer agree, in one of those states.
pub record IsOpenForData {F : Type 0} (c : Connection F) : Type 0 where
  pub synced : IsSynced c
  pub open_state : not_closing c.tcb.state ≡ true

some-next_segment :
    (sb : SendBuffer) (max_len : ℕ) (segment : ℕ × List ℕ)
    → SendBuffer.next_segment sb max_len ≡ some segment
    → inflight sb < sb.len
unfolding SendBuffer.next_segment
some-next_segment sb max_len segment e = ground arith

module _ {F : Type 0} where
  state-handle_established :
      (f : F64 F) (c : Connection F) (seg : TcpSegment) (now : ℕ)
      → not_closing c.tcb.state ≡ true
      → not_closing (handle_established f c seg now).0.tcb.state ≡ true
  unfolding handle_established established_ack new_ack take_ack dup_ack established_rest receive
  state-handle_established f c seg now h = ground arith

  handle_in-IsOpenForData :
      (s : TcbState) (f : F64 F) (c : Connection F) (seg : TcpSegment) (now : ℕ)
      → c.tcb.state ≡ s
      → IsU32 seg.header.ack_num
      → IsOpenForData c
      → IsOpenForData (handle_in s f c seg now).0
  unfolding handle_in handle_close_wait
  handle_in-IsOpenForData established f c seg now e u o = record {
    synced = handle_established-IsSynced f c seg now o.synced u;
    open_state = state-handle_established f c seg now o.open_state;
  }
  handle_in-IsOpenForData close_wait f c seg now e u o = ground (arith, o)
  handle_in-IsOpenForData closed f c seg now e u o = o
  handle_in-IsOpenForData _ f c seg now e u o = absurd (ground (arith, o.open_state))

  next_segment_to_send-IsSynced :
      (c : Connection F) (max_payload now : ℕ)
      → IsSynced c
      → IsSynced (next_segment_to_send c max_payload now).0
  next_segment_to_send-IsSynced c max_payload now s = elim (flow_control c max_payload now s) [
    | inl (idle, same, silent) ↦ rw same s
    | inr (bytes, sent, e) ↦ sent.synced
  ]

  state-next_segment_to_send :
      (c : Connection F) (max_payload now : ℕ)
      → (next_segment_to_send c max_payload now).0.tcb.state ≡ c.tcb.state
  unfolding next_segment_to_send send_segment
  state-next_segment_to_send c max_payload now = ground arith

  send_probe-IsSynced :
      (c : Connection F) (segment : ℕ × List ℕ)
      → IsSynced c
      → inflight c.send_buf < c.send_buf.len
      → IsSynced (send_probe c segment).0
  unfolding send_probe
  send_probe-IsSynced c segment s h =
      let (kept, more, valid) = advance_nxt_lem {sb = c.send_buf} 1 s.valid (omega arith) in
      record {
        valid = valid;
        una_same = unfold SendBuffer.advance_nxt in s.una_same;
        nxt_same = refl;
      }

  zero_window_probe-IsSynced : (c : Connection F) → IsSynced c → IsSynced (zero_window_probe c).0
  unfolding zero_window_probe
  zero_window_probe-IsSynced c s = elim (Option-cases (SendBuffer.next_segment c.send_buf 1)) [
    | inl e ↦ ground (arith, s)
    | inr (segment, e) ↦
        let p = send_probe-IsSynced c segment s (some-next_segment c.send_buf 1 segment e) in
        ground (arith, s, p)
  ]

  take_retransmits-IsSynced :
      (c : Connection F) (now : ℕ) → IsSynced c → IsSynced (take_retransmits c now).0
  unfolding take_retransmits
  take_retransmits-IsSynced c now s = ground (arith, s)

  read_received-IsSynced :
      (c : Connection F) (size : ℕ) → IsSynced c → IsSynced (read_received c size).0
  unfolding read_received
  read_received-IsSynced c size s = ground (arith, s)

  pub step-IsOpenForData :
      (f : F64 F) (c : Connection F) (e : Event)
      → Ordinary e
      → IsOpenForData c
      → IsOpenForData (step f c e)
  unfolding step serve process_segment
  step-IsOpenForData f c e (arrives {seg = seg} {now = now} u) o =
      handle_in-IsOpenForData c.tcb.state f c seg now refl u o
  step-IsOpenForData f c e (writes {bytes = bytes}) o = record {
    synced = write_data-IsSynced c o.synced bytes;
    open_state = unfold write_data in o.open_state;
  }
  step-IsOpenForData f c e (sends {max_payload = max_payload} {now = now}) o = record {
    synced = next_segment_to_send-IsSynced c max_payload now o.synced;
    open_state = ap not_closing (state-next_segment_to_send c max_payload now) ∙ o.open_state;
  }
  step-IsOpenForData f c e (reads {size = size}) o = record {
    synced = read_received-IsSynced c size o.synced;
    open_state = unfold read_received in ground (arith, o.open_state);
  }
  step-IsOpenForData f c e (retransmits {now = now}) o = record {
    synced = take_retransmits-IsSynced c now o.synced;
    open_state = unfold take_retransmits in ground (arith, o.open_state);
  }
  step-IsOpenForData f c e (ticks {now = now}) o = unfold tick_time_wait in ground (arith, o)
  step-IsOpenForData f c e probes o = record {
    synced = zero_window_probe-IsSynced c o.synced;
    open_state = unfold zero_window_probe send_probe in ground (arith, o.open_state);
  }

-- From a connection that is open for data and whose control block and send buffer agree, every
-- sequence of segments with acknowledgement numbers of 32 bits, of writes, reads and sendings, of timer
-- ticks and probes, but of no close and no active opening, leads to one that is open or closed and whose
-- control block and send buffer agree.
pub run-IsOpenForData :
    {F : Type 0} (f : F64 F) (c : Connection F) (events : List Event)
    → All Ordinary events
    → IsOpenForData c
    → IsOpenForData (run f c events)
unfolding run
run-IsOpenForData f c [] a o = o
run-IsOpenForData f c (e ∷ events) (q, a) o =
    run-IsOpenForData f (step f c e) events a (step-IsOpenForData f c e q o)
