-- ===== src/Task/Unmoved.antt =====
-- What the calls of a turn of magnum-tcp/src/tcp/task.rs leave of the receiving side and of the state.
use magnus_tcp.Base.{
  ℕ, suc, zero, ◌≡◌, refl, ap, ◌∙◌, true, false, some, List, arith, Option-cases, inl, inr,
}
use magnus_tcp.Float.{F64}
use magnus_tcp.Header.{TcpSegment}
use magnus_tcp.Retransmit.{mss, is_nil}
use magnus_tcp.Connection.{
  Connection, next_segment_to_send, send_segment, write_data, take_retransmits, zero_window_probe,
  send_probe, read_received,
}
use magnus_tcp.Connection.Established.{
  new_ack, dup_ack, receive, established_ack, established_rest, handle_established,
}
use magnus_tcp.Connection.Receiving.{AcknowledgesUpTo, past_ack}
use magnus_tcp.Task.{flush, flush_send_buf, forward_received_data}
use magnus_tcp.Task.Flush.{flush-none, flush-some}
use magnus_tcp.Task.Deliver.{SameReceiver, flush-SameReceiver}

-- The receiving side and the state of `c'` are those of `c`.
pub record Unmoved {F : Type 0} (c c' : Connection F) : Type 0 where
  pub receiver : SameReceiver c c'
  pub state_same : c'.tcb.state ≡ c.tcb.state

module _ {F : Type 0} where
  pub sent_state :
      (c : Connection F) (now : ℕ) → (next_segment_to_send c mss now).0.tcb.state ≡ c.tcb.state
  unfolding next_segment_to_send send_segment
  sent_state c now = ground arith

  pub flush-state :
      (fuel : ℕ) (c : Connection F) (now : ℕ) → (flush fuel c now).0.tcb.state ≡ c.tcb.state
  unfolding flush
  flush-state zero c now = refl
  flush-state (suc fuel) c now = elim (Option-cases (next_segment_to_send c mss now).1) [
    | inl e ↦ rw (flush-none fuel c now e) (sent_state c now)
    | inr (bytes, e) ↦
        rw (flush-some fuel c now bytes e)
          (flush-state fuel (next_segment_to_send c mss now).0 now ∙ sent_state c now)
  ]

  pub flush_send_buf-Unmoved : (c : Connection F) (now : ℕ) → Unmoved c (flush_send_buf c now).0
  unfolding flush_send_buf
  flush_send_buf-Unmoved c now = record {
    receiver = flush-SameReceiver _ c now;
    state_same = flush-state _ c now;
  }

  pub write_data-Unmoved :
      (c : Connection F) (written : List ℕ) → Unmoved c (write_data c written).0
  unfolding write_data
  write_data-Unmoved c written = record {
    receiver = record { same_buf = refl; same_nxt = refl };
    state_same = refl;
  }

  pub take_retransmits-Unmoved : (c : Connection F) (now : ℕ) → Unmoved c (take_retransmits c now).0
  unfolding take_retransmits
  take_retransmits-Unmoved c now = ground arith

  pub zero_window_probe-Unmoved : (c : Connection F) → Unmoved c (zero_window_probe c).0
  unfolding zero_window_probe send_probe
  zero_window_probe-Unmoved c = ground arith

  pub established_ack-Unmoved :
      (f : F64 F) (c : Connection F) (seg : TcpSegment) (now : ℕ)
      → Unmoved c (established_ack f c seg now).0
  unfolding established_ack new_ack dup_ack
  established_ack-Unmoved f c seg now = ground arith

  pub Unmoved-trans : {a b c : Connection F} → Unmoved a b → Unmoved b c → Unmoved a c
  Unmoved-trans u v = record {
    receiver = record {
      same_buf = v.receiver.same_buf ∙ u.receiver.same_buf;
      same_nxt = v.receiver.same_nxt ∙ u.receiver.same_nxt;
    };
    state_same = v.state_same ∙ u.state_same;
  }

  pub forward_state : (c : Connection F) → (forward_received_data c).0.tcb.state ≡ c.tcb.state
  unfolding forward_received_data read_received
  forward_state c = ground arith

  pub AcknowledgesUpTo-same :
      (irs : ℕ) (stream out : List ℕ) (c c' : Connection F)
      → SameReceiver c c'
      → AcknowledgesUpTo irs stream out c
      → AcknowledgesUpTo irs stream out c'
  AcknowledgesUpTo-same irs stream out c c' s a = record {
    rb = a.rb;
    holds = s.same_buf ∙ a.holds;
    tracks = a.tracks;
    next = s.same_nxt ∙ a.next;
  }

  -- A fast retransmission ends the handling of a segment.
  pub resends_early :
      (f : F64 F) (c : Connection F) (seg : TcpSegment) (now : ℕ) (early : List ℕ)
      → seg.header.flags.rst ≡ false
      → (established_ack f c seg now).1 ≡ some early
      → (handle_established f c seg now).0 ≡ (established_ack f c seg now).0
  unfolding handle_established
  resends_early f c seg now early rst e = ground arith

  pub rest_bare :
      (c : Connection F) (seg : TcpSegment)
      → seg.header.flags.fin ≡ false
      → is_nil seg.payload ≡ true
      → (established_rest c seg).0 ≡ c
  unfolding established_rest
  rest_bare c seg fin empty = rw (empty, fin)

  pub handled_state :
      (f : F64 F) (c : Connection F) (seg : TcpSegment) (now : ℕ)
      → seg.header.flags.rst ≡ false
      → seg.header.flags.fin ≡ false
      → (handle_established f c seg now).0.tcb.state ≡ c.tcb.state
  unfolding handle_established established_ack new_ack dup_ack established_rest receive
  handled_state f c seg now rst fin = ground arith

  pub handled_bare :
      (f : F64 F) (c : Connection F) (seg : TcpSegment) (now : ℕ)
      → seg.header.flags.rst ≡ false
      → seg.header.flags.fin ≡ false
      → is_nil seg.payload ≡ true
      → (handle_established f c seg now).0 ≡ (established_ack f c seg now).0
  handled_bare f c seg now rst fin empty = elim (Option-cases (established_ack f c seg now).1) [
    | inl none_early ↦
        ap (λ r. r.0) (past_ack f c seg now rst none_early)
        ∙ rest_bare (established_ack f c seg now).0 seg fin empty
    | inr (early, e) ↦ resends_early f c seg now early rst e
  ]
