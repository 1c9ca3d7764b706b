-- ===== src/Task/Deliver.antt =====
-- What the task of magnum-tcp/src/tcp/task.rs hands to the application.
use magnus_tcp.Base.{
  ℕ, suc, zero, ◌<◌, ◌≡◌, refl, sym, ap, ◌∙◌, false, none, some, List, [], ◌∷◌, ◌++◌, append-nil,
  length, arith, Bool-cases, Option-cases, inl, inr, ◌==◌, if◌then◌else◌,
}
use magnus_tcp.Float.{F64}
use magnus_tcp.Tcb.{TcbState}
use magnus_tcp.Header.{TcpSegment}
use magnus_tcp.Retransmit.{mss, is_nil}
use magnus_tcp.RecvBuffer
use magnus_tcp.RecvBuffer.{RecvBuffer}
use magnus_tcp.RecvBuffer.Reassembly.{IsSlice, Tracks}
use magnus_tcp.RecvBuffer.Delivery.{read-Tracks}
use magnus_tcp.Connection.{
  Connection, next_segment_to_send, send_segment, read_received, received_available, tick_time_wait,
}
use magnus_tcp.Connection.Established.{established_ack, handle_established}
use magnus_tcp.Connection.Handlers.{handle_in, process_segment}
use magnus_tcp.Connection.Receiving.{AcknowledgesUpTo, handle_established_data}
use magnus_tcp.Task.{Task, flush, flush_send_buf, forward_received_data, end_turn, take_inbound}
use magnus_tcp.Task.Flush.{flush-none, flush-some}

-- The chunks as one list of bytes.
abbrev pub flat : List (List ℕ) → List ℕ
flat [] = []
flat (x ∷ xs) = x ++ flat xs

pub flat_chunk : (buf : List ℕ) → flat (if is_nil buf then [] else buf ∷ []) ≡ buf
unfolding is_nil
flat_chunk [] = refl
flat_chunk (b ∷ bs) = append-nil (b ∷ bs)

-- The receiving side of two connections is the same.
pub record SameReceiver {F : Type 0} (c c' : Connection F) : Type 0 where
  pub same_buf : c'.recv_buf ≡ c.recv_buf
  pub same_nxt : c'.tcb.rcv.nxt ≡ c.tcb.rcv.nxt

module _ {F : Type 0} where
  next_segment_to_send-SameReceiver :
      (c : Connection F) (now : ℕ) → SameReceiver c (next_segment_to_send c mss now).0
  unfolding next_segment_to_send send_segment
  next_segment_to_send-SameReceiver c now = ground arith

  pub flush-SameReceiver :
      (fuel : ℕ) (c : Connection F) (now : ℕ) → SameReceiver c (flush fuel c now).0
  unfolding flush
  flush-SameReceiver zero c now = record { same_buf = refl; same_nxt = refl }
  flush-SameReceiver (suc fuel) c now =
      let p = next_segment_to_send-SameReceiver c now in
      elim (Option-cases (next_segment_to_send c mss now).1) [
        | inl e ↦ rw (flush-none fuel c now e) p
        | inr (bytes, e) ↦
            let q = flush-SameReceiver fuel (next_segment_to_send c mss now).0 now in
            rw (flush-some fuel c now bytes e)
              (record { same_buf = q.same_buf ∙ p.same_buf; same_nxt = q.same_nxt ∙ p.same_nxt })
      ]

  pub end_turn-SameReceiver :
      (t : Task F) (now : ℕ) (segments app_data : List (List ℕ))
      → SameReceiver t.conn (end_turn t now segments app_data).task.conn
  unfolding end_turn tick_time_wait
  end_turn-SameReceiver t now segments app_data = ground arith

  forward_received_data-eq :
      (c : Connection F) (rb : RecvBuffer)
      → c.recv_buf ≡ some rb
      → let (rb', buf) = RecvBuffer.read rb rb.len in
        forward_received_data c ≡ (
          if rb.len == 0
          then (c, [])
          else (record c { recv_buf = some rb' }, if is_nil buf then [] else buf ∷ []))
  unfolding forward_received_data received_available read_received RecvBuffer.available
  forward_received_data-eq c rb e = ground arith

-- All that is in order was handed out.
pub record HasDelivered {F : Type 0} (irs : ℕ) (stream out : List ℕ) (c : Connection F)
    : Type 0 where
  pub acknowledges : AcknowledgesUpTo irs stream out c
  pub drained : acknowledges.rb.len ≡ 0

pub forward-HasDelivered :
    {F : Type 0} (irs : ℕ) (stream out : List ℕ) (c : Connection F)
    → AcknowledgesUpTo irs stream out c
    → let (c', chunks) = forward_received_data c in HasDelivered irs stream (out ++ flat chunks) c'
unfolding RecvBuffer.read
forward-HasDelivered irs stream out c a = elim (Bool-cases (a.rb.len == 0)) [
  | inl idle ↦
      rw (forward_received_data-eq c a.rb a.holds, idle, append-nil out)
        (record { acknowledges = a; drained = ground arith })
  | inr busy ↦
      let t = read-Tracks irs stream a.rb.len a.tracks in
      rw
        (
          forward_received_data-eq c a.rb a.holds,
          busy,
          flat_chunk (RecvBuffer.read a.rb a.rb.len).1,
        )
        (record {
          acknowledges = record {
            rb = (RecvBuffer.read a.rb a.rb.len).0;
            holds = refl;
            tracks = t;
            next = a.next ∙ sym a.tracks.expects ∙ t.expects;
          };
          drained = omega arith;
        })
]

pub HasDelivered-same :
    {F : Type 0} (irs : ℕ) (stream out : List ℕ) (c c' : Connection F)
    → SameReceiver c c'
    → HasDelivered irs stream out c
    → HasDelivered irs stream out c'
HasDelivered-same irs stream out c c' s a = record {
  acknowledges = record {
    rb = a.acknowledges.rb;
    holds = s.same_buf ∙ a.acknowledges.holds;
    tracks = a.acknowledges.tracks;
    next = s.same_nxt ∙ a.acknowledges.next;
  };
  drained = a.drained;
}

-- Let the receive buffer of an established connection be on a stream of fewer than 2 ^ 31 bytes, of
-- which the application was given `out`. When the task takes a segment of that stream with bytes,
-- with no RST, no FIN and no fast retransmission, it gives the application the bytes of the stream
-- that follow `out`, all that are now in order, keeps none of these back, and is left with
-- `rcv.nxt` as the number of the byte behind them.
pub take_inbound-HasDelivered :
    {F : Type 0} (f : F64 F) (irs : ℕ) (stream out : List ℕ) (t : Task F) (seg : TcpSegment)
    (now : ℕ) (rb : RecvBuffer)
    → length stream < 0x8000_0000
    → t.conn.tcb.state ≡ TcbState.established
    → t.conn.recv_buf ≡ some rb
    → Tracks irs stream out rb
    → IsSlice irs stream seg.header.seq seg.payload
    → seg.header.flags.rst ≡ false
    → seg.header.flags.fin ≡ false
    → is_nil seg.payload ≡ false
    → (established_ack f t.conn seg now).1 ≡ none
    → let r = take_inbound f t now seg in
      HasDelivered irs stream (out ++ flat r.app_data) r.task.conn
unfolding take_inbound flush_send_buf end_turn
take_inbound-HasDelivered {F} f irs stream out t seg now rb short in_state e on s rst fin full
      early =
    HasDelivered-same irs stream _ c3 _ (end_turn-SameReceiver (record t { conn = c3 }) now [] []) (
      HasDelivered-same irs stream _ c2 c3 (flush-SameReceiver _ c2 now)
        (forward-HasDelivered irs stream out c1 acked))
  where
    c1 : Connection F
    c1 = (process_segment f t.conn seg now).0

    c2 : Connection F
    c2 = (forward_received_data c1).0

    c3 : Connection F
    c3 = (flush_send_buf c2 now).0

    handled : c1 ≡ (handle_established f t.conn seg now).0
    handled =
        unfold process_segment handle_in in ap (λ s. (handle_in s f t.conn seg now).0) in_state

    acked : AcknowledgesUpTo irs stream out c1
    acked =
        rw handled
          (handle_established_data f irs stream out t.conn seg now rb short e on s rst fin full
            early).0
