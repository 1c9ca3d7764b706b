-- ===== src/Task/Session.antt =====
-- What the task of magnum-tcp/src/tcp/task.rs hands to the application over many turns.
use magnus_tcp.Base.{
  ℕ, ◌+◌, ◌%◌, u32_mod, ◌<◌, ◌≡◌, refl, sym, ap, ◌∙◌, true, false, some, List, [], ◌∷◌, ◌++◌,
  append-nil, append_assoc, length, take, All, arith, Option-cases, inl, inr,
}
use magnus_tcp.Float.{F64}
use magnus_tcp.Tcb.{established}
use magnus_tcp.Header.{TcpSegment}
use magnus_tcp.Retransmit.{is_nil}
use magnus_tcp.RecvBuffer.Delivery.{drained_prefix}
use magnus_tcp.RecvBuffer.Reassembly.{IsSlice}
use magnus_tcp.Connection.{Connection, write_data, tick_time_wait}
use magnus_tcp.Connection.Established.{established_ack, handle_established}
use magnus_tcp.Connection.Handlers.{handle_in, process_segment}
use magnus_tcp.Connection.Fields.{process_segment_in}
use magnus_tcp.Connection.Receiving.{
  AcknowledgesUpTo, receive_slice, established_data, past_ack, recv_buf-established_ack,
}
use magnus_tcp.Connection.Exchange.{sent}
use magnus_tcp.Task.{
  to_list, Task, TaskEvent, inbound, flush_send_buf, forward_received_data, end_turn, take_inbound,
  turn,
}
use magnus_tcp.Task.Deliver.{
  flat, HasDelivered, forward-HasDelivered, HasDelivered-same, end_turn-SameReceiver,
}
use magnus_tcp.Task.Unmoved.{
  Unmoved, flush_send_buf-Unmoved, write_data-Unmoved, take_retransmits-Unmoved,
  zero_window_probe-Unmoved, established_ack-Unmoved, Unmoved-trans, forward_state,
  AcknowledgesUpTo-same, resends_early, handled_state, handled_bare,
}

-- What reaches an established task before the peer ends its stream: segments with bytes of the stream
-- or with none, ticks and bytes of the application.
pub data OfStream (irs : ℕ) (stream : List ℕ) : TaskEvent → Type 0 where
  carries :
      {seg : TcpSegment}
      → IsSlice irs stream seg.header.seq seg.payload
      → seg.header.flags.rst ≡ false
      → seg.header.flags.fin ≡ false
      → is_nil seg.payload ≡ false
      → OfStream irs stream (inbound (some seg))
  bare :
      {seg : TcpSegment}
      → seg.header.flags.rst ≡ false
      → seg.header.flags.fin ≡ false
      → is_nil seg.payload ≡ true
      → OfStream irs stream (inbound (some seg))
  retransmits : OfStream irs stream TaskEvent.retransmit_tick
  probes : OfStream irs stream TaskEvent.zwp_tick
  writes : {written : List ℕ} → OfStream irs stream (TaskEvent.app_send written)

-- An established connection whose application was given `out`, all that is in order.
pub record Receives {F : Type 0} (irs : ℕ) (stream out : List ℕ) (c : Connection F) : Type 0 where
  pub delivered : HasDelivered irs stream out c
  pub state_is : c.tcb.state ≡ established

module _ {F : Type 0} where
  -- The end of a turn, once the connection is `c`.
  end_turn-Receives :
      (irs : ℕ) (stream out : List ℕ) (t : Task F) (now : ℕ) (segments chunks : List (List ℕ))
      → Receives irs stream out t.conn
      → Receives irs stream out (end_turn t now segments chunks).task.conn
  unfolding end_turn tick_time_wait
  end_turn-Receives irs stream out t now segments chunks r = record {
    delivered =
        HasDelivered-same irs stream out t.conn _
          (unfold tick_time_wait in end_turn-SameReceiver t now segments chunks) r.delivered;
    state_is = ground (arith, r.state_is);
  }

  Receives-Unmoved :
      (irs : ℕ) (stream out : List ℕ) (c c' : Connection F)
      → Unmoved c c'
      → Receives irs stream out c
      → Receives irs stream out c'
  Receives-Unmoved irs stream out c c' u r = record {
    delivered = HasDelivered-same irs stream out c c' u.receiver r.delivered;
    state_is = u.state_same ∙ r.state_is;
  }

  -- A turn that makes one call which does not touch the receiving side.
  call-Receives :
      (irs : ℕ) (stream out : List ℕ) (t : Task F) (now : ℕ) (c : Connection F)
      (segments : List (List ℕ))
      → Unmoved t.conn c
      → Receives irs stream out t.conn
      → Receives irs stream (out ++ []) (end_turn (record t { conn = c }) now segments []).task.conn
  call-Receives irs stream out t now c segments u r = rw (append-nil out) (
      end_turn-Receives irs stream out (record t { conn = c }) now segments []
        (Receives-Unmoved irs stream out t.conn c u r))

  module _ (f : F64 F) (irs : ℕ) (stream : List ℕ) (short : length stream < 0x8000_0000) where
    -- What a segment of the stream leaves of the receiving side.
    handled_bytes :
        (out : List ℕ) (c : Connection F) (seg : TcpSegment) (now : ℕ)
        → AcknowledgesUpTo irs stream out c
        → IsSlice irs stream seg.header.seq seg.payload
        → seg.header.flags.rst ≡ false
        → seg.header.flags.fin ≡ false
        → is_nil seg.payload ≡ false
        → AcknowledgesUpTo irs stream out (handle_established f c seg now).0
    handled_bytes out c seg now a s rst fin full =
        elim (Option-cases (established_ack f c seg now).1) [
          | inl none_early ↦
              rw (past_ack f c seg now rst none_early, established_data _ seg fin full)
                (receive_slice irs stream out (established_ack f c seg now).0 seg a.rb short
                  (recv_buf-established_ack f c seg now ∙ a.holds) a.tracks s)
          | inr (early, e) ↦ rw (resends_early f c seg now early rst e) (
              AcknowledgesUpTo-same irs stream out c _
                (established_ack-Unmoved f c seg now).receiver a)
        ]

    take_inbound-Receives :
        (out : List ℕ) (t : Task F) (seg : TcpSegment) (now : ℕ)
        → t.conn.tcb.state ≡ established
        → AcknowledgesUpTo irs stream out (handle_established f t.conn seg now).0
        → seg.header.flags.rst ≡ false
        → seg.header.flags.fin ≡ false
        → let r = take_inbound f t now seg in
          Receives irs stream (out ++ flat r.app_data) r.task.conn
    unfolding take_inbound end_turn handle_in
    take_inbound-Receives out t seg now state_is acked rst fin =
        let c1 : Connection F = (process_segment f t.conn seg now).0 in
        let handled : c1 ≡ (handle_established f t.conn seg now).0 =
          ap (λ r. r.0) (process_segment_in f t.conn seg now established state_is) in
        let (c2, chunks) = forward_received_data c1 in
        let (c3, segments) = flush_send_buf c2 now in
        let state1 : c1.tcb.state ≡ established =
          ap (λ c. c.tcb.state) handled ∙ handled_state f t.conn seg now rst fin ∙ state_is in
        end_turn-Receives irs stream (out ++ flat chunks) (record t { conn = c3 }) now
          (to_list (sent (process_segment f t.conn seg now).1) ++ segments) chunks
          (Receives-Unmoved irs stream (out ++ flat chunks) c2 c3 (flush_send_buf-Unmoved c2 now)
            (record {
              delivered = forward-HasDelivered irs stream out c1 (rw handled acked);
              state_is = forward_state c1 ∙ state1;
            }))

    turn-Receives :
        (out : List ℕ) (t : Task F) (now : ℕ) (e : TaskEvent)
        → OfStream irs stream e
        → Receives irs stream out t.conn
        → let r = turn f t now e in Receives irs stream (out ++ flat r.app_data) r.task.conn
    unfolding turn end_turn
    turn-Receives out t now e (carries {seg = seg} s rst fin full) r =
        take_inbound-Receives out t seg now r.state_is
          (handled_bytes out t.conn seg now r.delivered.acknowledges s rst fin full) rst fin
    turn-Receives out t now e (bare {seg = seg} rst fin empty) r =
        take_inbound-Receives out t seg now r.state_is
          (rw (handled_bare f t.conn seg now rst fin empty) (
            AcknowledgesUpTo-same irs stream out t.conn _
              (established_ack-Unmoved f t.conn seg now).receiver r.delivered.acknowledges))
          rst fin
    turn-Receives out t now e retransmits r =
        call-Receives irs stream out t now _ [] (take_retransmits-Unmoved t.conn now) r
    turn-Receives out t now e probes r =
        call-Receives irs stream out t now _ [] (zero_window_probe-Unmoved t.conn) r
    turn-Receives out t now e (writes {written = written}) r =
        call-Receives irs stream out t now _ []
          (Unmoved-trans (write_data-Unmoved t.conn written)
            (flush_send_buf-Unmoved (write_data t.conn written).0 now))
          r

-- The turns of a task, each at its instant: the task at the end, and all that it gave the application.
unfoldable pub run_turns :
    {F : Type 0} → F64 F → Task F → List (ℕ × TaskEvent) → Task F × List (List ℕ)
run_turns f t [] = (t, [])
run_turns f t ((now, e) ∷ events) =
    let r = turn f t now e in
    let (t', chunks) = run_turns f r.task events in (t', r.app_data ++ chunks)

flat-append : (xs ys : List (List ℕ)) → flat (xs ++ ys) ≡ flat xs ++ flat ys
flat-append [] ys = refl
flat-append (x ∷ xs) ys =
    ap (λ r. x ++ r) (flat-append xs ys) ∙ sym (append_assoc x (flat xs) (flat ys))

run_turns-Receives :
    {F : Type 0} (f : F64 F) (irs : ℕ) (stream out : List ℕ)
    → length stream < 0x8000_0000
    → (t : Task F) (events : List (ℕ × TaskEvent)) → All (λ e. OfStream irs stream e.1) events
    → Receives irs stream out t.conn
    → let (t', chunks) = run_turns f t events in Receives irs stream (out ++ flat chunks) t'.conn
unfolding run_turns
run_turns-Receives f irs stream out short t [] v r = rw (append-nil out) r
run_turns-Receives f irs stream out short t ((now, e) ∷ events) (v, vs) r =
    let first = turn f t now e in
    let (t', chunks) = run_turns f first.task events in
    let whole : (out ++ flat first.app_data) ++ flat chunks
        ≡ out ++ flat (first.app_data ++ chunks) =
      append_assoc out (flat first.app_data) (flat chunks)
      ∙ ap (λ l. out ++ l) (sym (flat-append first.app_data chunks)) in
    rw (sym whole) (
      run_turns-Receives f irs stream (out ++ flat first.app_data) short first.task events vs
        (turn-Receives f irs stream short out t now e v r))

-- Let an established task have given its application `out`, all of a stream of fewer than 2 ^ 31 bytes
-- that is in order. However segments of that stream, with no RST and no FIN, in any order, repeated and
-- overlapping, segments without bytes, timer ticks and bytes of the application follow each other, what
-- the application has been given in the end is just the stream up to a place, nothing in order is kept
-- back, and the connection is established and expects the number of the byte at that place.
pub session-prefix :
    {F : Type 0} (f : F64 F) (irs : ℕ) (stream out : List ℕ) (t : Task F)
    (events : List (ℕ × TaskEvent))
    → length stream < 0x8000_0000
    → All (λ e. OfStream irs stream e.1) events
    → Receives irs stream out t.conn
    → let (t', chunks) = run_turns f t events in
      let all = out ++ flat chunks in
      (all ≡ take (length all) stream)
      × (t'.conn.tcb.rcv.nxt ≡ (irs + 1 + length all) % u32_mod)
      × Receives irs stream all t'.conn
session-prefix f irs stream out t events short v r =
    let w = run_turns-Receives f irs stream out short t events v r in
    let a = w.delivered.acknowledges in
    (
      drained_prefix irs stream a.tracks w.delivered.drained,
      omega (arith, a.next, w.delivered.drained),
      w,
    )
