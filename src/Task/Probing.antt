-- ===== src/Task/Probing.antt =====
-- What the timers of magnum-tcp/src/tcp/task.rs do for the bytes of zero-window probes.
use magnus_tcp.Base.{
  ℕ, ◌+◌, ◌≤◌, ◌≡◌, refl, ap, ◌∙◌, sym, none, some, true, List, [], ◌∷◌, All, map, arith, length,
  length-append, Option-cases, Bool-cases, ◌⊎◌, inl, inr, ◌==◌,
}
use mathlib.Core.Path.{subst}
use magnus_tcp.Float.{F64}
use magnus_tcp.Tcb.{TcbState}
use magnus_tcp.SendBuffer
use magnus_tcp.SendBuffer.{SendBuffer}
use magnus_tcp.SendBuffer.Stream.{contents, inflight, advance_nxt_lem}
use magnus_tcp.Connection.{Connection, zero_window_probe, send_probe, tick_time_wait}
use magnus_tcp.Connection.Sending.{IsSynced}
use magnus_tcp.Task.{
  Task, TaskEvent, outbound_msg, Turn, to_list, turn, end_turn, end_call, zwp_tick,
}
use magnus_tcp.Task.Unanswered.{IsTimer, retransmits, probes, sent_in_turns, idle_turn, none_again}

-- The connection is established, its two sides agree, and nothing waits to be sent again.
pub record NothingQueued {F : Type 0} (c : Connection F) : Type 0 where
  pub synced : IsSynced c
  pub in_established : c.tcb.state ≡ TcbState.established
  pub none_queued : c.retransmit_queue.entries ≡ []

-- A byte went from `c` to `c'` into a probe.
record HasProbed {F : Type 0} (c c' : Connection F) : Type 0 where
  pub kept : NothingQueued c'
  pub one_more : inflight c'.send_buf ≡ inflight c.send_buf + 1
  pub same : contents c'.send_buf ≡ contents c.send_buf
  pub same_len : c'.send_buf.len ≡ c.send_buf.len

has_unsent :
    (sb : SendBuffer) (segment : ℕ × List ℕ)
    → SendBuffer.next_segment sb 1 ≡ some segment
    → inflight sb + 1 ≤ sb.len
unfolding SendBuffer.next_segment
has_unsent sb segment h = ground arith

module _ {F : Type 0} where
  send_probe-HasProbed :
      (c : Connection F) (seq : ℕ) (payload : List ℕ)
      → NothingQueued c
      → inflight c.send_buf + 1 ≤ c.send_buf.len
      → HasProbed c (send_probe c (seq, payload)).0
  unfolding send_probe SendBuffer.advance_nxt
  send_probe-HasProbed c seq payload v h =
      let (same, more, valid) = advance_nxt_lem 1 v.synced.valid h in
      record {
        kept = record {
          synced = record { valid = valid; una_same = v.synced.una_same; nxt_same = refl };
          in_established = v.in_established;
          none_queued = v.none_queued;
        };
        one_more = more;
        same = same;
        same_len = refl;
      }

  probed :
      (c : Connection F) (seq : ℕ) (payload : List ℕ)
      → HasProbed c (send_probe c (seq, payload)).0
      → (segment : List ℕ) × ((send_probe c (seq, payload)).1 ≡ some segment)
        × HasProbed c (send_probe c (seq, payload)).0
  unfolding send_probe
  probed c seq payload h = (_, refl, h)

  probe_shut :
      (c : Connection F) (segment : ℕ × List ℕ)
      → c.tcb.state ≡ TcbState.established
      → (c.tcb.snd.wnd == 0) ≡ true
      → SendBuffer.next_segment c.send_buf 1 ≡ some segment
      → zero_window_probe c ≡ send_probe c segment
  unfolding zero_window_probe
  probe_shut c segment state shut e = ground arith

  -- No segment: nothing happens. A segment: its byte was not sent before.
  probe_cases :
      (c : Connection F)
      → NothingQueued c
      → (zero_window_probe c ≡ (c, none))
        ⊎ ((segment : List ℕ) × ((zero_window_probe c).1 ≡ some segment)
            × HasProbed c (zero_window_probe c).0)
  unfolding zero_window_probe
  probe_cases c v = elim (Option-cases (SendBuffer.next_segment c.send_buf 1)) [
    | inl e ↦ inl (ground arith)
    | inr ((seq, payload), e) ↦ elim (Bool-cases (c.tcb.snd.wnd == 0)) [
      | inl shut ↦ rw (probe_shut c (seq, payload) v.in_established shut e) (
          inr (
            probed c seq payload
              (send_probe-HasProbed c seq payload v (has_unsent c.send_buf (seq, payload) e))))
      | inr more ↦ inl (ground arith)
    ]
  ]

  not_over :
      (c : Connection F) (now : ℕ)
      → c.tcb.state ≡ TcbState.established
      → (tick_time_wait c now).0 ≡ c
  unfolding tick_time_wait
  not_over c now h = ground arith

  quiet_retransmit :
      (f : F64 F) (t : Task F) (now : ℕ)
      → NothingQueued t.conn
      → turn f t now TaskEvent.retransmit_tick ≡ idle_turn t
  unfolding turn end_turn tick_time_wait
  quiet_retransmit f t now v =
      ap (end_call t now) (none_again t now v.none_queued) ∙ rw v.in_established refl

  idle_probe :
      (f : F64 F) (t : Task F) (now : ℕ)
      → NothingQueued t.conn
      → zero_window_probe t.conn ≡ (t.conn, none)
      → turn f t now zwp_tick ≡ idle_turn t
  unfolding turn end_turn tick_time_wait
  idle_probe f t now v e = ap (λ p. end_call t now (p.0, to_list p.1)) e ∙ rw v.in_established refl

  sent_probe :
      (f : F64 F) (t : Task F) (now : ℕ) (segment : List ℕ)
      → (zero_window_probe t.conn).1 ≡ some segment
      → (zero_window_probe t.conn).0.tcb.state ≡ TcbState.established
      → let r = turn f t now zwp_tick in
        (r.task.conn ≡ (zero_window_probe t.conn).0) × (length r.outbound ≡ 1)
  unfolding turn end_turn
  sent_probe f t now segment e state = (
    not_over (zero_window_probe t.conn).0 now state,
    ap
        (λ o.
          length
            (map (outbound_msg (record t { conn = (zero_window_probe t.conn).0 })) (to_list o)))
        e,
  )

  -- A turn that a timer causes.
  record Probes (c : Connection F) (r : Turn F) : Type 0 where
    pub kept : NothingQueued r.task.conn
    pub counted : inflight r.task.conn.send_buf ≡ inflight c.send_buf + length r.outbound
    pub same : contents r.task.conn.send_buf ≡ contents c.send_buf
    pub same_len : r.task.conn.send_buf.len ≡ c.send_buf.len

  idle_turn-Probes : (t : Task F) → NothingQueued t.conn → Probes t.conn (idle_turn t)
  idle_turn-Probes t v = record { kept = v; counted = omega arith; same = refl; same_len = refl }

  probed-Probes :
      (c : Connection F) (r : Turn F) → HasProbed c r.task.conn → length r.outbound ≡ 1 → Probes c r
  probed-Probes c r h one = record {
    kept = h.kept;
    counted = omega (arith, h.one_more, one);
    same = h.same;
    same_len = h.same_len;
  }

  timer-Probes :
      (f : F64 F) (t : Task F) (now : ℕ) (e : TaskEvent)
      → NothingQueued t.conn
      → IsTimer e
      → Probes t.conn (turn f t now e)
  timer-Probes f t now _ v retransmits = rw (quiet_retransmit f t now v) (idle_turn-Probes t v)
  timer-Probes f t now _ v probes = elim (probe_cases t.conn v) [
    | inl e ↦ rw (idle_probe f t now v e) (idle_turn-Probes t v)
    | inr (segment, e, h) ↦
        let (same, one) = sent_probe f t now segment e h.kept.in_established in
        probed-Probes t.conn (turn f t now zwp_tick) (subst (HasProbed t.conn) (sym same) h) one
  ]

-- If the control block and the send buffer of an established task agree and nothing is queued to be sent
-- again, then however long its timers run, while nothing arrives and nothing is written: with each message
-- one more byte counts as sent, so that there are no more messages than there were unsent bytes, though all
-- bytes stay in the buffer, unacknowledged.
pub probes_not_repeated :
    {F : Type 0} (f : F64 F) (t : Task F) (events : List (ℕ × TaskEvent))
    → NothingQueued t.conn
    → All (λ e. IsTimer e.1) events
    → let (t', messages) = sent_in_turns f t events in
      (inflight t'.conn.send_buf ≡ inflight t.conn.send_buf + length messages)
      × (contents t'.conn.send_buf ≡ contents t.conn.send_buf)
      × (inflight t.conn.send_buf + length messages ≤ t.conn.send_buf.len)
unfolding sent_in_turns
probes_not_repeated f t [] v timers = (omega arith, refl, omega (arith, v.synced.valid))
probes_not_repeated f t ((now, e) ∷ events) v (timer, timers) =
    let r = turn f t now e in
    let p = timer-Probes f t now e v timer in
    let (counted, same, bounded) = probes_not_repeated f r.task events p.kept timers in
    let split = length-append r.outbound (sent_in_turns f r.task events).1 in
    (
      omega (arith, counted, p.counted, split),
      same ∙ p.same,
      omega (arith, bounded, p.counted, p.same_len, split),
    )
