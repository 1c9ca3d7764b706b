-- ===== src/Task/Unanswered.antt =====
-- What the task of magnum-tcp/src/tcp/task.rs does for a connection whose SYN, or SYN-ACK, was lost.
use magnus_tcp.Base.{ℕ, ◌≡◌, refl, ap, ◌∙◌, List, [], ◌∷◌, ◌++◌, All, false, none}
use magnus_tcp.Float.{F64}
use magnus_tcp.Net.{Ipv4Addr}
use magnus_tcp.Tcb.{TcbState, Hasher, new_for_connect}
use magnus_tcp.Retransmit
use magnus_tcp.Retransmit.{is_nil}
use magnus_tcp.Retransmit.Single.{expired_none}
use magnus_tcp.Connection.{new, connect, take_retransmits, zero_window_probe, tick_time_wait}
use magnus_tcp.Task.{
  Task, TaskEvent, retransmit_tick, zwp_tick, OutboundMsg, Turn, turn, end_turn, end_call,
}

-- A timer of the task.
pub data IsTimer : TaskEvent → Type 0 where
  retransmits : IsTimer retransmit_tick
  probes : IsTimer zwp_tick

-- The handshake has begun and is not over.
pub data IsOpening : TcbState → Type 0 where
  syn_sent : IsOpening TcbState.syn_sent
  syn_received : IsOpening TcbState.syn_received

-- The turns of a task, each at its instant: the task at the end, and all that it sent.
unfoldable pub sent_in_turns :
    {F : Type 0} → F64 F → Task F → List (ℕ × TaskEvent) → Task F × List OutboundMsg
sent_in_turns f t [] = (t, [])
sent_in_turns f t ((now, e) ∷ events) =
    let r = turn f t now e in
    let (t', messages) = sent_in_turns f r.task events in (t', r.outbound ++ messages)

abbrev pub idle_turn : {F : Type 0} → Task F → Turn F
idle_turn t = record { task = t; outbound = []; app_data = []; ended = false }

module _ {F : Type 0} (t : Task F) where
  not_over :
      (now : ℕ) (state : TcbState)
      → t.conn.tcb.state ≡ state
      → IsOpening state
      → end_turn t now [] [] ≡ idle_turn t
  unfolding end_turn tick_time_wait
  not_over now _ s syn_sent = rw s refl
  not_over now _ s syn_received = rw s refl

  no_probe :
      (state : TcbState)
      → t.conn.tcb.state ≡ state
      → IsOpening state
      → zero_window_probe t.conn ≡ (t.conn, none)
  unfolding zero_window_probe
  no_probe _ s syn_sent = rw s refl
  no_probe _ s syn_received = rw s refl

  pub none_again :
      (now : ℕ) → t.conn.retransmit_queue.entries ≡ [] → take_retransmits t.conn now ≡ (t.conn, [])
  unfolding take_retransmits is_nil
  none_again now h = rw (expired_none t.conn.retransmit_queue now h) refl

  timer_turn :
      (f : F64 F) (now : ℕ) (e : TaskEvent) (state : TcbState)
      → t.conn.tcb.state ≡ state
      → IsOpening state
      → t.conn.retransmit_queue.entries ≡ []
      → IsTimer e
      → turn f t now e ≡ idle_turn t
  unfolding turn
  timer_turn f now _ state s o h retransmits =
      ap (end_call t now) (none_again now h) ∙ not_over now state s o
  timer_turn f now _ state s o h probes = rw (no_probe state s o) (not_over now state s o)

opening_silent :
    {F : Type 0} (f : F64 F) (t : Task F) (state : TcbState) (events : List (ℕ × TaskEvent))
    → t.conn.tcb.state ≡ state
    → IsOpening state
    → t.conn.retransmit_queue.entries ≡ []
    → All (λ e. IsTimer e.1) events
    → sent_in_turns f t events ≡ (t, [])
unfolding sent_in_turns
opening_silent f t state [] s o h a = refl
opening_silent f t state ((now, e) ∷ events) s o h (timer, timers) =
    rw (timer_turn t f now e state s o h timer, opening_silent f t state events s o h timers) refl

-- A new connection sends its SYN once: whatever timers run and however long, while nothing arrives and
-- nothing is written, the task sends nothing and stays in SYN_SENT.
pub syn_sent_once :
    {F : Type 0} (f : F64 F) (hash : Hasher) (nanos : ℕ) (local_ip : Ipv4Addr) (local_port : ℕ)
    (remote_ip : Ipv4Addr) (remote_port : ℕ) (t : Task F) (events : List (ℕ × TaskEvent))
    → let c = new f (new_for_connect hash nanos local_ip local_port remote_ip remote_port) in
      t.conn ≡ (connect c).0
      → All (λ e. IsTimer e.1) events
      → (sent_in_turns f t events ≡ (t, [])) × (t.conn.tcb.state ≡ TcbState.syn_sent)
unfolding connect new new_for_connect Retransmit.new
syn_sent_once f hash nanos local_ip local_port remote_ip remote_port t events e timers =
    let state : t.conn.tcb.state ≡ TcbState.syn_sent = ap (λ c. c.tcb.state) e in
    (
      opening_silent f t TcbState.syn_sent events state syn_sent
          (ap (λ c. c.retransmit_queue.entries) e) timers,
      state,
    )
