-- ===== src/Node/Http/Server.antt =====
-- A connection that magnum-tcp/src/main.rs serves: the task of tcp/task.rs and `handle_connection`, with
-- the channels between them that tcp/mod.rs makes.
use magnus_tcp.Base.{ℕ, ◌≡◌, Bool, true, false, none, some, List, [], ◌∷◌, ◌++◌, IsU32, arith}
use magnus_tcp.Float.{F64}
use magnus_tcp.Header.{TcpSegment}
use magnus_tcp.Connection.Syncing.{IsOpenForData}
use magnus_tcp.Task.{Task, TaskEvent, inbound, Turn, to_list, turn}
use magnus_tcp.Task.Open.{NoClose, turn-IsOpenForData}
use magnus_tcp.Node.Http.{Serving, take_chunk}

-- The task and whether it has ended, the channels of chunks to the handler and of bytes and of the wish
-- to close from it, and what the handler keeps.
pub record Served (F : Type 0) : Type 0 where
  pub task : Task F
  pub ended : Bool
  pub data_channel : List (List ℕ)
  pub send_channel : List (List ℕ)
  pub close_channel : Bool
  pub serving : Serving

abbrev pub after_turn : {F : Type 0} → Served F → Turn F → Served F
after_turn s t = record s {
  task = t.task;
  ended = t.ended;
  data_channel = s.data_channel ++ t.app_data;
}

-- What reaches the task from the wire and from its timers.
pub data Outside : TaskEvent → Type 0 where
  segment : {seg : TcpSegment} → IsU32 seg.header.ack_num → Outside (inbound (some seg))
  dropped : Outside (inbound none)
  retransmits : Outside TaskEvent.retransmit_tick
  probes : Outside TaskEvent.zwp_tick

-- What can happen next. The task takes turns until it ends. The handler takes chunks; it sees the end
-- of its data once the task, which holds the sender, has ended and the channel is empty, and only then
-- sends the wish to close.
pub data ServedStep {F : Type 0} (f : F64 F) : Served F → Served F → Type 0 where
  takes :
      (s : Served F) (now : ℕ) (e : TaskEvent)
      → s.ended ≡ false
      → Outside e
      → ServedStep f s (after_turn s (turn f s.task now e))
  sends :
      (s : Served F) (now : ℕ) (bytes : List ℕ) (later : List (List ℕ))
      → s.ended ≡ false
      → s.send_channel ≡ bytes ∷ later
      → ServedStep f s (
          after_turn
            (record s { send_channel = later })
            (turn f s.task now (TaskEvent.app_send bytes)))
  closes :
      (s : Served F) (now : ℕ)
      → s.ended ≡ false
      → s.close_channel ≡ true
      → ServedStep f s
          (after_turn (record s { close_channel = false }) (turn f s.task now TaskEvent.close))
  handles :
      (s : Served F) (chunk : List ℕ) (later : List (List ℕ)) (secs : ℕ)
      → s.data_channel ≡ chunk ∷ later
      → ServedStep f s (
          let (serving, reply) = take_chunk s.serving chunk secs in
          record s {
            data_channel = later;
            send_channel = s.send_channel ++ to_list reply;
            serving = serving;
          })
  hangs_up :
      (s : Served F)
      → s.ended ≡ true
      → s.data_channel ≡ []
      → ServedStep f s (record s { close_channel = true })

pub data ServedRun {F : Type 0} (f : F64 F) : Served F → Served F → Type 0 where
  rests : (s : Served F) → ServedRun f s s
  goes_on : {s s' s'' : Served F} → ServedRun f s s' → ServedStep f s' s'' → ServedRun f s s''

outside-NoClose : {e : TaskEvent} → Outside e → NoClose e
outside-NoClose (segment u) = NoClose.segment u
outside-NoClose dropped = NoClose.dropped
outside-NoClose retransmits = NoClose.retransmits
outside-NoClose probes = NoClose.probes

-- The connection is not closed from this side, and no wish to close waits for a task that runs.
pub record NeverCloses {F : Type 0} (s : Served F) : Type 0 where
  pub open_conn : IsOpenForData s.task.conn
  pub unasked : s.ended ≡ false → s.close_channel ≡ false

step-NeverCloses :
    {F : Type 0} (f : F64 F) {s s' : Served F} → ServedStep f s s' → NeverCloses s → NeverCloses s'
step-NeverCloses f (takes s now e runs out) k = record {
  open_conn = turn-IsOpenForData f s.task now e (outside-NoClose out) k.open_conn;
  unasked = λ still. k.unasked runs;
}
step-NeverCloses f (sends s now bytes later runs queued) k = record {
  open_conn =
      turn-IsOpenForData f s.task now (TaskEvent.app_send bytes) NoClose.app_data k.open_conn;
  unasked = λ still. k.unasked runs;
}
step-NeverCloses f (closes s now runs asked) k =
    let silent : s.close_channel ≡ false = k.unasked runs in absurd (ground arith)
step-NeverCloses f (handles s chunk later secs queued) k = record {
  open_conn = k.open_conn;
  unasked = k.unasked;
}
step-NeverCloses f (hangs_up s over empty) k = record {
  open_conn = k.open_conn;
  unasked = λ (runs : s.ended ≡ false). absurd (ground arith);
}

-- From a connection that is open for data, with no wish to close waiting, however its segments, its
-- timers, its handler and its channels interleave, the connection is in ESTABLISHED, CLOSE_WAIT or
-- CLOSED, its control block and its send buffer agree, and no wish to close waits for the task while
-- it runs: the handler sends one only once the task has ended.
pub served-NeverCloses :
    {F : Type 0} (f : F64 F) {s s' : Served F}
    → ServedRun f s s'
    → IsOpenForData s.task.conn
    → s.close_channel ≡ false
    → NeverCloses s'
served-NeverCloses f (rests s) o silent = record { open_conn = o; unasked = λ still. silent }
served-NeverCloses f (goes_on run last) o silent =
    step-NeverCloses f last (served-NeverCloses f run o silent)
