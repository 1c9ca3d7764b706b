-- ===== src/Task/Refine.antt =====
-- The task of magnum-tcp/src/tcp/task.rs against a relation that says what one turn of it has to do:
-- which calls it makes of its connection, in which order, and where their results go.
use magnus_tcp.Base.{ℕ, ◌≡◌, Bool, true, false, none, some, List, [], ◌∷◌, ◌++◌, map, ◌⊎◌, IsU32}
use magnus_tcp.Float.{F64}
use magnus_tcp.Header.{TcpSegment}
use magnus_tcp.Retransmit.{mss}
use magnus_tcp.RecvBuffer
use magnus_tcp.Connection.{
  Connection, next_segment_to_send, write_data, read_received, received_available, take_retransmits,
  initiate_close, tick_time_wait, zero_window_probe,
}
use magnus_tcp.Connection.Handlers.{process_segment}
use magnus_tcp.Connection.Exchange.{sent}
use magnus_tcp.Task.Deliver.{flat}
use magnus_tcp.Task.{Task, TaskEvent, Turn, inbound, to_list}

module _ {F : Type 0} where
  -- From `c` to `c'` segments are asked for, and sent, until there is none.
  pub data SendsAll (now : ℕ) : Connection F → Connection F → List (List ℕ) → Type 0 where
    no_more :
        {c : Connection F}
        → (next_segment_to_send c mss now).1 ≡ none
        → SendsAll now c (next_segment_to_send c mss now).0 []
    one_more :
        {c c' : Connection F} {segment : List ℕ} {rest : List (List ℕ)}
        → (next_segment_to_send c mss now).1 ≡ some segment
        → SendsAll now (next_segment_to_send c mss now).0 c' rest
        → SendsAll now c c' (segment ∷ rest)

  -- From `c` to `c'` all that can be read is read, and it is `bytes`.
  pub record HandsOver (c c' : Connection F) (bytes : List ℕ) : Type 0 where
    pub all_bytes : bytes ≡ (read_received c (received_available c)).1
    pub is_read : (c' ≡ c) ⊎ (c' ≡ (read_received c (received_available c)).0)
    pub none_left : received_available c' ≡ 0

  -- The check at the end of a turn.
  abbrev pub ticked : ℕ → Connection F → Connection F
  ticked now c = (tick_time_wait c now).0

  -- What each event asks of the task: with whether it was asked to close before, the connection before and
  -- behind the turn, the segments for the wire and the bytes for the application.
  pub data Serves (f : F64 F) (now : ℕ)
      : TaskEvent → Bool → Connection F → Connection F → List (List ℕ) → List ℕ → Type 0 where
    takes :
        {seg : TcpSegment} {closing : Bool} {c c2 c3 : Connection F} {bytes : List ℕ}
        {segments : List (List ℕ)}
        → HandsOver (process_segment f c seg now).0 c2 bytes
        → SendsAll now c2 c3 segments
        → Serves f now
            (inbound (some seg))
            closing
            c
            (ticked now c3)
            (to_list (sent (process_segment f c seg now).1) ++ segments)
            bytes
    gone : {closing : Bool} {c : Connection F} → Serves f now (inbound none) closing c c [] []
    resends :
        {closing : Bool} {c : Connection F}
        → Serves f now TaskEvent.retransmit_tick closing c
            (ticked now (take_retransmits c now).0)
            (take_retransmits c now).1
            []
    probes :
        {closing : Bool} {c : Connection F}
        → Serves f now TaskEvent.zwp_tick closing c
            (ticked now (zero_window_probe c).0)
            (to_list (zero_window_probe c).1)
            []
    writes :
        {closing : Bool} {c c' : Connection F} {bytes : List ℕ} {segments : List (List ℕ)}
        → SendsAll now (write_data c bytes).0 c' segments
        → Serves f now (TaskEvent.app_send bytes) closing c (ticked now c') segments []
    closes :
        {c : Connection F}
        → Serves f now TaskEvent.close false c
            (ticked now (initiate_close c).0)
            (to_list (initiate_close c).1)
            []
    closes_once : {c : Connection F} → Serves f now TaskEvent.close true c (ticked now c) [] []

-- A segment's acknowledgement number is a `u32`.
abbrev pub FitsU32 : TaskEvent → Type 0
FitsU32 (inbound (some seg)) = IsU32 seg.header.ack_num
FitsU32 _ = Unit

module _ {F : Type 0} (f : F64 F) (now : ℕ) where
  -- The turn does what `Serves` says, as far as it shows.
  abbrev pub TurnServes : TaskEvent → Task F → Turn F → Type 0
  TurnServes e t r =
      Serves f now e t.close_initiated t.conn r.task.conn (map (λ m. m.tcp_bytes) r.outbound)
        (flat r.app_data)
