-- ===== src/Connection/Run.antt =====
-- What can happen to a connection of magnum-tcp/src/tcp/connection.rs, and its runs.
use magnus_tcp.Base.{ℕ, List, [], ◌∷◌}
use magnus_tcp.Float.{F64}
use magnus_tcp.Header.{TcpSegment}
use magnus_tcp.Connection.{
  Connection, write_data, next_segment_to_send, read_received, take_retransmits, initiate_close,
  tick_time_wait, connect, zero_window_probe,
}
use magnus_tcp.Connection.Handlers.{process_segment}

-- What the application and the timers can ask of a connection.
pub data Request : Type 0 where
  write : List ℕ → Request
  send_next : (max_payload now : ℕ) → Request
  read : (size : ℕ) → Request
  retransmit : (now : ℕ) → Request
  close : Request
  tick : (now : ℕ) → Request
  open_active : Request
  probe : Request

unfoldable pub serve : {F : Type 0} → Connection F → Request → Connection F
serve c (write bytes) = (write_data c bytes).0
serve c (send_next max_payload now) = (next_segment_to_send c max_payload now).0
serve c (read size) = (read_received c size).0
serve c (retransmit now) = (take_retransmits c now).0
serve c close = (initiate_close c).0
serve c (tick now) = (tick_time_wait c now).0
serve c open_active = (connect c).0
serve c probe = (zero_window_probe c).0

pub data Event : Type 0 where
  arrive : TcpSegment → (now : ℕ) → Event
  ask : Request → Event

unfoldable pub step : {F : Type 0} → F64 F → Connection F → Event → Connection F
step f c (arrive seg now) = (process_segment f c seg now).0
step f c (ask r) = serve c r

unfoldable pub run : {F : Type 0} → F64 F → Connection F → List Event → Connection F
run f c [] = c
run f c (e ∷ events) = run f (step f c e) events
