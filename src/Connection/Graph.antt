-- ===== src/Connection/Graph.antt =====
-- The state diagram of magnum-tcp/src/tcp/connection.rs: which moves are possible, and on what.
use magnus_tcp.Base.{ℕ, ◌≡◌, refl, true, false, arith}
use magnus_tcp.Float.{F64}
use magnus_tcp.Tcb.{
  TcbState, listen, syn_sent, syn_received, established, fin_wait_1, fin_wait_2, close_wait,
  closing, last_ack, time_wait, closed,
}
use magnus_tcp.Header.{TcpSegment, TcpFlags}
use magnus_tcp.Connection.{
  Connection, write_data, send_segment, next_segment_to_send, read_received, take_retransmits,
  close_in, send_fin, initiate_close, tick_time_wait, connect, send_probe, zero_window_probe,
}
use magnus_tcp.Connection.Opening.{handle_listen, handle_syn_sent, handle_syn_received}
use magnus_tcp.Connection.Established.{
  take_ack, new_ack, dup_ack, established_ack, receive, established_rest, handle_established,
}
use magnus_tcp.Connection.Closing.{
  handle_close_wait, handle_fin_wait_1, handle_fin_wait_2, handle_closing, handle_last_ack,
  handle_time_wait,
}
use magnus_tcp.Connection.Handlers.{handle_in, process_segment}
use magnus_tcp.Connection.Run.{Request, close, serve}

-- The states that a reset ends.
pub data Resettable : TcbState → Type 0 where
  from_syn_sent : Resettable syn_sent
  from_established : Resettable established
  from_close_wait : Resettable close_wait
  from_fin_wait_1 : Resettable fin_wait_1
  from_fin_wait_2 : Resettable fin_wait_2
  from_closing : Resettable closing
  from_last_ack : Resettable last_ack

-- The moves of a connection on a segment, each with the flags that it takes.
pub data MoveOn (f : TcpFlags) : TcbState → TcbState → Type 0 where
  stay : {s : TcbState} → MoveOn f s s
  reset : {s : TcbState} → f.rst ≡ true → Resettable s → MoveOn f s closed
  refuse : f.rst ≡ true → MoveOn f syn_received listen
  syn_in : f.rst ≡ false → f.ack ≡ false → f.syn ≡ true → MoveOn f listen syn_received
  syn_ack_in : f.rst ≡ false → f.ack ≡ true → f.syn ≡ true → MoveOn f syn_sent established
  syn_crossed : f.rst ≡ false → f.ack ≡ false → f.syn ≡ true → MoveOn f syn_sent syn_received
  opened : f.rst ≡ false → f.ack ≡ true → MoveOn f syn_received established
  fin_in : f.rst ≡ false → f.fin ≡ true → MoveOn f established close_wait
  fin_acked : f.rst ≡ false → f.ack ≡ true → f.fin ≡ false → MoveOn f fin_wait_1 fin_wait_2
  fin_crossed : f.rst ≡ false → f.fin ≡ true → MoveOn f fin_wait_1 closing
  fin_both : f.rst ≡ false → f.ack ≡ true → f.fin ≡ true → MoveOn f fin_wait_1 time_wait
  fin_after : f.rst ≡ false → f.fin ≡ true → MoveOn f fin_wait_2 time_wait
  closing_acked : f.rst ≡ false → f.ack ≡ true → MoveOn f closing time_wait
  last_acked : f.rst ≡ false → f.ack ≡ true → MoveOn f last_ack closed

ruleset moves = (
  stay, reset, refuse, syn_in, syn_ack_in, syn_crossed, opened, fin_in, fin_acked, fin_crossed,
  fin_both, fin_after, closing_acked, last_acked,
)

ruleset resets = (
  from_syn_sent, from_established, from_close_wait, from_fin_wait_1, from_fin_wait_2, from_closing,
  from_last_ack,
)

module _ {F : Type 0} where
  -- An acknowledgement or data alone moves an established connection to no other state.
  state-established_ack :
      (f : F64 F) (c : Connection F) (seg : TcpSegment) (now : ℕ)
      → (established_ack f c seg now).0.tcb.state ≡ c.tcb.state
  unfolding established_ack new_ack dup_ack
  state-established_ack f c seg now = ground arith

  state-established_rest :
      (c : Connection F) (seg : TcpSegment)
      → (established_rest c seg).0.tcb.state
        ≡ (elim seg.header.flags.fin [ true ↦ close_wait | false ↦ c.tcb.state ])
  unfolding established_rest receive
  state-established_rest c seg = ground arith

  MoveOn-established :
      (f : F64 F) (c : Connection F) (seg : TcpSegment) (now : ℕ)
      → c.tcb.state ≡ established
      → MoveOn seg.header.flags established (handle_established f c seg now).0.tcb.state
  unfolding handle_established
  MoveOn-established f c seg now e = grind (
    arith,
    state-established_ack f c seg now,
    state-established_rest (established_ack f c seg now).0 seg,
    moves,
    resets,
  )

  MoveOn-handle_in :
      (s : TcbState) (f : F64 F) (c : Connection F) (seg : TcpSegment) (now : ℕ)
      → c.tcb.state ≡ s
      → MoveOn seg.header.flags s (handle_in s f c seg now).0.tcb.state
  unfolding handle_in handle_listen handle_syn_sent handle_syn_received handle_close_wait
      handle_fin_wait_1 handle_fin_wait_2 handle_closing handle_last_ack handle_time_wait take_ack
  MoveOn-handle_in established f c seg now e = MoveOn-established f c seg now e
  MoveOn-handle_in _ f c seg now e = grind (arith, moves, resets)

  -- A segment moves a connection only along the diagram, and only with the flags that the move takes.
  pub process_segment-MoveOn :
      (f : F64 F) (c : Connection F) (seg : TcpSegment) (now : ℕ)
      → MoveOn seg.header.flags c.tcb.state (process_segment f c seg now).0.tcb.state
  unfolding process_segment
  process_segment-MoveOn f c seg now = MoveOn-handle_in c.tcb.state f c seg now refl

-- The moves of a connection on its own account.
pub data MoveBy : TcbState → TcbState → Type 0 where
  wait : {s : TcbState} → MoveBy s s
  close_first : MoveBy established fin_wait_1
  close_second : MoveBy close_wait last_ack
  open_it : MoveBy closed syn_sent
  expire : MoveBy time_wait closed

ruleset own_moves = (wait, close_first, close_second, open_it, expire)

close_in-MoveBy :
    {F : Type 0} (s : TcbState) (c : Connection F)
    → c.tcb.state ≡ s
    → MoveBy s (close_in s c).0.tcb.state
unfolding close_in send_fin
close_in-MoveBy established c e = close_first
close_in-MoveBy close_wait c e = close_second
close_in-MoveBy _ c e = rw e wait

-- What the application and the timers ask moves a connection only by closing it, by opening it, and
-- by the end of TIME_WAIT.
pub serve-MoveBy :
    {F : Type 0} (c : Connection F) (r : Request) → MoveBy c.tcb.state (serve c r).tcb.state
unfolding serve write_data next_segment_to_send send_segment read_received take_retransmits
    initiate_close tick_time_wait connect zero_window_probe send_probe
serve-MoveBy c close = close_in-MoveBy c.tcb.state c refl
serve-MoveBy c _ = grind (arith, own_moves)
