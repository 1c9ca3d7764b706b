-- ===== src/Connection/Closing.antt =====
-- The segment handlers of magnum-tcp/src/tcp/connection.rs once one side has closed.
use magnus_tcp.Base.{ℕ, ◌&&◌, if◌then◌else◌}
use magnus_tcp.Float.{F64}
use magnus_tcp.Tcb.{TcbState, ack_acceptable, seq_le}
use magnus_tcp.Header.{TcpSegment}
use magnus_tcp.Connection.{Connection, set_state, build_ack}
use magnus_tcp.Connection.Steps.{Reply, silence, answer, set_una, take_fin, start_time_wait}
use magnus_tcp.Connection.Established.{take_ack}

module _ {F : Type 0} where
  unfoldable pub handle_close_wait : Connection F → TcpSegment → Connection F × Reply
  handle_close_wait c seg =
      if seg.header.flags.rst then (set_state c TcbState.closed, silence) else (c, silence)

  unfoldable pub handle_fin_wait_1 : F64 F → Connection F → TcpSegment → ℕ → Connection F × Reply
  handle_fin_wait_1 f c seg now =
      let taken = take_ack f c seg now in
      let acked =
        seg.header.flags.ack && ack_acceptable c.tcb.snd.una seg.header.ack_num c.tcb.snd.nxt in
      let fin_acked = seq_le c.tcb.snd.nxt seg.header.ack_num in
      let c' : Connection F = (if acked then taken else c) in
      if seg.header.flags.rst
      then (set_state c TcbState.closed, silence)
      else (if acked && fin_acked && seg.header.flags.fin
          then take_fin (start_time_wait taken now) seg TcbState.time_wait
          else (if acked && fin_acked
              then (set_state taken TcbState.fin_wait_2, silence)
              else (if seg.header.flags.fin
                  then take_fin c' seg TcbState.closing
                  else (c', silence))))

  unfoldable pub handle_fin_wait_2 : Connection F → TcpSegment → ℕ → Connection F × Reply
  handle_fin_wait_2 c seg now =
      if seg.header.flags.rst
      then (set_state c TcbState.closed, silence)
      else (if seg.header.flags.fin
          then take_fin (start_time_wait c now) seg TcbState.time_wait
          else (c, silence))

  unfoldable pub handle_closing : Connection F → TcpSegment → ℕ → Connection F × Reply
  handle_closing c seg now =
      if seg.header.flags.rst
      then (set_state c TcbState.closed, silence)
      else (if seg.header.flags.ack && ack_acceptable c.tcb.snd.una seg.header.ack_num c.tcb.snd.nxt
          then (
            set_state (start_time_wait (set_una c seg.header.ack_num) now) TcbState.time_wait,
            silence,
          )
          else (c, silence))

  unfoldable pub handle_last_ack : Connection F → TcpSegment → Connection F × Reply
  handle_last_ack c seg =
      if seg.header.flags.rst
      then (set_state c TcbState.closed, silence)
      else (if seg.header.flags.ack && ack_acceptable c.tcb.snd.una seg.header.ack_num c.tcb.snd.nxt
          then (set_state (set_una c seg.header.ack_num) TcbState.closed, silence)
          else (c, silence))

  unfoldable pub handle_time_wait : Connection F → TcpSegment → Connection F × Reply
  handle_time_wait c seg = if seg.header.flags.fin then (c, answer (build_ack c)) else (c, silence)
