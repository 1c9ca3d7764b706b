-- ===== src/Connection/Handlers.antt =====
-- What a connection of magnum-tcp/src/tcp/connection.rs does with a segment. `now` is what
-- `Instant::now()` returns in the call.
use magnus_tcp.Base.{ℕ}
use magnus_tcp.Float.{F64}
use magnus_tcp.Tcb.{TcbState}
use magnus_tcp.Header.{TcpSegment}
use magnus_tcp.Connection.{Connection}
use magnus_tcp.Connection.Steps.{Reply, silence}
use magnus_tcp.Connection.Opening.{handle_listen, handle_syn_sent, handle_syn_received}
use magnus_tcp.Connection.Established.{handle_established}
use magnus_tcp.Connection.Closing.{
  handle_close_wait, handle_fin_wait_1, handle_fin_wait_2, handle_closing, handle_last_ack,
  handle_time_wait,
}

module _ {F : Type 0} where
  -- The `match` of `process_segment`.
  unfoldable pub handle_in : TcbState → F64 F → Connection F → TcpSegment → ℕ → Connection F × Reply
  handle_in TcbState.listen f c seg now = handle_listen c seg
  handle_in TcbState.syn_received f c seg now = handle_syn_received c seg
  handle_in TcbState.established f c seg now = handle_established f c seg now
  handle_in TcbState.close_wait f c seg now = handle_close_wait c seg
  handle_in TcbState.fin_wait_1 f c seg now = handle_fin_wait_1 f c seg now
  handle_in TcbState.fin_wait_2 f c seg now = handle_fin_wait_2 c seg now
  handle_in TcbState.closing f c seg now = handle_closing c seg now
  handle_in TcbState.last_ack f c seg now = handle_last_ack c seg
  handle_in TcbState.time_wait f c seg now = handle_time_wait c seg
  handle_in TcbState.syn_sent f c seg now = handle_syn_sent c seg
  handle_in TcbState.closed f c seg now = (c, silence)

  unfoldable pub process_segment : F64 F → Connection F → TcpSegment → ℕ → Connection F × Reply
  process_segment f c seg now = handle_in c.tcb.state f c seg now
