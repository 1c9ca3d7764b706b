-- ===== src/Connection/Opening.antt =====
-- The segment handlers of magnum-tcp/src/tcp/connection.rs before a connection is established.
use magnus_tcp.Base.{not, ◌&&◌, ◌==◌, if◌then◌else◌, wrapping_add}
use magnus_tcp.Tcb.{TcbState, ack_acceptable}
use magnus_tcp.Header.{TcpSegment}
use magnus_tcp.SendBuffer
use magnus_tcp.Connection.{Connection, set_state, build_ack, build_rst, build_syn_ack}
use magnus_tcp.Connection.Steps.{Reply, silence, answer, start_recv}

module _ {F : Type 0} where
  unfoldable pub handle_listen : Connection F → TcpSegment → Connection F × Reply
  handle_listen c seg =
      let started : Connection F = start_recv c seg.header.seq in
      let c' : Connection F = record started {
        tcb = record (started.tcb) {
          state = TcbState.syn_received;
          rcv = record (started.tcb.rcv) { wnd = seg.header.window };
          snd = record (started.tcb.snd) { nxt = wrapping_add c.tcb.snd.iss 1 };
        };
      } in
      if seg.header.flags.rst
      then (c, silence)
      else (if seg.header.flags.ack
          then (c, answer (build_rst c seg.header.ack_num))
          else (if not seg.header.flags.syn then (c, silence) else (c', answer (build_syn_ack c'))))

  unfoldable pub handle_syn_sent : Connection F → TcpSegment → Connection F × Reply
  handle_syn_sent c seg =
      let started : Connection F = start_recv c seg.header.seq in
      let opened : Connection F = record started {
        tcb = record (started.tcb) {
          state = TcbState.established;
          snd = record (started.tcb.snd) { una = seg.header.ack_num; wnd = seg.header.window };
        };
      } in
      let crossed : Connection F = record started {
        tcb = record (started.tcb) {
          state = TcbState.syn_received;
          snd = record (started.tcb.snd) { wnd = seg.header.window };
        };
      } in
      if seg.header.flags.rst
      then (set_state c TcbState.closed, silence)
      else (if seg.header.flags.syn && seg.header.flags.ack
          then (if not (ack_acceptable c.tcb.snd.una seg.header.ack_num c.tcb.snd.nxt)
              then (c, answer (build_rst c seg.header.ack_num))
              else (opened, answer (build_ack opened)))
          else (if seg.header.flags.syn
              then (crossed, answer (build_syn_ack crossed))
              else (c, silence)))

  unfoldable pub handle_syn_received : Connection F → TcpSegment → Connection F × Reply
  handle_syn_received c seg =
      let opened : Connection F = record c {
        send_buf = SendBuffer.acknowledge c.send_buf seg.header.ack_num;
        tcb = record (c.tcb) {
          state = TcbState.established;
          snd = record (c.tcb.snd) { una = seg.header.ack_num; wnd = seg.header.window };
        };
      } in
      if seg.header.flags.rst
      then (set_state c TcbState.listen, silence)
      else (if seg.header.flags.syn && not seg.header.flags.ack && (seg.header.seq == c.tcb.rcv.irs)
          then (c, answer (build_syn_ack c))
          else (if not seg.header.flags.ack
              then (c, silence)
              else (if not (ack_acceptable c.tcb.snd.una seg.header.ack_num c.tcb.snd.nxt)
                  then (c, answer (build_rst c seg.header.ack_num))
                  else (opened, silence))))
