-- ===== src/Connection/Established.antt =====
-- The segment handler of magnum-tcp/src/tcp/connection.rs for an established connection: congestion
-- control, data, and the peer's FIN.
use magnus_tcp.Base.{
  ℕ, ◌+◌, ◌*◌, ◌/◌, ◌%◌, min, max, not, ◌&&◌, Option, none, some, List, ltb, ◌==◌, if◌then◌else◌,
  wrapping_sub, saturating_add, u32_mod,
}
use magnus_tcp.Float.{F64}
use magnus_tcp.Tcb.{TcbState, ack_acceptable}
use magnus_tcp.Header.{TcpSegment}
use magnus_tcp.SendBuffer
use magnus_tcp.RecvBuffer
use magnus_tcp.Retransmit
use magnus_tcp.Retransmit.{mss, is_nil}
use magnus_tcp.Connection.{Connection, set_state, build_ack, fast_retransmit_segment}
use magnus_tcp.Connection.Steps.{Reply, silence, answer, count_dup, set_rcv_nxt, take_fin}

-- RFC 5681 §3.1: the window after an acknowledgement of `bytes_acked` new bytes.
unfoldable pub grown_cwnd : ℕ → ℕ → ℕ → ℕ
grown_cwnd cwnd ssthresh bytes_acked =
    if ltb cwnd ssthresh
    then saturating_add cwnd (min bytes_acked mss)
    else saturating_add cwnd (mss * mss / cwnd)

module _ {F : Type 0} where
  -- What an acceptable acknowledgement updates in `handle_established` and `handle_fin_wait_1`.
  unfoldable pub take_ack : F64 F → Connection F → TcpSegment → ℕ → Connection F
  take_ack f c seg now = record c {
    send_buf = SendBuffer.acknowledge c.send_buf seg.header.ack_num;
    retransmit_queue =
        Retransmit.acknowledge_and_sample_rtt f c.retransmit_queue seg.header.ack_num now;
    tcb = record (c.tcb) {
      snd = record (c.tcb.snd) { una = seg.header.ack_num; wnd = seg.header.window };
    };
  }

  unfoldable pub new_ack : F64 F → Connection F → TcpSegment → ℕ → Connection F
  unfolding take_ack
  new_ack f c seg now =
      let taken : Connection F = take_ack f c seg now in
      record taken {
        tcb = record (taken.tcb) {
          cwnd =
              grown_cwnd c.tcb.cwnd c.tcb.ssthresh (wrapping_sub seg.header.ack_num c.tcb.snd.una);
          dup_ack_count = 0;
        };
      }

  -- RFC 5681 §3.2: a duplicate acknowledgement. The segment is the fast retransmission.
  unfoldable pub dup_ack : Connection F → Connection F × Option (List ℕ)
  dup_ack c =
      let count = count_dup c.tcb.dup_ack_count in
      let ssthresh = max (c.tcb.cwnd / 2) (2 * mss) in
      let counted : Connection F = record c { tcb = record (c.tcb) { dup_ack_count = count } } in
      let fast : Connection F = record c {
        tcb = record (c.tcb) {
          dup_ack_count = count;
          ssthresh = ssthresh;
          cwnd = (ssthresh + 3 * mss) % u32_mod;
        };
      } in
      let inflated : Connection F = record c {
        tcb = record (c.tcb) { dup_ack_count = count; cwnd = saturating_add c.tcb.cwnd mss };
      } in
      if count == 3
      then (fast, fast_retransmit_segment fast)
      else (if ltb 3 count then (inflated, none) else (counted, none))

  -- The first part of `handle_established`; a segment is an early return.
  unfoldable pub established_ack :
      F64 F → Connection F → TcpSegment → ℕ → Connection F × Option (List ℕ)
  established_ack f c seg now =
      let ack = seg.header.ack_num in
      if not seg.header.flags.ack
      then (c, none)
      else (if ack_acceptable c.tcb.snd.una ack c.tcb.snd.nxt
          then (new_ack f c seg now, none)
          else (if (ack == c.tcb.snd.una) && not (c.tcb.snd.una == c.tcb.snd.nxt)
              then dup_ack c
              else (c, none)))

  -- `if let Some(rb) = &mut self.recv_buf { .. }`
  unfoldable pub receive : Connection F → TcpSegment → Connection F
  receive c seg = elim c.recv_buf [
    | none ↦ c
    | some rb ↦
        let rb' = RecvBuffer.insert rb seg.header.seq seg.payload in
        set_rcv_nxt (record c { recv_buf = some rb' }) (RecvBuffer.next_expected rb')
  ]

  -- The rest of `handle_established`: the payload, then the FIN.
  unfoldable pub established_rest : Connection F → TcpSegment → Connection F × Reply
  established_rest c seg =
      let received : Connection F = (if is_nil seg.payload then c else receive c seg) in
      if not (is_nil seg.payload) && not seg.header.flags.fin
      then (received, answer (build_ack received))
      else (if seg.header.flags.fin
          then take_fin received seg TcbState.close_wait
          else (received, silence))

  unfoldable pub handle_established : F64 F → Connection F → TcpSegment → ℕ → Connection F × Reply
  handle_established f c seg now =
      let (c', early) = established_ack f c seg now in
      if seg.header.flags.rst
      then (set_state c TcbState.closed, silence)
      else elim early [ some segment ↦ (c', answer segment) | none ↦ established_rest c' seg ]
