-- ===== src/Connection/Steps.antt =====
-- State changes that several segment handlers of magnum-tcp/src/tcp/connection.rs share.
use magnus_tcp.Base.{ℕ, ◌+◌, ◌%◌, min, Option, none, some, List, length, wrapping_add, u32_mod}
use magnus_tcp.Net.{Result, ok}
use magnus_tcp.Tcb.{TcbState}
use magnus_tcp.Header.{TcpSegment}
use magnus_tcp.RecvBuffer
use magnus_tcp.Connection.{Connection, set_state, build_ack}

abbrev pub Reply : Type 0
Reply = Result (Option (List ℕ))

abbrev pub silence : Reply
silence = ok none

abbrev pub answer : List ℕ → Reply
answer bytes = ok (some bytes)

-- `dup_ack_count.saturating_add(1)` on `u8`.
abbrev pub count_dup : ℕ → ℕ
count_dup n = min (n + 1) 255

-- The end of a segment that carries a FIN: `seq.wrapping_add(data_len).wrapping_add(1)`.
abbrev pub fin_end : TcpSegment → ℕ
fin_end seg = wrapping_add (wrapping_add seg.header.seq (length seg.payload % u32_mod)) 1

module _ {F : Type 0} where
  abbrev pub set_una : Connection F → ℕ → Connection F
  set_una c una = record c { tcb = record (c.tcb) { snd = record (c.tcb.snd) { una = una } } }

  abbrev pub set_rcv_nxt : Connection F → ℕ → Connection F
  set_rcv_nxt c nxt = record c { tcb = record (c.tcb) { rcv = record (c.tcb.rcv) { nxt = nxt } } }

  -- The receiving side starts at the peer's initial sequence number.
  abbrev pub start_recv : Connection F → ℕ → Connection F
  start_recv c irs = record c {
    recv_buf = some (RecvBuffer.new irs);
    tcb = record (c.tcb) { rcv = record (c.tcb.rcv) { irs = irs; nxt = wrapping_add irs 1 } };
  }

  -- The FIN of the peer is taken: its end is expected next, and the answer acknowledges it.
  abbrev pub take_fin : Connection F → TcpSegment → TcbState → Connection F × Reply
  take_fin c seg state =
      let c' : Connection F = set_state (set_rcv_nxt c (fin_end seg)) state in
      (c', answer (build_ack c'))

  -- `self.tcb.state = TimeWait; self.time_wait_start = Some(Instant::now())`.
  abbrev pub start_time_wait : Connection F → ℕ → Connection F
  start_time_wait c now = record c { time_wait_start = some now }
