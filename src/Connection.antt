-- ===== src/Connection.antt =====
-- A connection of magnum-tcp/src/tcp/connection.rs: its state, the segments that it builds, and what
-- the application and the timers ask of it. What it does with a segment is in Connection/Handlers.
use magnus_tcp.Base.{
  ℕ, ◌+◌, ◌-◌, ◌*◌, ◌/◌, min, max, Bool, true, false, not, ◌||◌, Option, none, some, List, [], map,
  ltb, leb, ◌==◌, if◌then◌else◌, length, wrapping_add, wrapping_sub,
}
use magnus_tcp.Float.{F64}
use magnus_tcp.Tcb.{Tcb, TcbState}
use magnus_tcp.Header.{TcpFlags, SegmentBuilder, no_flags, new_builder, build}
use magnus_tcp.SendBuffer
use magnus_tcp.SendBuffer.{SendBuffer}
use magnus_tcp.RecvBuffer
use magnus_tcp.RecvBuffer.{RecvBuffer}
use magnus_tcp.Retransmit
use magnus_tcp.Retransmit.{RetransmitQueue, mss, is_nil}
pub mod Steps
pub mod Opening
pub mod Established
pub mod Closing
pub mod Handlers
pub mod Run
pub mod Congestion
pub mod Graph
pub mod Sending
pub mod Acking
pub mod Syncing
pub mod Receiving
pub mod Divergences
pub mod Duplicates
pub mod Exchange
pub mod Fields
pub mod Handshake
pub mod Teardown
pub mod Transfer

abbrev pub two_msl : ℕ
two_msl = 60_000_000_000

pub record Connection (F : Type 0) : Type 0 where
  pub tcb : Tcb
  pub send_buf : SendBuffer
  pub recv_buf : Option RecvBuffer
  pub retransmit_queue : RetransmitQueue F
  pub time_wait_start : Option ℕ

unfoldable pub new : {F : Type 0} → F64 F → Tcb → Connection F
new f tcb = record {
  tcb = tcb;
  send_buf = SendBuffer.new tcb.snd.iss;
  recv_buf = none;
  retransmit_queue = Retransmit.new f;
  time_wait_start = none;
}

-- `self.tcb.state == state`.
abbrev pub is_closed : TcbState → Bool
is_closed TcbState.closed = true
is_closed _ = false

abbrev pub is_time_wait : TcbState → Bool
is_time_wait TcbState.time_wait = true
is_time_wait _ = false

abbrev pub is_established : TcbState → Bool
is_established TcbState.established = true
is_established _ = false

abbrev pub ack_flags : TcpFlags
ack_flags = record no_flags { ack = true }

abbrev pub data_flags : TcpFlags
data_flags = record no_flags { ack = true; psh = true }

module _ {F : Type 0} where
  -- `self.tcb.state = state`.
  abbrev pub set_state : Connection F → TcbState → Connection F
  set_state c state = record c { tcb = record (c.tcb) { state = state } }

  -- `self.tcb.snd.nxt = nxt`.
  abbrev pub set_snd_nxt : Connection F → ℕ → Connection F
  set_snd_nxt c nxt = record c { tcb = record (c.tcb) { snd = record (c.tcb.snd) { nxt = nxt } } }

  unfoldable pub current_window : Connection F → ℕ
  current_window c = elim c.recv_buf [ none ↦ 65535 | some rb ↦ RecvBuffer.window rb ]

  abbrev pub builder : Connection F → SegmentBuilder
  builder c = new_builder c.tcb.local_ip c.tcb.remote_ip c.tcb.local_port c.tcb.remote_port

  -- `SegmentBuilder::new(..).seq(..).ack(self.tcb.rcv.nxt).flags(..).window(self.current_window())`.
  abbrev pub acking_builder : Connection F → ℕ → TcpFlags → SegmentBuilder
  acking_builder c seq flags = record (builder c) {
    seq = seq;
    ack_num = c.tcb.rcv.nxt;
    flags = flags;
    window = current_window c;
  }

  -- A segment that carries bytes.
  unfoldable pub data_segment : Connection F → ℕ → TcpFlags → List ℕ → List ℕ
  data_segment c seq flags payload =
      build (record (acking_builder c seq flags) { payload = payload })

  unfoldable pub build_syn : Connection F → List ℕ
  build_syn c =
      build (record (builder c) { seq = c.tcb.snd.iss; flags = record no_flags { syn = true } })

  unfoldable pub build_syn_ack : Connection F → List ℕ
  build_syn_ack c =
      build (acking_builder c c.tcb.snd.iss (record no_flags { syn = true; ack = true }))

  unfoldable pub build_ack : Connection F → List ℕ
  build_ack c = build (acking_builder c c.tcb.snd.nxt ack_flags)

  unfoldable pub build_fin_ack : Connection F → List ℕ
  build_fin_ack c =
      build (acking_builder c c.tcb.snd.nxt (record no_flags { fin = true; ack = true }))

  unfoldable pub build_rst : Connection F → ℕ → List ℕ
  build_rst c seq = build (record (builder c) { seq = seq; flags = record no_flags { rst = true } })

  unfoldable pub fast_retransmit_segment : Connection F → Option (List ℕ)
  fast_retransmit_segment c = elim (Retransmit.first_unacked c.retransmit_queue) [
    | none ↦ none
    | some (seq, payload) ↦ some (data_segment c seq data_flags payload)
  ]

  unfoldable pub write_data : Connection F → List ℕ → Connection F × ℕ
  write_data c bytes =
      let (sb, n) = SendBuffer.write c.send_buf bytes in (record c { send_buf = sb }, n)

  -- What `next_segment_to_send` does once the send buffer gave it a segment.
  unfoldable pub send_segment : Connection F → ℕ → ℕ × List ℕ → Connection F × Option (List ℕ)
  send_segment c now (seq, payload) =
      let sb = SendBuffer.advance_nxt c.send_buf (length payload) in
      let c' : Connection F =
        set_snd_nxt
          (record c {
            send_buf = sb;
            retransmit_queue = Retransmit.push c.retransmit_queue seq payload now;
          })
          sb.nxt in
      (c', some (data_segment c' seq data_flags payload))

  unfoldable pub next_segment_to_send : Connection F → ℕ → ℕ → Connection F × Option (List ℕ)
  next_segment_to_send c max_payload now =
      let effective_window = min c.tcb.cwnd c.tcb.snd.wnd in
      let inflight = wrapping_sub c.tcb.snd.nxt c.tcb.snd.una in
      let max_len = min max_payload (effective_window - inflight) in
      if leb effective_window inflight
      then (c, none)
      else elim (SendBuffer.next_segment c.send_buf max_len) [
        | none ↦ (c, none)
        | some segment ↦ send_segment c now segment
      ]

  unfoldable pub read_received : Connection F → ℕ → Connection F × List ℕ
  read_received c size = elim c.recv_buf [
    | none ↦ (c, [])
    | some rb ↦
        let (rb', bytes) = RecvBuffer.read rb size in (record c { recv_buf = some rb' }, bytes)
  ]

  unfoldable pub received_available : Connection F → ℕ
  received_available c = elim c.recv_buf [ none ↦ 0 | some rb ↦ RecvBuffer.available rb ]

  unfoldable pub take_retransmits : Connection F → ℕ → Connection F × List (List ℕ)
  take_retransmits c now =
      let (q, expired) = Retransmit.expired_segments c.retransmit_queue now in
      let c' : Connection F =
        (if is_nil expired then record c { retransmit_queue = q } else record c {
          retransmit_queue = q;
          tcb = record (c.tcb) { ssthresh = max (c.tcb.cwnd / 2) (2 * mss); cwnd = mss };
        }) in
      (c', map (λ e. data_segment c' e.0 data_flags e.1) expired)

  -- The FIN of `initiate_close`, and the state that it leads to.
  unfoldable pub send_fin : Connection F → TcbState → Connection F × Option (List ℕ)
  send_fin c state =
      (set_state (set_snd_nxt c (wrapping_add c.tcb.snd.nxt 1)) state, some (build_fin_ack c))

  unfoldable pub close_in : TcbState → Connection F → Connection F × Option (List ℕ)
  close_in TcbState.established c = send_fin c TcbState.fin_wait_1
  close_in TcbState.close_wait c = send_fin c TcbState.last_ack
  close_in _ c = (c, none)

  unfoldable pub initiate_close : Connection F → Connection F × Option (List ℕ)
  unfolding close_in
  initiate_close c = close_in c.tcb.state c

  unfoldable pub tick_time_wait : Connection F → ℕ → Connection F × Bool
  tick_time_wait c now =
      if not (is_time_wait c.tcb.state) then (c, false) else elim c.time_wait_start [
        | none ↦ (c, false)
        | some start ↦
            if leb two_msl (now - start) then (set_state c TcbState.closed, true) else (c, false)
      ]

  unfoldable pub connect : Connection F → Connection F × Option (List ℕ)
  connect c = if not (is_closed c.tcb.state) then (c, none) else (
    set_state (set_snd_nxt c (wrapping_add c.tcb.snd.iss 1)) TcbState.syn_sent,
    some (build_syn c),
  )

  -- What `zero_window_probe` does once the send buffer gave it a byte.
  unfoldable pub send_probe : Connection F → ℕ × List ℕ → Connection F × Option (List ℕ)
  send_probe c (seq, payload) =
      let sb = SendBuffer.advance_nxt c.send_buf 1 in
      let c' : Connection F = set_snd_nxt (record c { send_buf = sb }) sb.nxt in
      (c', some (data_segment c' seq ack_flags payload))

  unfoldable pub zero_window_probe : Connection F → Connection F × Option (List ℕ)
  zero_window_probe c =
      if not (is_established c.tcb.state) || not (c.tcb.snd.wnd == 0)
      then (c, none)
      else elim (SendBuffer.next_segment c.send_buf 1) [
        | none ↦ (c, none)
        | some segment ↦ send_probe c segment
      ]
