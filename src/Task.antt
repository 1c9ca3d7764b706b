-- ===== src/Task.antt =====
-- The task that drives a connection, magnum-tcp/src/tcp/task.rs. A turn is one pass of its loop: one
-- arm of the `select!`, then the checks at the end. `now` is what `Instant::now()` returns in the turn.
use magnus_tcp.Base.{
  ℕ, suc, zero, Bool, true, false, ◌||◌, Option, none, some, List, [], ◌∷◌, ◌++◌, map, ◌==◌,
  if◌then◌else◌,
}
use magnus_tcp.Float.{F64}
use magnus_tcp.Net.{Ipv4Addr, MacAddr}
use magnus_tcp.Header.{TcpSegment}
use magnus_tcp.Retransmit.{mss, is_nil}
use magnus_tcp.Connection.{
  Connection, is_closed, write_data, next_segment_to_send, read_received, received_available,
  take_retransmits, initiate_close, tick_time_wait, zero_window_probe,
}
use magnus_tcp.Connection.Handlers.{process_segment}
use magnus_tcp.Connection.Exchange.{sent}
pub mod Flush
pub mod Refine
pub mod Deliver
pub mod Open
pub mod Unmoved
pub mod Session
pub mod Unanswered
pub mod Probing

pub record OutboundMsg : Type 0 where
  pub src_ip : Ipv4Addr
  pub dst_ip : Ipv4Addr
  pub tcp_bytes : List ℕ
  pub ether_src : MacAddr
  pub ether_dst : MacAddr

-- What an arm of the `select!` waits for.
pub data TaskEvent : Type 0 where
  inbound : Option TcpSegment → TaskEvent
  retransmit_tick : TaskEvent
  zwp_tick : TaskEvent
  app_send : List ℕ → TaskEvent
  close : TaskEvent

pub record Task (F : Type 0) : Type 0 where
  pub conn : Connection F
  pub ether_src : MacAddr
  pub ether_dst : MacAddr
  pub close_initiated : Bool

-- What a turn leaves: the connection, what it sent to the wire and to the application, and whether
-- the loop ends.
pub record Turn (F : Type 0) : Type 0 where
  pub task : Task F
  pub outbound : List OutboundMsg
  pub app_data : List (List ℕ)
  pub ended : Bool

abbrev pub to_list {ℓ} : {A : Type ℓ} → Option A → List A
to_list none = []
to_list (some a) = a ∷ []

module _ {F : Type 0} where
  -- The loop of `flush_send_buf`, on fuel; what it sends.
  unfoldable pub flush : ℕ → Connection F → ℕ → Connection F × List (List ℕ)
  flush zero c now = (c, [])
  flush (suc fuel) c now =
      let (c', segment) = next_segment_to_send c mss now in
      elim segment [
        | none ↦ (c', [])
        | some bytes ↦ let (c'', rest) = flush fuel c' now in (c'', bytes ∷ rest)
      ]

  -- Each pass sends a byte at least.
  unfoldable pub flush_send_buf : Connection F → ℕ → Connection F × List (List ℕ)
  flush_send_buf c now = flush (suc c.send_buf.len) c now

  unfoldable pub forward_received_data : Connection F → Connection F × List (List ℕ)
  forward_received_data c =
      let available = received_available c in
      let (c', buf) = read_received c available in
      if available == 0 then (c, []) else (c', if is_nil buf then [] else buf ∷ [])

  abbrev outbound_msg : Task F → List ℕ → OutboundMsg
  outbound_msg t bytes = record {
    src_ip = t.conn.tcb.local_ip;
    dst_ip = t.conn.tcb.remote_ip;
    tcp_bytes = bytes;
    ether_src = t.ether_src;
    ether_dst = t.ether_dst;
  }

  -- The checks behind the `select!`.
  unfoldable pub end_turn : Task F → ℕ → List (List ℕ) → List (List ℕ) → Turn F
  end_turn t now segments app_data =
      let (c, expired) = tick_time_wait t.conn now in
      record {
        task = record t { conn = c };
        outbound = map (outbound_msg t) segments;
        app_data = app_data;
        ended = expired || is_closed c.tcb.state;
      }

  -- A turn that sends the segments of one call.
  abbrev pub end_call : Task F → ℕ → Connection F × List (List ℕ) → Turn F
  end_call t now (c, segments) = end_turn (record t { conn = c }) now segments []

  unfoldable pub take_inbound : F64 F → Task F → ℕ → TcpSegment → Turn F
  take_inbound f t now seg =
      let (c1, reply) = process_segment f t.conn seg now in
      let (c2, chunks) = forward_received_data c1 in
      let (c3, segments) = flush_send_buf c2 now in
      end_turn (record t { conn = c3 }) now (to_list (sent reply) ++ segments) chunks

  -- The arm is disabled once the connection was asked to close.
  unfoldable pub take_close : Bool → Task F → ℕ → Turn F
  take_close true t now = end_call t now (t.conn, [])
  take_close false t now =
      let (c, fin) = initiate_close t.conn in
      end_call (record t { close_initiated = true }) now (c, to_list fin)

  unfoldable pub turn : F64 F → Task F → ℕ → TaskEvent → Turn F
  turn f t now (inbound none) = record { task = t; outbound = []; app_data = []; ended = true }
  turn f t now (inbound (some seg)) = take_inbound f t now seg
  turn f t now retransmit_tick = end_call t now (take_retransmits t.conn now)
  turn f t now zwp_tick =
      let (c, probe) = zero_window_probe t.conn in end_call t now (c, to_list probe)
  turn f t now (app_send bytes) = end_call t now (flush_send_buf (write_data t.conn bytes).0 now)
  turn f t now close = take_close t.close_initiated t now
