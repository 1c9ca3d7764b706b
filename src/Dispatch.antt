-- ===== src/Dispatch.antt =====
-- The demultiplexers of magnum-tcp/src/tcp/mod.rs and listener.rs: `Stack`, which runs connections in
-- place, and `AsyncDispatch`, which hands segments to tasks. A hash map is a function.
use magnus_tcp.Base.{ℕ, Bool, true, false, not, ◌&&◌, Option, none, some, ◌==◌, if◌then◌else◌, List}
use magnus_tcp.Float.{F64}
use magnus_tcp.Net.{Ipv4Addr, MacAddr}
use magnus_tcp.Tcb.{Hasher, new_for_listen}
use magnus_tcp.Header.{TcpSegment}
use magnus_tcp.Connection
use magnus_tcp.Connection.{Connection}
use magnus_tcp.Connection.Steps.{Reply}
use magnus_tcp.Connection.Handlers.{process_segment}
use magnus_tcp.Connection.Exchange.{sent}
use magnus_tcp.Task.{Task}
pub mod Laws
pub mod Spawning

pub record FourTuple : Type 0 where
  pub remote_ip : Ipv4Addr
  pub remote_port : ℕ
  pub local_ip : Ipv4Addr
  pub local_port : ℕ

abbrev pub same_addr : Ipv4Addr → Ipv4Addr → Bool
same_addr a b = a.b0 == b.b0 && (a.b1 == b.b1 && (a.b2 == b.b2 && a.b3 == b.b3))

unfoldable pub same_tuple : FourTuple → FourTuple → Bool
same_tuple a b =
    same_addr a.remote_ip b.remote_ip
    && (a.remote_port == b.remote_port
        && (same_addr a.local_ip b.local_ip && a.local_port == b.local_port))

-- `HashMap<FourTuple, V>`.
abbrev pub TupleMap {ℓ} : Type ℓ → Type ℓ
TupleMap V = FourTuple → Option V

unfoldable pub insert {ℓ} : {V : Type ℓ} → TupleMap V → FourTuple → V → TupleMap V
insert m key v k = if same_tuple key k then some v else m k

unfoldable pub remove {ℓ} : {V : Type ℓ} → TupleMap V → FourTuple → TupleMap V
remove m key k = if same_tuple key k then none else m k

abbrev pub contains_key {ℓ} : {V : Type ℓ} → Option V → Bool
contains_key none = false
contains_key (some v) = true

pub record Listener : Type 0 where
  pub port : ℕ

unfoldable pub new_listener : ℕ → Listener
new_listener port = record { port = port }

-- The key of a segment.
unfoldable pub tuple_of : Ipv4Addr → Ipv4Addr → TcpSegment → FourTuple
tuple_of remote_ip local_ip seg = record {
  remote_ip = remote_ip;
  remote_port = seg.header.src_port;
  local_ip = local_ip;
  local_port = seg.header.dst_port;
}

-- `seg.header.flags.syn && !seg.header.flags.ack`.
abbrev pub opens : TcpSegment → Bool
opens seg = seg.header.flags.syn && not seg.header.flags.ack

-- `Connection::new(Tcb::new_for_listen(..))`.
unfoldable pub listening :
    {F : Type 0} → F64 F → Hasher → ℕ → Ipv4Addr → Ipv4Addr → TcpSegment → Connection F
listening f hash nanos remote_ip local_ip seg =
    Connection.new f
      (new_for_listen hash nanos local_ip seg.header.dst_port remote_ip seg.header.src_port)

pub record OutboundPacket : Type 0 where
  pub src_ip : Ipv4Addr
  pub dst_ip : Ipv4Addr
  pub tcp_bytes : List ℕ

pub record Stack (F : Type 0) : Type 0 where
  pub listeners : ℕ → Option Listener
  pub connections : TupleMap (Connection F)

module _ {F : Type 0} where
  unfoldable pub new_stack : Stack F
  new_stack = record { listeners = λ p. none; connections = λ k. none }

  unfoldable pub listen_stack : Stack F → ℕ → Stack F
  listen_stack s port = record s {
    listeners = λ p. if port == p then some (new_listener port) else s.listeners p;
  }

  -- The connection takes the segment, and its answer becomes a packet.
  unfoldable pub process_at :
      F64 F
      → Stack F
      → ℕ
      → Ipv4Addr
      → Ipv4Addr
      → TcpSegment
      → Connection F
      → Stack F × Option OutboundPacket
  process_at f s now remote_ip local_ip seg conn =
      let (conn', reply) = process_segment f conn seg now in
      let s' : Stack F = record s {
        connections = insert s.connections (tuple_of remote_ip local_ip seg) conn';
      } in
      elim (sent reply) [
        | none ↦ (s', none)
        | some bytes ↦
            (s', some (record { src_ip = local_ip; dst_ip = remote_ip; tcp_bytes = bytes }))
      ]

  unfoldable pub process :
      F64 F
      → Hasher
      → (nanos : ℕ) → Stack F
      → (now : ℕ) → Ipv4Addr
      → Ipv4Addr
      → TcpSegment
      → Stack F × Option OutboundPacket
  process f hash nanos s now remote_ip local_ip seg =
      elim (s.connections (tuple_of remote_ip local_ip seg)) [
        | some conn ↦ process_at f s now remote_ip local_ip seg conn
        | none ↦
            if opens seg && contains_key (s.listeners seg.header.dst_port)
            then process_at f s now remote_ip local_ip seg
                (listening f hash nanos remote_ip local_ip seg)
            else (s, none)
      ]

-- The bounded channels of the asynchronous runtime: a parameter of the model. `try_send` gives
-- nothing if the channel is full or its receiver is gone.
pub record Channels (C : Type 0) : Type 0 where
  pub channel : (capacity : ℕ) → C
  pub try_send : C → TcpSegment → Option C

pub record AsyncDispatch (C : Type 0) : Type 0 where
  pub listeners : ℕ → Bool
  pub channels : TupleMap C

-- The task that `dispatch` spawns, and the key of the handle that it returns.
pub record Spawned (F : Type 0) : Type 0 where
  pub key : FourTuple
  pub task : Task F

module _ {C : Type 0} where
  unfoldable pub new_dispatch : AsyncDispatch C
  new_dispatch = record { listeners = λ p. false; channels = λ k. none }

  unfoldable pub listen : AsyncDispatch C → ℕ → AsyncDispatch C
  listen d port = record d { listeners = λ p. if port == p then true else d.listeners p }

  -- The segment goes to the task of its key; a channel that does not take it is forgotten.
  unfoldable pub forward :
      Channels C → AsyncDispatch C → FourTuple → C → TcpSegment → AsyncDispatch C
  forward ch d key tx seg = elim (ch.try_send tx seg) [
    | none ↦ record d { channels = remove d.channels key }
    | some tx' ↦ record d { channels = insert d.channels key tx' }
  ]

  unfoldable pub dispatch :
      {F : Type 0}
      → F64 F
      → Hasher
      → (nanos : ℕ) → Channels C
      → AsyncDispatch C
      → Ipv4Addr
      → Ipv4Addr
      → MacAddr
      → MacAddr
      → TcpSegment
      → AsyncDispatch C × Option (Spawned F)
  dispatch f hash nanos ch d remote_ip local_ip ether_src ether_dst seg =
      let key = tuple_of remote_ip local_ip seg in
      elim (d.channels key) [
        | some tx ↦ (forward ch d key tx seg, none)
        | none ↦
            if opens seg && d.listeners seg.header.dst_port
            then (
              record d { channels = insert d.channels key (ch.channel 64) },
              some (record {
                key = key;
                task = record {
                  conn = listening f hash nanos remote_ip local_ip seg;
                  ether_src = ether_src;
                  ether_dst = ether_dst;
                  close_initiated = false;
                };
              }),
            )
            else (d, none)
      ]
