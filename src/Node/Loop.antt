-- ===== src/Node/Loop.antt =====
-- The event loop of `run` of magnum-tcp/src/main.rs: what the node does with what it reads from the
-- device and with the messages of its tasks. What it writes to the device is listed; whether a write
-- succeeds makes no difference to it.
use magnus_tcp.Base.{
  ℕ, Bool, true, false, Option, none, some, List, [], ◌∷◌, ◌++◌, ◌==◌, if◌then◌else◌,
}
use magnus_tcp.Float.{F64}
use magnus_tcp.Retransmit.{is_nil}
use magnus_tcp.Task.{OutboundMsg, to_list}
use magnus_tcp.Dispatch.{AsyncDispatch, Spawned}
use magnus_tcp.Chaos.{ChaosMiddleware, intercept}
use magnus_tcp.Pcap
use magnus_tcp.Tun.{Io, done, failed}
use magnus_tcp.Node.{Outcome}
pub mod Capture

-- What differs between the systems: `inbound_dispatch` with the node's addresses, `frame_outbound`, and
-- the error of a read that would block.
pub record Platform (F C : Type 0) : Type 0 where
  pub inbound : AsyncDispatch C → (raw : List ℕ) → Outcome F C
  pub frame : OutboundMsg → List ℕ
  pub would_block : ℕ

-- `dispatch`, the bytes given to `pcap_writer`, and `chaos`.
pub record NodeState (F C : Type 0) : Type 0 where
  pub dispatch : AsyncDispatch C
  pub capture : Option (List ℕ)
  pub chaos : Option (ChaosMiddleware F)

-- The device can be read, and `try_recv_nb` gives `got`; or a task sends. `micros` is the time of the
-- day, and `now` the instant on the monotonic clock.
pub data NodeEvent : Type 0 where
  readable : (got : Io (List ℕ)) → (micros : ℕ) → NodeEvent
  outbound : OutboundMsg → (now micros : ℕ) → NodeEvent

pub record NodeTurn (F C : Type 0) : Type 0 where
  pub node : NodeState F C
  pub written : List (List ℕ)
  pub spawned : List (Spawned F)
  pub broken : Bool  -- the loop is left

-- What the second arm writes of a framed message.
unfoldable pub through_chaos :
    {F : Type 0}
    → F64 F
    → Option (ChaosMiddleware F)
    → List ℕ
    → ℕ
    → Option (ChaosMiddleware F) × List (List ℕ)
through_chaos f none framed now = (none, framed ∷ [])
through_chaos f (some c) framed now =
    let (c', packets) = intercept f c framed now in (some c', packets)

module _ {F C : Type 0} where
  unfoldable pub captured : NodeState F C → ℕ → List ℕ → NodeState F C
  captured n micros packet = record n {
    capture = elim n.capture [
      | none ↦ none
      | some file ↦ some (Pcap.write_packet file micros packet)
    ];
  }

  abbrev pub at_rest : NodeState F C → Bool → NodeTurn F C
  at_rest n broken = record { node = n; written = []; spawned = []; broken = broken }

  -- The first arm of `select!`.
  unfoldable pub take_read : Platform F C → NodeState F C → Io (List ℕ) → ℕ → NodeTurn F C
  take_read p n (failed e) micros = at_rest n (if e == p.would_block then false else true)
  take_read p n (done raw) micros =
      let n' = captured n micros raw in
      let o = p.inbound n'.dispatch raw in
      if is_nil raw then at_rest n false else record {
        node = record n' { dispatch = o.state };
        written = to_list o.reply;
        spawned = to_list o.spawned;
        broken = false;
      }

  -- The second arm.
  unfoldable pub take_outbound :
      F64 F → Platform F C → NodeState F C → OutboundMsg → (now micros : ℕ) → NodeTurn F C
  take_outbound f p n msg now micros =
      let framed = p.frame msg in
      let n' = captured n micros framed in
      let (chaos, packets) = through_chaos f n'.chaos framed now in
      record { node = record n' { chaos = chaos }; written = packets; spawned = []; broken = false }

  unfoldable pub node_turn : F64 F → Platform F C → NodeState F C → NodeEvent → NodeTurn F C
  node_turn f p n (readable got micros) = take_read p n got micros
  node_turn f p n (outbound msg now micros) = take_outbound f p n msg now micros

  -- The loop, up to the end of the events or the error that ends it.
  unfoldable pub run_loop : F64 F → Platform F C → NodeState F C → List NodeEvent → NodeTurn F C
  run_loop f p n [] = at_rest n false
  run_loop f p n (e ∷ events) =
      let t = node_turn f p n e in
      let rest = run_loop f p t.node events in
      if t.broken then t else record {
        node = rest.node;
        written = t.written ++ rest.written;
        spawned = t.spawned ++ rest.spawned;
        broken = rest.broken;
      }
