-- ===== src/Examples/Tasks.antt =====
-- The task, the demultiplexers, the node and the fault injector on concrete inputs.
use magnus_tcp.Base.{
  ℕ, ◌≡◌, ◌≢◌, ap, refl, true, false, Option, none, some, List, [], ◌∷◌, ◌++◌, arith, length, ltb,
  if◌then◌else◌,
}
use magnus_tcp.Header.{TcpSegment, build, no_flags, new_builder, SegmentBuilder}
use magnus_tcp.Header.RoundTrip.{segment_of}
use magnus_tcp.Task.{Task, inbound, flush_send_buf}
use magnus_tcp.Task.Flush.{HasFlushed, flush_send_buf-HasFlushed}
use magnus_tcp.Task.{TaskEvent}
use magnus_tcp.Task.Session.{OfStream, Receives, run_turns, session-prefix}
use magnus_tcp.Base.{◌+◌, ◌%◌, u32_mod, take}
use magnus_tcp.Task.Deliver.{flat}
use magnus_tcp.Retransmit.{is_nil}
use magnus_tcp.RecvBuffer
use magnus_tcp.RecvBuffer.Delivery.{new-Tracks}
use magnus_tcp.Dispatch
use magnus_tcp.Dispatch.{
  FourTuple, Stack, Channels, AsyncDispatch, Spawned, opens, tuple_of, same_tuple, listening,
  process, dispatch, new_stack, listen_stack, new_dispatch, listen,
}
use magnus_tcp.Dispatch.Spawning.{Dispatched, dispatch_lem, second_syn_opens}
use magnus_tcp.Tcb.{TcbState}
use magnus_tcp.Connection.{build_syn_ack}
use magnus_tcp.Connection.Steps.{answer}
use magnus_tcp.Connection.Handlers.{process_segment}
use magnus_tcp.Node.{frame_outbound, inbound_dispatch}
use magnus_tcp.Node.Wire.{message, inbound_dispatch-frame_outbound}
use magnus_tcp.Chaos
use magnus_tcp.Chaos.{ChaosMiddleware}
use magnus_tcp.Chaos.Laws.{Conserves, intercept-Conserves}
use magnus_tcp.Examples.{
  nanos, hasher, client_ip, server_ip, client_mac, server_mac, hello, hello_builder,
  hello_builder-IsValid, conn, conn-IsSynced,
}

flush_send_buf-HasFlushed_example : HasFlushed conn (flush_send_buf conn 5).0
flush_send_buf-HasFlushed_example = flush_send_buf-HasFlushed conn 5 conn-IsSynced

abbrev task : Task ℕ
task = record {
  conn = conn;
  ether_src = server_mac;
  ether_dst = client_mac;
  close_initiated = false;
}

-- The client's SYN.
abbrev syn_builder : SegmentBuilder
syn_builder = record (new_builder client_ip server_ip 12345 80) {
  seq = 1000;
  flags = record no_flags { syn = true };
}

abbrev syn : TcpSegment
syn = segment_of syn_builder

abbrev stack : Stack ℕ
stack = listen_stack new_stack 80

abbrev key : FourTuple
key = tuple_of client_ip server_ip syn

-- The same client from another port.
abbrev other_key : FourTuple
other_key = record {
  remote_ip = client_ip;
  remote_port = 12346;
  local_ip = server_ip;
  local_port = 80;
}

-- Channels as the lists of what they hold, of two segments at most.
abbrev channels : Channels (List TcpSegment)
channels = record {
  channel = λ capacity. [];
  try_send = λ c seg. if ltb (length c) 2 then some (c ++ seg ∷ []) else none;
}

abbrev dispatcher : AsyncDispatch (List TcpSegment)
dispatcher = listen new_dispatch 80

abbrev dispatched : AsyncDispatch (List TcpSegment) × Option (Spawned ℕ)
dispatched =
    dispatch nanos hasher 7 channels dispatcher client_ip server_ip server_mac client_mac syn

key_differs : other_key ≢ key
unfolding tuple_of
key_differs h = omega (arith, ap (λ k. k.remote_port) h)

dispatch_lem_example :
    (dispatched.0.channels other_key ≡ none)
    × Dispatched nanos hasher 7 channels dispatcher client_ip server_ip server_mac client_mac syn
        dispatched.0 dispatched.1
unfolding tuple_of listen new_dispatch
dispatch_lem_example =
    dispatch_lem nanos hasher 7 channels dispatcher client_ip server_ip server_mac client_mac syn
      other_key key_differs

abbrev dispatched_again : AsyncDispatch (List TcpSegment) × Option (Spawned ℕ)
dispatched_again =
    dispatch nanos hasher 7 channels dispatched.0 client_ip server_ip server_mac client_mac syn

second_syn_opens_example :
    (dispatched.0.channels key ≡ some [])
    × (dispatched_again.0.channels key ≡ some (syn ∷ []))
    × (dispatched_again.1 ≡ none)
    × ((t : Task ℕ) × (dispatched.1 ≡ some (record { key = key; task = t }))
        × (let (c', reply) = process_segment nanos t.conn syn 5 in
            (c'.tcb.state ≡ TcbState.syn_received)
            × (c'.tcb.rcv.nxt ≡ 1001)
            × (reply ≡ answer (build_syn_ack c'))))
unfolding tuple_of listen new_dispatch
second_syn_opens_example =
    second_syn_opens nanos hasher 7 channels dispatcher client_ip server_ip server_mac client_mac
      syn 5 refl refl refl refl refl

-- The SYN is taken, and the new channel is empty.
first_syn_lost : dispatched.0.channels key ≡ some []
unfolding dispatch listen new_dispatch Dispatch.insert tuple_of same_tuple
first_syn_lost = refl

inbound_dispatch-frame_outbound_example :
    inbound_dispatch nanos hasher 7 channels dispatcher server_ip server_mac
      (frame_outbound (message hello_builder client_mac server_mac))
    ≡ (let (d', spawned) =
          dispatch nanos hasher 7 channels dispatcher client_ip server_ip server_mac client_mac
            (segment_of hello_builder) in
        record { state = d'; spawned = spawned; reply = none })
unfolding build magnus_tcp.Header.segment_bytes
inbound_dispatch-frame_outbound_example =
    inbound_dispatch-frame_outbound nanos hasher 7 channels dispatcher server_ip server_mac
      hello_builder client_mac server_mac hello_builder-IsValid (omega arith)

-- One packet waits until the instant 10, and another is let through.
abbrev chaos : ChaosMiddleware ℕ
chaos = record {
  config = record { drop_rate = 0; reorder_rate = 0; max_jitter_ms = 0 };
  pending = record { packet = 1 ∷ []; release = 10 } ∷ [];
  rng = 0x1234_5678_9abc_def0;
}

intercept-Conserves_example : Conserves chaos hello 5 (Chaos.intercept nanos chaos hello 5)
intercept-Conserves_example = intercept-Conserves nanos chaos hello 5

-- "lo", which comes ahead of "hel".
abbrev last_two : TcpSegment
last_two = segment_of (record hello_builder { seq = 1004; payload = 108 ∷ 111 ∷ [] })

abbrev whole : TcpSegment
whole = segment_of hello_builder

abbrev session : List (ℕ × TaskEvent)
session =
    (5, inbound (some last_two)) ∷ (6, TaskEvent.retransmit_tick) ∷ (7, inbound (some whole)) ∷ []

session-prefix_example :
    let (t', chunks) = run_turns nanos task session in
    let all = [] ++ flat chunks in
    (all ≡ take (length all) hello)
    × (t'.conn.tcb.rcv.nxt ≡ (1000 + 1 + length all) % u32_mod)
    × Receives 1000 hello all t'.conn
unfolding is_nil RecvBuffer.new
session-prefix_example =
    session-prefix nanos 1000 hello [] task session (omega arith)
      (
        OfStream.carries (record { off = 3; numbered = refl; inside = omega arith; same = refl })
            refl refl refl,
        (
          OfStream.retransmits,
          (
            OfStream.carries
                (record { off = 0; numbered = refl; inside = omega arith; same = refl }) refl refl
                refl,
            tt,
          ),
        ),
      )
      (record {
        delivered = record {
          acknowledges = record {
            rb = RecvBuffer.new 1000;
            holds = refl;
            tracks = new-Tracks 1000 hello;
            next = refl;
          };
          drained = refl;
        };
        state_is = refl;
      })
