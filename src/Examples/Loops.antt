-- ===== src/Examples/Loops.antt =====
-- The node's event loop, and the server of a connection, on concrete events.
use magnus_tcp.Base.{
  ℕ, ◌≡◌, refl, false, none, some, List, [], ◌∷◌, ◌++◌, length, ltb, if◌then◌else◌, arith,
}
use magnus_tcp.Header.{TcpSegment}
use magnus_tcp.Task.{inbound, turn}
use magnus_tcp.Dispatch.{Channels, new_dispatch, listen}
use magnus_tcp.Connection.{ack_flags}
use magnus_tcp.Pcap
use magnus_tcp.Tun.{done, failed}
use magnus_tcp.Text.{codes, has_window, starts_with}
use magnus_tcp.Node.{inbound_dispatch, frame_outbound}
use magnus_tcp.Node.Loop.{Platform, NodeState, NodeEvent, readable}
use magnus_tcp.Node.Loop.Capture.{passing}
use magnus_tcp.Node.Http.{fresh, is_http, take_chunk}
use magnus_tcp.Node.Http.Server.{
  Served, ServedRun, rests, goes_on, takes, handles, segment, after_turn, NeverCloses,
  served-NeverCloses,
}
use magnus_tcp.Examples.{
  nanos, hasher, server_ip, client_mac, server_mac, conn, conn-IsSynced, bare,
}

-- Two segments fit.
abbrev channels : Channels (List TcpSegment)
channels = record {
  channel = λ capacity. [];
  try_send = λ c seg. if ltb (length c) 2 then some (c ++ seg ∷ []) else none;
}

abbrev tap : Platform ℕ (List TcpSegment)
tap = record {
  inbound = λ d raw. inbound_dispatch nanos hasher 7 channels d server_ip server_mac raw;
  frame = frame_outbound;
  would_block = 11;
}

abbrev node : NodeState ℕ (List TcpSegment)
node = record {
  dispatch = listen new_dispatch 80;
  capture = some (Pcap.new Pcap.linktype_ethernet);
  chaos = none;
}

-- A frame that is too short, a read that would block, an empty one, and a broken one.
abbrev events : List NodeEvent
events =
    readable (done (1 ∷ 2 ∷ [])) 1_000_000
    ∷ readable (failed 11) 1_000_001
    ∷ readable (done []) 1_000_002
    ∷ readable (failed 5) 1_000_003
    ∷ readable (done (3 ∷ [])) 1_000_004
    ∷ []

-- One frame passes.
one_passes : length (passing tap events) ≡ 1
unfolding passing magnus_tcp.Retransmit.is_nil
one_passes = refl

abbrev served : Served ℕ
served = record {
  task = record {
    conn = conn;
    ether_src = server_mac;
    ether_dst = client_mac;
    close_initiated = false;
  };
  ended = false;
  data_channel = codes "GET " ∷ [];
  send_channel = [];
  close_channel = false;
  serving = fresh;
}

-- The handler takes the chunk, and the peer acknowledges.
abbrev taken : Served ℕ
taken = record served {
  data_channel = [];
  serving = record { request_buf = codes "GET "; responded = false };
}

abbrev later : Served ℕ
later = after_turn taken (turn nanos taken.task 5 (inbound (some (bare ack_flags 5003))))

served_run : ServedRun nanos served later
unfolding take_chunk is_http has_window starts_with magnus_tcp.Retransmit.is_nil
served_run =
    goes_on (goes_on (rests served) (handles served (codes "GET ") [] 0 refl))
      (takes taken 5 (inbound (some (bare ack_flags 5003))) refl (segment (omega arith)))

served-NeverCloses_example : NeverCloses later
served-NeverCloses_example =
    served-NeverCloses nanos served_run (record { synced = conn-IsSynced; open_state = refl }) refl
