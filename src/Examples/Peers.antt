-- ===== src/Examples/Peers.antt =====
-- Two connections that talk to each other, on concrete inputs.
use magnus_tcp.Base.{
  ℕ, ◌+◌, ◌≡◌, refl, none, some, List, [], ◌∷◌, ◌++◌, leb, ◌-◌, ◌==◌, if◌then◌else◌, arith,
}
use magnus_tcp.Tcb.{established, close_wait, fin_wait_2, time_wait, closed}
use magnus_tcp.SendBuffer.Stream.{contents}
use magnus_tcp.RecvBuffer
use magnus_tcp.RecvBuffer.Delivery.{new-Tracks}
use magnus_tcp.Retransmit
use magnus_tcp.Connection.{Connection, ack_flags, two_msl}
use magnus_tcp.Connection.Run
use magnus_tcp.Connection.Run.{Request, Event, arrive, ask}
use magnus_tcp.Connection.Syncing.{IsOpenForData, Ordinary, run-IsOpenForData}
use magnus_tcp.Connection.Fields.{FitsTypes}
use magnus_tcp.Connection.Teardown.{ArePeers, four_way, teardown}
use magnus_tcp.Connection.Transfer.{InStep}
use magnus_tcp.Connection.Transfer.Lossy.{segments, answers, damaged, Loss, lossy_transfer}
use magnus_tcp.Connection.Transfer.Rests.{Rests}
use magnus_tcp.Connection.Transfer.Recovery.{lossy_transfer-delivers}
use magnus_tcp.Examples.{nanos, client_ip, server_ip, bare, conn, conn-IsSynced}

abbrev traffic : List Event
traffic =
    ask (Request.write (1 ∷ 2 ∷ []))
    ∷ ask (Request.send_next 1460 1)
    ∷ arrive (bare ack_flags 5003) 2
    ∷ ask (Request.retransmit 3)
    ∷ []

run-IsOpenForData_example : IsOpenForData (Run.run nanos conn traffic)
run-IsOpenForData_example =
    run-IsOpenForData nanos conn traffic
      (
        Ordinary.writes,
        (Ordinary.sends, (Ordinary.arrives (omega arith), (Ordinary.retransmits, tt))),
      )
      (record { synced = conn-IsSynced; open_state = refl })

-- A client that has sent nothing yet, and four bytes to send.
abbrev client : Connection ℕ
client = record {
  tcb = record {
    state = established;
    local_ip = client_ip;
    local_port = 12345;
    remote_ip = server_ip;
    remote_port = 80;
    snd = record { una = 1001; nxt = 1001; wnd = 1000; iss = 1000 };
    rcv = record { nxt = 5001; wnd = 65535; irs = 5000 };
    cwnd = 1460;
    ssthresh = 65535;
    dup_ack_count = 0;
  };
  send_buf = record { buf = λ i. i + 65; head = 0; len = 4; una = 1001; nxt = 1001 };
  recv_buf = some (RecvBuffer.new 5000);
  retransmit_queue = Retransmit.new nanos;
  time_wait_start = none;
}

-- Its server, all of whose bytes are acknowledged.
abbrev server : Connection ℕ
server = record {
  tcb = record (conn.tcb) { snd = record { una = 5001; nxt = 5001; wnd = 1000; iss = 5000 } };
  send_buf = record { buf = λ i. 0; head = 0; len = 0; una = 5001; nxt = 5001 };
  recv_buf = some (RecvBuffer.new 1000);
  retransmit_queue = Retransmit.new nanos;
  time_wait_start = none;
}

client-FitsTypes : FitsTypes client
client-FitsTypes = omega arith

server-FitsTypes : FitsTypes server
server-FitsTypes = omega arith

client-server-ArePeers : ArePeers client server
client-server-ArePeers = record {
  quiet_a = record { state_is = refl; all_acked = refl; fields = client-FitsTypes };
  quiet_b = record { state_is = refl; all_acked = refl; fields = server-FitsTypes };
  a_expects = refl;
  b_expects = refl;
}

teardown_example :
    let r = four_way nanos client server 1 2 3 4 60_000_000_003 in
    (r.b_after_fin.tcb.state ≡ close_wait)
    × (r.a_after_ack.tcb.state ≡ fin_wait_2)
    × (r.a_after_fin.tcb.state ≡ time_wait)
    × (r.b_after_ack.tcb.state ≡ closed)
    × (r.b_after_ack.tcb.snd.una ≡ r.b_after_ack.tcb.snd.nxt)
    × (r.replies ≡ none ∷ none ∷ [])
    × (r.expired ≡ leb two_msl (60_000_000_003 - 3))
    × (r.a_after_timer.tcb.state ≡ (if r.expired then closed else time_wait))
teardown_example = teardown nanos client server 1 2 3 4 60_000_000_003 client-server-ArePeers

-- "ABCD".
abbrev letters : List ℕ
letters = 65 ∷ 66 ∷ 67 ∷ 68 ∷ []

client-InStep : InStep 1000 letters [] client server
unfolding RecvBuffer.new magnus_tcp.Ring.load_from
client-InStep = record {
  rb = RecvBuffer.new 1000;
  holds = refl;
  tracks = new-Tracks 1000 letters;
  in_order = refl;
  drained = refl;
  expects = refl;
  a_state = refl;
  b_state = refl;
  synced = record { valid = omega arith; una_same = refl; nxt_same = refl };
  idle = refl;
  next = refl;
  queued = refl;
  inside = omega arith;
  window = omega arith;
  steady = omega arith;
  b_acked = refl;
  a_expects = refl;
  fields_a = client-FitsTypes;
  fields_b = server-FitsTypes;
}

-- The first round loses its segment, then an answer, and then gets a segment with another port; each
-- timer runs 5 ns late.
abbrev storm : ℕ → ℕ × List Loss
storm k =
    if k == 3
    then (
      100,
      record { lost = segments; late = 5 }
          ∷ record { lost = answers; late = 5 }
          ∷ record { lost = damaged 2 255; late = 5 }
          ∷ [],
    )
    else (200 - k, [])

lossy_transfer-delivers_example :
    let (got, a', b') = lossy_transfer nanos storm 4 client server in
    (got ≡ contents client.send_buf)
    × (contents a'.send_buf ≡ [])
    × Rests 1000 letters client server ([] ++ got) a' b'
unfolding Retransmit.new
lossy_transfer-delivers_example =
    lossy_transfer-delivers nanos 1000 letters [] (omega arith) (omega arith) storm 4 client server
      client-InStep refl (omega arith)
