-- ===== src/Examples/Connections.antt =====
-- A connection on concrete inputs.
use magnus_tcp.Base.{
  ℕ, wrapping_sub, ◌<◌, ◌≡◌, ◌≢◌, ◌⊎◌, refl, true, Option, none, some, List, [], ◌∷◌, arith,
}
use magnus_tcp.Tcb.{TcbState, ack_acceptable, seq_lt, seq_le}
use magnus_tcp.Header.{TcpSegment, TcpFlags, no_flags}
use magnus_tcp.Header.RoundTrip.{segment_of}
use magnus_tcp.RecvBuffer
use magnus_tcp.Connection
use magnus_tcp.Connection.{
  Connection, ack_flags, data_flags, data_segment, next_segment_to_send, set_state, build_ack,
  initiate_close, acking_builder, zero_window_probe, set_snd_nxt,
}
use magnus_tcp.Connection.Steps.{answer, silence}
use magnus_tcp.Connection.Established.{handle_established, established_ack, grown_cwnd}
use magnus_tcp.Connection.Handlers.{process_segment}
use magnus_tcp.Connection.Run
use magnus_tcp.Connection.Run.{Request, Event, arrive, ask, serve}
use magnus_tcp.Connection.Congestion.{IsSteady, run-IsSteady}
use magnus_tcp.Connection.Graph.{MoveOn, process_segment-MoveOn}
use magnus_tcp.Connection.Sending.{HasSent, to_send, flow_control}
use magnus_tcp.Connection.Handshake.{Ends, IsOpen, three_way, handshake}
use magnus_tcp.Connection.Divergences.{fin_taken_for_acked, fin_skips_gap, fin_at, fin_before_data}
use magnus_tcp.Examples.{
  nanos, hasher, client_ip, server_ip, hello_builder, conn, conn-IsSynced, bare,
}

abbrev ends : Ends
ends = record {
  client_ip = client_ip;
  client_port = 12345;
  server_ip = server_ip;
  server_port = 80;
}

handshake_example :
    let (c, s, last) = three_way nanos hasher 7 8 ends 10 20 30 in
    IsOpen c s × IsOpen s c × (last ≡ none)
handshake_example = handshake nanos hasher 7 8 ends (omega arith) 10 20 30

flow_control_example :
    let (c', segment) = next_segment_to_send conn 1460 5 in
    ((to_send conn 1460 ≡ 0) × (c' ≡ conn) × (segment ≡ none))
    ⊎ ((bytes : List ℕ) × HasSent conn c' 1460 bytes
        × (segment ≡ some (data_segment c' 5003 data_flags bytes)))
flow_control_example = flow_control conn 1460 5 conn-IsSynced

-- Two bytes are sent.
sends_two : to_send conn 1460 ≡ 2
sends_two = refl

abbrev events : List Event
events =
    arrive (bare ack_flags 5001) 1
    ∷ arrive (bare ack_flags 5001) 2
    ∷ arrive (bare ack_flags 5001) 3
    ∷ ask (Request.retransmit 4)
    ∷ arrive (bare ack_flags 5003) 5
    ∷ []

run-IsSteady_example : IsSteady (Run.run nanos conn events).tcb
run-IsSteady_example = run-IsSteady nanos conn events (omega arith)

abbrev fin_flags : TcpFlags
fin_flags = record no_flags { fin = true; ack = true }

process_segment-MoveOn_example :
    MoveOn fin_flags TcbState.established
      (process_segment nanos conn (bare fin_flags 5003) 5).0.tcb.state
process_segment-MoveOn_example = process_segment-MoveOn nanos conn (bare fin_flags 5003) 5

-- Of the bytes 5000 to 5002 the last is not acknowledged, and neither is the FIN, which is 5003.
abbrev half_closed : Connection ℕ
half_closed = set_state conn TcbState.close_wait

fin_taken_for_acked_example :
    let (c', fin) = initiate_close half_closed in
    let (c'', reply) = process_segment nanos c' (bare ack_flags 5002) 5 in
    (fin ≡ some (fin_at half_closed 5003))
    × (c'.tcb.state ≡ TcbState.last_ack)
    × (c''.tcb.state ≡ TcbState.closed)
    × (reply ≡ silence)
    × (c''.tcb.snd.nxt ≡ 5004)
    × (c''.tcb.snd.una ≡ 5002)
    × (0 < wrapping_sub c''.tcb.snd.nxt c''.tcb.snd.una)
unfolding ack_acceptable seq_lt seq_le
fin_taken_for_acked_example =
    fin_taken_for_acked nanos half_closed (bare ack_flags 5002) 5 refl (omega arith) (omega arith)
      (omega arith) (omega arith) refl refl refl

-- A FIN that comes ahead of bytes that are missing.
abbrev early_fin : TcpSegment
early_fin = segment_of (record hello_builder { seq = 1006; flags = fin_flags; payload = [] })

fin_skips_gap_example :
    let (c', reply) = handle_established nanos conn early_fin 5 in
    (c'.tcb.state ≡ TcbState.close_wait)
    × (reply ≡ answer (build_ack c'))
    × (c'.tcb.rcv.nxt ≡ 1007)
    × (c'.tcb.rcv.nxt ≢ 1002)
    × (c'.recv_buf ≡ some (RecvBuffer.new 1000))
unfolding established_ack ack_acceptable seq_lt seq_le RecvBuffer.new
    magnus_tcp.Connection.Established.dup_ack
fin_skips_gap_example =
    fin_skips_gap nanos conn early_fin 5 (RecvBuffer.new 1000) refl refl refl refl refl
      (omega arith) (omega arith) (omega arith)

-- The two unsent bytes are sent behind the FIN.
abbrev behind : Connection ℕ × Option (List ℕ)
behind = next_segment_to_send (initiate_close conn).0 1460 5

fin_before_data_example :
    ((initiate_close conn).1 ≡ some (fin_at conn 5003))
    × ((initiate_close conn).0.tcb.state ≡ TcbState.fin_wait_1)
    × ((payload : List ℕ) × (data_segment behind.0 5003 data_flags (67 ∷ 68 ∷ [])
          ≡ data_segment behind.0 5003 data_flags payload))
unfolding initiate_close Connection.close_in Connection.send_fin next_segment_to_send
    Connection.send_segment magnus_tcp.SendBuffer.next_segment magnus_tcp.Ring.load_from
fin_before_data_example = fin_before_data conn 1460 5 _ conn-IsSynced refl refl
