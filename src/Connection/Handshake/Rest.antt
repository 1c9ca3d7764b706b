-- ===== src/Connection/Handshake/Rest.antt =====
-- After the three-way handshake of magnum-tcp/src/tcp/connection.rs, bytes can go both ways.
use magnus_tcp.Base.{ℕ, ◌≡◌, refl, ap, List, [], arith}
use magnus_tcp.Float.{F64}
use magnus_tcp.Tcb.{Hasher, generate_isn, new_for_listen, new_for_connect}
use magnus_tcp.Retransmit
use magnus_tcp.SendBuffer
use magnus_tcp.RecvBuffer
use magnus_tcp.RecvBuffer.Delivery.{new-Tracks}
use magnus_tcp.Connection.{Connection, new, connect, current_window}
use magnus_tcp.Connection.Opening.{handle_listen}
use magnus_tcp.Connection.Handlers.{handle_in, process_segment}
use magnus_tcp.Connection.Handshake.{Ends, AreValid, client_established, server_established}
use magnus_tcp.Connection.Transfer.{InStep}
use magnus_tcp.Connection.Transfer.Duplex.{Idle}

module _ {F : Type 0} (f : F64 F) (hash : Hasher) (client_nanos server_nanos : ℕ) (e : Ends)
    (v : AreValid e) (t1 : ℕ) (stream stream' : List ℕ) where
  abbrev pub c : Connection F
  c = client_established f hash client_nanos server_nanos e v t1

  abbrev pub s : Connection F
  s = server_established f hash client_nanos server_nanos e v t1

  abbrev pub iss : ℕ
  iss = generate_isn hash client_nanos e.client_ip e.client_port e.server_ip e.server_port

  abbrev pub iss' : ℕ
  iss' = generate_isn hash server_nanos e.server_ip e.server_port e.client_ip e.client_port

  there : InStep iss stream [] c s
  unfolding connect new new_for_connect process_segment handle_in handle_listen new_for_listen
      RecvBuffer.new SendBuffer.new SendBuffer.acknowledge magnus_tcp.Ring.load_from current_window
      RecvBuffer.window
  there = record {
    rb = RecvBuffer.new iss;
    holds = refl;
    tracks = new-Tracks iss stream;
    in_order = refl;
    drained = refl;
    expects = refl;
    a_state = refl;
    b_state = refl;
    synced = record { valid = omega arith; una_same = refl; nxt_same = refl };
    idle = omega arith;
    next = refl;
    queued = refl;
    inside = omega arith;
    window = omega arith;
    steady = omega arith;
    b_acked = refl;
    a_expects = refl;
    fields_a = omega (arith, v);
    fields_b = omega (arith, v);
  }

  -- The acknowledgement of the SYN covers no byte.
  nothing_acked : s ≡ record s { send_buf = SendBuffer.new iss' }
  unfolding process_segment handle_in handle_listen new new_for_listen SendBuffer.new
      SendBuffer.acknowledge
  nothing_acked = ap (λ sb. record s { send_buf = sb }) (ground arith)

  back : InStep iss' stream' [] (record s { send_buf = SendBuffer.new iss' }) c
  unfolding connect new new_for_connect process_segment handle_in handle_listen new_for_listen
      RecvBuffer.new SendBuffer.new magnus_tcp.Ring.load_from current_window RecvBuffer.window
  back = record {
    rb = RecvBuffer.new iss';
    holds = refl;
    tracks = new-Tracks iss' stream';
    in_order = refl;
    drained = refl;
    expects = refl;
    a_state = refl;
    b_state = refl;
    synced = record { valid = omega arith; una_same = refl; nxt_same = refl };
    idle = omega arith;
    next = refl;
    queued = refl;
    inside = omega arith;
    window = omega arith;
    steady = omega arith;
    b_acked = refl;
    a_expects = refl;
    fields_a = omega (arith, v);
    fields_b = omega (arith, v);
  }

  -- The client may send as much as an empty receive buffer advertises.
  pub client_window : c.tcb.snd.wnd ≡ 65535
  unfolding process_segment handle_in handle_listen new new_for_listen current_window
      RecvBuffer.window RecvBuffer.new
  client_window = refl

  pub both-Idle : Idle iss iss' stream [] stream' [] c s
  unfolding connect new new_for_connect process_segment handle_in handle_listen new_for_listen
      RecvBuffer.new SendBuffer.new Retransmit.new
  both-Idle = record {
    there = there;
    back = rw nothing_acked back;
    a_empty = refl;
    b_empty = ap (λ z. z.send_buf.len) nothing_acked;
    a_quiet = refl;
    b_quiet = refl;
  }
