-- ===== src/Connection/Handshake.antt =====
-- The three-way handshake between two connections of magnum-tcp/src/tcp/connection.rs, over the bytes
-- that they send.
use magnus_tcp.Base.{
  ℕ, true, ◌≡◌, refl, ◌∙◌, Option, none, some, List, ◌<◌, arith, IsU32, wrapping_add,
}
use magnus_tcp.Float.{F64}
use magnus_tcp.Net.{Ipv4Addr, IsAddr}
use magnus_tcp.Tcb.{Hasher, established, generate_isn, new_for_listen, new_for_connect}
use magnus_tcp.Header.{SegmentBuilder, build, new_builder, no_flags}
use magnus_tcp.Header.RoundTrip.{IsValid, segment_of}
use magnus_tcp.Connection.{
  Connection, new, connect, build_syn, build_syn_ack, build_ack, acking_builder, ack_flags,
  current_window,
}
use magnus_tcp.Connection.Opening.{handle_listen, handle_syn_sent, handle_syn_received}
use magnus_tcp.Connection.Handlers.{handle_in, process_segment}
use mathlib.Core.Option
use magnus_tcp.Connection.Exchange.{relay, deliver, deliver-build, ack_acceptable_next}
use magnus_tcp.SendBuffer
use magnus_tcp.RecvBuffer
use magnus_tcp.RecvBuffer.{RecvBuffer}
pub mod Rest

-- The two ends: what each needs to know to be made.
pub record Ends : Type 0 where
  pub client_ip : Ipv4Addr
  pub client_port : ℕ
  pub server_ip : Ipv4Addr
  pub server_port : ℕ

pub record AreValid (e : Ends) : Type 0 where
  pub client_addr : IsAddr e.client_ip
  pub client_u16 : e.client_port < 65536
  pub server_addr : IsAddr e.server_ip
  pub server_u16 : e.server_port < 65536

-- Any hasher, and the clock's nanoseconds at either end.
module _ {F : Type 0} (f : F64 F) (hash : Hasher) (client_nanos server_nanos : ℕ) (e : Ends) where
  open e use {client_ip, client_port, server_ip, server_port}

  abbrev pub client : Connection F
  client = new f (new_for_connect hash client_nanos client_ip client_port server_ip server_port)

  abbrev pub server : Connection F
  server = new f (new_for_listen hash server_nanos server_ip server_port client_ip client_port)

  -- The initial sequence numbers.
  abbrev pub x : ℕ
  x = generate_isn hash client_nanos client_ip client_port server_ip server_port

  abbrev pub y : ℕ
  y = generate_isn hash server_nanos server_ip server_port client_ip client_port

  x-IsU32 : IsU32 x
  unfolding generate_isn
  x-IsU32 = omega arith

  y-IsU32 : IsU32 y
  unfolding generate_isn
  y-IsU32 = omega arith

  abbrev pub syn : SegmentBuilder
  syn = record (new_builder client_ip server_ip client_port server_port) {
    seq = x;
    flags = record no_flags { syn = true };
  }

  -- The server once it has the SYN.
  abbrev pub server_syn_received : ℕ → Connection F
  server_syn_received now = (process_segment f server (segment_of syn) now).0

  module _ (v : AreValid e) where
    syn-IsValid : IsValid syn
    syn-IsValid = omega (arith, v, x-IsU32)

    client_syn : connect client ≡ ((connect client).0, some (build syn))
    unfolding connect new new_for_connect build_syn
    client_syn = refl

    abbrev syn_ack : ℕ → SegmentBuilder
    syn_ack now =
        acking_builder (server_syn_received now) y (record no_flags { syn = true; ack = true })

    server-syn_ack :
        (now : ℕ)
        → deliver f server (build syn) client_ip server_ip now
          ≡ (server_syn_received now, some (build (syn_ack now)))
    unfolding process_segment handle_in handle_listen new new_for_listen build_syn_ack
    server-syn_ack now = deliver-build f server syn now syn-IsValid

    syn_ack-IsValid : (now : ℕ) → IsValid (syn_ack now)
    unfolding process_segment handle_in handle_listen new new_for_listen current_window
        RecvBuffer.window RecvBuffer.new
    syn_ack-IsValid now = omega (arith, v, x-IsU32, y-IsU32)

    -- The client once it has the SYN-ACK.
    abbrev pub client_established : ℕ → Connection F
    client_established now = record (connect client).0 {
      recv_buf = some (RecvBuffer.new y);
      tcb = record ((connect client).0.tcb) {
        state = established;
        snd = record ((connect client).0.tcb.snd) {
          una = wrapping_add x 1;
          wnd = current_window (server_syn_received now);
        };
        rcv = record ((connect client).0.tcb.rcv) { irs = y; nxt = wrapping_add y 1 };
      };
    }

    abbrev ack : ℕ → SegmentBuilder
    ack now = acking_builder (client_established now) (wrapping_add x 1) ack_flags

    client_ack :
        (now later : ℕ)
        → deliver f (connect client).0 (build (syn_ack now)) server_ip client_ip later
          ≡ (client_established now, some (build (ack now)))
    unfolding process_segment handle_in handle_syn_sent handle_listen connect new new_for_listen
        new_for_connect build_ack
    client_ack now later =
        deliver-build f (connect client).0 (syn_ack now) later (syn_ack-IsValid now)
        ∙ rw (ack_acceptable_next x x-IsU32)

    ack-IsValid : (now : ℕ) → IsValid (ack now)
    unfolding connect new new_for_connect current_window RecvBuffer.window RecvBuffer.new
    ack-IsValid now = omega (arith, v, x-IsU32, y-IsU32)

    -- The server once it has the client's acknowledgement.
    abbrev pub server_established : ℕ → Connection F
    server_established now =
        let s = server_syn_received now in
        record s {
          send_buf = SendBuffer.acknowledge s.send_buf (wrapping_add y 1);
          tcb = record (s.tcb) {
            state = established;
            snd = record (s.tcb.snd) {
              una = wrapping_add y 1;
              wnd = current_window (client_established now);
            };
          };
        }

    server_done :
        (now last : ℕ)
        → deliver f (server_syn_received now) (build (ack now)) client_ip server_ip last
          ≡ (server_established now, none)
    unfolding process_segment handle_in handle_syn_received handle_listen connect new new_for_listen
        new_for_connect
    server_done now last =
        deliver-build f (server_syn_received now) (ack now) last (ack-IsValid now)
        ∙ rw (ack_acceptable_next y y-IsU32)

  -- The client opens, and each side is handed what the other sends, at the three instants given.
  -- The result is the client, the server, and what the server sends at the end.
  unfoldable pub three_way : ℕ → ℕ → ℕ → Connection F × Connection F × Option (List ℕ)
  three_way t1 t2 t3 =
      let (c1, m1) = connect client in
      let (s1, m2) = relay f server m1 client_ip server_ip t1 in
      let (c2, m3) = relay f c1 m2 server_ip client_ip t2 in
      let (s2, m4) = relay f s1 m3 client_ip server_ip t3 in (c2, s2, m4)

  pub three_way-eq :
      (v : AreValid e) (t1 t2 t3 : ℕ)
      → three_way t1 t2 t3 ≡ (client_established v t1, server_established v t1, none)
  unfolding three_way
  three_way-eq v t1 t2 t3 =
      rw (client_syn v, server-syn_ack v t1, client_ack v t1 t2, server_done v t1 t3)

-- One side is established and has nothing outstanding, and expects what the other sends next.
pub record IsOpen {F : Type 0} (a b : Connection F) : Type 0 where
  pub is_established : a.tcb.state ≡ established
  pub all_acked : a.tcb.snd.una ≡ a.tcb.snd.nxt
  pub expects : a.tcb.rcv.nxt ≡ b.tcb.snd.nxt
  pub buffer_expects : Option.map (λ rb. rb.nxt) a.recv_buf ≡ some b.tcb.snd.nxt

-- For any two addresses and ports that fit their types, any hasher and any clock: the three segments
-- that a client and a listening server of this code send each other, as bytes, bring both to
-- ESTABLISHED with nothing outstanding, each expecting the other's next byte, and nothing more is
-- sent.
pub handshake :
    {F : Type 0} (f : F64 F) (hash : Hasher) (client_nanos server_nanos : ℕ) (e : Ends)
    → AreValid e
    → (t1 t2 t3 : ℕ)
    → let (c, s, last) = three_way f hash client_nanos server_nanos e t1 t2 t3 in
      IsOpen c s × IsOpen s c × (last ≡ none)
unfolding connect new new_for_connect process_segment handle_in handle_listen new_for_listen
    RecvBuffer.new
handshake f hash client_nanos server_nanos e v t1 t2 t3 =
    rw (three_way-eq f hash client_nanos server_nanos e v t1 t2 t3) (
      record { is_established = refl; all_acked = refl; expects = refl; buffer_expects = refl },
      record { is_established = refl; all_acked = refl; expects = refl; buffer_expects = refl },
      refl,
    )
