-- ===== src/Connection/Transfer/Duplex.antt =====
-- Two connections of magnum-tcp/src/tcp/connection.rs that send each other bytes in turn.
use magnus_tcp.Base.{
  ℕ, ◌≤◌, ◌<◌, ◌≡◌, sym, ap, ◌∙◌, inl, inr, List, [], ◌++◌, arith, All, length, take, drop,
  length-drop, Bool-cases, ◌==◌, take_all,
}
use magnus_tcp.Float.{F64}
use magnus_tcp.Net.{IsByte}
use magnus_tcp.Retransmit.{mss}
use magnus_tcp.Ring.Laws.{load_from-none}
use magnus_tcp.SendBuffer.{send_buf_size, write}
use magnus_tcp.SendBuffer.Stream.{contents, write_lem, length-contents}
use magnus_tcp.Connection.{Connection, write_data}
use magnus_tcp.Connection.Sending.{to_send, write_data-IsSynced}
use magnus_tcp.Connection.Transfer.{InStep}
use magnus_tcp.Connection.Transfer.Lossy.{Loss, lossy_round}
use magnus_tcp.Connection.Transfer.Rests.{Keeps, Rests}
use magnus_tcp.Connection.Transfer.Recovery.{length-delivered, lossy_round-Advances}

-- Two connections with both directions at rest and nothing queued.
pub record Idle {F : Type 0} (irs irs' : ℕ) (stream out stream' out' : List ℕ) (a b : Connection F)
    : Type 0 where
  pub there : InStep irs stream out a b
  pub back : InStep irs' stream' out' b a
  pub a_empty : a.send_buf.len ≡ 0
  pub b_empty : b.send_buf.len ≡ 0
  pub a_quiet : a.retransmit_queue.entries ≡ []
  pub b_quiet : b.retransmit_queue.entries ≡ []

module _ {F : Type 0} {irs : ℕ} {stream out : List ℕ} {a b : Connection F} where
  -- The application of `a` writes what the stream has left.
  pub write_data-InStep :
      (bytes : List ℕ)
      → InStep irs stream out a b
      → a.send_buf.len ≡ 0
      → drop (length out) stream ≡ bytes
      → length bytes ≤ send_buf_size
      → length out ≤ length stream
      → let a' = (write_data a bytes).0 in
        (contents a'.send_buf ≡ bytes)
        × (a'.send_buf.len ≡ length bytes)
        × InStep irs stream out a' b
  unfolding write_data
  write_data-InStep bytes s empty rest room inside =
      let (n, held, una, nxt, valid) = write_lem bytes s.synced.valid in
      let whole : contents (write_data a bytes).0.send_buf ≡ bytes =
        held
        ∙ ap (λ l. l ++ take (write a.send_buf bytes).1 bytes) (load_from-none _ _ _ empty)
        ∙ take_all (write a.send_buf bytes).1 bytes (omega (arith, n)) in
      let len : (write_data a bytes).0.send_buf.len ≡ length bytes =
        omega (arith, length-contents (write_data a bytes).0.send_buf, ap length whole) in
      (
        whole,
        len,
        record {
          rb = s.rb;
          holds = s.holds;
          tracks = s.tracks;
          in_order = s.in_order;
          drained = s.drained;
          expects = s.expects;
          a_state = s.a_state;
          b_state = s.b_state;
          synced = write_data-IsSynced a s.synced bytes;
          idle = rw (una, nxt) s.idle;
          next = nxt ∙ s.next;
          queued = whole ∙ sym (rw (rest, len) (take_all (length bytes) bytes (omega arith)));
          inside = omega (arith, len, ap length rest, length-drop (length out) stream);
          window = s.window;
          steady = s.steady;
          b_acked = s.b_acked;
          a_expects = s.a_expects;
          fields_a = omega (arith, s.fields_a);
          fields_b = s.fields_b;
        },
      )

-- Once the one direction is at rest, the other is in step as it was before.
pub turn_around :
    {F : Type 0} {irs irs' : ℕ} {stream out stream' out' : List ℕ} {a b a' b' : Connection F}
    → InStep irs' stream' out' b a
    → InStep irs stream out a' b'
    → Keeps a b a' b'
    → InStep irs' stream' out' b' a'
turn_around r s k = record {
  rb = r.rb;
  holds = k.received ∙ r.holds;
  tracks = r.tracks;
  in_order = r.in_order;
  drained = r.drained;
  expects = ap (λ x. x.nxt) k.rcv ∙ r.expects;
  a_state = s.b_state;
  b_state = s.a_state;
  synced = record {
    valid = rw k.send_buf r.synced.valid;
    una_same = rw (k.send_buf, k.snd) r.synced.una_same;
    nxt_same = rw (k.send_buf, k.snd) r.synced.nxt_same;
  };
  idle = rw k.send_buf r.idle;
  next = rw k.send_buf r.next;
  queued = rw k.send_buf r.queued;
  inside = rw k.send_buf r.inside;
  window = rw k.snd r.window;
  steady = omega (arith, r.steady, k);
  b_acked = omega (arith, s.synced, s.idle);
  a_expects = omega (arith, s.expects, s.next, s.synced);
  fields_a = s.fields_b;
  fields_b = s.fields_a;
}

-- A round takes all that is queued, if one segment and both windows have room for it.
pub one_round :
    {F : Type 0} (f : F64 F) (irs : ℕ) (stream : List ℕ) (short : length stream < 0x8000_0000)
    (byte : All IsByte stream) (a0 b0 : Connection F) (now : ℕ) (losses : List Loss) (out : List ℕ)
    (a b : Connection F)
    → Rests irs stream a0 b0 out a b
    → a.send_buf.len ≤ mss
    → a.send_buf.len ≤ a.tcb.snd.wnd
    → length (lossy_round f now losses a b).delivered ≡ a.send_buf.len
one_round f irs stream short byte a0 b0 now losses out a b s one room =
    elim (Bool-cases (a.send_buf.len == 0)) [
      | inl idle ↦
          let empty : a.send_buf.len ≡ 0 = ground arith in
          omega
            (arith, (lossy_round-Advances f irs stream short byte a0 b0 now losses out a b s).taken)
      | inr busy ↦
          let all : to_send a mss ≡ a.send_buf.len =
            omega (arith, s.in_step.steady, s.in_step.idle) in
          let pos : 0 < to_send a mss = ground arith in
          length-delivered f irs stream short byte a0 b0 now losses out a b s pos ∙ all
    ]
