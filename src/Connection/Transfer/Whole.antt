-- ===== src/Connection/Transfer/Whole.antt =====
-- All that a connection of magnum-tcp/src/tcp/connection.rs has to send arrives at another.
use magnus_tcp.Base.{
  ℕ, ◌≤◌, ◌<◌, ◌≡◌, refl, sym, ap, ◌∙◌, none, some, List, [], ◌++◌, append-nil, arith, All, length,
  drop, length-append, drop-length_append, drop-take, Bool-cases, inl, inr, ◌==◌,
}
use magnus_tcp.Ring.{load_from}
use magnus_tcp.Ring.Laws.{load_from-none}
use magnus_tcp.Float.{F64}
use magnus_tcp.Net.{IsByte}
use magnus_tcp.Retransmit.{mss}
use magnus_tcp.SendBuffer.Stream.{contents, inflight}
use magnus_tcp.RecvBuffer
use magnus_tcp.RecvBuffer.Delivery.{read-Tracks, drained_prefix}
use magnus_tcp.Connection.Congestion.{IsSteady}
use magnus_tcp.RecvBuffer.{RecvBuffer}
use magnus_tcp.Connection.{Connection, next_segment_to_send, read_received, received_available}
use magnus_tcp.Connection.Sending.{to_send, next_segment_to_send-eq}
use magnus_tcp.Connection.Transfer.{InStep, round}
use magnus_tcp.Connection.Transfer.Rounds.{repeat, Advances, Delivered, repeat-Delivered}
use magnus_tcp.Connection.Transfer.Busy.{got, round_busy, round-InStep, length-got, shorter}

-- Rounds without a loss. Round `k` from the end is at `clock k`.
unfoldable pub transfer :
    {F : Type 0}
    → F64 F
    → (clock : ℕ → ℕ) → (rounds : ℕ) → (a b : Connection F) → List ℕ × Connection F × Connection F
transfer f clock rounds a b = repeat (λ k. round f (clock k)) rounds a b

unsent :
    {F : Type 0} (a : Connection F)
    → IsSteady a.tcb
    → 0 < a.tcb.snd.wnd
    → inflight a.send_buf ≡ 0
    → to_send a mss ≡ 0
    → a.send_buf.len ≡ 0
unsent a steady window idle h = omega (arith, steady.cwnd_min)

pub read_all :
    {F : Type 0} (b : Connection F) (rb : RecvBuffer)
    → b.recv_buf ≡ some rb
    → let (rb', buf) = RecvBuffer.read rb rb.len in
      read_received b (received_available b) ≡ (record b { recv_buf = some rb' }, buf)
unfolding read_received received_available RecvBuffer.available
read_all b rb h = rw h

module _ {F : Type 0} (f : F64 F) (irs : ℕ) (stream : List ℕ) (short : length stream < 0x8000_0000)
    (byte : All IsByte stream) where
  pub round_idle :
      (now : ℕ) (out : List ℕ) (a b : Connection F)
      → (s : InStep irs stream out a b) → to_send a mss ≡ 0
      → let (rb', buf) = RecvBuffer.read s.rb s.rb.len in
        round f now a b ≡ record {
          sender = a;
          receiver = record b { recv_buf = some rb' };
          replies = none;
          delivered = buf;
        }
  unfolding round
  round_idle now out a b s h =
      let silent : next_segment_to_send a mss now ≡ (a, none) =
        next_segment_to_send-eq a s.synced mss now ∙ rw h in
      rw (silent, read_all b s.rb s.holds)

  pub idle-Advances :
      (out : List ℕ) (a b : Connection F)
      → (s : InStep irs stream out a b) → to_send a mss ≡ 0
      → let (rb', buf) = RecvBuffer.read s.rb s.rb.len in
        Advances (InStep irs stream) out a (record {
          sender = a;
          receiver = record b { recv_buf = some rb' };
          replies = none;
          delivered = buf;
        })
  unfolding load_from
  idle-Advances out a b s h = record {
    rests = record {
      rb = (RecvBuffer.read s.rb s.rb.len).0;
      holds = refl;
      tracks = read-Tracks irs stream s.rb.len s.tracks;
      in_order = unfold RecvBuffer.read in s.in_order;
      drained = unfold RecvBuffer.read in omega arith;
      expects = unfold RecvBuffer.read in s.expects;
      a_state = s.a_state;
      b_state = s.b_state;
      synced = s.synced;
      idle = s.idle;
      next = unfold RecvBuffer.read in s.next;
      queued = rw nothing (s.queued);
      inside = rw nothing (s.inside);
      window = s.window;
      steady = s.steady;
      b_acked = s.b_acked;
      a_expects = s.a_expects;
      fields_a = s.fields_a;
      fields_b = omega (arith, s.fields_b);
    };
    taken = omega (arith, ap length empty);
    progress = λ (left : 0 < a.send_buf.len). absurd (omega (arith, left_over));
  }
    where
      left_over : a.send_buf.len ≡ 0
      left_over = unsent a s.steady s.window s.idle h

      empty : (RecvBuffer.read s.rb s.rb.len).1 ≡ []
      empty = unfold RecvBuffer.read in rw s.drained

      nothing : out ++ (RecvBuffer.read s.rb s.rb.len).1 ≡ out
      nothing = ap (λ l. out ++ l) empty ∙ append-nil out

  round-Advances :
      (now : ℕ) (out : List ℕ) (a b : Connection F)
      → InStep irs stream out a b
      → Advances (InStep irs stream) out a (round f now a b)
  round-Advances now out a b s = elim (Bool-cases (to_send a mss == 0)) [
    | inl idle ↦
        let none_left : to_send a mss ≡ 0 = ground arith in
        rw (round_idle now out a b s none_left) (idle-Advances out a b s none_left)
    | inr busy ↦
        let pos : 0 < to_send a mss = ground arith in
        rw (round_busy f irs stream now out a b short byte s pos) (record {
          rests = round-InStep f irs stream now out a b short byte s pos;
          taken = omega (
            arith,
            length-got f irs stream now out a b short byte s pos,
            shorter f irs stream now out a b short byte s pos,
          );
          progress = λ (left : 0 < a.send_buf.len).
              omega (arith, length-got f irs stream now out a b short byte s pos);
        })
  ]

-- Between two connections at rest, what was delivered is what was queued, once nothing is left.
pub all_delivered :
    {F : Type 0} (irs : ℕ) (stream out got : List ℕ) (a a' b' : Connection F) {b : Connection F}
    → InStep irs stream out a b
    → InStep irs stream (out ++ got) a' b'
    → length got ≡ a.send_buf.len
    → a'.send_buf.len ≡ 0
    → (got ≡ contents a.send_buf) × (contents a'.send_buf ≡ [])
all_delivered irs stream out got a a' b' s e all none_left = (
  sym (drop-length_append out got)
      ∙ ap (λ l. drop (length out) l) (drained_prefix irs stream e.tracks e.drained)
      ∙ drop-take (length out) (length (out ++ got)) a.send_buf.len stream
          (omega (arith, length-append out got))
      ∙ sym s.queued,
  load_from-none _ _ _ none_left,
)

-- Between two connections in step on a stream of fewer than 2 ^ 31 bytes, rounds at whatever times, as
-- many as the sender has bytes queued or more, hand the application of the receiver just those bytes,
-- in their order, and leave the sender with nothing to send and the two connections in step.
pub transfer-delivers :
    {F : Type 0} (f : F64 F) (irs : ℕ) (stream out : List ℕ)
    → length stream < 0x8000_0000
    → All IsByte stream
    → (clock : ℕ → ℕ) (rounds : ℕ) (a b : Connection F) → InStep irs stream out a b
    → a.send_buf.len ≤ rounds
    → let (got, a', b') = transfer f clock rounds a b in
      (got ≡ contents a.send_buf)
      × (contents a'.send_buf ≡ [])
      × InStep irs stream (out ++ got) a' b'
unfolding transfer
transfer-delivers f irs stream out short byte clock rounds a b s enough =
    let (got, a', b') = transfer f clock rounds a b in
    let d : Delivered (InStep irs stream) rounds out got a a' b' =
      repeat-Delivered (InStep irs stream) (λ k. round f (clock k))
        (λ k. round-Advances f irs stream short byte (clock k)) rounds out a b s in
    let (all, none_left) =
      all_delivered irs stream out got a a' b' s d.rests (omega (arith, d.taken, d.left))
        (omega (arith, d.left)) in
    (all, none_left, d.rests)
