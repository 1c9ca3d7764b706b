-- ===== src/Connection/Transfer/Recovery.antt =====
-- All that a connection of magnum-tcp/src/tcp/connection.rs has to send arrives at another, over a
-- link that loses segments and answers.
use magnus_tcp.Base.{
  ℕ, ◌≤◌, ◌<◌, ◌≡◌, refl, ap, ◌∙◌, ◌∙◌, inl, inr, none, some, List, [], ◌∷◌, ◌++◌, arith, All,
  length, Bool-cases, ◌==◌,
}
use magnus_tcp.Float.{F64}
use magnus_tcp.Net.{IsByte}
use magnus_tcp.Retransmit.{mss}
use magnus_tcp.Retransmit.Single.{sent_entry, push_only}
use magnus_tcp.SendBuffer.Stream.{contents}
use magnus_tcp.RecvBuffer
use magnus_tcp.RecvBuffer.{RecvBuffer}
use magnus_tcp.Connection.{
  Connection, next_segment_to_send, send_segment, read_received, received_available,
}
use magnus_tcp.Connection.Established.{new_ack}
use magnus_tcp.Connection.Sending.{to_send, next_segment_to_send-eq}
use magnus_tcp.Connection.Transfer.{InStep}
use magnus_tcp.Connection.Transfer.Busy.{
  a1, a2, b1, b2, bytes, rb', got, sends, length-got, shorter, round-InStep,
}
use magnus_tcp.Connection.Transfer.Rounds.{Advances, Delivered, repeat-Delivered}
use magnus_tcp.Connection.Transfer.Whole.{read_all, idle-Advances, all_delivered}
use magnus_tcp.Connection.Transfer.Lossy.{Loss, exchange, lossy_round, lossy_transfer, with_queue}
use magnus_tcp.Connection.Transfer.Resend.{Arrives, recovers, raw}
use magnus_tcp.Connection.Transfer.Rests.{Keeps, Rests, idle_exchange, with_queue-InStep, kept_on}

module _ {F : Type 0} (f : F64 F) (irs : ℕ) (stream : List ℕ) (short : length stream < 0x8000_0000)
    (byte : All IsByte stream) (a0 b0 : Connection F) where
  idle_round :
      (now : ℕ) (losses : List Loss) (out : List ℕ) (a b : Connection F)
      → (s : Rests irs stream a0 b0 out a b) → to_send a mss ≡ 0
      → let (rb', buf) = RecvBuffer.read s.in_step.rb s.in_step.rb.len in
        lossy_round f now losses a b ≡ record {
          sender = a;
          receiver = record b { recv_buf = some rb' };
          replies = none;
          delivered = buf;
        }
  unfolding lossy_round
  idle_round now losses out a b s h =
      let silent : next_segment_to_send a mss now ≡ (a, none) =
        next_segment_to_send-eq a s.in_step.synced mss now ∙ rw h in
      rw (
        silent,
        idle_exchange f losses now a b s.none_waits,
        read_all b s.in_step.rb s.in_step.holds,
      )

  module _ (now : ℕ) (losses : List Loss) (out : List ℕ) (a b : Connection F)
      (s : Rests irs stream a0 b0 out a b) (busy : 0 < to_send a mss) where
    recovered :
        Arrives
          (a2 f irs stream now out a b s.in_step.rb)
          (b1 f irs stream now out a b s.in_step.rb)
          (exchange f now losses
            (a1 f irs stream now out a b)
            b
            (raw f irs stream now out a b short byte s.in_step busy ∷ []))
    unfolding send_segment
    recovered =
        recovers f irs stream now out a b short byte s.in_step busy losses now _ _ _ b
          (record {
            entry = sent_entry a.send_buf.nxt (bytes f irs stream now out a b) now;
            only =
                push_only a.retransmit_queue a.send_buf.nxt (bytes f irs stream now out a b) now
                  s.none_waits;
            of_seq = refl;
            of_bytes = refl;
            at = refl;
          })
          (omega (arith, s.in_step.steady)) (inl refl)

    abbrev sender' : Connection F
    sender' =
        with_queue (a2 f irs stream now out a b s.in_step.rb) recovered.q recovered.cwnd
          recovered.ssthresh

    busy_round : lossy_round f now losses a b ≡ record {
      sender = sender';
      receiver = b2 f irs stream now out a b short byte s.in_step busy;
      replies = none;
      delivered = got f irs stream now out a b short byte s.in_step busy;
    }
    unfolding lossy_round read_received received_available RecvBuffer.available
    busy_round = rw (sends f irs stream now out a b short byte s.in_step busy, recovered.ends) refl

    pub length-delivered : length (lossy_round f now losses a b).delivered ≡ to_send a mss
    length-delivered =
        ap (λ r. length r.delivered) busy_round
        ∙ length-got f irs stream now out a b short byte s.in_step busy

    busy-Keeps : Keeps a0 b0 sender' (b2 f irs stream now out a b short byte s.in_step busy)
    unfolding send_segment new_ack
    busy-Keeps = record {
      received = s.keeps.received;
      rcv = s.keeps.rcv;
      send_buf = s.keeps.send_buf;
      snd = s.keeps.snd;
      queue = s.keeps.queue;
      cwnd = s.keeps.cwnd;
      ssthresh = s.keeps.ssthresh;
      dup_ack_count = s.keeps.dup_ack_count;
    }

    busy-Advances : Advances (Rests irs stream a0 b0) out a (lossy_round f now losses a b)
    busy-Advances = rw busy_round (record {
      rests = record {
        in_step =
            with_queue-InStep recovered.q recovered.cwnd recovered.ssthresh
              (round-InStep f irs stream now out a b short byte s.in_step busy) recovered.steady;
        none_waits = recovered.none_waits;
        keeps = busy-Keeps;
      };
      taken = omega (
        arith,
        length-got f irs stream now out a b short byte s.in_step busy,
        shorter f irs stream now out a b short byte s.in_step busy,
      );
      progress = λ (left : 0 < a.send_buf.len).
          omega (arith, length-got f irs stream now out a b short byte s.in_step busy);
    })

  pub lossy_round-Advances :
      (now : ℕ) (losses : List Loss) (out : List ℕ) (a b : Connection F)
      → Rests irs stream a0 b0 out a b
      → Advances (Rests irs stream a0 b0) out a (lossy_round f now losses a b)
  lossy_round-Advances now losses out a b s = elim (Bool-cases (to_send a mss == 0)) [
    | inl idle ↦
        let none_left : to_send a mss ≡ 0 = ground arith in
        let step = idle-Advances f irs stream short byte out a b s.in_step none_left in
        rw (idle_round now losses out a b s none_left) (record {
          rests = record {
            in_step = step.rests;
            none_waits = s.none_waits;
            keeps = kept_on s.keeps;
          };
          taken = step.taken;
          progress = step.progress;
        })
    | inr busy ↦ busy-Advances now losses out a b s (ground arith)
  ]

-- Let two connections be in step on a stream of fewer than 2 ^ 31 bytes, with no segment of the sender
-- waiting for an acknowledgement. Each of some rounds begins at any time, and any finite number of times
-- the segment that is sent is lost, or arrives with a byte replaced, or what it is answered is lost, and
-- each time the timer of the sender runs at its timeout or later. Then rounds, as many as the sender has
-- bytes queued or more, hand the application of the receiver just those bytes, once and in their order,
-- and leave nothing to send, nothing waiting, the two in step, and what they have sent each other the
-- other way as it was.
pub lossy_transfer-delivers :
    {F : Type 0} (f : F64 F) (irs : ℕ) (stream out : List ℕ)
    → length stream < 0x8000_0000
    → All IsByte stream
    → (link : ℕ → ℕ × List Loss) (rounds : ℕ) (a b : Connection F) → InStep irs stream out a b
    → a.retransmit_queue.entries ≡ []
    → a.send_buf.len ≤ rounds
    → let (got, a', b') = lossy_transfer f link rounds a b in
      (got ≡ contents a.send_buf)
      × (contents a'.send_buf ≡ [])
      × Rests irs stream a b (out ++ got) a' b'
unfolding lossy_transfer
lossy_transfer-delivers f irs stream out short byte link rounds a b s quiet enough =
    let (got, a', b') = lossy_transfer f link rounds a b in
    let rests : Rests irs stream a b out a b = record {
      in_step = s;
      none_waits = quiet;
      keeps = record {
        received = refl;
        rcv = refl;
        send_buf = refl;
        snd = refl;
        queue = refl;
        cwnd = refl;
        ssthresh = refl;
        dup_ack_count = refl;
      };
    } in
    let d : Delivered (Rests irs stream a b) rounds out got a a' b' =
      repeat-Delivered (Rests irs stream a b) (λ k. lossy_round f (link k).0 (link k).1)
        (λ k. lossy_round-Advances f irs stream short byte a b (link k).0 (link k).1) rounds out a b
        rests in
    let (all, none_left) =
      all_delivered irs stream out got a a' b' s d.rests.in_step (omega (arith, d.taken, d.left))
        (omega (arith, d.left)) in
    (all, none_left, d.rests)
