-- ===== src/Connection/Transfer/Resend.antt =====
-- A segment that one connection of magnum-tcp/src/tcp/connection.rs sends another until it and its
-- answer arrive.
use magnus_tcp.Base.{
  ℕ, ◌+◌, ◌<◌, ◌≡◌, refl, ap, ◌∙◌, ◌⊎◌, inl, inr, none, some, List, [], ◌∷◌, arith, wrapping_sub,
  All, length,
}
use magnus_tcp.Float.{F64}
use magnus_tcp.Net.{IsByte}
use magnus_tcp.Tcb.{established, seq_le, seq_lt}
use magnus_tcp.Header.{build}
use magnus_tcp.Header.RoundTrip.{segment_of}
use magnus_tcp.Retransmit
use magnus_tcp.Retransmit.{
  RetransmitEntry, RetransmitQueue, mss, is_nil, fully_acked, end_seq, push, expired_segments,
}
use magnus_tcp.Retransmit.Single.{resent_entry, acknowledged_only}
use magnus_tcp.RecvBuffer
use magnus_tcp.RecvBuffer.{RecvBuffer}
use magnus_tcp.RecvBuffer.Progress.{insert_again}
use magnus_tcp.Connection.{Connection, data_segment, build_ack, send_segment}
use magnus_tcp.Connection.Steps.{set_rcv_nxt}
use magnus_tcp.Connection.Established.{grown_cwnd, new_ack}
use magnus_tcp.Connection.Handlers.{handle_in}
use magnus_tcp.Connection.Exchange.{deliver, deliver-build, sent}
use magnus_tcp.Connection.Congestion.{IsSteady, new_ack-IsSteady}
use magnus_tcp.Connection.Acking.{bare_ack}
use magnus_tcp.Connection.Fields.{process_segment_in}
use magnus_tcp.Connection.Transfer.{InStep}
use magnus_tcp.Connection.Transfer.Lossy.{
  Lost, segments, answers, damaged, Loss, relay_all, missed, exchange, with_queue,
}
use magnus_tcp.Connection.Transfer.Damage.{deliver-put}
use magnus_tcp.Connection.Transfer.Busy.{
  n, bytes, a1, segment, b1, ack, a2, length-bytes, bytes_some, segment-IsValid, b_takes, rb',
  rb'-grown, ack-IsValid, acceptable,
}
use magnus_tcp.Connection.Transfer.Data.{deliver_data}
use magnus_tcp.Connection.Transfer.Waits.{Waits, resend_at}

-- The two connections once segment and answer have arrived: nothing waits for an acknowledgement.
pub record Arrives {F : Type 0} (a b : Connection F)
    (r : Connection F × Connection F × List (List ℕ)) : Type 0 where
  pub q : RetransmitQueue F
  pub cwnd : ℕ
  pub ssthresh : ℕ
  pub ends : r ≡ (with_queue a q cwnd ssthresh, b, [])
  pub none_waits : q.entries ≡ []
  pub steady : IsSteady (with_queue a q cwnd ssthresh).tcb

module _ {F : Type 0} (f : F64 F) (irs : ℕ) (stream : List ℕ) (now : ℕ) (out : List ℕ)
    (a b : Connection F) (short : length stream < 0x8000_0000) (byte : All IsByte stream)
    (s : InStep irs stream out a b) (busy : 0 < n f irs stream now out a b) where
  open s use {rb}

  abbrev pub raw : List ℕ
  raw = build (segment f irs stream now out a b)

  abbrev answer_raw : List ℕ
  answer_raw = build (ack f irs stream now out a b rb)

  abbrev pub sender : RetransmitQueue F → ℕ → ℕ → Connection F
  sender = with_queue (a1 f irs stream now out a b)

  abbrev pub taker : Connection F
  taker = b1 f irs stream now out a b rb

  abbrev taken : RecvBuffer
  taken = rb' f irs stream now out a b short byte s busy

  -- The segment once more, to the connection that has it already.
  insert_same : RecvBuffer.insert taken a.send_buf.nxt (bytes f irs stream now out a b) ≡ taken
  insert_same =
      insert_again taken a.send_buf.nxt (bytes f irs stream now out a b) s.synced.valid.nxt_u32
        (omega (arith, rb'-grown f irs stream now out a b short byte s busy))
        (omega (arith, reaches, length-bytes f irs stream now out a b short byte s busy))
        (omega (arith, reaches))
    where
      reaches : wrapping_sub taken.nxt a.send_buf.nxt ≡ length (bytes f irs stream now out a b)
      reaches = omega (
        arith,
        rb'-grown f irs stream now out a b short byte s busy,
        length-bytes f irs stream now out a b short byte s busy,
        s.synced.valid,
      )

  b_takes_again :
      (at : ℕ) → deliver f taker raw a.tcb.local_ip a.tcb.remote_ip at ≡ (taker, some answer_raw)
  unfolding send_segment build_ack RecvBuffer.next_expected
  b_takes_again at =
      deliver_data f taker (segment f irs stream now out a b) at taken
        (segment-IsValid f irs stream now out a b short byte s busy) refl
        (bytes_some f irs stream now out a b short byte s busy) s.a_expects s.b_state s.b_acked refl
      ∙ ap
          (λ r. (
            set_rcv_nxt (record b { recv_buf = some r }) r.nxt,
            some (build_ack (set_rcv_nxt (record b { recv_buf = some r }) r.nxt)),
          ))
          insert_same

  abbrev acked : RetransmitQueue F → ℕ → RetransmitQueue F
  acked q at = Retransmit.acknowledge_and_sample_rtt f q (RecvBuffer.next_expected taken) at

  a_takes_at :
      (at : ℕ) (q : RetransmitQueue F) (cwnd ssthresh : ℕ)
      → deliver f (sender q cwnd ssthresh) answer_raw b.tcb.local_ip b.tcb.remote_ip at ≡ (
        with_queue
            (a2 f irs stream now out a b rb)
            (acked q at)
            (grown_cwnd cwnd ssthresh (wrapping_sub (RecvBuffer.next_expected taken) a.tcb.snd.una))
            ssthresh,
        none,
      )
  unfolding handle_in send_segment new_ack
  a_takes_at at q cwnd ssthresh =
      deliver-build f (sender q cwnd ssthresh) (ack f irs stream now out a b rb) at
        (ack-IsValid f irs stream now out a b short byte s busy)
      ∙ ap (λ r. (r.0, sent r.1))
          (process_segment_in f (sender q cwnd ssthresh)
              (segment_of (ack f irs stream now out a b rb)) at established s.a_state
            ∙ bare_ack f (sender q cwnd ssthresh) (segment_of (ack f irs stream now out a b rb)) at
                refl refl (acceptable f irs stream now out a b short byte s busy))

  acked-empty :
      (at : ℕ) (q : RetransmitQueue F)
      → Waits a.send_buf.nxt (bytes f irs stream now out a b) at q
      → (acked q at).entries ≡ []
  unfolding RecvBuffer.next_expected fully_acked seq_le seq_lt
  acked-empty at q w = acknowledged_only q f w.entry taken.nxt at w.only (rw ends (ground arith))
    where
      ends : end_seq w.entry ≡ taken.nxt
      ends =
          rw (w.of_seq, w.of_bytes)
            (omega (
              arith,
              rb'-grown f irs stream now out a b short byte s busy,
              length-bytes f irs stream now out a b short byte s busy,
            ))

  receives :
      (at : ℕ) (b' : Connection F)
      → (b' ≡ b) ⊎ (b' ≡ taker)
      → relay_all f b' (raw ∷ []) a.tcb.local_ip a.tcb.remote_ip at ≡ (taker, answer_raw ∷ [])
  unfolding relay_all
  receives at b' (inl p) = rw (p, b_takes f irs stream now out a b short byte s busy at) refl
  receives at b' (inr p) = rw (p, b_takes_again at) refl

  still :
      (at : ℕ) (lost : Lost) (q : RetransmitQueue F) (cwnd ssthresh : ℕ) (b' : Connection F)
      → (b' ≡ b) ⊎ (b' ≡ taker)
      → let b'' = missed f lost (sender q cwnd ssthresh) b' (raw ∷ []) at in
        (b'' ≡ b) ⊎ (b'' ≡ taker)
  unfolding missed send_segment relay_all
  still at segments q cwnd ssthresh b' e = e
  still at answers q cwnd ssthresh b' e = inr (ap (λ r. r.0) (receives at b' e))
  still at (damaged i y) q cwnd ssthresh b' e =
      elim (deliver-put f b' (segment f irs stream now out a b) i y at
        (segment-IsValid f irs stream now out a b short byte s busy)) [
          | inl same ↦ inr (
              ap (λ d. (relay_all f b' (d ∷ []) a.tcb.local_ip a.tcb.remote_ip at).0) same
              ∙ ap (λ r. r.0) (receives at b' e))
          | inr refused ↦ elim e [
            | inl p ↦ inl (ap (λ r. r.0) refused ∙ p)
            | inr p ↦ inr (ap (λ r. r.0) refused ∙ p)
          ]
        ]

  answered :
      (at : ℕ) (q : RetransmitQueue F) (cwnd ssthresh : ℕ) (b' : Connection F)
      → (b' ≡ b) ⊎ (b' ≡ taker)
      → relay_all f (sender q cwnd ssthresh) (answer_raw ∷ []) b'.tcb.local_ip b'.tcb.remote_ip at
        ≡ (
          with_queue
              (a2 f irs stream now out a b rb)
              (acked q at)
              (grown_cwnd cwnd ssthresh
                (wrapping_sub (RecvBuffer.next_expected taken) a.tcb.snd.una))
              ssthresh,
          [],
        )
  unfolding relay_all
  answered at q cwnd ssthresh b' (inl p) = rw (p, a_takes_at at q cwnd ssthresh) refl
  answered at q cwnd ssthresh b' (inr p) = rw (p, a_takes_at at q cwnd ssthresh) refl

  arrives :
      (at : ℕ) (q : RetransmitQueue F) (cwnd ssthresh : ℕ) (b' : Connection F)
      → Waits a.send_buf.nxt (bytes f irs stream now out a b) at q
      → IsSteady (sender q cwnd ssthresh).tcb
      → (b' ≡ b) ⊎ (b' ≡ taker)
      → Arrives
          (a2 f irs stream now out a b rb)
          taker
          (exchange f at [] (sender q cwnd ssthresh) b' (raw ∷ []))
  unfolding exchange send_segment
  arrives at q cwnd ssthresh b' w steady e = rw (receives at b' e) (record {
    q = acked q at;
    cwnd = _;
    ssthresh = ssthresh;
    ends = ap (λ r. (r.0, taker, r.1)) (answered at q cwnd ssthresh b' e);
    none_waits = acked-empty at q w;
    steady =
        unfold new_ack in
        new_ack-IsSteady (sender q cwnd ssthresh) steady f
          (segment_of (ack f irs stream now out a b rb)) at;
  })

  pub recovers :
      (losses : List Loss) (at : ℕ) (q : RetransmitQueue F) (cwnd ssthresh : ℕ) (b' : Connection F)
      → Waits a.send_buf.nxt (bytes f irs stream now out a b) at q
      → IsSteady (sender q cwnd ssthresh).tcb
      → (b' ≡ b) ⊎ (b' ≡ taker)
      → Arrives
          (a2 f irs stream now out a b rb)
          taker
          (exchange f at losses (sender q cwnd ssthresh) b' (raw ∷ []))
  unfolding exchange data_segment
  recovers [] at q cwnd ssthresh b' w steady e = arrives at q cwnd ssthresh b' w steady e
  recovers (l ∷ losses) at q cwnd ssthresh b' w steady e =
      let later = at + q.rto + l.late in
      rw
        (resend_at (a1 f irs stream now out a b) a.send_buf.nxt (bytes f irs stream now out a b) at
          l.late q cwnd ssthresh w)
        (recovers losses later _ _ _ _
          (record {
            entry = resent_entry w.entry later;
            only = refl;
            of_seq = w.of_seq;
            of_bytes = w.of_bytes;
            at = refl;
          })
          (omega (arith, steady)) (still at l.lost q cwnd ssthresh b' e))
