-- ===== src/Retransmit.antt =====
-- The retransmission queue of magnum-tcp/src/tcp/retransmit.rs. Instants and durations are counts of
-- nanoseconds, and `now` is what `Instant::now()` returns.
use magnus_tcp.Base.{
  ℕ, ◌+◌, ◌-◌, ◌*◌, min, Bool, true, false, not, Option, none, some, List, [], ◌∷◌, ◌++◌, ltb, leb,
  ◌==◌, if◌then◌else◌, length, wrapping_add, u32_mod, ◌%◌,
}
use magnus_tcp.Float.{F64}
use magnus_tcp.Tcb.{seq_le}
pub mod Laws
pub mod Timers
pub mod Single
pub mod Backoff

abbrev pub mss : ℕ
mss = 1460

abbrev pub retransmit_queue_max : ℕ
retransmit_queue_max = 128

abbrev pub initial_rto : ℕ
initial_rto = 1_000_000_000

abbrev pub min_rto : ℕ
min_rto = 200_000_000

abbrev pub max_rto : ℕ
max_rto = 60_000_000_000

pub record RetransmitEntry : Type 0 where
  pub seq : ℕ  -- u32
  pub bytes : List ℕ
  pub sent_at : ℕ
  pub retransmitted : Bool

pub record RetransmitQueue (F : Type 0) : Type 0 where
  pub entries : List RetransmitEntry
  pub rto : ℕ
  pub srtt : Option F
  pub rttvar : F

unfoldable pub fully_acked : ℕ → ℕ → Bool
fully_acked end_seq ack = seq_le end_seq ack

-- `e.seq.wrapping_add(e.data.len() as u32)`.
abbrev pub end_seq : RetransmitEntry → ℕ
end_seq e = wrapping_add e.seq (length e.bytes % u32_mod)

-- The loop of `retain`: the entries kept, and the samples taken (RFC 6298 §4: from segments that
-- were not retransmitted).
unfoldable pub retain_from : ℕ → ℕ → List RetransmitEntry → List RetransmitEntry × List ℕ
retain_from ack now [] = ([], [])
retain_from ack now (e ∷ rest) =
    let (kept, samples) = retain_from ack now rest in
    if fully_acked (end_seq e) ack
    then (kept, if not e.retransmitted then (now - e.sent_at) ∷ samples else samples)
    else (e ∷ kept, samples)

-- The loop of `expired_segments`: the entries, those timed out marked as sent again, and the
-- segments to send.
unfoldable pub expire_from : ℕ → ℕ → List RetransmitEntry → List RetransmitEntry × List (ℕ × List ℕ)
expire_from now rto [] = ([], [])
expire_from now rto (e ∷ rest) =
    let (marked, expired) = expire_from now rto rest in
    if leb rto (now - e.sent_at)
    then (record e { sent_at = now; retransmitted = true } ∷ marked, (e.seq, e.bytes) ∷ expired)
    else (e ∷ marked, expired)

unfoldable pub is_nil {ℓ} : {A : Type ℓ} → List A → Bool
is_nil [] = true
is_nil (x ∷ xs) = false

module _ {F : Type 0} where
  unfoldable pub push : RetransmitQueue F → ℕ → List ℕ → ℕ → RetransmitQueue F
  push q seq bytes now =
      if ltb (length q.entries) retransmit_queue_max
      then record q {
        entries =
            q.entries
            ++ (record { seq = seq; bytes = bytes; sent_at = now; retransmitted = false } ∷ []);
      }
      else q

  unfoldable pub expired_segments : RetransmitQueue F → ℕ → RetransmitQueue F × List (ℕ × List ℕ)
  expired_segments q now =
      let (marked, expired) = expire_from now q.rto q.entries in
      (
        record q {
          entries = marked;
          rto = if not (is_nil expired) then min (q.rto * 2) max_rto else q.rto;
        },
        expired,
      )

  unfoldable pub first_unacked : RetransmitQueue F → Option (ℕ × List ℕ)
  first_unacked q = elim q.entries [ [] ↦ none | e ∷ rest ↦ some (e.seq, e.bytes) ]

-- RFC 6298 §2.3, with the smoothed values `srtt` and `rttvar` that the sample leads to.
module _ {F : Type 0} (f : F64 F) where
  open f use {literal, plus, minus, times, over, abs, clamp, as_secs, from_secs}

  unfoldable pub new : RetransmitQueue F
  new = record { entries = []; rto = initial_rto; srtt = none; rttvar = literal 0 1 }

  abbrev alpha : F
  alpha = literal 125 1000

  abbrev beta : F
  beta = literal 25 100

  -- `SRTT` and `RTTVAR` after a sample of `r` seconds.
  unfoldable pub smoothed : Option F → F → F → F × F
  smoothed none rttvar r = (r, over r (literal 2 1))
  smoothed (some srtt) rttvar r = (
    plus (times (minus (literal 1 1) alpha) srtt) (times alpha r),
    plus (times (minus (literal 1 1) beta) rttvar) (times beta (abs (minus srtt r))),
  )

  unfoldable pub update_rto : RetransmitQueue F → ℕ → RetransmitQueue F
  update_rto q rtt =
      let (srtt, rttvar) = smoothed q.srtt q.rttvar (as_secs rtt) in
      record q {
        srtt = some srtt;
        rttvar = rttvar;
        rto =
            from_secs
              (clamp (plus srtt (times (literal 4 1) rttvar)) (as_secs min_rto) (as_secs max_rto));
      }

  -- `for rtt in rtt_samples { self.update_rto(rtt); }`
  unfoldable pub update_all : RetransmitQueue F → List ℕ → RetransmitQueue F
  update_all q [] = q
  update_all q (rtt ∷ samples) = update_all (update_rto q rtt) samples

  unfoldable pub acknowledge_and_sample_rtt : RetransmitQueue F → ℕ → ℕ → RetransmitQueue F
  acknowledge_and_sample_rtt q ack now =
      let (kept, samples) = retain_from ack now q.entries in
      update_all (record q { entries = kept }) samples
