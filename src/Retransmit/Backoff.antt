-- ===== src/Retransmit/Backoff.antt =====
-- A segment of magnum-tcp/src/tcp/retransmit.rs that times out again and again.
use magnus_tcp.Base.{
  ℕ, zero, suc, ◌+◌, ◌*◌, ◌^◌, ◌≤◌, ◌<◌, ◌≡◌, refl, ap, ◌∙◌, min, List, [], ◌∷◌, ◌++◌, arith,
  dec_le,
}
use native.Mathlib.Omega.{pow_step}
use native.Mathlib.Nat.{mul_assoc, mul-le-mul_left, mul-le-mul_right}
use magnus_tcp.Retransmit.{RetransmitEntry, RetransmitQueue, max_rto, expired_segments}
use magnus_tcp.Retransmit.Single.{resent_entry, backed_off, expired_only}

-- The timer runs as soon as the timeout is over, `k` times: the queue, the instant, and what is sent.
unfoldable pub timeouts :
    {F : Type 0} → RetransmitQueue F → (now k : ℕ) → RetransmitQueue F × ℕ × List (ℕ × List ℕ)
timeouts q now zero = (q, now, [])
timeouts q now (suc k) =
    let later = now + q.rto in
    let (q1, sent) = expired_segments q later in
    let (q2, end, rest) = timeouts q1 later k in (q2, end, sent ++ rest)

abbrev pub copies : ℕ → ℕ × List ℕ → List (ℕ × List ℕ)
copies zero segment = []
copies (suc k) segment = segment ∷ copies k segment

-- With `p` for the power.
capped : (rto p : ℕ) → 0 < p → min (min (rto * 2) max_rto * p) max_rto ≡ min (rto * (2 * p)) max_rto
capped rto p pos = elim (dec_le (rto * 2) max_rto) [
  | yes small ↦
      let e : min (rto * 2) max_rto ≡ rto * 2 = omega arith in
      rw e (ap (λ x. min x max_rto) (mul_assoc rto 2 p))
  | no big ↦
      let e : min (rto * 2) max_rto ≡ max_rto = omega arith in
      let more : max_rto ≤ max_rto * p = omega arith in
      let most : max_rto ≤ rto * 2 * p =
        let bound : max_rto ≤ rto * 2 = omega arith in
        omega (arith, more, mul-le-mul_right p bound) in
      rw e (omega (arith, mul_assoc rto 2 p))
]

power_pos : (k : ℕ) → 0 < 2 ^ k
power_pos zero = omega arith
power_pos (suc k) = omega (arith, power_pos k, pow_step 2 k)

doubling : (rto k : ℕ) → min (min (rto * 2) max_rto * 2 ^ k) max_rto ≡ min (rto * 2 ^ suc k) max_rto
doubling rto k = rw (pow_step 2 k) (capped rto (2 ^ k) (power_pos k))

-- What a lone segment goes through.
pub record BackedOff {F : Type 0} (q : RetransmitQueue F) (e : RetransmitEntry) (now k : ℕ)
    (q' : RetransmitQueue F) (end : ℕ) (sent : List (ℕ × List ℕ)) : Type 0 where
  pub rto : q'.rto ≡ min (q.rto * 2 ^ k) max_rto
  pub copied : sent ≡ copies k (e.seq, e.bytes)
  pub soonest : now + k * q.rto ≤ end
  pub latest : end ≤ now + k * max_rto

-- Let a queue hold one segment, sent at `now`, with a timeout of 60 s at most. If the timer runs as soon
-- as the timeout is over, `k` times, then the segment is sent each time, the timeout in the end is the
-- first one doubled `k` times, 60 s at most, and the time that has passed is at least `k` times the first
-- timeout and at most `k` times 60 s.
pub timeouts_lem :
    {F : Type 0} (q : RetransmitQueue F) (e : RetransmitEntry) (now k : ℕ)
    → q.entries ≡ e ∷ []
    → e.sent_at ≡ now
    → q.rto ≤ max_rto
    → let (q', end, sent) = timeouts q now k in BackedOff q e now k q' end sent
unfolding timeouts
timeouts_lem q e now zero only at small = record {
  rto = omega arith;
  copied = refl;
  soonest = omega arith;
  latest = omega arith;
}
timeouts_lem q e now (suc k) only at small =
    let later : ℕ = now + q.rto in
    let grows : q.rto ≤ min (q.rto * 2) max_rto = omega arith in
    let ih =
      timeouts_lem (backed_off q (resent_entry e later ∷ [])) (resent_entry e later) later k refl
        refl (omega arith) in
    rw (expired_only q e later only (omega (arith, at))) (record {
      rto = ih.rto ∙ doubling q.rto k;
      copied = ap (λ l. (e.seq, e.bytes) ∷ l) ih.copied;
      soonest = omega (arith, ih.soonest, mul-le-mul_left k grows);
      latest = omega (arith, ih.latest);
    })
