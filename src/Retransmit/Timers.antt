-- ===== src/Retransmit/Timers.antt =====
-- When magnum-tcp/src/tcp/retransmit.rs samples round trips and when it sends segments again.
use magnus_tcp.Base.{
  ℕ, ◌-◌, ◌≤◌, ◌<◌, ◌≡◌, ◌⊎◌, refl, true, false, List, [], ◌∷◌, arith, All, if◌then◌else◌,
}
use magnus_tcp.Float.{F64}
use magnus_tcp.Retransmit.{
  RetransmitEntry, RetransmitQueue, max_rto, fully_acked, end_seq, retain_from, expire_from,
  expired_segments, update_all, acknowledge_and_sample_rtt,
}

-- The entries that an acknowledgement does not cover to their end, in their order.
unfoldable pub unacked : ℕ → List RetransmitEntry → List RetransmitEntry
unacked ack [] = []
unacked ack (e ∷ rest) =
    if fully_acked (end_seq e) ack then unacked ack rest else e ∷ unacked ack rest

retain_from-unacked :
    (ack now : ℕ) (entries : List RetransmitEntry)
    → (retain_from ack now entries).0 ≡ unacked ack entries
unfolding retain_from unacked
retain_from-unacked ack now [] = refl
retain_from-unacked ack now (e ∷ rest) = ground (arith, retain_from-unacked ack now rest)

-- The acknowledgement does not cover the entry, or the entry was sent more than once.
abbrev pub IsResent : ℕ → RetransmitEntry → Type 0
IsResent ack e = (fully_acked (end_seq e) ack ≡ false) ⊎ (e.retransmitted ≡ true)

retain_from-no_samples :
    (ack now : ℕ) (entries : List RetransmitEntry)
    → All (IsResent ack) entries
    → (retain_from ack now entries).1 ≡ []
unfolding retain_from
retain_from-no_samples ack now [] a = refl
retain_from-no_samples ack now (e ∷ rest) (h, a) =
    ground (arith, retain_from-no_samples ack now rest a)

-- Karn's rule: an acknowledgement that covers only segments sent more than once removes them, and
-- leaves the timeout and both smoothed values as they were.
pub acknowledge_resent :
    {F : Type 0} (f : F64 F) (q : RetransmitQueue F) (ack now : ℕ)
    → All (IsResent ack) q.entries
    → acknowledge_and_sample_rtt f q ack now ≡ record q { entries = unacked ack q.entries }
unfolding acknowledge_and_sample_rtt
acknowledge_resent f q ack now a =
    rw (retain_from-no_samples ack now q.entries a, retain_from-unacked ack now q.entries)
      (unfold update_all in refl)

abbrev IsEarly : ℕ → ℕ → RetransmitEntry → Type 0
IsEarly now rto e = now - e.sent_at < rto

-- After a pass at `now` no entry has waited as long as the timeout, also a longer one.
expire_from-IsEarly :
    (now rto later : ℕ) (entries : List RetransmitEntry)
    → 0 < later
    → rto ≤ later
    → All (IsEarly now later) (expire_from now rto entries).0
unfolding expire_from
expire_from-IsEarly now rto later [] p h = tt
expire_from-IsEarly now rto later (e ∷ rest) p h =
    ground (arith, expire_from-IsEarly now rto later rest p h)

expire_from-none :
    (now rto : ℕ) (entries : List RetransmitEntry)
    → All (IsEarly now rto) entries
    → (expire_from now rto entries).1 ≡ []
unfolding expire_from
expire_from-none now rto [] a = refl
expire_from-none now rto (e ∷ rest) (h, a) = ground (arith, expire_from-none now rto rest a)

-- With a timeout that is positive and at most 60 s, a segment is not sent twice for one timeout: a
-- second pass at the same instant finds none.
pub expired_segments_once :
    {F : Type 0} (q : RetransmitQueue F) (now : ℕ)
    → 0 < q.rto
    → q.rto ≤ max_rto
    → (expired_segments (expired_segments q now).0 now).1 ≡ []
unfolding expired_segments
expired_segments_once q now pos h =
    expire_from-none now _ (expire_from now q.rto q.entries).0
      (expire_from-IsEarly now q.rto _ q.entries (ground arith) (ground arith))
