-- ===== src/Retransmit/Single.antt =====
-- A retransmission queue of magnum-tcp/src/tcp/retransmit.rs that holds one segment, from when it is
-- sent until it is acknowledged.
use magnus_tcp.Base.{ℕ, ◌*◌, ◌-◌, ◌≤◌, ◌≡◌, refl, ◌∙◌, ap, min, true, false, List, [], ◌∷◌, arith}
use magnus_tcp.Float.{F64}
use magnus_tcp.Retransmit.{
  RetransmitEntry, RetransmitQueue, max_rto, fully_acked, end_seq, retain_from, expire_from, is_nil,
  push, expired_segments, update_rto, update_all, acknowledge_and_sample_rtt,
}

abbrev pub sent_entry : ℕ → List ℕ → ℕ → RetransmitEntry
sent_entry seq bytes now = record { seq = seq; bytes = bytes; sent_at = now; retransmitted = false }

-- A segment sent again at `now`.
abbrev pub resent_entry : RetransmitEntry → ℕ → RetransmitEntry
resent_entry e now = record e { sent_at = now; retransmitted = true }

entries-update_all :
    {F : Type 0} (f : F64 F) (q : RetransmitQueue F) (samples : List ℕ)
    → (update_all f q samples).entries ≡ q.entries
unfolding update_all update_rto
entries-update_all f q [] = refl
entries-update_all f q (rtt ∷ samples) = entries-update_all f (update_rto f q rtt) samples

module _ {F : Type 0} (q : RetransmitQueue F) where
  pub push_only :
      (seq : ℕ) (bytes : List ℕ) (now : ℕ)
      → q.entries ≡ []
      → (push q seq bytes now).entries ≡ sent_entry seq bytes now ∷ []
  unfolding push
  push_only seq bytes now e = rw e

  -- The queue after a timeout: the timeout doubled, up to 60 s.
  abbrev pub backed_off : List RetransmitEntry → RetransmitQueue F
  backed_off entries = record q { entries = entries; rto = min (q.rto * 2) max_rto }

  pub expired_none : (now : ℕ) → q.entries ≡ [] → expired_segments q now ≡ (q, [])
  unfolding expired_segments expire_from is_nil
  expired_none now h = rw h

  pub expired_only :
      (e : RetransmitEntry) (now : ℕ)
      → q.entries ≡ e ∷ []
      → q.rto ≤ now - e.sent_at
      → expired_segments q now ≡ (backed_off (resent_entry e now ∷ []), (e.seq, e.bytes) ∷ [])
  unfolding expired_segments expire_from is_nil
  expired_only e now h late = rw h (ground arith)

  pub acknowledged_only :
      (f : F64 F) (e : RetransmitEntry) (ack now : ℕ)
      → q.entries ≡ e ∷ []
      → fully_acked (end_seq e) ack ≡ true
      → (acknowledge_and_sample_rtt f q ack now).entries ≡ []
  unfolding acknowledge_and_sample_rtt retain_from
  acknowledged_only f e ack now h covered =
      entries-update_all f _ _ ∙ ap (λ l. (retain_from ack now l).0) h ∙ none_kept
    where
      none_kept : (retain_from ack now (e ∷ [])).0 ≡ []
      none_kept = ground arith
