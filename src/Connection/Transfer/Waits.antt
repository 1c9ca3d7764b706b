-- ===== src/Connection/Transfer/Waits.antt =====
-- A segment of magnum-tcp/src/tcp/connection.rs that waits for its acknowledgement.
use magnus_tcp.Base.{ℕ, ◌+◌, ◌*◌, ◌/◌, ◌≡◌, refl, List, [], ◌∷◌, max, arith}
use magnus_tcp.Retransmit.{RetransmitEntry, RetransmitQueue, mss, is_nil}
use magnus_tcp.Retransmit.Single.{resent_entry, backed_off, expired_only}
use magnus_tcp.Connection.{Connection, data_flags, data_segment, take_retransmits, current_window}
use magnus_tcp.Connection.Transfer.Lossy.{with_queue}

-- The entry for the segment that is out is the only one in the queue.
pub record Waits {F : Type 0} (seq : ℕ) (bytes : List ℕ) (now : ℕ) (q : RetransmitQueue F)
    : Type 0 where
  pub entry : RetransmitEntry
  pub only : q.entries ≡ entry ∷ []
  pub of_seq : entry.seq ≡ seq
  pub of_bytes : entry.bytes ≡ bytes
  pub at : entry.sent_at ≡ now

module _ {F : Type 0} (c : Connection F) (seq : ℕ) (payload : List ℕ) where
  pub resend_at :
      (now late : ℕ) (q : RetransmitQueue F) (cwnd ssthresh : ℕ) (w : Waits seq payload now q)
      → let later = now + q.rto + late in
        take_retransmits (with_queue c q cwnd ssthresh) later ≡ (
          with_queue c
              (backed_off q (resent_entry w.entry later ∷ []))
              mss
              (max (cwnd / 2) (2 * mss)),
          data_segment c seq data_flags payload ∷ [],
        )
  unfolding take_retransmits is_nil data_segment current_window
  resend_at now late q cwnd ssthresh w =
      rw
        (
          expired_only q w.entry (now + q.rto + late) w.only (omega (arith, w.at)),
          w.of_seq,
          w.of_bytes,
        )
        refl
