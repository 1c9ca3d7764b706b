-- ===== src/Connection/Duplicates.antt =====
-- Duplicate acknowledgements in magnum-tcp/src/tcp/connection.rs: fast retransmission and fast recovery.
use magnus_tcp.Base.{
  ℕ, zero, suc, ◌+◌, ◌*◌, ◌/◌, ◌%◌, ◌≤◌, ◌<◌, ◌≡◌, ◌≢◌, refl, ap, ◌∙◌, true, false, min, max,
  Option, none, some, List, [], ◌∷◌, arith, IsU32, ltb, ◌==◌, if◌then◌else◌, saturating_add,
  Bool-cases, inl, inr, u32_mod,
}
use magnus_tcp.Float.{F64}
use magnus_tcp.Net.{ok}
use magnus_tcp.Tcb.{closed, ack_acceptable, seq_lt}
use magnus_tcp.Header.{TcpSegment}
use magnus_tcp.Retransmit.{mss, is_nil}
use magnus_tcp.Connection.{
  Connection, set_state, ack_flags, data_segment, fast_retransmit_segment, current_window,
}
use magnus_tcp.Connection.Steps.{Reply, silence, answer}
use magnus_tcp.Connection.Established.{
  grown_cwnd, new_ack, dup_ack, established_ack, established_rest, handle_established,
}

-- A bare segment that acknowledges again what was acknowledged last, while bytes are outstanding.
pub record IsDuplicate {F : Type 0} (c : Connection F) (seg : TcpSegment) : Type 0 where
  pub acks : seg.header.ack_num ≡ c.tcb.snd.una
  pub outstanding : c.tcb.snd.una ≢ c.tcb.snd.nxt
  pub flags : seg.header.flags ≡ ack_flags
  pub bare : seg.payload ≡ []

-- The threshold of RFC 5681: half of the window, and two segments at least.
abbrev pub halved : ℕ → ℕ
halved cwnd = max (cwnd / 2) (2 * mss)

-- The window after `n` duplicates: as it was up to the second; then the threshold and a segment for
-- each duplicate, as far as 32 bits go.
abbrev pub inflated : ℕ → ℕ → ℕ
inflated cwnd n = if ltb n 3 then cwnd else min (halved cwnd + n * mss) 4294967295

-- A connection that has counted `n` duplicates, with another window and threshold.
abbrev pub counting : {F : Type 0} → Connection F → (n cwnd ssthresh : ℕ) → Connection F
counting c n cwnd ssthresh = record c {
  tcb = record (c.tcb) { dup_ack_count = n; cwnd = cwnd; ssthresh = ssthresh };
}

-- The connection after `n` duplicates, of which it had seen none before.
abbrev pub after_duplicates : {F : Type 0} → Connection F → ℕ → Connection F
after_duplicates c n =
    counting c (min n 255) (inflated c.tcb.cwnd n)
      (if ltb n 3 then c.tcb.ssthresh else halved c.tcb.cwnd)

-- The segment `seg` arrives `n` times. What is answered comes last first.
unfoldable pub arrives_again :
    {F : Type 0} → F64 F → Connection F → TcpSegment → ℕ → ℕ → Connection F × List Reply
arrives_again f c seg now zero = (c, [])
arrives_again f c seg now (suc n) =
    let (c', replies) = arrives_again f c seg now n in
    let (c'', reply) = handle_established f c' seg now in (c'', reply ∷ replies)

-- The third is answered by the oldest segment in the queue, if there is one, and no other is answered.
abbrev pub replies_to : {F : Type 0} → Connection F → ℕ → List Reply
replies_to c zero = []
replies_to c (suc n) = ok (if n == 2 then fast_retransmit_segment c else none) ∷ replies_to c n

-- The three branches of `dup_ack`.
module _ {F : Type 0} (c : Connection F) where
  early :
      (n cwnd ssthresh : ℕ)
      → n < 2
      → dup_ack (counting c n cwnd ssthresh) ≡ (counting c (n + 1) cwnd ssthresh, none)
  unfolding dup_ack
  early n cwnd ssthresh h =
      let count : min (n + 1) 255 ≡ n + 1 = omega arith in rw count (ground arith)

  third :
      (cwnd ssthresh : ℕ)
      → dup_ack (counting c 2 cwnd ssthresh) ≡ (
        counting c 3 ((halved cwnd + 3 * mss) % u32_mod) (halved cwnd),
        fast_retransmit_segment c,
      )
  unfolding dup_ack fast_retransmit_segment data_segment current_window
  third cwnd ssthresh = refl

  later :
      (n cwnd ssthresh : ℕ)
      → 2 < n
      → dup_ack (counting c n cwnd ssthresh)
        ≡ (counting c (min (n + 1) 255) (saturating_add cwnd mss) ssthresh, none)
  unfolding dup_ack
  later n cwnd ssthresh h = ground arith

  same : {n n' w w' h h' : ℕ} → n ≡ n' → w ≡ w' → h ≡ h' → counting c n w h ≡ counting c n' w' h'
  same p q r = rw (p, q, r) refl

  one_more :
      (n : ℕ)
      → IsU32 c.tcb.cwnd
      → dup_ack (after_duplicates c n)
        ≡ (after_duplicates c (suc n), if n == 2 then fast_retransmit_segment c else none)
  one_more n u = elim (Bool-cases (n == 2)) [
    | inl two ↦
        let e : n ≡ 2 = ground arith in
        rw e (third _ _ ∙ ap (λ z. (z, fast_retransmit_segment c)) (same refl (omega arith) refl))
    | inr other ↦ elim (Bool-cases (ltb n 2)) [
      | inl few ↦ rw other (
          ap dup_ack (
            same {w' = c.tcb.cwnd} {h' = c.tcb.ssthresh} (ground arith) (ground arith)
              (ground arith))
          ∙ early n c.tcb.cwnd c.tcb.ssthresh (ground arith)
          ∙ ap (λ z. (z, none)) (same (ground arith) (ground arith) (ground arith)))
      | inr many ↦ rw other (
          later (min n 255) _ _ (ground arith)
          ∙ ap (λ z. (z, none)) (same (omega arith) (ground arith) (ground arith)))
    ]
  ]

module _ {F : Type 0} (f : F64 F) (seg : TcpSegment) (now : ℕ) where
  is_dup_ack :
      (c : Connection F)
      → seg.header.flags.ack ≡ true
      → seg.header.ack_num ≡ c.tcb.snd.una
      → c.tcb.snd.una ≢ c.tcb.snd.nxt
      → established_ack f c seg now ≡ dup_ack c
  unfolding established_ack ack_acceptable seq_lt
  is_dup_ack c ack acks out = ground arith

  early_return :
      (c : Connection F) (resent : List ℕ) (c' : Connection F)
      → seg.header.flags.rst ≡ false
      → established_ack f c seg now ≡ (c', some resent)
      → handle_established f c seg now ≡ (c', answer resent)
  unfolding handle_established
  early_return c resent c' rst e =
      ap
        (λ r. if seg.header.flags.rst then (set_state c closed, silence) else elim (r.1) [
          | some segment ↦ (r.0, answer segment)
          | none ↦ established_rest (r.0) seg
        ])
        e
      ∙ rw rst refl

  nothing_else :
      (c : Connection F) (early : Option (List ℕ))
      → seg.header.flags ≡ ack_flags
      → seg.payload ≡ []
      → elim early [ some segment ↦ (c, answer segment) | none ↦ established_rest c seg ]
        ≡ (c, ok early)
  unfolding established_rest is_nil
  nothing_else c (some segment) flags bare = refl
  nothing_else c none flags bare = ground arith

  -- What `handle_established` makes of a bare duplicate.
  taken_again :
      (c : Connection F)
      → IsDuplicate c seg
      → handle_established f c seg now ≡ (let (c', early) = dup_ack c in (c', ok early))
  unfolding handle_established
  taken_again c d =
      ap
        (λ r. if seg.header.flags.rst then (set_state c closed, silence) else elim (r.1) [
          | some segment ↦ (r.0, answer segment)
          | none ↦ established_rest (r.0) seg
        ])
        (is_dup_ack c (ap (λ l. l.ack) d.flags) d.acks d.outstanding)
      ∙ ap
          (λ flags. if flags.rst then (set_state c closed, silence) else elim ((dup_ack c).1) [
            | some segment ↦ ((dup_ack c).0, answer segment)
            | none ↦ established_rest (dup_ack c).0 seg
          ])
          d.flags
      ∙ nothing_else (dup_ack c).0 (dup_ack c).1 d.flags d.bare

-- Let an established connection have seen no duplicate yet and have bytes outstanding. When a bare
-- acknowledgement of what was acknowledged last arrives any number of times, the third is answered by the
-- oldest segment in the retransmission queue and no other by anything, and the connection changes only in
-- its count, its window and its threshold: from the third on the threshold is half of the window, two
-- segments at least, and the window is the threshold and a segment for each duplicate.
pub arrives_again_lem :
    {F : Type 0} (f : F64 F) (c : Connection F) (seg : TcpSegment) (now n : ℕ)
    → IsDuplicate c seg
    → c.tcb.dup_ack_count ≡ 0
    → IsU32 c.tcb.cwnd
    → arrives_again f c seg now n ≡ (after_duplicates c n, replies_to c n)
unfolding arrives_again
arrives_again_lem f c seg now zero d none_yet u =
    ap (λ z. (z, [])) (same c {n = c.tcb.dup_ack_count} none_yet refl refl)
arrives_again_lem f c seg now (suc n) d none_yet u =
    ap (λ r. let (c', reply) = handle_established f (r.0) seg now in (c', reply ∷ r.1))
      (arrives_again_lem f c seg now n d none_yet u)
    ∙ ap (λ r. (r.0, r.1 ∷ replies_to c n))
        (taken_again f seg now (after_duplicates c n)
            (record { acks = d.acks; outstanding = d.outstanding; flags = d.flags; bare = d.bare })
          ∙ ap (λ r. (r.0, ok r.1)) (one_more c n u))

-- A segment that is the third duplicate is answered by the oldest segment in the queue and by no more: the
-- bytes that it carries, and its FIN, are dropped, whatever they are.
pub third_duplicate_drops :
    {F : Type 0} (f : F64 F) (c : Connection F) (seg : TcpSegment) (now : ℕ) (resent : List ℕ)
    → c.tcb.dup_ack_count ≡ 2
    → seg.header.flags.rst ≡ false
    → seg.header.flags.ack ≡ true
    → seg.header.ack_num ≡ c.tcb.snd.una
    → c.tcb.snd.una ≢ c.tcb.snd.nxt
    → fast_retransmit_segment c ≡ some resent
    → let (c', reply) = handle_established f c seg now in
      (reply ≡ answer resent)
      × (c'.recv_buf ≡ c.recv_buf)
      × (c'.tcb.rcv ≡ c.tcb.rcv)
      × (c'.tcb.state ≡ c.tcb.state)
third_duplicate_drops f c seg now resent two rst ack acks out first =
    rw handled (refl, refl, refl, refl)
  where
    dup :
        established_ack f c seg now
        ≡ (counting c 3 ((halved c.tcb.cwnd + 3 * mss) % u32_mod) (halved c.tcb.cwnd), some resent)
    dup =
        is_dup_ack f seg now c ack acks out
        ∙ ap dup_ack (same c {n = c.tcb.dup_ack_count} two refl refl)
        ∙ third c c.tcb.cwnd c.tcb.ssthresh
        ∙ ap (λ s. (counting c 3 ((halved c.tcb.cwnd + 3 * mss) % u32_mod) (halved c.tcb.cwnd), s))
            first

    handled : handle_established f c seg now ≡ (
      counting c 3 ((halved c.tcb.cwnd + 3 * mss) % u32_mod) (halved c.tcb.cwnd),
      answer resent,
    )
    handled = early_return f seg now c resent _ rst dup

-- After three duplicates or more, an acknowledgement that ends the recovery leaves the window at the
-- threshold and three segments or more: it is not set back to the threshold.
pub not_deflated :
    {F : Type 0} (f : F64 F) (c : Connection F) (seg : TcpSegment) (now n : ℕ)
    → IsU32 c.tcb.cwnd
    → 3 ≤ n
    → let c' = new_ack f (after_duplicates c n) seg now in
      (c'.tcb.ssthresh ≡ halved c.tcb.cwnd) × (halved c.tcb.cwnd + 3 * mss ≤ c'.tcb.cwnd)
unfolding new_ack grown_cwnd
not_deflated f c seg now n u h = ground arith
