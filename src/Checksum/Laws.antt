-- ===== src/Checksum/Laws.antt =====
-- The Internet checksum of magnum-tcp/src/ipv4.rs and tcp/header.rs: filling in the computed
-- checksum makes the sum verify.
use magnus_tcp.Base.{
  ℕ, ◌+◌, ◌*◌, ◌/◌, ◌%◌, ◌≤◌, ◌<◌, ◌≡◌, ◌∙◌, List, [], ◌∷◌, arith, ◌↔◌, lt_wf, length, All, u32_mod,
}
use magnus_tcp.Net.{IsByte, be16}
use magnus_tcp.Checksum.{sum_words, fold_shrinks, fold_loop, finish}
use mathlib.Core.WellFounded.{Acc}

-- The sum of the words with no wrap-around.
abbrev pub word_total : List ℕ → ℕ
word_total [] = 0
word_total (a ∷ []) = a * 256
word_total (a ∷ b ∷ rest) = be16 a b + word_total rest

pub word_total-bound :
    (raw : List ℕ) → All IsByte raw → 2 * word_total raw ≤ 65535 * (length raw + 1)
word_total-bound [] h = omega arith
word_total-bound (a ∷ []) h = omega arith
word_total-bound (a ∷ b ∷ rest) (ha, (hb, h)) = omega (arith, word_total-bound rest h)

-- As long as the total fits in 32 bits, the loop computes it.
pub sum_words-eq :
    (sum : ℕ) (raw : List ℕ)
    → sum + word_total raw < u32_mod
    → sum_words sum raw ≡ sum + word_total raw
unfolding sum_words
sum_words-eq sum [] h = omega arith
sum_words-eq sum (a ∷ []) h = omega arith
sum_words-eq sum (a ∷ b ∷ rest) h =
    sum_words-eq ((sum + be16 a b) % u32_mod) rest (omega arith) ∙ omega arith

-- The loop ends below 2 ^ 16, keeps the value modulo 65535, and is 0 only for 0.
pub fold_loop_lem :
    (sum : ℕ) (w : Acc ◌<◌ sum)
    → (fold_loop sum w < 65536)
      × (fold_loop sum w % 65535 ≡ sum % 65535)
      × (0 < sum → 0 < fold_loop sum w)
unfolding fold_loop
fold_loop_lem sum (Acc.intro _ smaller) = grind (
  arith,
  λ (p : 0 < sum / 65536).
      fold_loop_lem (sum % 65536 + sum / 65536) (smaller _ (fold_shrinks sum p)),
)

-- The checksum is a 16-bit number that completes the sum to a multiple of 65535.
pub finish_completes : (sum : ℕ) → (finish sum < 65536) × ((sum + finish sum) % 65535 ≡ 0)
unfolding finish
finish_completes sum = omega (arith, fold_loop_lem sum (lt_wf.apply sum))

-- The checksum of a positive sum is 0 exactly when the sum is a multiple of 65535.
pub finish-zero_iff : (sum : ℕ) → 0 < sum → (finish sum ≡ 0) ↔ (sum % 65535 ≡ 0)
unfolding finish
finish-zero_iff sum h =
    let (below, same, pos) = fold_loop_lem sum (lt_wf.apply sum) in
    (λ e. omega (arith, below, same, pos h), λ e. omega (arith, below, same, pos h))

-- A sum to which its own checksum is added has checksum 0.
pub finish-add_finish : (sum : ℕ) → 0 < sum → finish (sum + finish sum) ≡ 0
finish-add_finish sum h =
    (finish-zero_iff (sum + finish sum) (omega arith)).1 (finish_completes sum).1
