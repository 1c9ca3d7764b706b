-- ===== src/Checksum.antt =====
-- The one's-complement sum that magnum-tcp/src/ipv4.rs and tcp/header.rs both write out.
use magnus_tcp.Base.{
  ℕ, ◌+◌, ◌-◌, ◌*◌, ◌/◌, ◌%◌, ◌<◌, List, [], ◌∷◌, arith, dite, dec_lt, lt_wf, u32_mod,
}
use magnus_tcp.Net.{be16}
use mathlib.Core.WellFounded.{Acc}
pub mod Laws

-- `while i + 1 < data.len() { sum += word; i += 2 }` and the odd byte behind it, with `u32` sums.
unfoldable pub sum_words : ℕ → List ℕ → ℕ
sum_words sum [] = sum
sum_words sum (a ∷ []) = (sum + a * 256) % u32_mod
sum_words sum (a ∷ b ∷ rest) = sum_words ((sum + be16 a b) % u32_mod) rest

pub fold_shrinks : (sum : ℕ) → 0 < sum / 65536 → sum % 65536 + sum / 65536 < sum
fold_shrinks sum h = omega arith

-- `while sum >> 16 != 0 { sum = (sum & 0xFFFF) + (sum >> 16); }`: each round makes `sum` smaller.
unfoldable pub fold_loop : (sum : ℕ) → Acc ◌<◌ sum → ℕ
fold_loop sum (Acc.intro _ smaller) =
    dite (dec_lt 0 (sum / 65536))
      (λ more. fold_loop (sum % 65536 + sum / 65536) (smaller _ (fold_shrinks sum more)))
      (λ done. sum)

-- The loop, then `!(sum as u16)`.
unfoldable pub finish : ℕ → ℕ
unfolding fold_loop lt_wf dec_lt
finish sum = 65535 - fold_loop sum (lt_wf.apply sum) % 65536
