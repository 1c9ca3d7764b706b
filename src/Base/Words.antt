-- ===== src/Base/Words.antt =====
-- Machine words: `u32` sums and differences wrap, and sums that saturate stop at the top.
use Prim.Native.Nat.{ℕ, ◌+◌, ◌-◌, ◌%◌, ◌<◌, min}

abbrev pub u16_mod : ℕ
u16_mod = 0x1_0000

abbrev pub u32_mod : ℕ
u32_mod = 0x1_0000_0000

-- The type of a `u32` value: a number below 2 ^ 32.
abbrev pub IsU32 : ℕ → Type 0
IsU32 x = x < u32_mod

-- `a.wrapping_add(b)` on `u32`.
abbrev pub wrapping_add : ℕ → ℕ → ℕ
wrapping_add a b = (a + b) % u32_mod

-- `a.wrapping_sub(b)` on `u32`, for `b` below 2 ^ 32.
abbrev pub wrapping_sub : ℕ → ℕ → ℕ
wrapping_sub a b = (a + u32_mod - b) % u32_mod

-- `a.saturating_add(b)` on `u32`.
abbrev pub saturating_add : ℕ → ℕ → ℕ
saturating_add a b = min (a + b) 0xffff_ffff
