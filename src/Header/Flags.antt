-- ===== src/Header/Flags.antt =====
-- The flag byte of magnum-tcp/src/tcp/header.rs.
use magnus_tcp.Base.{
  ℕ, zero, suc, ◌%◌, ◌<◌, ◌≡◌, refl, Bool, true, false, ◌==◌, if◌then◌else◌, dec_lt, arith,
}
use magnus_tcp.Header.{TcpFlags, from_byte, to_byte}

-- Every combination of flags survives its byte.
pub from_byte-to_byte : (f : TcpFlags) → from_byte (to_byte f) ≡ f
unfolding from_byte to_byte
from_byte-to_byte f = ground arith

pub to_byte-lt : (f : TcpFlags) → to_byte f < 64
unfolding to_byte
to_byte-lt f = ground arith

-- Two functions agree on the numbers below the last argument.
same_until : (f g : ℕ → ℕ) → ℕ → Bool
same_until f g zero = true
same_until f g (suc k) = let earlier = same_until f g k in if f k == g k then earlier else false

same_until_agrees : (f g : ℕ → ℕ) (k b : ℕ) → same_until f g k ≡ true → b < k → f b ≡ g b
unfolding same_until
same_until_agrees f g zero b e h = absurd (omega arith)
same_until_agrees f g (suc k) b e h = elim (dec_lt b k) [
  | Dec.yes earlier ↦ same_until_agrees f g k b (ground arith) earlier
  | Dec.no last ↦ let here : f k ≡ g k = ground arith in let at : b ≡ k = omega arith in rw at here
]

byte_table : same_until (λ b. to_byte (from_byte b)) (λ b. b % 64) 256 ≡ true
unfolding same_until to_byte from_byte
byte_table = refl

-- Reading a byte and writing it back keeps its six low bits and clears the two reserved ones.
pub to_byte-from_byte : (b : ℕ) → b < 256 → to_byte (from_byte b) ≡ b % 64
to_byte-from_byte b h =
    same_until_agrees (λ x. to_byte (from_byte x)) (λ x. x % 64) 256 b byte_table h
