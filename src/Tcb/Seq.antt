-- ===== src/Tcb/Seq.antt =====
-- The sequence arithmetic of magnum-tcp/src/tcp/tcb.rs against plain distances.
use magnus_tcp.Base.{ℕ, ◌≤◌, ◌<◌, ◌≡◌, ◌↔◌, true, false, arith, IsU32, wrapping_sub}
use magnus_tcp.Tcb.{seq_lt, seq_le, ack_acceptable}

-- `seq_lt` holds of two numbers of 32 bits exactly when the second lies 1 to 2 ^ 31 - 1 ahead of
-- the first.
pub seq_lt_iff :
    (a b : ℕ)
    → IsU32 a
    → IsU32 b
    → (seq_lt a b ≡ true) ↔ ((0 < wrapping_sub b a) × (wrapping_sub b a < 0x8000_0000))
unfolding seq_lt
seq_lt_iff a b ha hb = ground arith

-- No two sequence numbers are each before the other, though the order wraps.
pub seq_lt_asymm : (a b : ℕ) → IsU32 a → IsU32 b → seq_lt a b ≡ true → seq_lt b a ≡ false
unfolding seq_lt
seq_lt_asymm a b ha hb h = ground arith

-- If fewer than 2 ^ 31 bytes are outstanding, an acknowledgement of 32 bits is acceptable exactly
-- when it lies 1 to that many bytes ahead of `una`, wherever in the 32-bit space `una` is.
pub ack_acceptable_iff :
    (una ack nxt : ℕ)
    → IsU32 una
    → IsU32 ack
    → IsU32 nxt
    → wrapping_sub nxt una < 0x8000_0000
    → (ack_acceptable una ack nxt ≡ true)
      ↔ ((0 < wrapping_sub ack una) × (wrapping_sub ack una ≤ wrapping_sub nxt una))
unfolding ack_acceptable seq_lt seq_le
ack_acceptable_iff una ack nxt hu ha hn h = ground arith
