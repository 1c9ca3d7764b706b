-- ===== src/RecvBuffer/Progress.antt =====
-- When the receive buffer of magnum-tcp/src/tcp/recv_buffer.rs moves on, and when it does not.
use magnus_tcp.Base.{
  ℕ, ◌+◌, ◌-◌, ◌≤◌, ◌<◌, ◌≡◌, ◌≢◌, refl, ap, ◌∙◌, min, List, [], ◌∷◌, arith, length, drop, IsU32,
  wrapping_add, wrapping_sub, length-drop,
}
use magnus_tcp.Tcb.{seq_lt}
use magnus_tcp.RecvBuffer.{
  RecvBuffer, Staging, recv_buf_size, commit, drain_from, drain_ooo, place, insert, available,
}

len-commit :
    (rb : RecvBuffer) (bytes : List ℕ)
    → rb.len ≤ recv_buf_size
    → (commit rb bytes).len ≡ min (rb.len + length bytes) recv_buf_size
unfolding commit
len-commit rb bytes h = omega arith

-- Draining never loses bytes, and never holds more than the ring has room for.
len-drain_from :
    (entries : Staging) (rb : RecvBuffer)
    → rb.len ≤ recv_buf_size
    → (rb.len ≤ (drain_from rb entries).len) × ((drain_from rb entries).len ≤ recv_buf_size)
unfolding drain_from
len-drain_from [] rb h = omega arith
len-drain_from ((key, bytes) ∷ rest) rb h = ground (
  arith,
  len-commit rb bytes h,
  len-drain_from rest (commit rb bytes) (omega (arith, len-commit rb bytes h)),
)

place_at_nxt :
    (rb : RecvBuffer) (seq : ℕ) (bytes : List ℕ)
    → rb.len ≤ recv_buf_size
    → seq ≡ rb.nxt
    → min (rb.len + length bytes) recv_buf_size ≤ (place rb seq bytes).len
unfolding place drain_ooo
place_at_nxt rb seq bytes h e = ground (
  arith,
  len-commit rb bytes h,
  len-drain_from (commit rb bytes).ooo (commit rb bytes) (omega (arith, len-commit rb bytes h)),
)

-- On a buffer that is not overfull, a segment that starts at the expected byte or up to 2 ^ 31 - 1
-- bytes before it, and reaches past it, makes its new bytes readable at once, or as many as there
-- is room for.
pub insert_advances :
    (rb : RecvBuffer) (seq : ℕ) (bytes : List ℕ)
    → rb.len ≤ recv_buf_size
    → IsU32 seq
    → IsU32 rb.nxt
    → wrapping_sub rb.nxt seq < 0x8000_0000
    → wrapping_sub rb.nxt seq < length bytes
    → let new_bytes = length bytes - wrapping_sub rb.nxt seq in
      min (available rb + new_bytes) recv_buf_size ≤ available (insert rb seq bytes)
unfolding insert seq_lt available
insert_advances rb seq bytes h hs hn near more = ground (
  arith,
  place_at_nxt rb (wrapping_add seq 0) bytes h,
  place_at_nxt rb (wrapping_add seq past) (drop past bytes) h,
  length-drop past bytes,
)
  where
    past : ℕ
    past = wrapping_sub rb.nxt seq

insert_at_nxt :
    (rb : RecvBuffer) (bytes : List ℕ)
    → 0 < length bytes
    → IsU32 rb.nxt
    → insert rb rb.nxt bytes ≡ drain_ooo (commit rb bytes)
unfolding insert seq_lt place
insert_at_nxt rb bytes h hn = ground arith

drain_from_stuck :
    (rb : RecvBuffer) (key : ℕ) (b : List ℕ) (rest : Staging)
    → key ≢ rb.nxt
    → drain_from rb ((key, b) ∷ rest) ≡ record rb { ooo = (key, b) ∷ rest }
unfolding drain_from
drain_from_stuck rb key b rest ne = ground arith

-- If the staged segment with the least number is not the one that comes next once some bytes have
-- arrived in order, nothing staged is delivered with them, whatever else is staged behind it.
pub stale_entry_blocks :
    (rb : RecvBuffer) (bytes : List ℕ) (key : ℕ) (b : List ℕ) (rest : Staging)
    → 0 < length bytes
    → IsU32 rb.nxt
    → rb.ooo ≡ (key, b) ∷ rest
    → key ≢ (commit rb bytes).nxt
    → let rb' = insert rb rb.nxt bytes in
      (rb'.nxt ≡ (commit rb bytes).nxt) × (rb'.ooo ≡ (key, b) ∷ rest)
stale_entry_blocks rb bytes key b rest h hn e ne =
    rw (insert_at_nxt rb bytes h hn, stuck) (refl, refl)
  where
    stuck : drain_ooo (commit rb bytes) ≡ record (commit rb bytes) { ooo = (key, b) ∷ rest }
    stuck =
        unfold drain_ooo commit in
        ap (drain_from (commit rb bytes)) e ∙ drain_from_stuck (commit rb bytes) key b rest ne

-- With nothing staged and room for them, the bytes that come next are put behind those in order.
pub insert_in_order :
    (rb : RecvBuffer) (seq : ℕ) (bytes : List ℕ)
    → seq ≡ rb.nxt
    → rb.ooo ≡ []
    → IsU32 seq
    → 0 < length bytes
    → rb.len + length bytes ≤ recv_buf_size
    → let rb' = insert rb seq bytes in
      (rb'.len ≡ rb.len + length bytes)
      × (rb'.ooo ≡ [])
      × (rb'.nxt ≡ wrapping_add seq (length bytes))
unfolding insert place commit drain_ooo drain_from seq_lt
insert_in_order rb seq bytes next e u pos room = ground arith

-- Bytes that all lie before the expected one change nothing.
pub insert_again :
    (rb : RecvBuffer) (seq : ℕ) (bytes : List ℕ)
    → IsU32 seq
    → IsU32 rb.nxt
    → wrapping_sub rb.nxt seq < 0x8000_0000
    → length bytes ≤ wrapping_sub rb.nxt seq
    → insert rb seq bytes ≡ rb
unfolding insert seq_lt
insert_again rb seq bytes hs hn near old = ground arith
