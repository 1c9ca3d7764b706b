-- ===== src/RecvBuffer.antt =====
-- The receive buffer of magnum-tcp/src/tcp/recv_buffer.rs: a ring of bytes in order, and a map of
-- segments that came ahead of their turn, kept by sequence number.
use magnus_tcp.Base.{
  ℕ, ◌+◌, ◌-◌, ◌%◌, min, Bool, List, [], ◌∷◌, ltb, leb, ◌==◌, if◌then◌else◌, length, take, drop,
  wrapping_add, wrapping_sub, u32_mod,
}
use magnus_tcp.Tcb.{seq_lt}
use magnus_tcp.Ring.{Storage, zeroed, store_from, load_from}
pub mod Reassembly
pub mod Delivery
pub mod Progress

abbrev pub recv_buf_size : ℕ
recv_buf_size = 65536

-- `BTreeMap<u32, Vec<u8>>` as the list of its entries in the order of their keys.
abbrev pub Staging : Type 0
Staging = List (ℕ × List ℕ)

pub record RecvBuffer : Type 0 where
  pub buf : Storage
  pub head : ℕ
  pub len : ℕ
  pub nxt : ℕ  -- u32
  pub ooo : Staging

unfoldable pub new : ℕ → RecvBuffer
new irs = record { buf = zeroed; head = 0; len = 0; nxt = wrapping_add irs 1; ooo = [] }

-- `entry(key).or_insert_with(|| bytes)`: a key that is there keeps its bytes.
unfoldable pub or_insert : ℕ → List ℕ → Staging → Staging
or_insert key bytes [] = (key, bytes) ∷ []
or_insert key bytes ((k, b) ∷ rest) =
    if ltb key k
    then (key, bytes) ∷ (k, b) ∷ rest
    else (if key == k then (k, b) ∷ rest else (k, b) ∷ or_insert key bytes rest)

unfoldable pub commit : RecvBuffer → List ℕ → RecvBuffer
commit rb bytes =
    let space = recv_buf_size - rb.len in
    let n = min (length bytes) space in
    let tail = (rb.head + rb.len) % recv_buf_size in
    record rb {
      buf = store_from rb.buf tail 0 (take n bytes);
      len = rb.len + n;
      nxt = wrapping_add rb.nxt (n % u32_mod);
    }

-- The loop of `drain_ooo` with the entries left in the map.
unfoldable pub drain_from : RecvBuffer → Staging → RecvBuffer
drain_from rb [] = record rb { ooo = [] }
drain_from rb ((key, bytes) ∷ rest) =
    let drained = drain_from (commit rb bytes) rest in
    if key == rb.nxt then drained else record rb { ooo = (key, bytes) ∷ rest }

unfoldable pub drain_ooo : RecvBuffer → RecvBuffer
drain_ooo rb = drain_from rb rb.ooo

-- The end of `insert`, once the bytes from before `nxt` are cut off.
unfoldable pub place : RecvBuffer → ℕ → List ℕ → RecvBuffer
place rb seq bytes =
    if seq == rb.nxt
    then drain_ooo (commit rb bytes)
    else record rb { ooo = or_insert seq bytes rb.ooo }

unfoldable pub insert : RecvBuffer → ℕ → List ℕ → RecvBuffer
insert rb seq bytes =
    let past = wrapping_sub rb.nxt seq in
    if length bytes == 0
    then rb
    else (if seq_lt seq rb.nxt
        then (if leb (length bytes) past
            then rb
            else place rb (wrapping_add seq past) (drop past bytes))
        else place rb (wrapping_add seq 0) bytes)

-- `read` into a slice of `size` bytes: the new buffer, and the bytes put into the slice.
unfoldable pub read : RecvBuffer → ℕ → RecvBuffer × List ℕ
read rb size =
    let n = min size rb.len in
    (
      record rb { head = (rb.head + n) % recv_buf_size; len = rb.len - n },
      load_from rb.buf rb.head 0 n,
    )

unfoldable pub next_expected : RecvBuffer → ℕ
next_expected rb = rb.nxt

unfoldable pub window : RecvBuffer → ℕ
window rb = min (recv_buf_size - rb.len) 65535 % 65536

unfoldable pub available : RecvBuffer → ℕ
available rb = rb.len

unfoldable pub is_empty : RecvBuffer → Bool
is_empty rb = rb.len == 0
