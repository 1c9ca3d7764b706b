-- ===== src/SendBuffer.antt =====
-- The send buffer of magnum-tcp/src/tcp/send_buffer.rs: a ring of bytes not yet acknowledged, with
-- the sequence numbers of the first of them and of the first that was never sent.
use magnus_tcp.Base.{
  ℕ, ◌+◌, ◌-◌, ◌%◌, min, Bool, ◌||◌, Option, none, some, List, ltb, leb, ◌==◌, if◌then◌else◌,
  length, take, wrapping_add, wrapping_sub, u32_mod,
}
use magnus_tcp.Ring.{Storage, zeroed, store_from, load_from}
pub mod Stream

abbrev pub send_buf_size : ℕ
send_buf_size = 65536

pub record SendBuffer : Type 0 where
  pub buf : Storage
  pub head : ℕ
  pub len : ℕ
  pub una : ℕ  -- u32
  pub nxt : ℕ  -- u32

unfoldable pub new : ℕ → SendBuffer
new iss = record {
  buf = zeroed;
  head = 0;
  len = 0;
  una = wrapping_add iss 1;
  nxt = wrapping_add iss 1;
}

-- Returns the buffer and the number of bytes taken.
unfoldable pub write : SendBuffer → List ℕ → SendBuffer × ℕ
write sb bytes =
    let space = send_buf_size - sb.len in
    let n = min (length bytes) space in
    let tail = (sb.head + sb.len) % send_buf_size in
    (record sb { buf = store_from sb.buf tail 0 (take n bytes); len = sb.len + n }, n)

unfoldable pub next_segment : SendBuffer → ℕ → Option (ℕ × List ℕ)
next_segment sb max_len =
    let inflight = wrapping_sub sb.nxt sb.una in
    let available = sb.len - inflight in
    let n = min available max_len in
    let start = (sb.head + inflight) % send_buf_size in
    if leb sb.len inflight
    then none
    else (if n == 0 then none else some (sb.nxt, load_from sb.buf start 0 n))

unfoldable pub advance_nxt : SendBuffer → ℕ → SendBuffer
advance_nxt sb n = record sb { nxt = wrapping_add sb.nxt (n % u32_mod) }

unfoldable pub acknowledge : SendBuffer → ℕ → SendBuffer
acknowledge sb ack =
    let newly_acked = wrapping_sub ack sb.una in
    if newly_acked == 0 || ltb sb.len newly_acked then sb else record sb {
      head = (sb.head + newly_acked) % send_buf_size;
      len = sb.len - newly_acked;
      una = ack;
    }

-- `buffered` and `is_empty`.
unfoldable pub buffered : SendBuffer → ℕ
buffered sb = sb.len

unfoldable pub is_empty : SendBuffer → Bool
is_empty sb = sb.len == 0
