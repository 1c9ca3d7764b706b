-- ===== src/SendBuffer/Stream.antt =====
-- The send buffer of magnum-tcp/src/tcp/send_buffer.rs as a queue of unacknowledged bytes.
use magnus_tcp.Base.{
  ℕ, ◌+◌, ◌-◌, ◌%◌, ◌≤◌, ◌<◌, ◌≡◌, refl, sym, ap, ◌∙◌, min, none, some, List, ◌++◌, arith, length,
  take, drop, length-take, ◌==◌, if◌then◌else◌, IsU32, wrapping_sub,
}
use magnus_tcp.Ring.{load_from}
use magnus_tcp.Ring.Laws.{
  length-load_from, load_from-eq, load_from-store_from, take-load_from, drop-load_from,
}
use magnus_tcp.SendBuffer.{
  SendBuffer, send_buf_size, new, write, next_segment, advance_nxt, acknowledge,
}

-- The bytes that the buffer holds, oldest first: sent but not acknowledged, then not sent.
abbrev pub contents : SendBuffer → List ℕ
contents sb = load_from sb.buf sb.head 0 sb.len

-- How many of them were sent.
abbrev pub inflight : SendBuffer → ℕ
inflight sb = wrapping_sub sb.nxt sb.una

pub record IsValid (sb : SendBuffer) : Type 0 where
  pub head_in : sb.head < send_buf_size
  pub len_in : sb.len ≤ send_buf_size
  pub una_u32 : IsU32 sb.una
  pub nxt_u32 : IsU32 sb.nxt
  pub sent_in : inflight sb ≤ sb.len

pub new-IsValid : (iss : ℕ) → IsValid (new iss)
unfolding new
new-IsValid iss = omega arith

pub length-contents : (sb : SendBuffer) → length (contents sb) ≡ sb.len
length-contents sb = length-load_from sb.buf sb.head 0 sb.len

-- On a valid buffer, `write` takes as many bytes as there is room for, returns their number,
-- appends exactly that prefix of the bytes offered behind the contents, changes neither sequence
-- number, and leaves the buffer valid.
pub write_lem :
    {sb : SendBuffer} (bytes : List ℕ)
    → IsValid sb
    → let (sb', n) = write sb bytes in
      (n ≡ min (length bytes) (send_buf_size - sb.len))
      × (contents sb' ≡ contents sb ++ take n bytes)
      × (sb'.una ≡ sb.una)
      × (sb'.nxt ≡ sb.nxt)
      × IsValid sb'
unfolding write
write_lem {sb} bytes v = (refl, appended, refl, refl, omega arith)
  where
    n : ℕ
    n = min (length bytes) (send_buf_size - sb.len)

    appended : contents (write sb bytes).0 ≡ contents sb ++ take n bytes
    appended =
        load_from-store_from sb.buf sb.head sb.len ((sb.head + sb.len) % send_buf_size) 0
          (take n bytes) (sb.len + n) (omega arith) (omega (arith, length-take n bytes))
          (omega arith)

-- The window that the code reads for the next `n` unsent bytes.
load_from-unsent :
    (sb : SendBuffer) (k n : ℕ)
    → k + n ≤ sb.len
    → load_from sb.buf ((sb.head + k) % send_buf_size) 0 n ≡ take n (drop k (contents sb))
load_from-unsent sb k n h =
    load_from-eq sb.buf ((sb.head + k) % send_buf_size) 0 n sb.head (0 + k) n (omega arith) refl
    ∙ sym (take-load_from sb.buf sb.head (0 + k) (sb.len - k) n n (omega arith))
    ∙ ap (λ r. take n r) (sym (drop-load_from sb.buf sb.head 0 sb.len k))

-- On a valid buffer, `next_segment` returns nothing if every byte was sent or no byte is allowed;
-- else the next sequence number with the next unsent bytes, as many as there are and as are
-- allowed.
pub next_segment_lem :
    {sb : SendBuffer} (max_len : ℕ)
    → IsValid sb
    → let n = min (sb.len - inflight sb) max_len in
      next_segment sb max_len
      ≡ (if n == 0 then none else some (sb.nxt, take n (drop (inflight sb) (contents sb))))
unfolding next_segment
next_segment_lem {sb} max_len v =
    ground (arith, load_from-unsent sb (inflight sb) (min (sb.len - inflight sb) max_len))

-- Marking sent bytes as sent moves `nxt` past exactly them.
pub advance_nxt_lem :
    {sb : SendBuffer} (n : ℕ)
    → IsValid sb
    → inflight sb + n ≤ sb.len
    → let sb' = advance_nxt sb n in
      (contents sb' ≡ contents sb) × (inflight sb' ≡ inflight sb + n) × IsValid sb'
unfolding advance_nxt
advance_nxt_lem n v h = (refl, omega arith, omega arith)

acknowledge-eq :
    {sb : SendBuffer} (ack : ℕ)
    → IsValid sb
    → wrapping_sub ack sb.una ≤ sb.len
    → IsU32 ack
    → acknowledge sb ack ≡ record sb {
      head = (sb.head + wrapping_sub ack sb.una) % send_buf_size;
      len = sb.len - wrapping_sub ack sb.una;
      una = ack;
    }
unfolding acknowledge
acknowledge-eq {sb} ack v h ha = ground arith

-- On a valid buffer, an acknowledgement that covers no more than the bytes that were sent removes
-- exactly those that it covers from the front, moves `una` to it, leaves `nxt` alone, and leaves
-- the buffer valid.
pub acknowledge_lem :
    {sb : SendBuffer} (ack : ℕ)
    → IsValid sb
    → IsU32 ack
    → wrapping_sub ack sb.una ≤ inflight sb
    → let sb' = acknowledge sb ack in
      (contents sb' ≡ drop (wrapping_sub ack sb.una) (contents sb))
      × (sb'.una ≡ ack)
      × (sb'.nxt ≡ sb.nxt)
      × (inflight sb' ≡ inflight sb - wrapping_sub ack sb.una)
      × IsValid sb'
acknowledge_lem {sb} ack v ha h =
    rw (acknowledge-eq ack v (omega arith) ha) (removed, refl, refl, omega arith, omega arith)
  where
    k : ℕ
    k = wrapping_sub ack sb.una

    removed : load_from sb.buf ((sb.head + k) % send_buf_size) 0 (sb.len - k) ≡ drop k (contents sb)
    removed =
        load_from-eq sb.buf ((sb.head + k) % send_buf_size) 0 (sb.len - k) sb.head (0 + k)
          (sb.len - k) (omega arith) refl
        ∙ sym (drop-load_from sb.buf sb.head 0 sb.len k)
