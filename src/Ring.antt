-- ===== src/Ring.antt =====
-- The circular storage that magnum-tcp/src/tcp/send_buffer.rs and recv_buffer.rs share: 65536
-- bytes, indexed modulo the size, and the loops that copy bytes in and out.
use magnus_tcp.Base.{ℕ, zero, suc, ◌+◌, ◌%◌, List, [], ◌∷◌, ◌==◌, if◌then◌else◌}
pub mod Laws

-- `Box<[u8; 65536]>`: every index that the code uses is taken modulo the size.
abbrev pub Storage : Type 0
Storage = ℕ → ℕ

abbrev pub ring_size : ℕ
ring_size = 65536

-- `[0u8; 65536]`.
abbrev pub zeroed : Storage
zeroed i = 0

-- `buf[i] = b`.
abbrev pub update : Storage → ℕ → ℕ → Storage
update buf i b j = if j == i then b else buf j

-- `for (i, &b) in src.iter().enumerate() { buf[(tail + i) % SIZE] = b; }`, from round `i` on.
unfoldable pub store_from : Storage → ℕ → ℕ → List ℕ → Storage
store_from buf tail i [] = buf
store_from buf tail i (b ∷ bs) = store_from (update buf ((tail + i) % ring_size) b) tail (i + 1) bs

-- `for i in 0..n { out.push(buf[(start + i) % SIZE]); }`, from round `i` on with `n` rounds left.
unfoldable pub load_from : Storage → ℕ → ℕ → ℕ → List ℕ
load_from buf start i zero = []
load_from buf start i (suc n) = buf ((start + i) % ring_size) ∷ load_from buf start (i + 1) n
