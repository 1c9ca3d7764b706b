-- ===== src/Ring/Laws.antt =====
-- What the copying loops do to the bytes that a window of the storage holds.
use magnus_tcp.Base.{
  ℕ, zero, suc, ◌+◌, ◌-◌, ◌%◌, ◌≤◌, ◌<◌, ◌≡◌, refl, sym, ap, ap₂, ◌∙◌, List, [], ◌∷◌, ◌++◌, arith,
  min, length, take, drop, append_assoc, append-nil,
}
use magnus_tcp.Ring.{Storage, ring_size, update, store_from, load_from}

pub length-load_from : (buf : Storage) (s i n : ℕ) → length (load_from buf s i n) ≡ n
unfolding load_from
length-load_from buf s i zero = refl
length-load_from buf s i (suc n) = ap suc (length-load_from buf s (i + 1) n)

load_from-shift :
    (buf : Storage) (s i t j n : ℕ)
    → (s + i) % ring_size ≡ (t + j) % ring_size
    → load_from buf s i n ≡ load_from buf t j n
unfolding load_from
load_from-shift buf s i t j zero e = refl
load_from-shift buf s i t j (suc n) e =
    ap₂ ◌∷◌ (ap buf e) (load_from-shift buf s (i + 1) t (j + 1) n (omega arith))

-- Only the sum of start and round counts, and only modulo the size.
pub load_from-eq :
    (buf : Storage) (s i n t j m : ℕ)
    → (s + i) % ring_size ≡ (t + j) % ring_size
    → n ≡ m
    → load_from buf s i n ≡ load_from buf t j m
load_from-eq buf s i n t j m e h = load_from-shift buf s i t j n e ∙ ap (λ k. load_from buf t j k) h

-- A longer window is the shorter one, followed by the window behind it.
pub load_from-append :
    (buf : Storage) (s i n m k : ℕ)
    → k ≡ n + m
    → load_from buf s i k ≡ load_from buf s i n ++ load_from buf s (i + n) m
unfolding load_from
load_from-append buf s i zero m k e = load_from-eq buf s i k s (i + 0) m (omega arith) (omega arith)
load_from-append buf s i (suc n) m zero e = absurd (omega arith)
load_from-append buf s i (suc n) m (suc k) e =
    ap (λ r. buf ((s + i) % ring_size) ∷ r)
      (load_from-append buf s (i + 1) n m k (omega arith)
        ∙ ap (λ r. load_from buf s (i + 1) n ++ r)
            (load_from-eq buf s (i + 1 + n) m s (i + suc n) m (omega arith) refl))

pub take-load_from :
    (buf : Storage) (s i n m k : ℕ)
    → k ≡ min m n
    → take m (load_from buf s i n) ≡ load_from buf s i k
unfolding load_from
take-load_from buf s i n zero k e = load_from-eq buf s i 0 s i k refl (omega arith)
take-load_from buf s i zero (suc m) k e = load_from-eq buf s i 0 s i k refl (omega arith)
take-load_from buf s i (suc n) (suc m) k e =
    ap (λ r. buf ((s + i) % ring_size) ∷ r) (take-load_from buf s (i + 1) n m (min m n) refl)
    ∙ load_from-eq buf s i (suc (min m n)) s i k refl (omega arith)

pub drop-load_from :
    (buf : Storage) (s i n m : ℕ) → drop m (load_from buf s i n) ≡ load_from buf s (i + m) (n - m)
unfolding load_from
drop-load_from buf s i n zero = load_from-eq buf s i n s (i + 0) (n - 0) (omega arith) (omega arith)
drop-load_from buf s i zero (suc m) =
    let none_left : 0 ≡ 0 - suc m = omega arith in ap (λ k. load_from buf s (i + suc m) k) none_left
drop-load_from buf s i (suc n) (suc m) =
    drop-load_from buf s (i + 1) n m
    ∙ load_from-eq buf s (i + 1 + m) (n - m) s (i + suc m) (suc n - suc m) (omega arith)
        (omega arith)

-- A write just past a window of fewer than 65536 bytes does not touch the window.
pub load_from-update :
    (buf : Storage) (s i n q b : ℕ)
    → n < ring_size
    → q ≡ (s + i + n) % ring_size
    → load_from (update buf q b) s i n ≡ load_from buf s i n
unfolding load_from
load_from-update buf s i zero q b h e = refl
load_from-update buf s i (suc n) q b h e =
    ap₂ ◌∷◌ (ground arith) (load_from-update buf s (i + 1) n q b (omega arith) (omega arith))

load_from-update_end :
    (buf : Storage) (s n q b : ℕ)
    → n < ring_size
    → q ≡ (s + n) % ring_size
    → load_from (update buf q b) s 0 (n + 1) ≡ load_from buf s 0 n ++ (b ∷ [])
load_from-update_end buf s n q b h e =
    load_from-append (update buf q b) s 0 n 1 (n + 1) refl
    ∙ ap₂ ◌++◌ (load_from-update buf s 0 n q b h (omega arith)) (unfold load_from in last)
  where
    last : update buf q b ((s + (0 + n)) % ring_size) ∷ [] ≡ b ∷ []
    last = ground arith

-- Storing behind a window of `n` bytes at `s`, as far as the storage has room, extends the window
-- by exactly the bytes stored.
pub load_from-store_from :
    (buf : Storage) (s n tail i : ℕ) (bs : List ℕ) (k : ℕ)
    → (tail + i) % ring_size ≡ (s + n) % ring_size
    → k ≡ n + length bs
    → k ≤ ring_size
    → load_from (store_from buf tail i bs) s 0 k ≡ load_from buf s 0 n ++ bs
unfolding store_from
load_from-store_from buf s n tail i [] k e hk h =
    load_from-eq buf s 0 k s 0 n refl (omega arith) ∙ sym (append-nil (load_from buf s 0 n))
load_from-store_from buf s n tail i (b ∷ bs) k e hk h =
    load_from-store_from buf' s (n + 1) tail (i + 1) bs k (omega arith) (omega arith) h
    ∙ ap (λ r. r ++ bs) (load_from-update_end buf s n _ b (omega arith) e)
    ∙ append_assoc (load_from buf s 0 n) (b ∷ []) bs
  where
    buf' : Storage
    buf' = update buf ((tail + i) % ring_size) b

pub load_from-none : (buf : ℕ → ℕ) (head len : ℕ) → len ≡ 0 → load_from buf head 0 len ≡ []
unfolding load_from
load_from-none buf head len h = rw h
