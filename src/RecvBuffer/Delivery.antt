-- ===== src/RecvBuffer/Delivery.antt =====
-- Runs of the receive buffer of magnum-tcp/src/tcp/recv_buffer.rs: what the application reads is
-- what the peer sent.
use magnus_tcp.Ring.Laws.{load_from-none}
use magnus_tcp.Base.{
  append-nil, ℕ, ◌+◌, ◌-◌, ◌%◌, ◌≤◌, ◌<◌, ◌≡◌, refl, sym, ap, ◌∙◌, min, List, [], ◌∷◌, ◌++◌, arith,
  length, take, drop, wrapping_add, wrapping_sub, u32_mod, append_assoc, length-append, Bool-cases,
  ◌==◌, inl, inr, leb, take-length_append, take-take,
}
use magnus_tcp.Tcb.{seq_lt}
use magnus_tcp.Ring.{load_from}
use magnus_tcp.Ring.Laws.{length-load_from, load_from-eq, load_from-append}
use magnus_tcp.RecvBuffer.{RecvBuffer, recv_buf_size, new, insert, read}
use magnus_tcp.RecvBuffer.Reassembly.{contents, IsSlice, Tracks, place-Tracks, trimmed}

-- A new buffer is at the start of any stream.
pub new-Tracks : (irs : ℕ) (stream : List ℕ) → Tracks irs stream [] (new irs)
unfolding new load_from
new-Tracks irs stream = record {
  head_in = omega arith;
  len_in = omega arith;
  expects = omega arith;
  inside = omega arith;
  continues = refl;
  staged = tt;
}

-- Taking any slice of the stream, early, late, repeated or overlapping, keeps the buffer on the
-- stream.
pub insert-Tracks :
    (irs : ℕ) (stream : List ℕ)
    → length stream < 0x8000_0000
    → {out : List ℕ} {rb : RecvBuffer} (seq : ℕ) (bytes : List ℕ) → Tracks irs stream out rb
    → IsSlice irs stream seq bytes
    → Tracks irs stream out (insert rb seq bytes)
unfolding insert
insert-Tracks irs stream short {out} {rb} seq bytes t s = elim (Bool-cases (length bytes == 0)) [
  | inl empty ↦ rw empty t
  | inr some_bytes ↦ elim (Bool-cases (seq_lt seq rb.nxt)) [
    | inr ahead ↦
        rw (some_bytes, ahead)
          (place-Tracks irs stream short (wrapping_add seq 0) bytes t
            (trimmed irs stream short seq 0 bytes (omega arith) s))
    | inl behind ↦ elim (Bool-cases (leb (length bytes) past)) [
      | inl stale ↦ rw (some_bytes, behind, stale) t
      | inr overlap ↦
          rw (some_bytes, behind, overlap)
            (place-Tracks irs stream short (wrapping_add seq past) (drop past bytes) t
              (trimmed irs stream short seq past bytes (ground arith) s))
    ]
  ]
]
  where
    past : ℕ
    past = wrapping_sub rb.nxt seq

-- What `read` hands out is the next bytes of the stream, and the buffer stays on the stream.
pub read-Tracks :
    (irs : ℕ) (stream : List ℕ) {out : List ℕ} {rb : RecvBuffer} (size : ℕ)
    → Tracks irs stream out rb
    → let (rb', bytes) = read rb size in Tracks irs stream (out ++ bytes) rb'
unfolding read
read-Tracks irs stream {out} {rb} size t = record {
  head_in = omega arith;
  len_in = omega (arith, t.len_in);
  expects = t.expects ∙ ap (λ k. (irs + 1 + k) % u32_mod) (sym same_end);
  inside = omega (arith, t.inside, same_end);
  continues = split ∙ t.continues ∙ ap (λ k. take k stream) (sym same_end);
  staged = t.staged;
}
  where
    n : ℕ
    n = min size rb.len

    bytes : List ℕ
    bytes = load_from rb.buf rb.head 0 n

    read_length : length (out ++ bytes) ≡ length out + n
    read_length =
        length-append out bytes ∙ ap (λ k. length out + k) (length-load_from rb.buf rb.head 0 n)

    same_end : length (out ++ bytes) + (rb.len - n) ≡ length out + rb.len
    same_end = omega (arith, read_length)

    rest : List ℕ
    rest = load_from rb.buf ((rb.head + n) % recv_buf_size) 0 (rb.len - n)

    split : (out ++ bytes) ++ rest ≡ out ++ contents rb
    split =
        append_assoc out bytes rest
        ∙ ap (λ r. out ++ r)
            (ap (λ r. bytes ++ r)
                (load_from-eq rb.buf ((rb.head + n) % recv_buf_size) 0 (rb.len - n) rb.head (0 + n)
                  (rb.len - n) (omega arith) refl)
              ∙ sym (load_from-append rb.buf rb.head 0 n (rb.len - n) rb.len (omega arith)))

-- The calls that the connection makes: a segment arrives, or the application reads.
pub data Call : Type 0 where
  arrive : (seq : ℕ) → List ℕ → Call
  fetch : (size : ℕ) → Call

-- The buffer after a sequence of calls, and all that was read, behind what had been read before.
unfoldable pub run : List ℕ → RecvBuffer → List Call → List ℕ × RecvBuffer
run out rb [] = (out, rb)
run out rb (arrive seq bytes ∷ calls) = run out (insert rb seq bytes) calls
run out rb (fetch size ∷ calls) = let (rb', bytes) = read rb size in run (out ++ bytes) rb' calls

-- Every segment that arrives is a slice of the stream.
abbrev pub AreSlices : ℕ → List ℕ → List Call → Type 0
AreSlices irs stream [] = Unit
AreSlices irs stream (arrive seq bytes ∷ calls) =
    IsSlice irs stream seq bytes × AreSlices irs stream calls
AreSlices irs stream (fetch size ∷ calls) = AreSlices irs stream calls

pub run-Tracks :
    (irs : ℕ) (stream : List ℕ)
    → length stream < 0x8000_0000
    → (out : List ℕ) (rb : RecvBuffer) (calls : List Call) → Tracks irs stream out rb
    → AreSlices irs stream calls
    → let (out', rb') = run out rb calls in Tracks irs stream out' rb'
unfolding run
run-Tracks irs stream short out rb [] t a = t
run-Tracks irs stream short out rb (arrive seq bytes ∷ calls) t (s, a) =
    run-Tracks irs stream short out (insert rb seq bytes) calls
      (insert-Tracks irs stream short seq bytes t s) a
run-Tracks irs stream short out rb (fetch size ∷ calls) t a =
    run-Tracks irs stream short (out ++ (read rb size).1) (read rb size).0 calls
      (read-Tracks irs stream size t) a

prefix_of_append :
    (xs ys l : List ℕ) (k : ℕ) → xs ++ ys ≡ take k l → length xs ≤ k → xs ≡ take (length xs) l
prefix_of_append xs ys l k e h =
    sym (take-length_append xs ys)
    ∙ ap (λ r. take (length xs) r) e
    ∙ take-take (length xs) k (length xs) l (omega arith)

-- Whatever slices of a stream of fewer than 2 ^ 31 bytes arrive, in whatever order, with repeats and
-- overlaps, and whenever the application reads: all that it has read from a new buffer is a prefix
-- of the stream.
pub run-prefix :
    (irs : ℕ) (stream : List ℕ) (calls : List Call)
    → length stream < 0x8000_0000
    → AreSlices irs stream calls
    → let out = (run [] (new irs) calls).0 in out ≡ take (length out) stream
run-prefix irs stream calls short a =
    let t = run-Tracks irs stream short [] (new irs) calls (new-Tracks irs stream) a in
    prefix_of_append _ _ stream _ t.continues (omega arith)

-- A buffer that holds nothing: the application was given just the stream up to a place.
pub drained_prefix :
    (irs : ℕ) (stream : List ℕ) {out : List ℕ} {rb : RecvBuffer}
    → Tracks irs stream out rb
    → rb.len ≡ 0
    → out ≡ take (length out) stream
drained_prefix irs stream {out} {rb} t empty =
    sym (append-nil out)
    ∙ ap (λ l. out ++ l) (sym (load_from-none rb.buf rb.head rb.len empty))
    ∙ t.continues
    ∙ ap (λ k. take k stream) (let e : length out + rb.len ≡ length out = omega (arith, empty) in e)
