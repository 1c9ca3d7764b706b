-- ===== src/RecvBuffer/Reassembly.antt =====
-- The receive buffer of magnum-tcp/src/tcp/recv_buffer.rs against the stream that the peer sends.
use magnus_tcp.Base.{
  ℕ, ◌+◌, ◌-◌, ◌%◌, ◌≤◌, ◌<◌, ◌≡◌, refl, sym, ap, ap₂, ◌∙◌, min, List, [], ◌∷◌, ◌++◌, arith, length,
  take, drop, All, wrapping_add, u32_mod, append_assoc, length-take, length-drop, take-add,
  take-take, drop-take, drop-drop, Bool-cases, ◌==◌, inl, inr, ==_iff, ltb,
}
use magnus_tcp.Ring.{load_from}
use magnus_tcp.Ring.Laws.{load_from-store_from}
use magnus_tcp.RecvBuffer.{
  RecvBuffer, Staging, recv_buf_size, or_insert, commit, drain_from, drain_ooo, place,
}

-- The bytes in order that the application has not read.
abbrev pub contents : RecvBuffer → List ℕ
contents rb = load_from rb.buf rb.head 0 rb.len

-- What the peer sends: its initial sequence number and its bytes, fewer than 2 ^ 31 of them.
module _ (irs : ℕ) (stream : List ℕ) where
  -- The bytes stand in the stream at `off`, which `seq` numbers.
  pub record IsSlice (seq : ℕ) (bytes : List ℕ) : Type 0 where
    pub off : ℕ
    pub numbered : seq ≡ (irs + 1 + off) % u32_mod
    pub inside : off + length bytes ≤ length stream
    pub same : bytes ≡ take (length bytes) (drop off stream)

  abbrev IsSliceEntry : ℕ × List ℕ → Type 0
  IsSliceEntry e = IsSlice e.0 e.1

  -- After the application has read `out`, the buffer continues it by the next bytes of the stream,
  -- expects the number of the byte behind them, and stages nothing but slices of the stream.
  pub record Tracks (out : List ℕ) (rb : RecvBuffer) : Type 0 where
    pub head_in : rb.head < recv_buf_size
    pub len_in : rb.len ≤ recv_buf_size
    pub expects : rb.nxt ≡ (irs + 1 + (length out + rb.len)) % u32_mod
    pub inside : length out + rb.len ≤ length stream
    pub continues : out ++ contents rb ≡ take (length out + rb.len) stream
    pub staged : All IsSliceEntry rb.ooo

  abbrev pub position : List ℕ → RecvBuffer → ℕ
  position out rb = length out + rb.len

  -- Offsets of so short a stream are told apart by their sequence numbers.
  module _ (short : length stream < 0x8000_0000) where
    -- `commit` of the bytes that come next advances by as many as fit.
    commit-Tracks :
        {out : List ℕ} {rb : RecvBuffer} (bytes : List ℕ)
        → Tracks out rb
        → position out rb + length bytes ≤ length stream
        → bytes ≡ take (length bytes) (drop (position out rb) stream)
        → Tracks out (commit rb bytes)
    unfolding commit
    commit-Tracks {out} {rb} bytes t h e = record {
      head_in = t.head_in;
      len_in = omega arith;
      expects = omega (arith, t.expects);
      inside = omega (arith, t.inside);
      continues = grown;
      staged = t.staged;
    }
      where
        n : ℕ
        n = min (length bytes) (recv_buf_size - rb.len)

        taken : take n bytes ≡ take n (drop (position out rb) stream)
        taken =
            ap (λ b. take n b) e
            ∙ take-take n (length bytes) n (drop (position out rb) stream) (omega arith)

        stored : contents (commit rb bytes) ≡ contents rb ++ take n bytes
        stored =
            load_from-store_from rb.buf rb.head rb.len ((rb.head + rb.len) % recv_buf_size) 0
              (take n bytes) (rb.len + n) (omega arith) (omega (arith, length-take n bytes))
              (omega (arith, t.len_in))

        grown : out ++ contents (commit rb bytes) ≡ take (length out + (rb.len + n)) stream
        grown =
            ap (λ c. out ++ c) stored
            ∙ sym (append_assoc out (contents rb) (take n bytes))
            ∙ ap₂ ◌++◌ t.continues taken
            ∙ sym (take-add (position out rb) n (length out + (rb.len + n)) stream (omega arith))

    restaged :
        {out : List ℕ} {rb : RecvBuffer} (entries : Staging)
        → Tracks out rb
        → All IsSliceEntry entries
        → Tracks out (record rb { ooo = entries })
    restaged entries t a = record {
      head_in = t.head_in;
      len_in = t.len_in;
      expects = t.expects;
      inside = t.inside;
      continues = t.continues;
      staged = a;
    }

    -- A slice whose number is the expected one stands where the buffer ends.
    slice_at_nxt :
        {out : List ℕ} {rb : RecvBuffer} {seq : ℕ} {bytes : List ℕ}
        → Tracks out rb
        → (s : IsSlice seq bytes) → seq ≡ rb.nxt
        → s.off ≡ position out rb
    slice_at_nxt t s e = omega (arith, t.expects, t.inside, s.numbered, s.inside)

    commit_slice-Tracks :
        {out : List ℕ} {rb : RecvBuffer} {seq : ℕ} (bytes : List ℕ)
        → Tracks out rb
        → IsSlice seq bytes
        → seq ≡ rb.nxt
        → Tracks out (commit rb bytes)
    commit_slice-Tracks bytes t s e =
        let here = slice_at_nxt t s e in
        commit-Tracks bytes t (omega (arith, s.inside))
          (s.same ∙ ap (λ o. take (length bytes) (drop o stream)) here)

    drain_from-Tracks :
        {out : List ℕ} (entries : Staging) (rb : RecvBuffer)
        → Tracks out rb
        → All IsSliceEntry entries
        → Tracks out (drain_from rb entries)
    unfolding drain_from
    drain_from-Tracks [] rb t a = restaged [] t tt
    drain_from-Tracks ((key, bytes) ∷ rest) rb t (s, a) = elim (Bool-cases (key == rb.nxt)) [
      | inr e ↦ rw e (restaged ((key, bytes) ∷ rest) t (s, a))
      | inl e ↦ rw e (
          drain_from-Tracks rest (commit rb bytes)
            (commit_slice-Tracks bytes t s ((==_iff key rb.nxt).0 e)) a)
    ]

    or_insert-slices :
        (seq : ℕ) (bytes : List ℕ) (entries : Staging)
        → IsSlice seq bytes
        → All IsSliceEntry entries
        → All IsSliceEntry (or_insert seq bytes entries)
    unfolding or_insert
    or_insert-slices seq bytes [] s a = (s, tt)
    or_insert-slices seq bytes ((k, b) ∷ rest) s (s', a) = elim (Bool-cases (ltb seq k)) [
      | inl lt ↦ rw lt (s, (s', a))
      | inr ge ↦ elim (Bool-cases (seq == k)) [
        | inl eq ↦ rw (ge, eq) (s', a)
        | inr ne ↦ rw (ge, ne) (s', or_insert-slices seq bytes rest s a)
      ]
    ]

    pub place-Tracks :
        {out : List ℕ} {rb : RecvBuffer} (seq : ℕ) (bytes : List ℕ)
        → Tracks out rb
        → IsSlice seq bytes
        → Tracks out (place rb seq bytes)
    unfolding place drain_ooo
    place-Tracks {out} {rb} seq bytes t s = elim (Bool-cases (seq == rb.nxt)) [
      | inl e ↦ rw e (
          drain_from-Tracks _ (commit rb bytes)
            (commit_slice-Tracks bytes t s ((==_iff seq rb.nxt).0 e)) (unfold commit in t.staged))
      | inr e ↦ rw e (restaged _ t (or_insert-slices seq bytes rb.ooo s t.staged))
    ]

    -- Cutting the first bytes off a slice leaves a slice.
    pub trimmed :
        (seq past : ℕ) (bytes : List ℕ)
        → past ≤ length bytes
        → IsSlice seq bytes
        → IsSlice (wrapping_add seq past) (drop past bytes)
    trimmed seq past bytes h s = record {
      off = s.off + past;
      numbered = omega (arith, s.numbered);
      inside = omega (arith, s.inside, length-drop past bytes);
      same =
          ap (λ b. drop past b) s.same
          ∙ drop-take past (length bytes) (length (drop past bytes)) (drop s.off stream)
              (length-drop past bytes)
          ∙ ap (λ r. take (length (drop past bytes)) r)
              (drop-drop past s.off (s.off + past) stream refl);
    }
