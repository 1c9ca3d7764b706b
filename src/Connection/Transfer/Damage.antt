-- ===== src/Connection/Transfer/Damage.antt =====
-- A segment between two connections of magnum-tcp/src/tcp/connection.rs of which a byte was changed.
use magnus_tcp.Base.{
  ℕ, zero, suc, ◌%◌, ◌≡◌, ◌≢◌, ◌⊎◌, inl, inr, refl, sym, ap, none, List, [], ◌∷◌, ◌++◌, arith,
  Bool-cases, ◌==◌,
}
use magnus_tcp.Float.{F64}
use magnus_tcp.Header.{SegmentBuilder, build}
use magnus_tcp.Header.RoundTrip.{IsValid, segment_of, parse-build}
use magnus_tcp.Header.Damage.{build-Fits, parse-damaged}
use magnus_tcp.Connection.{Connection}
use magnus_tcp.Connection.Exchange.{deliver, take_parsed}
use magnus_tcp.Connection.Transfer.Lossy.{put}

-- Where a byte was replaced by another.
pub record Replaced (before after : List ℕ) (y : ℕ) : Type 0 where
  pub pre : List ℕ
  pub post : List ℕ
  pub x : ℕ
  pub was : before ≡ pre ++ x ∷ post
  pub is : after ≡ pre ++ y ∷ post
  pub other : x ≢ y

cons-Replaced :
    {before after : List ℕ} {y : ℕ} (a : ℕ)
    → Replaced before after y
    → Replaced (a ∷ before) (a ∷ after) y
cons-Replaced a r = record {
  pre = a ∷ r.pre;
  post = r.post;
  x = r.x;
  was = ap (λ l. a ∷ l) r.was;
  is = ap (λ l. a ∷ l) r.is;
  other = r.other;
}

put_lem : (i y : ℕ) (raw : List ℕ) → (put i y raw ≡ raw) ⊎ Replaced raw (put i y raw) y
unfolding put
put_lem i y [] = inl refl
put_lem zero y (x ∷ xs) = elim (Bool-cases (x == y)) [
  | inl same ↦ let e : y ≡ x = ground arith in inl (ap (λ b. b ∷ xs) e)
  | inr other ↦
      inr (record { pre = []; post = xs; x = x; was = refl; is = refl; other = ground arith })
]
put_lem (suc i) y (x ∷ xs) = elim (put_lem i y xs) [
  | inl same ↦ inl (ap (λ l. x ∷ l) same)
  | inr r ↦ inr (cons-Replaced x r)
]

-- What a connection makes of a built segment of which a byte was replaced: it is as it was before, or
-- the segment is.
pub deliver-put :
    {F : Type 0} (f : F64 F) (c : Connection F) (b : SegmentBuilder) (i y now : ℕ)
    → IsValid b
    → (put i (y % 256) (build b) ≡ build b)
      ⊎ (deliver f c (put i (y % 256) (build b)) b.src_ip b.dst_ip now ≡ (c, none))
unfolding deliver take_parsed
deliver-put f c b i y now v = elim (put_lem i (y % 256) (build b)) [
  | inl same ↦ inl same
  | inr r ↦
      let (e, refused) =
        parse-damaged r.pre r.post r.x (y % 256) b.src_ip b.dst_ip (segment_of b)
          (rw (sym r.was) (build-Fits b v)) (omega arith) r.other
          (rw (sym r.was) (parse-build b v)) in
      inr (rw (r.is, refused) refl)
]
