-- ===== src/Header/Damage.antt =====
-- What `parse` of magnum-tcp/src/tcp/header.rs accepts, and what it makes of a segment of which one byte
-- was changed on the way.
use magnus_tcp.Base.{
  ℕ, ◌+◌, ◌*◌, ◌/◌, ◌%◌, ◌≤◌, ◌<◌, ◌≡◌, ◌≢◌, ◌⊎◌, ◌↔◌, inl, inr, refl, sym, ap, ◌∙◌, List, [], ◌∷◌,
  ◌++◌, arith, length, length-append, drop, All, take, All-before, All-behind, All-append,
}
use magnus_tcp.Net.{Ipv4Addr, IsAddr, IsByte, MagnumError, Result, ok, err, byte_at}
use magnus_tcp.Checksum.{finish}
use magnus_tcp.Checksum.Laws.{word_total, word_total-bound, sum_words-eq, finish-zero_iff}
use magnus_tcp.Header.{
  TcpSegment, pseudo_sum, SegmentBuilder, segment_bytes, build, tcp_checksum, parse, header_of,
}
use magnus_tcp.Header.Flags.{to_byte-lt}
use magnus_tcp.Header.RoundTrip.{IsValid}

-- A segment that fits an IPv4 packet, and its two addresses.
pub record Fits (raw : List ℕ) (src dst : Ipv4Addr) : Type 0 where
  pub src_addr : IsAddr src
  pub dst_addr : IsAddr dst
  pub bytes : All IsByte raw
  pub short : length raw ≤ 65535

pub build-Fits : (b : SegmentBuilder) → IsValid b → Fits (build b) b.src_ip b.dst_ip
unfolding build segment_bytes
build-Fits b v = record {
  src_addr = v.src_addr;
  dst_addr = v.dst_addr;
  bytes =
      All-append IsByte (take 20 (build b)) b.payload (omega (arith, v, to_byte-lt b.flags))
        v.payload_bytes;
  short = omega (arith, v);
}

-- The sum of the words of the pseudo-header and the segment, with no wrap-around.
unfoldable pub whole_sum : List ℕ → Ipv4Addr → Ipv4Addr → ℕ
whole_sum raw src dst = pseudo_sum (length raw) src dst + word_total raw

checksum_is :
    (raw : List ℕ) (src dst : Ipv4Addr)
    → Fits raw src dst
    → (0 < whole_sum raw src dst) × (tcp_checksum raw src dst ≡ finish (whole_sum raw src dst))
unfolding whole_sum pseudo_sum tcp_checksum
checksum_is raw src dst v = (
  omega arith,
  ap finish
      (sum_words-eq _ raw (omega (arith, v, word_total-bound raw v.bytes)) ∙ omega (arith, v)),
)

-- The checksum is 0 just if the sum is a multiple of 65535.
verifies :
    (raw : List ℕ) (src dst : Ipv4Addr)
    → Fits raw src dst
    → (tcp_checksum raw src dst ≡ 0) ↔ (whole_sum raw src dst % 65535 ≡ 0)
verifies raw src dst v =
    let (pos, e) = checksum_is raw src dst v in rw e (finish-zero_iff (whole_sum raw src dst) pos)

-- The checks of `parse`.
checked :
    (raw : List ℕ) (src dst : Ipv4Addr) (seg : TcpSegment)
    → parse raw src dst ≡ ok seg
    → let header_words = byte_at raw 12 / 16 % 16 in
      (20 ≤ length raw)
      × (5 ≤ header_words)
      × (header_words * 4 ≤ length raw)
      × (tcp_checksum raw src dst ≡ 0)
unfolding parse
checked raw src dst seg e = ground arith

-- `parse` accepts a segment of at most 65535 bytes just if its header is 20 bytes or more by its own
-- account and lies within it, and the words of the pseudo-header and the segment add up to a multiple
-- of 65535.
pub parse-accepts_iff :
    (raw : List ℕ) (src dst : Ipv4Addr)
    → Fits raw src dst
    → let header_words = byte_at raw 12 / 16 % 16 in
      ((seg : TcpSegment) × (parse raw src dst ≡ ok seg)) ↔ (
        (20 ≤ length raw)
        × (5 ≤ header_words)
        × (header_words * 4 ≤ length raw)
        × (whole_sum raw src dst % 65535 ≡ 0))
unfolding parse
parse-accepts_iff raw src dst v =
    let (there, back) = verifies raw src dst v in
    let words_of : ℕ = byte_at raw 12 / 16 % 16 in
    (
      λ (seg, e).
          let (long, words, inside, zero_sum) = checked raw src dst seg e in
          (long, words, inside, there zero_sum),
      λ (long, words, inside, multiple).
          let zero_sum : tcp_checksum raw src dst ≡ 0 = back multiple in
          (
            record { header = header_of raw words_of; payload = drop (words_of * 4) raw },
            ground arith,
          ),
    )

-- A byte that is changed changes the sum by less than 65535, and not by 0.
word_total_at :
    (pre post : List ℕ) (x y : ℕ)
    → let before = word_total (pre ++ x ∷ post) in
      let after = word_total (pre ++ y ∷ post) in
      (after + x * 256 ≡ before + y * 256) ⊎ (after + x ≡ before + y)
word_total_at [] [] x y = inl (omega arith)
word_total_at [] (b ∷ post) x y = inl (omega arith)
word_total_at (a ∷ []) post x y = inr (omega arith)
word_total_at (a ∷ b ∷ pre) post x y = elim (word_total_at pre post x y) [
  | inl e ↦ inl (omega arith)
  | inr e ↦ inr (omega arith)
]

not_ok :
    (r : Result TcpSegment) → ((seg : TcpSegment) → r ≢ ok seg) → (e : MagnumError) × (r ≡ err e)
not_ok (ok seg) h = absurd (h seg refl)
not_ok (err e) h = (e, refl)

replaced-Fits :
    (pre post : List ℕ) (x y : ℕ) (src dst : Ipv4Addr)
    → Fits (pre ++ x ∷ post) src dst
    → IsByte y
    → Fits (pre ++ y ∷ post) src dst
replaced-Fits pre post x y src dst v byte = record {
  src_addr = v.src_addr;
  dst_addr = v.dst_addr;
  bytes =
      All-append IsByte pre (y ∷ post) (All-before IsByte pre (x ∷ post) v.bytes)
        (byte, (All-behind IsByte pre (x ∷ post) v.bytes).1);
  short = omega (arith, v.short, length-append pre (x ∷ post), length-append pre (y ∷ post));
}

both_multiples :
    (pre post : List ℕ) (x y : ℕ) (src dst : Ipv4Addr)
    → IsByte x
    → IsByte y
    → x ≢ y
    → whole_sum (pre ++ x ∷ post) src dst % 65535 ≡ 0
    → whole_sum (pre ++ y ∷ post) src dst % 65535 ≢ 0
unfolding whole_sum pseudo_sum
both_multiples pre post x y src dst hx hy other e e' =
    let same : length (pre ++ x ∷ post) ≡ length (pre ++ y ∷ post) =
      length-append pre (x ∷ post) ∙ sym (length-append pre (y ∷ post)) in
    elim (word_total_at pre post x y) [ inl c ↦ omega arith | inr c ↦ omega arith ]

-- If `parse` accepts a segment that fits an IPv4 packet, it refuses what comes of it when one byte, of
-- the header or of the payload, is replaced by another.
pub parse-damaged :
    (pre post : List ℕ) (x y : ℕ) (src dst : Ipv4Addr) (seg : TcpSegment)
    → Fits (pre ++ x ∷ post) src dst
    → IsByte y
    → x ≢ y
    → parse (pre ++ x ∷ post) src dst ≡ ok seg
    → (e : MagnumError) × (parse (pre ++ y ∷ post) src dst ≡ err e)
parse-damaged pre post x y src dst seg v byte other e =
    let w : Fits (pre ++ y ∷ post) src dst = replaced-Fits pre post x y src dst v byte in
    not_ok (parse (pre ++ y ∷ post) src dst) (λ seg' e'.
      both_multiples pre post x y src dst (All-behind IsByte pre (x ∷ post) v.bytes).0 byte other
        ((verifies _ src dst v).0 (checked _ src dst seg e).3)
        ((verifies _ src dst w).0 (checked _ src dst seg' e').3))
