-- ===== src/Ipv4/Accepts.antt =====
-- Which packets magnum-tcp/src/ipv4.rs accepts.
use magnus_tcp.Base.{
  ℕ, zero, suc, ◌*◌, ◌-◌, ◌%◌, ◌≤◌, ◌<◌, ◌≡◌, ◌↔◌, ◌∙◌, List, [], ◌∷◌, arith, length, take, drop,
  All, All-take, length-take,
}
use magnus_tcp.Net.{IsByte, ok, be16, byte_at}
use magnus_tcp.Checksum.{sum_words}
use magnus_tcp.Checksum.Laws.{word_total, word_total-bound, sum_words-eq, finish-zero_iff}
use magnus_tcp.Ipv4.{Ipv4Packet, checksum, parse, header_of}

-- The length of the header by its own account, in words of 32 bits.
abbrev pub ihl_of : List ℕ → ℕ
ihl_of raw = byte_at raw 0 % 16

-- A header that is not shorter than its first byte has a positive sum.
total_pos : (raw : List ℕ) (m : ℕ) → 2 ≤ m → 0 < ihl_of raw → 0 < word_total (take m raw)
total_pos raw zero m h = absurd (omega arith)
total_pos raw (suc zero) m h = absurd (omega arith)
total_pos [] (suc (suc n)) m h = absurd (omega arith)
total_pos (a ∷ []) (suc (suc n)) m h = omega arith
total_pos (a ∷ b ∷ rest) (suc (suc n)) m h = omega arith

-- The checksum of a header is 0 just if its words add up to a multiple of 65535.
header_verifies :
    (raw : List ℕ)
    → All IsByte raw
    → 5 ≤ ihl_of raw
    → let header = take (ihl_of raw * 4) raw in
      (checksum header ≡ 0) ↔ (word_total header % 65535 ≡ 0)
unfolding checksum
header_verifies raw bytes h =
    let header : List ℕ = take (ihl_of raw * 4) raw in
    let short : length header ≤ 60 = omega (arith, length-take (ihl_of raw * 4) raw) in
    let sum : sum_words 0 header ≡ word_total header =
      sum_words-eq 0 header
        (omega (arith, word_total-bound header (All-take IsByte (ihl_of raw * 4) raw bytes)))
      ∙ omega arith in
    rw sum (
      finish-zero_iff (word_total header)
        (total_pos raw (ihl_of raw * 4) (omega arith) (omega arith)))

-- The checks of `parse`, in their order.
checked :
    (raw : List ℕ) (p : Ipv4Packet)
    → parse raw ≡ ok p
    → let header_len = ihl_of raw * 4 in
      let total_len = be16 (byte_at raw 2) (byte_at raw 3) in
      (20 ≤ length raw)
      × (5 ≤ ihl_of raw)
      × (header_len ≤ length raw)
      × (checksum (take header_len raw) ≡ 0)
      × (header_len ≤ total_len)
      × (total_len ≤ length raw)
unfolding parse
checked raw p e = ground arith

passed :
    (raw : List ℕ)
    → let header_len = ihl_of raw * 4 in
      let total_len = be16 (byte_at raw 2) (byte_at raw 3) in
      20 ≤ length raw
      → 5 ≤ ihl_of raw
      → header_len ≤ length raw
      → checksum (take header_len raw) ≡ 0
      → header_len ≤ total_len
      → total_len ≤ length raw
      → parse raw
        ≡ ok (record {
          header = header_of raw (ihl_of raw);
          payload = take (total_len - header_len) (drop header_len raw);
        })
unfolding parse
passed raw long words inside zero_sum total enough = ground arith

-- `parse` accepts bytes just if the header is 20 bytes or more by its own account, lies within them,
-- has words that add up to a multiple of 65535, and states a total length that covers the header and
-- not more than there is. The version is not among this.
pub parse-packet_iff :
    (raw : List ℕ)
    → All IsByte raw
    → let header_len = ihl_of raw * 4 in
      let total_len = be16 (byte_at raw 2) (byte_at raw 3) in
      ((p : Ipv4Packet) × (parse raw ≡ ok p)) ↔ (
        (20 ≤ length raw)
        × (5 ≤ ihl_of raw)
        × (header_len ≤ length raw)
        × (word_total (take header_len raw) % 65535 ≡ 0)
        × (header_len ≤ total_len)
        × (total_len ≤ length raw))
parse-packet_iff raw bytes = (
  λ (p, e).
      let (long, words, inside, zero_sum, total, enough) = checked raw p e in
      (long, words, inside, (header_verifies raw bytes words).0 zero_sum, total, enough),
  λ (long, words, inside, multiple, total, enough).
      (_, passed raw long words inside ((header_verifies raw bytes words).1 multiple) total enough),
)
