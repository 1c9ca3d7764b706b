-- ===== src/Header/RoundTrip.antt =====
-- The segments that magnum-tcp/src/tcp/header.rs builds are those that it accepts.
use magnus_tcp.Base.{ℕ, ◌+◌, ◌%◌, ◌≤◌, ◌<◌, ◌≡◌, refl, ap, ◌∙◌, List, arith, length, All, IsU32}
use magnus_tcp.Net.{Ipv4Addr, IsAddr, IsByte, ok}
use magnus_tcp.Checksum.{sum_words, finish}
use magnus_tcp.Checksum.Laws.{
  word_total, word_total-bound, sum_words-eq, finish-add_finish, finish_completes,
}
use magnus_tcp.Header.{
  TcpSegment, SegmentBuilder, pseudo_sum, tcp_checksum, parse, segment_bytes, build,
}
use magnus_tcp.Header.Flags.{from_byte-to_byte, to_byte-lt}

-- The fields fit their types, and the payload fits an IPv4 packet.
pub record IsValid (b : SegmentBuilder) : Type 0 where
  pub src_addr : IsAddr b.src_ip
  pub dst_addr : IsAddr b.dst_ip
  pub src_port_u16 : b.src_port < 65536
  pub dst_port_u16 : b.dst_port < 65536
  pub seq_u32 : IsU32 b.seq
  pub ack_u32 : IsU32 b.ack_num
  pub window_u16 : b.window < 65536
  pub payload_fits : length b.payload ≤ 65515
  pub payload_bytes : All IsByte b.payload

-- The segment with the builder's fields, and with the checksum as given.
abbrev pub segment_with : SegmentBuilder → ℕ → TcpSegment
segment_with b csum = record {
  header = record {
    src_port = b.src_port;
    dst_port = b.dst_port;
    seq = b.seq;
    ack_num = b.ack_num;
    data_offset = 5;
    flags = b.flags;
    window = b.window;
    checksum = csum;
    urgent_ptr = 0;
  };
  payload = b.payload;
}

abbrev pub segment_of : SegmentBuilder → TcpSegment
segment_of b = segment_with b (tcp_checksum (segment_bytes b 0) b.src_ip b.dst_ip)

-- The sum that the checksum of the segment with the given checksum field starts from.
abbrev sum_of : SegmentBuilder → ℕ → ℕ
sum_of b csum =
    sum_words (pseudo_sum (length (segment_bytes b csum)) b.src_ip b.dst_ip % 0x1_0000_0000)
      (segment_bytes b csum)

-- No `u32` sum wraps: the field adds its value to the sum, which is positive without it.
sum_of-field :
    (b : SegmentBuilder)
    → IsValid b
    → (rest : ℕ) × (0 < rest) × ((csum : ℕ) → csum < 65536 → sum_of b csum ≡ rest + csum)
unfolding segment_bytes pseudo_sum
sum_of-field b v = (
  rest,
  omega arith,
  λ csum hc.
      sum_words-eq _ _
        (omega (arith, v, word_total-bound b.payload v.payload_bytes, to_byte-lt b.flags))
      ∙ omega (arith, v),
)
  where
    pseudo : ℕ
    pseudo = pseudo_sum (20 + length b.payload) b.src_ip b.dst_ip

    rest : ℕ
    rest = pseudo + word_total (segment_bytes b 0)

checksum_of-segment_bytes :
    (b : SegmentBuilder) (csum : ℕ)
    → tcp_checksum (segment_bytes b csum) b.src_ip b.dst_ip ≡ finish (sum_of b csum)
unfolding tcp_checksum
checksum_of-segment_bytes b csum = refl

pub tcp_checksum-lt : (raw : List ℕ) (src dst : Ipv4Addr) → tcp_checksum raw src dst < 65536
unfolding tcp_checksum
tcp_checksum-lt raw src dst = (finish_completes _).0

-- Every segment that `build` makes of fields that fit their types carries a checksum that verifies.
pub tcp_checksum-build :
    (b : SegmentBuilder) → IsValid b → tcp_checksum (build b) b.src_ip b.dst_ip ≡ 0
unfolding build
tcp_checksum-build b v =
    let (rest, pos, field) = sum_of-field b v in
    let zero_sum : finish (sum_of b 0) ≡ finish rest =
      ap finish (field 0 (omega arith) ∙ omega arith) in
    let csum = tcp_checksum (segment_bytes b 0) b.src_ip b.dst_ip in
    let filled : csum ≡ finish rest = checksum_of-segment_bytes b 0 ∙ zero_sum in
    checksum_of-segment_bytes b csum
    ∙ ap finish (field csum (tcp_checksum-lt _ _ _) ∙ ap (λ c. rest + c) filled)
    ∙ finish-add_finish rest pos

-- What `parse` makes of a segment that verifies.
parse-segment_bytes :
    (b : SegmentBuilder) (csum : ℕ)
    → IsValid b
    → csum < 65536
    → tcp_checksum (segment_bytes b csum) b.src_ip b.dst_ip ≡ 0
    → parse (segment_bytes b csum) b.src_ip b.dst_ip ≡ ok (segment_with b csum)
unfolding parse segment_bytes
parse-segment_bytes b csum v hc e = ground (arith, from_byte-to_byte b.flags)

-- `parse` accepts every segment that `build` makes of fields that fit their types and of a payload of
-- at most 65515 bytes, for the same two addresses, and returns those fields and the payload.
pub parse-build :
    (b : SegmentBuilder) → IsValid b → parse (build b) b.src_ip b.dst_ip ≡ ok (segment_of b)
parse-build b v =
    unfold build in parse-segment_bytes b _ v (tcp_checksum-lt _ _ _) (tcp_checksum-build b v)
