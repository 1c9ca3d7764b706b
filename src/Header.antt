-- ===== src/Header.antt =====
-- The TCP header of magnum-tcp/src/tcp/header.rs: flags, parser, checksum and builder.
use magnus_tcp.Base.{
  ℕ, ◌+◌, ◌*◌, ◌/◌, ◌%◌, Bool, true, false, not, List, [], ◌∷◌, ◌++◌, ltb, ◌==◌, if◌then◌else◌,
  length, drop, bit_and, bit_or, u32_mod,
}
use magnus_tcp.Net.{Ipv4Addr, MagnumError, Result, ok, err, byte_at, be16, be32, hi8, lo8}
use magnus_tcp.Checksum.{sum_words, finish}
use magnus_tcp.Ipv4.{proto_tcp}
pub mod Flags
pub mod RoundTrip
pub mod Damage

abbrev pub tcp_min_header_len : ℕ
tcp_min_header_len = 20

abbrev pub recv_window : ℕ
recv_window = 65535

pub record TcpFlags : Type 0 where
  pub urg : Bool
  pub ack : Bool
  pub psh : Bool
  pub rst : Bool
  pub syn : Bool
  pub fin : Bool

-- `TcpFlags::default()`.
abbrev pub no_flags : TcpFlags
no_flags = record { urg = false; ack = false; psh = false; rst = false; syn = false; fin = false }

-- `b & mask != 0`.
abbrev pub test_bit : ℕ → ℕ → Bool
test_bit b mask = not (bit_and b mask == 0)

unfoldable pub from_byte : ℕ → TcpFlags
from_byte b = record {
  urg = test_bit b 0x20;
  ack = test_bit b 0x10;
  psh = test_bit b 0x08;
  rst = test_bit b 0x04;
  syn = test_bit b 0x02;
  fin = test_bit b 0x01;
}

-- `(flag as u8) << k`, the mask being `1 << k`.
abbrev pub flag_bit : Bool → ℕ → ℕ
flag_bit flag mask = if flag then mask else 0

unfoldable pub to_byte : TcpFlags → ℕ
to_byte f =
    bit_or
      (bit_or
        (bit_or (bit_or (bit_or (flag_bit f.urg 0x20) (flag_bit f.ack 0x10)) (flag_bit f.psh 0x08))
          (flag_bit f.rst 0x04))
        (flag_bit f.syn 0x02))
      (flag_bit f.fin 0x01)

pub record TcpHeader : Type 0 where
  pub src_port : ℕ  -- u16
  pub dst_port : ℕ  -- u16
  pub seq : ℕ  -- u32
  pub ack_num : ℕ  -- u32
  pub data_offset : ℕ  -- u8
  pub flags : TcpFlags
  pub window : ℕ  -- u16
  pub checksum : ℕ  -- u16
  pub urgent_ptr : ℕ  -- u16

-- `TcpSegment` and `TcpSegmentOwned`, which differ in who owns the payload.
pub record TcpSegment : Type 0 where
  pub header : TcpHeader
  pub payload : List ℕ

-- The `u32` sum over the pseudo-header; the terms are too few and small to wrap.
unfoldable pub pseudo_sum : ℕ → Ipv4Addr → Ipv4Addr → ℕ
pseudo_sum tcp_len src_ip dst_ip =
    be16 src_ip.b0 src_ip.b1
    + be16 src_ip.b2 src_ip.b3
    + be16 dst_ip.b0 dst_ip.b1
    + be16 dst_ip.b2 dst_ip.b3
    + proto_tcp
    + tcp_len % u32_mod

unfoldable pub tcp_checksum : List ℕ → Ipv4Addr → Ipv4Addr → ℕ
tcp_checksum tcp_segment src_ip dst_ip =
    finish (sum_words (pseudo_sum (length tcp_segment) src_ip dst_ip % u32_mod) tcp_segment)

-- The fields that `parse` reads, once its checks have passed.
abbrev header_of : List ℕ → ℕ → TcpHeader
header_of raw data_offset = record {
  src_port = be16 (byte_at raw 0) (byte_at raw 1);
  dst_port = be16 (byte_at raw 2) (byte_at raw 3);
  seq = be32 (byte_at raw 4) (byte_at raw 5) (byte_at raw 6) (byte_at raw 7);
  ack_num = be32 (byte_at raw 8) (byte_at raw 9) (byte_at raw 10) (byte_at raw 11);
  data_offset = data_offset;
  flags = from_byte (byte_at raw 13);
  window = be16 (byte_at raw 14) (byte_at raw 15);
  checksum = be16 (byte_at raw 16) (byte_at raw 17);
  urgent_ptr = be16 (byte_at raw 18) (byte_at raw 19);
}

unfoldable pub parse : List ℕ → Ipv4Addr → Ipv4Addr → Result TcpSegment
parse raw src_ip dst_ip =
    let data_offset = byte_at raw 12 / 16 % 16 in
    let header_len = data_offset * 4 in
    let computed = tcp_checksum raw src_ip dst_ip in
    if ltb (length raw) tcp_min_header_len
    then err (MagnumError.tcp_header_too_short (length raw) tcp_min_header_len)
    else (if ltb data_offset 5
        then err (MagnumError.tcp_data_offset_too_small data_offset)
        else (if ltb (length raw) header_len
            then err (MagnumError.tcp_header_too_short (length raw) header_len)
            else (if not (computed == 0)
                then err (
                    MagnumError.tcp_checksum_mismatch computed
                      (be16 (byte_at raw 16) (byte_at raw 17)))
                else ok (record {
                  header = header_of raw data_offset;
                  payload = drop header_len raw;
                }))))

pub record SegmentBuilder : Type 0 where
  pub src_ip : Ipv4Addr
  pub dst_ip : Ipv4Addr
  pub src_port : ℕ  -- u16
  pub dst_port : ℕ  -- u16
  pub seq : ℕ  -- u32
  pub ack_num : ℕ  -- u32
  pub flags : TcpFlags
  pub window : ℕ  -- u16
  pub payload : List ℕ

-- `SegmentBuilder::new`; the setters are updates of the record.
abbrev pub new_builder : Ipv4Addr → Ipv4Addr → ℕ → ℕ → SegmentBuilder
new_builder src_ip dst_ip src_port dst_port = record {
  src_ip = src_ip;
  dst_ip = dst_ip;
  src_port = src_port;
  dst_port = dst_port;
  seq = 0;
  ack_num = 0;
  flags = no_flags;
  window = recv_window;
  payload = [];
}

-- The buffer of `build`, with the bytes of the checksum field as given.
unfoldable pub segment_bytes : SegmentBuilder → ℕ → List ℕ
segment_bytes b csum =
    hi8 b.src_port
    ∷ lo8 b.src_port
    ∷ hi8 b.dst_port
    ∷ lo8 b.dst_port
    ∷ (b.seq / 0x1000000 % 256)
    ∷ (b.seq / 0x10000 % 256)
    ∷ hi8 b.seq
    ∷ lo8 b.seq
    ∷ (b.ack_num / 0x1000000 % 256)
    ∷ (b.ack_num / 0x10000 % 256)
    ∷ hi8 b.ack_num
    ∷ lo8 b.ack_num
    ∷ 0x50
    ∷ to_byte b.flags
    ∷ hi8 b.window
    ∷ lo8 b.window
    ∷ hi8 csum
    ∷ lo8 csum
    ∷ 0
    ∷ 0
    ∷ b.payload

unfoldable pub build : SegmentBuilder → List ℕ
build b = segment_bytes b (tcp_checksum (segment_bytes b 0) b.src_ip b.dst_ip)
