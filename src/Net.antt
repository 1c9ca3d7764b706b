-- ===== src/Net.antt =====
-- What the packet formats share: bytes, addresses, big-endian fields, and the errors of
-- magnum-tcp/src/error.rs.
use magnus_tcp.Base.{ℕ, ◌+◌, ◌*◌, ◌/◌, ◌%◌, ◌<◌, List, get_or}

abbrev pub IsByte : ℕ → Type 0
IsByte b = b < 256

-- `[u8; 4]`.
pub record Ipv4Addr : Type 0 where
  pub b0 : ℕ
  pub b1 : ℕ
  pub b2 : ℕ
  pub b3 : ℕ

pub record IsAddr (ip : Ipv4Addr) : Type 0 where
  pub b0_byte : IsByte ip.b0
  pub b1_byte : IsByte ip.b1
  pub b2_byte : IsByte ip.b2
  pub b3_byte : IsByte ip.b3

-- `[u8; 6]`.
pub record MacAddr : Type 0 where
  pub m0 : ℕ
  pub m1 : ℕ
  pub m2 : ℕ
  pub m3 : ℕ
  pub m4 : ℕ
  pub m5 : ℕ

-- `raw[i]`; the parsers check the length before they index.
abbrev pub byte_at : List ℕ → ℕ → ℕ
byte_at raw i = get_or raw i 0

-- `u16::from_be_bytes([a, b])` and `u32::from_be_bytes([a, b, c, d])`.
abbrev pub be16 : ℕ → ℕ → ℕ
be16 a b = a * 256 + b

abbrev pub be32 : ℕ → ℕ → ℕ → ℕ → ℕ
be32 a b c d = ((a * 256 + b) * 256 + c) * 256 + d

-- The bytes of a `u16` or a `u32` number, highest first.
abbrev pub hi8 : ℕ → ℕ
hi8 x = x / 256 % 256

abbrev pub lo8 : ℕ → ℕ
lo8 x = x % 256

abbrev pub addr_at : List ℕ → ℕ → Ipv4Addr
addr_at raw i = record {
  b0 = byte_at raw i;
  b1 = byte_at raw (i + 1);
  b2 = byte_at raw (i + 2);
  b3 = byte_at raw (i + 3);
}

abbrev pub mac_at : List ℕ → ℕ → MacAddr
mac_at raw i = record {
  m0 = byte_at raw i;
  m1 = byte_at raw (i + 1);
  m2 = byte_at raw (i + 2);
  m3 = byte_at raw (i + 3);
  m4 = byte_at raw (i + 4);
  m5 = byte_at raw (i + 5);
}

pub data MagnumError : Type 0 where
  tun : (os_error : ℕ) → MagnumError
  ethernet_frame_too_short : (got need : ℕ) → MagnumError
  non_ipv4_ether_type : (ether_type : ℕ) → MagnumError
  ipv4_header_too_short : (got need : ℕ) → MagnumError
  ipv4_ihl_too_small : (ihl : ℕ) → MagnumError
  ipv4_checksum_mismatch : (computed got : ℕ) → MagnumError
  ipv4_truncated_packet : (total_len buf_len : ℕ) → MagnumError
  ipv4_total_len_too_small : (total_len header_len : ℕ) → MagnumError
  tcp_header_too_short : (got need : ℕ) → MagnumError
  tcp_data_offset_too_small : (data_offset : ℕ) → MagnumError
  tcp_checksum_mismatch : (computed got : ℕ) → MagnumError
  invalid_ip : List ℕ → MagnumError

pub data Result {ℓ} (A : Type ℓ) : Type ℓ where
  ok : A → Result A
  err : MagnumError → Result A
