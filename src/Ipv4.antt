-- ===== src/Ipv4.antt =====
-- The IPv4 layer of magnum-tcp/src/ipv4.rs.
use magnus_tcp.Base.{
  ℕ, ◌+◌, ◌-◌, ◌*◌, ◌/◌, ◌%◌, List, [], ◌∷◌, ◌++◌, ltb, ◌==◌, not, if◌then◌else◌, length, take,
  drop,
}
use magnus_tcp.Net.{Ipv4Addr, MagnumError, Result, ok, err, byte_at, be16, hi8, lo8, addr_at}
use magnus_tcp.Checksum.{sum_words, finish}
pub mod RoundTrip
pub mod Accepts

abbrev pub ipv4_min_header_len : ℕ
ipv4_min_header_len = 20

abbrev pub proto_icmp : ℕ
proto_icmp = 1

abbrev pub proto_tcp : ℕ
proto_tcp = 6

pub record Ipv4Header : Type 0 where
  pub ihl : ℕ
  pub dscp : ℕ
  pub total_len : ℕ
  pub id : ℕ
  pub flags : ℕ
  pub frag_offset : ℕ
  pub ttl : ℕ
  pub protocol : ℕ
  pub checksum : ℕ
  pub src : Ipv4Addr
  pub dst : Ipv4Addr

pub record Ipv4Packet : Type 0 where
  pub header : Ipv4Header
  pub payload : List ℕ

unfoldable pub checksum : List ℕ → ℕ
checksum raw = finish (sum_words 0 raw)

-- The fields that `parse` reads, once its checks have passed.
abbrev header_of : List ℕ → ℕ → Ipv4Header
header_of raw ihl =
    let flags_frag = be16 (byte_at raw 6) (byte_at raw 7) in
    record {
      ihl = ihl;
      dscp = byte_at raw 1 / 4 % 64;
      total_len = be16 (byte_at raw 2) (byte_at raw 3);
      id = be16 (byte_at raw 4) (byte_at raw 5);
      flags = flags_frag / 8192 % 8;
      frag_offset = flags_frag % 8192;
      ttl = byte_at raw 8;
      protocol = byte_at raw 9;
      checksum = be16 (byte_at raw 10) (byte_at raw 11);
      src = addr_at raw 12;
      dst = addr_at raw 16;
    }

unfoldable pub parse : List ℕ → Result Ipv4Packet
parse raw =
    let ihl = byte_at raw 0 % 16 in
    let header_len = ihl * 4 in
    let computed = checksum (take header_len raw) in
    let total_len = be16 (byte_at raw 2) (byte_at raw 3) in
    if ltb (length raw) ipv4_min_header_len
    then err (MagnumError.ipv4_header_too_short (length raw) ipv4_min_header_len)
    else (if ltb ihl 5
        then err (MagnumError.ipv4_ihl_too_small ihl)
        else (if ltb (length raw) header_len
            then err (MagnumError.ipv4_header_too_short (length raw) header_len)
            else (if not (computed == 0)
                then err (
                    MagnumError.ipv4_checksum_mismatch computed
                      (be16 (byte_at raw 10) (byte_at raw 11)))
                else (if ltb total_len header_len
                    then err (MagnumError.ipv4_total_len_too_small total_len header_len)
                    else (if ltb (length raw) total_len
                        then err (MagnumError.ipv4_truncated_packet total_len (length raw))
                        else ok (record {
                          header = header_of raw ihl;
                          payload = take (total_len - header_len) (drop header_len raw);
                        }))))))

-- The header that `build_packet` writes, with the checksum field as given.
unfoldable pub header_bytes : Ipv4Addr → Ipv4Addr → ℕ → ℕ → ℕ → List ℕ
header_bytes src dst protocol total_len csum =
    0x45
    ∷ 0x00
    ∷ hi8 total_len
    ∷ lo8 total_len
    ∷ 0x00
    ∷ 0x00
    ∷ 0x40
    ∷ 0x00
    ∷ 0x40
    ∷ protocol
    ∷ hi8 csum
    ∷ lo8 csum
    ∷ src.b0
    ∷ src.b1
    ∷ src.b2
    ∷ src.b3
    ∷ dst.b0
    ∷ dst.b1
    ∷ dst.b2
    ∷ dst.b3
    ∷ []

unfoldable pub build_packet : Ipv4Addr → Ipv4Addr → ℕ → List ℕ → List ℕ
build_packet src dst protocol payload =
    let total_len = (ipv4_min_header_len + length payload) % 65536 in
    let csum = checksum (header_bytes src dst protocol total_len 0) in
    header_bytes src dst protocol total_len csum ++ payload
