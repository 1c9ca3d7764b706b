-- ===== src/Ethernet.antt =====
-- The link layer of magnum-tcp/src/ethernet.rs.
use magnus_tcp.Base.{ℕ, ◌+◌, List, [], ◌∷◌, ◌++◌, ltb, ◌==◌, not, if◌then◌else◌, length, drop}
use magnus_tcp.Net.{MacAddr, MagnumError, Result, ok, err, byte_at, be16, hi8, lo8, mac_at}
pub mod Laws

abbrev pub ethertype_ipv4 : ℕ
ethertype_ipv4 = 0x0800

abbrev pub ethernet_header_len : ℕ
ethernet_header_len = 14

pub record EthernetFrame : Type 0 where
  pub dst_mac : MacAddr
  pub src_mac : MacAddr
  pub ethertype : ℕ
  pub payload : List ℕ

-- The bytes of an address in front of others.
abbrev pub with_mac : MacAddr → List ℕ → List ℕ
with_mac m bytes = m.m0 ∷ m.m1 ∷ m.m2 ∷ m.m3 ∷ m.m4 ∷ m.m5 ∷ bytes

unfoldable pub build : MacAddr → MacAddr → List ℕ → List ℕ
build dst_mac src_mac payload =
    with_mac dst_mac (with_mac src_mac (hi8 ethertype_ipv4 ∷ lo8 ethertype_ipv4 ∷ payload))

unfoldable pub parse : List ℕ → Result EthernetFrame
parse raw =
    let ethertype = be16 (byte_at raw 12) (byte_at raw 13) in
    if ltb (length raw) ethernet_header_len
    then err (MagnumError.ethernet_frame_too_short (length raw) ethernet_header_len)
    else (if not (ethertype == ethertype_ipv4)
        then err (MagnumError.non_ipv4_ether_type ethertype)
        else ok (record {
          dst_mac = mac_at raw 0;
          src_mac = mac_at raw 6;
          ethertype = ethertype;
          payload = drop ethernet_header_len raw;
        }))
