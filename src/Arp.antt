-- ===== src/Arp.antt =====
-- The address resolution of magnum-tcp/src/arp.rs.
use magnus_tcp.Base.{
  ℕ, ◌+◌, List, [], ◌∷◌, Option, none, some, Bool, ◌&&◌, ltb, ◌==◌, not, if◌then◌else◌, length,
  drop,
}
use magnus_tcp.Net.{Ipv4Addr, MacAddr, byte_at, mac_at, addr_at}
use magnus_tcp.Ethernet.{ethernet_header_len, with_mac}
pub mod Laws

abbrev pub arp_frame_len : ℕ
arp_frame_len = 42

pub record ArpRequest : Type 0 where
  pub sender_mac : MacAddr
  pub sender_ip : Ipv4Addr
  pub target_ip : Ipv4Addr

-- `arp[i..i + 2] == [a, b]`.
abbrev is_pair : List ℕ → ℕ → ℕ → ℕ → Bool
is_pair arp i a b = byte_at arp i == a && byte_at arp (i + 1) == b

unfoldable pub parse_arp_request : List ℕ → Option ArpRequest
parse_arp_request raw_frame =
    let arp = drop ethernet_header_len raw_frame in
    if ltb (length raw_frame) arp_frame_len
    then none
    else (if not (is_pair arp 0 0x00 0x01)
        then none
        else (if not (is_pair arp 2 0x08 0x00)
            then none
            else (if not (byte_at arp 4 == 6 && byte_at arp 5 == 4)
                then none
                else (if not (is_pair arp 6 0x00 0x01)
                    then none
                    else some (record {
                      sender_mac = mac_at arp 8;
                      sender_ip = addr_at arp 14;
                      target_ip = addr_at arp 24;
                    })))))

-- The bytes of an address in front of others.
abbrev pub with_addr : Ipv4Addr → List ℕ → List ℕ
with_addr ip bytes = ip.b0 ∷ ip.b1 ∷ ip.b2 ∷ ip.b3 ∷ bytes

unfoldable pub build_arp_reply_frame : MacAddr → Ipv4Addr → MacAddr → Ipv4Addr → List ℕ
build_arp_reply_frame our_mac our_ip requester_mac requester_ip = with_mac requester_mac (
    with_mac our_mac (
      0x08
      ∷ 0x06
      ∷ 0x00
      ∷ 0x01
      ∷ 0x08
      ∷ 0x00
      ∷ 6
      ∷ 4
      ∷ 0x00
      ∷ 0x02
      ∷ with_mac our_mac (with_addr our_ip (with_mac requester_mac (with_addr requester_ip [])))))
