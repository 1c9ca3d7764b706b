-- ===== src/Arp/Laws.antt =====
-- What magnum-tcp/src/arp.rs reads in requests and in replies.
use magnus_tcp.Base.{ℕ, List, ◌∷◌, ◌≡◌, refl, none, some, arith}
use magnus_tcp.Net.{Ipv4Addr, MacAddr}
use magnus_tcp.Ethernet.{with_mac}
use magnus_tcp.Arp.{with_addr, parse_arp_request, build_arp_reply_frame}

-- A request of RFC 826, in an Ethernet frame with the padding given.
unfoldable pub request_frame :
    (dst_mac sender_mac : MacAddr) (sender_ip target_ip : Ipv4Addr) → List ℕ → List ℕ
request_frame dst_mac sender_mac sender_ip target_ip padding = with_mac dst_mac (
    with_mac sender_mac (
      0x08
      ∷ 0x06
      ∷ 0x00
      ∷ 0x01
      ∷ 0x08
      ∷ 0x00
      ∷ 6
      ∷ 4
      ∷ 0x00
      ∷ 0x01
      ∷ with_mac sender_mac
          (with_addr sender_ip (0 ∷ 0 ∷ 0 ∷ 0 ∷ 0 ∷ 0 ∷ with_addr target_ip padding))))

-- A request is read with its three addresses, whatever padding follows.
pub parse_arp_request-request :
    (dst_mac sender_mac : MacAddr) (sender_ip target_ip : Ipv4Addr) (padding : List ℕ)
    → parse_arp_request (request_frame dst_mac sender_mac sender_ip target_ip padding)
      ≡ some (record { sender_mac = sender_mac; sender_ip = sender_ip; target_ip = target_ip })
unfolding parse_arp_request request_frame
parse_arp_request-request dst_mac sender_mac sender_ip target_ip padding = ground arith

-- The reply that the stack builds is never taken for a request.
pub parse_arp_request-reply :
    (our_mac : MacAddr) (our_ip : Ipv4Addr) (requester_mac : MacAddr) (requester_ip : Ipv4Addr)
    → parse_arp_request (build_arp_reply_frame our_mac our_ip requester_mac requester_ip) ≡ none
unfolding parse_arp_request build_arp_reply_frame
parse_arp_request-reply our_mac our_ip requester_mac requester_ip = refl
