-- ===== src/Ethernet/Laws.antt =====
-- Frames of magnum-tcp/src/ethernet.rs that are built and parsed again.
use magnus_tcp.Base.{ℕ, ◌≡◌, List, arith}
use magnus_tcp.Net.{MacAddr, ok}
use magnus_tcp.Ethernet.{ethertype_ipv4, build, parse}

-- Parsing a built frame gives back its addresses and its payload, for every payload.
pub parse-build_frame :
    (dst_mac src_mac : MacAddr) (payload : List ℕ)
    → parse (build dst_mac src_mac payload)
      ≡ ok (record {
        dst_mac = dst_mac;
        src_mac = src_mac;
        ethertype = ethertype_ipv4;
        payload = payload;
      })
unfolding parse build
parse-build_frame dst_mac src_mac payload = ground arith
