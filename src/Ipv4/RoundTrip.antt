-- ===== src/Ipv4/RoundTrip.antt =====
-- The packets that magnum-tcp/src/ipv4.rs builds are those that it accepts.
use magnus_tcp.Base.{
  ℕ, ◌+◌, ◌%◌, ◌-◌, ◌≤◌, ◌<◌, ◌≡◌, refl, ap, ◌∙◌, List, ◌++◌, arith, length, take_all,
}
use magnus_tcp.Net.{Ipv4Addr, IsAddr, IsByte, ok}
use magnus_tcp.Checksum.{sum_words, finish}
use magnus_tcp.Checksum.Laws.{finish-add_finish, finish_completes}
use magnus_tcp.Ipv4.{checksum, parse, header_bytes, build_packet}

-- With a 16-bit checksum field the sum of the header's words is that of the rest and the field.
sum-header_bytes :
    (src dst : Ipv4Addr) (protocol total_len csum : ℕ)
    → IsAddr src
    → IsAddr dst
    → IsByte protocol
    → total_len < 65536
    → csum < 65536
    → (0 < sum_words 0 (header_bytes src dst protocol total_len 0))
      × (sum_words 0 (header_bytes src dst protocol total_len csum)
          ≡ sum_words 0 (header_bytes src dst protocol total_len 0) + csum)
unfolding header_bytes sum_words
sum-header_bytes src dst protocol total_len csum hs hd hp ht hc = omega arith

checksum-lt : (raw : List ℕ) → checksum raw < 65536
unfolding checksum
checksum-lt raw = (finish_completes (sum_words 0 raw)).0

-- The header with its own checksum filled in verifies.
checksum-header_bytes :
    (src dst : Ipv4Addr) (protocol total_len : ℕ)
    → IsAddr src
    → IsAddr dst
    → IsByte protocol
    → total_len < 65536
    → checksum (
        header_bytes src dst protocol total_len
          (checksum (header_bytes src dst protocol total_len 0)))
      ≡ 0
unfolding checksum
checksum-header_bytes src dst protocol total_len hs hd hp ht =
    let sum : ℕ = sum_words 0 (header_bytes src dst protocol total_len 0) in
    let (pos, filled) =
      sum-header_bytes src dst protocol total_len (finish sum) hs hd hp ht
        (finish_completes sum).0 in
    ap finish filled ∙ finish-add_finish sum pos

-- What `parse` makes of a header that verifies and a payload of the length it states.
parse-filled :
    (src dst : Ipv4Addr) (protocol total_len csum : ℕ) (payload : List ℕ)
    → total_len < 65536
    → csum < 65536
    → total_len ≡ 20 + length payload
    → checksum (header_bytes src dst protocol total_len csum) ≡ 0
    → parse (header_bytes src dst protocol total_len csum ++ payload)
      ≡ ok (record {
        header = record {
          ihl = 5;
          dscp = 0;
          total_len = total_len;
          id = 0;
          flags = 2;
          frag_offset = 0;
          ttl = 64;
          protocol = protocol;
          checksum = csum;
          src = src;
          dst = dst;
        };
        payload = payload;
      })
unfolding parse header_bytes
parse-filled src dst protocol total_len csum payload ht hc e v =
    ground (arith, take_all (total_len - 20) payload)

-- `parse` accepts every packet that `build_packet` makes of addresses, a protocol number and a
-- payload of at most 65515 bytes, and returns them.
pub parse-build_packet :
    (src dst : Ipv4Addr) (protocol : ℕ) (payload : List ℕ)
    → IsAddr src
    → IsAddr dst
    → IsByte protocol
    → length payload ≤ 65515
    → parse (build_packet src dst protocol payload)
      ≡ ok (record {
        header = record {
          ihl = 5;
          dscp = 0;
          total_len = 20 + length payload;
          id = 0;
          flags = 2;
          frag_offset = 0;
          ttl = 64;
          protocol = protocol;
          checksum = checksum (header_bytes src dst protocol (20 + length payload) 0);
          src = src;
          dst = dst;
        };
        payload = payload;
      })
unfolding build_packet
parse-build_packet src dst protocol payload hs hd hp h =
    let total : ℕ = 20 + length payload in
    let same : total % 65536 ≡ total = omega arith in
    rw same (
      parse-filled src dst protocol total _ payload (omega arith) (checksum-lt _) refl
        (checksum-header_bytes src dst protocol total hs hd hp (omega arith)))
