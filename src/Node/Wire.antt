-- ===== src/Node/Wire.antt =====
-- What a node of magnum-tcp/src/main.rs makes of the frames of another.
use magnus_tcp.Base.{ℕ, ◌≡◌, ◌≤◌, none, some, List, length, arith, if◌then◌else◌}
use magnus_tcp.Float.{F64}
use magnus_tcp.Net.{Ipv4Addr, MacAddr, MagnumError, err}
use magnus_tcp.Ethernet
use magnus_tcp.Ethernet.Laws.{parse-build_frame}
use magnus_tcp.Arp.{build_arp_reply_frame}
use magnus_tcp.Arp.Laws.{request_frame, parse_arp_request-request}
use magnus_tcp.Ipv4.{proto_tcp, build_packet}
use magnus_tcp.Ipv4.RoundTrip.{parse-build_packet}
use magnus_tcp.Tcb.{Hasher}
use magnus_tcp.Header.{SegmentBuilder, build}
use magnus_tcp.Header.RoundTrip.{IsValid, segment_of, parse-build}
use magnus_tcp.Task.{OutboundMsg}
use magnus_tcp.Dispatch.{same_addr, Channels, AsyncDispatch, dispatch}
use magnus_tcp.Node.{
  frame_outbound, take_segment, take_packet, take_arp, take_frame, inbound_dispatch,
}

-- The message that carries a built segment.
abbrev pub message : SegmentBuilder → MacAddr → MacAddr → OutboundMsg
message b ether_src ether_dst = record {
  src_ip = b.src_ip;
  dst_ip = b.dst_ip;
  tcp_bytes = build b;
  ether_src = ether_src;
  ether_dst = ether_dst;
}

module _ {F C : Type 0} (f : F64 F) (hash : Hasher) (nanos : ℕ) (ch : Channels C)
    (d : AsyncDispatch C) (our_ip : Ipv4Addr) (our_mac : MacAddr) where
  -- A segment that is built of fields that fit their types, of at most 65515 bytes, and is framed
  -- and sent by one node is, at the node that takes the frame, what `dispatch` is called with: the
  -- same fields and bytes, the same addresses, and the two hardware addresses swapped, so that
  -- answers go back to the sender.
  pub inbound_dispatch-frame_outbound :
      (b : SegmentBuilder) (ether_src ether_dst : MacAddr)
      → IsValid b
      → length (build b) ≤ 65515
      → inbound_dispatch f hash nanos ch d our_ip our_mac
          (frame_outbound (message b ether_src ether_dst))
        ≡ (let (d', spawned) =
              dispatch f hash nanos ch d b.src_ip b.dst_ip ether_dst ether_src (segment_of b) in
            record { state = d'; spawned = spawned; reply = none })
  unfolding inbound_dispatch frame_outbound take_frame take_packet take_segment
  inbound_dispatch-frame_outbound b ether_src ether_dst v h = rw (
    parse-build_frame ether_dst ether_src (build_packet b.src_ip b.dst_ip proto_tcp (build b)),
    parse-build_packet b.src_ip b.dst_ip proto_tcp (build b) v.src_addr v.dst_addr (omega arith) h,
    parse-build b v,
  )

  -- A request of RFC 826 leaves the dispatcher alone. It is answered if it asks for our address, to
  -- the address that asked and with our hardware address; else it is dropped.
  pub inbound_dispatch-request :
      (dst_mac sender_mac : MacAddr) (sender_ip target_ip : Ipv4Addr) (padding : List ℕ)
      → inbound_dispatch {F = F} f hash nanos ch d our_ip our_mac
          (request_frame dst_mac sender_mac sender_ip target_ip padding)
        ≡ record {
          state = d;
          spawned = none;
          reply =
              if same_addr target_ip our_ip
              then some (build_arp_reply_frame our_mac our_ip sender_mac sender_ip)
              else none;
        }
  unfolding inbound_dispatch take_frame take_arp
  inbound_dispatch-request dst_mac sender_mac sender_ip target_ip padding =
      rw (not_ipv4, parse_arp_request-request dst_mac sender_mac sender_ip target_ip padding)
        (ground arith)
    where
      not_ipv4 :
          Ethernet.parse (request_frame dst_mac sender_mac sender_ip target_ip padding)
          ≡ err (MagnumError.non_ipv4_ether_type 0x0806)
      not_ipv4 = unfold Ethernet.parse request_frame in ground arith
