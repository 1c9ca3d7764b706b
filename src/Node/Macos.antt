-- ===== src/Node/Macos.antt =====
-- The node of magnum-tcp/src/main.rs on macOS, where the device carries IPv4 packets without Ethernet.
use magnus_tcp.Base.{ℕ, ◌≡◌, ◌≤◌, none, List, length, arith}
use magnus_tcp.Float.{F64}
use magnus_tcp.Net.{MacAddr}
use magnus_tcp.Ipv4
use magnus_tcp.Ipv4.{proto_tcp, build_packet}
use magnus_tcp.Ipv4.RoundTrip.{parse-build_packet}
use magnus_tcp.Tcb.{Hasher}
use magnus_tcp.Header.{SegmentBuilder, build}
use magnus_tcp.Header.RoundTrip.{IsValid, segment_of, parse-build}
use magnus_tcp.Task.{OutboundMsg}
use magnus_tcp.Dispatch.{Channels, AsyncDispatch, dispatch}
use magnus_tcp.Node.{Outcome, take_segment, take_packet}
use magnus_tcp.Node.Wire.{message}

-- `[0u8; 6]`.
abbrev pub no_mac : MacAddr
no_mac = record { m0 = 0; m1 = 0; m2 = 0; m3 = 0; m4 = 0; m5 = 0 }

unfoldable pub frame_outbound : OutboundMsg → List ℕ
frame_outbound msg = build_packet msg.src_ip msg.dst_ip proto_tcp msg.tcp_bytes

module _ {F C : Type 0} (f : F64 F) (hash : Hasher) (nanos : ℕ) (ch : Channels C)
    (d : AsyncDispatch C) where
  unfoldable pub inbound_dispatch : (raw : List ℕ) → Outcome F C
  inbound_dispatch raw = take_packet f hash nanos ch d no_mac no_mac (Ipv4.parse raw)

  -- A segment that is built of fields that fit their types, of at most 65515 bytes, and is framed
  -- and sent by one node is, at the node that takes the packet, what `dispatch` is called with.
  pub inbound_dispatch-frame_macos :
      (b : SegmentBuilder) (ether_src ether_dst : MacAddr)
      → IsValid b
      → length (build b) ≤ 65515
      → inbound_dispatch (frame_outbound (message b ether_src ether_dst)) ≡ (
          let (d', spawned) =
            dispatch f hash nanos ch d b.src_ip b.dst_ip no_mac no_mac (segment_of b) in
          record { state = d'; spawned = spawned; reply = none })
  unfolding inbound_dispatch frame_outbound take_packet take_segment
  inbound_dispatch-frame_macos b ether_src ether_dst v h = rw (
    parse-build_packet b.src_ip b.dst_ip proto_tcp (build b) v.src_addr v.dst_addr (omega arith) h,
    parse-build b v,
  )
