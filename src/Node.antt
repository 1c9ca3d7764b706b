-- ===== src/Node.antt =====
-- The node of magnum-tcp/src/main.rs, on Linux: what it does with a frame from the interface, and how
-- it frames a segment.
use magnus_tcp.Base.{ℕ, Option, none, some, List, ◌==◌, if◌then◌else◌}
use magnus_tcp.Float.{F64}
use magnus_tcp.Net.{Ipv4Addr, MacAddr, MagnumError, Result, ok, err}
use magnus_tcp.Ethernet
use magnus_tcp.Ethernet.{EthernetFrame}
use magnus_tcp.Arp.{ArpRequest, parse_arp_request, build_arp_reply_frame}
use magnus_tcp.Ipv4
use magnus_tcp.Ipv4.{Ipv4Packet, proto_tcp, build_packet}
use magnus_tcp.Tcb.{Hasher}
use magnus_tcp.Header
use magnus_tcp.Header.{TcpSegment}
use magnus_tcp.Task.{OutboundMsg}
use magnus_tcp.Dispatch.{same_addr, Channels, AsyncDispatch, Spawned, dispatch}
pub mod Address
pub mod Http
pub mod Macos
pub mod Loop
pub mod Startup
pub mod Wire

unfoldable pub frame_outbound : OutboundMsg → List ℕ
frame_outbound msg =
    Ethernet.build msg.ether_dst msg.ether_src
      (build_packet msg.src_ip msg.dst_ip proto_tcp msg.tcp_bytes)

-- The dispatcher after a frame, the task that it spawned, and the frame to answer with.
pub record Outcome (F C : Type 0) : Type 0 where
  pub state : AsyncDispatch C
  pub spawned : Option (Spawned F)
  pub reply : Option (List ℕ)

module _ {F C : Type 0} where
  abbrev pub dropped : AsyncDispatch C → Outcome F C
  dropped d = record { state = d; spawned = none; reply = none }

  unfoldable pub take_segment :
      F64 F
      → Hasher
      → ℕ
      → Channels C
      → AsyncDispatch C
      → (ether_dst ether_src : MacAddr) → Ipv4Packet
      → Result TcpSegment
      → Outcome F C
  take_segment f hash nanos ch d ether_dst ether_src packet (err e) = dropped d
  take_segment f hash nanos ch d ether_dst ether_src packet (ok seg) =
      let (d', spawned) =
        dispatch f hash nanos ch d packet.header.src packet.header.dst ether_dst ether_src seg in
      record { state = d'; spawned = spawned; reply = none }

  -- Other protocols, ICMP among them, are only logged.
  unfoldable pub take_packet :
      F64 F
      → Hasher
      → ℕ
      → Channels C
      → AsyncDispatch C
      → (ether_dst ether_src : MacAddr) → Result Ipv4Packet
      → Outcome F C
  take_packet f hash nanos ch d ether_dst ether_src (err e) = dropped d
  take_packet f hash nanos ch d ether_dst ether_src (ok packet) =
      if packet.header.protocol == proto_tcp
      then take_segment f hash nanos ch d ether_dst ether_src packet
          (Header.parse packet.payload packet.header.src packet.header.dst)
      else dropped d

  -- A request for our address is answered.
  unfoldable pub take_arp : AsyncDispatch C → Ipv4Addr → MacAddr → Option ArpRequest → Outcome F C
  take_arp d our_ip our_mac none = dropped d
  take_arp d our_ip our_mac (some req) =
      if same_addr req.target_ip our_ip
      then record {
        state = d;
        spawned = none;
        reply = some (build_arp_reply_frame our_mac our_ip req.sender_mac req.sender_ip);
      }
      else dropped d

  unfoldable pub take_frame :
      F64 F
      → Hasher
      → ℕ
      → Channels C
      → AsyncDispatch C
      → Ipv4Addr
      → MacAddr
      → List ℕ
      → Result EthernetFrame
      → Outcome F C
  take_frame f hash nanos ch d our_ip our_mac raw (ok frame) =
      take_packet f hash nanos ch d frame.dst_mac frame.src_mac (Ipv4.parse frame.payload)
  take_frame f hash nanos ch d our_ip our_mac raw (err (MagnumError.non_ipv4_ether_type et)) =
      if et == 0x0806 then take_arp d our_ip our_mac (parse_arp_request raw) else dropped d
  take_frame f hash nanos ch d our_ip our_mac raw (err _) = dropped d

  unfoldable pub inbound_dispatch :
      F64 F → Hasher → ℕ → Channels C → AsyncDispatch C → Ipv4Addr → MacAddr → List ℕ → Outcome F C
  inbound_dispatch f hash nanos ch d our_ip our_mac raw =
      take_frame f hash nanos ch d our_ip our_mac raw (Ethernet.parse raw)
