-- ===== src/Node/Startup.antt =====
-- How `run` of magnum-tcp/src/main.rs gets to its event loop.
use magnus_tcp.Base.{
  ℕ, ◌+◌, ◌≡◌, ◌∙◌, refl, ap, Bool, true, false, ◌||◌, Option, none, some, List, [], ◌∷◌, ◌==◌, ltb,
  if◌then◌else◌,
}
use magnus_tcp.Float.{F64}
use magnus_tcp.Net.{Ipv4Addr, MacAddr, MagnumError, Result, ok, err}
use magnus_tcp.Text.{codes}
use magnus_tcp.Text.Utf8.{encode}
use magnus_tcp.Pcap
use magnus_tcp.Pcap.{linktype_ethernet, linktype_ipv4}
use magnus_tcp.Dispatch.{AsyncDispatch, new_dispatch, listen}
use magnus_tcp.Chaos
use magnus_tcp.Chaos.{ChaosConfig, ChaosMiddleware}
use magnus_tcp.Tun.{Io, done, failed, Sys, Tun, set_nonblocking, Keeps, Acquires, TracksDescriptors}
use magnus_tcp.Tun.Linux
use magnus_tcp.Tun.Macos
use magnus_tcp.Node.Address.{parse_ip}
use magnus_tcp.Node.Macos.{no_mac}
use magnus_tcp.Node.Loop.{NodeState}
pub mod Leaves

-- The command line. Its texts are bytes.
pub record Cli (F : Type 0) : Type 0 where
  pub port : List ℕ
  pub bind_ip : List ℕ
  pub chaos : F
  pub chaos_reorder : F
  pub chaos_jitter_ms : ℕ

-- What differs between the systems: the functions of `Tun`, the device's name, `O_NONBLOCK`, the
-- hardware address that a device without one is given, and the link type of the capture.
pub record Setup (S : Type 0) : Type 0 where
  pub open_tun : S → List ℕ → S × Result Tun
  pub mac_address : S → Tun → S × Option MacAddr
  pub tun_name : List ℕ
  pub o_nonblock : ℕ
  pub default_mac : MacAddr
  pub linktype : ℕ

unfoldable pub linux_setup : {S : Type 0} → Sys S → Setup S
linux_setup sys = record {
  open_tun = Linux.open_tun sys;
  mac_address = Linux.mac_address sys;
  tun_name = codes "tap0";
  o_nonblock = Linux.o_nonblock;
  default_mac = record { m0 = 0x0A; m1 = 0xB1; m2 = 0xE9; m3 = 0; m4 = 0; m5 = 1 };
  linktype = linktype_ethernet;
}

unfoldable pub macos_setup : {S : Type 0} → Sys S → Setup S
macos_setup sys = record {
  open_tun = Macos.open_tun sys;
  mac_address = Macos.mac_address sys;
  tun_name = codes "utun5";
  o_nonblock = Macos.o_nonblock;
  default_mac = no_mac;
  linktype = linktype_ipv4;
}

-- What the loop starts with.
pub record Started (F C : Type 0) : Type 0 where
  pub our_ip : Ipv4Addr
  pub our_mac : MacAddr
  pub tun : Tun
  pub node : NodeState F C

unfoldable pub listen_all : {C : Type 0} → AsyncDispatch C → List ℕ → AsyncDispatch C
listen_all d [] = d
listen_all d (port ∷ ports) = listen_all (listen d port) ports

unfoldable pub chaos_of : {F : Type 0} → F64 F → Cli F → Option (ChaosMiddleware F)
chaos_of f args =
    if f.less (f.literal 0 1) args.chaos
      || (f.less (f.literal 0 1) args.chaos_reorder || ltb 0 args.chaos_jitter_ms)
    then some (
        Chaos.new (record {
          drop_rate = args.chaos;
          reorder_rate = args.chaos_reorder;
          max_jitter_ms = args.chaos_jitter_ms;
        }))
    else none

-- The capture file, if it can be created.
unfoldable pub capture_of : (linktype : ℕ) → Io ℕ → Option (List ℕ)
capture_of linktype (failed e) = none
capture_of linktype (done fd) = some (Pcap.new linktype)

-- `register` stands for `AsyncFd::new`. When a step fails, the device is dropped, which closes it.
module _ {F C S : Type 0} (f : F64 F) (sys : Sys S) (register : S → (fd : ℕ) → S × Io (Unit {0}))
    (setup : Setup S) (args : Cli F) where
  unfoldable pub registered :
      S → Ipv4Addr → MacAddr → Tun → Io (Unit {0}) → S × Result (Started F C)
  registered s our_ip our_mac tun (failed e) = (sys.close s tun.file, err (MagnumError.tun e))
  registered s our_ip our_mac tun (done _) =
      let (s', file) = sys.open_path s (codes "capture.pcap") in
      (
        s',
        ok (record {
          our_ip = our_ip;
          our_mac = our_mac;
          tun = tun;
          node = record {
            dispatch = listen_all new_dispatch args.port;
            capture = capture_of setup.linktype file;
            chaos = chaos_of f args;
          };
        }),
      )

  unfoldable pub unblocked : S → Ipv4Addr → Tun → Result (Unit {0}) → S × Result (Started F C)
  unblocked s our_ip tun (err e) = (sys.close s tun.file, err e)
  unblocked s our_ip tun (ok _) =
      let (s1, mac) = setup.mac_address s tun in
      let our_mac : MacAddr = elim mac [ none ↦ setup.default_mac | some m ↦ m ] in
      let (s2, ret) = register s1 tun.file in registered s2 our_ip our_mac tun ret

  unfoldable pub opened : S → Ipv4Addr → Result Tun → S × Result (Started F C)
  opened s our_ip (err e) = (s, err e)
  opened s our_ip (ok tun) =
      let (s', set) = set_nonblocking sys setup.o_nonblock s tun in unblocked s' our_ip tun set

  unfoldable pub with_ip : S → Result Ipv4Addr → S × Result (Started F C)
  with_ip s (err e) = (s, err e)
  with_ip s (ok our_ip) = let (s', tun) = setup.open_tun s setup.tun_name in opened s' our_ip tun

  unfoldable pub start : S → S × Result (Started F C)
  start s = with_ip s (parse_ip args.bind_ip)
