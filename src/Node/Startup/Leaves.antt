-- ===== src/Node/Startup/Leaves.antt =====
-- What the start of magnum-tcp/src/main.rs leaves open when it fails.
use magnus_tcp.Base.{ℕ, ◌≡◌, ◌∙◌, refl, Bool, true, false, List, arith}
use magnus_tcp.Float.{F64}
use magnus_tcp.Net.{Ipv4Addr, MacAddr, Result, ok, err}
use magnus_tcp.Text.{codes}
use magnus_tcp.Tun.{Io, done, failed, Sys, Tun, set_nonblocking, Keeps, Acquires, TracksDescriptors}
use magnus_tcp.Tun.Descriptors.{
  Opens, Holds, still-Holds, closed_tun, set_nonblocking-Keeps, mac_address-Keeps, linux-Opens,
  macos-Opens,
}
use magnus_tcp.Node.Address.{parse_ip}
use magnus_tcp.Node.Startup.{
  Cli, Setup, Started, linux_setup, macos_setup, registered, unblocked, opened, with_ip, start,
}

-- What the start leaves open: the device, which was not open before; after an error, what was.
abbrev pub Leaves : {F C S : Type 0} → (S → ℕ → Bool) → S → S × Result (Started F C) → Type 0
Leaves is_open s (s', ok started) =
    (is_open s started.tun.file ≡ false) × (is_open s' started.tun.file ≡ true)
Leaves is_open s (s', err e) = Keeps is_open s s'

stays_open :
    {S : Type 0} (is_open : S → ℕ → Bool) (s s' : S) (x : ℕ) (o : Io ℕ)
    → Acquires is_open s s' o
    → is_open s x ≡ true
    → is_open s' x ≡ true
stays_open is_open s s' x (failed e) kept h = kept x ∙ h
stays_open is_open s s' x (done fd) (shut, was_opened) h = was_opened x ∙ ground arith

module _ {F : Type 0} (C : Type 0) {S : Type 0} (f : F64 F) {sys : Sys S}
    (t : TracksDescriptors sys) (register : S → (fd : ℕ) → S × Io (Unit {0}))
    (registers : (s : S) (fd : ℕ) → Keeps t.is_open s (register s fd).0) (setup : Setup S)
    (opens : (s : S) (name : List ℕ) → Opens t s (setup.open_tun s name))
    (asks : (s : S) (tun : Tun) → Keeps t.is_open s (setup.mac_address s tun).0)
    (args : Cli F) where
  registered-Leaves :
      (s s' : S) (ip : Ipv4Addr) (mac : MacAddr) (tun : Tun) (ret : Io (Unit {0}))
      → Holds t s s' tun
      → Leaves t.is_open s (registered {C = C} f sys register setup args s' ip mac tun ret)
  unfolding registered
  registered-Leaves s s' ip mac tun (failed e) held = closed_tun t s s' tun held
  registered-Leaves s s' ip mac tun (done u) (shut, was_opened) =
      let path : List ℕ = codes "capture.pcap" in
      (
        shut,
        stays_open t.is_open s' (sys.open_path s' path).0 tun.file (sys.open_path s' path).1
            (t.opens s' path) (was_opened tun.file ∙ ground arith),
      )

  unblocked-Leaves :
      (s s' : S) (ip : Ipv4Addr) (tun : Tun) (set : Result (Unit {0}))
      → Holds t s s' tun
      → Leaves t.is_open s (unblocked {C = C} f sys register setup args s' ip tun set)
  unfolding unblocked
  unblocked-Leaves s s' ip tun (err e) held = closed_tun t s s' tun held
  unblocked-Leaves s s' ip tun (ok u) held =
      let (s1, mac) = setup.mac_address s' tun in
      let (s2, ret) = register s1 tun.file in
      registered-Leaves s s2 ip _ tun ret (
        still-Holds t s s1 s2 tun (still-Holds t s s' s1 tun held (asks s' tun))
          (registers s1 tun.file))

  opened-Leaves :
      (s s' : S) (ip : Ipv4Addr) (r : Result Tun)
      → Opens t s (s', r)
      → Leaves t.is_open s (opened {C = C} f sys register setup args s' ip r)
  unfolding opened
  opened-Leaves s s' ip (err e) kept = kept
  opened-Leaves s s' ip (ok tun) held =
      let (s1, set) = set_nonblocking sys setup.o_nonblock s' tun in
      unblocked-Leaves s s1 ip tun set
        (still-Holds t s s' s1 tun held (set_nonblocking-Keeps t setup.o_nonblock s' tun))

  with_ip-Leaves :
      (s : S) (ip : Result Ipv4Addr)
      → Leaves t.is_open s (with_ip {C = C} f sys register setup args s ip)
  unfolding with_ip
  with_ip-Leaves s (err e) = λ x. refl
  with_ip-Leaves s (ok ip) =
      let (s', tun) = setup.open_tun s setup.tun_name in
      opened-Leaves s s' ip tun (opens s setup.tun_name)

  start-Leaves : (s : S) → Leaves t.is_open s (start {C = C} f sys register setup args s)
  unfolding start
  start-Leaves s = with_ip-Leaves s (parse_ip args.bind_ip)

-- On Linux and on macOS, where registering with the runtime opens and closes no descriptor: when the
-- start succeeds, its device was not open before and is open; when it fails, whatever the step, just the
-- descriptors are open that were before.
pub startup-Leaves :
    {F : Type 0} (C : Type 0) {S : Type 0} (f : F64 F) {sys : Sys S} (t : TracksDescriptors sys)
    (register : S → (fd : ℕ) → S × Io (Unit {0})) (args : Cli F) (s : S)
    → ((s' : S) (fd : ℕ) → Keeps t.is_open s' (register s' fd).0)
    → Leaves t.is_open s (start {C = C} f sys register (linux_setup sys) args s)
      × Leaves t.is_open s (start {C = C} f sys register (macos_setup sys) args s)
unfolding linux_setup macos_setup magnus_tcp.Tun.Macos.mac_address
startup-Leaves C f {sys} t register args s registers = (
  start-Leaves C f t register registers (linux_setup sys) (linux-Opens t) (mac_address-Keeps t) args
      s,
  start-Leaves C f t register registers (macos_setup sys) (macos-Opens t) (λ s' tun x. refl) args s,
)
