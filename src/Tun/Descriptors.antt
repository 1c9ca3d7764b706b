-- ===== src/Tun/Descriptors.antt =====
-- Which descriptors the functions of magnum-tcp/src/tun.rs leave open.
use magnus_tcp.Base.{
  ℕ, ◌≡◌, inl, inr, refl, ap, ◌∙◌, Bool, false, not, ◌&&◌, ◌||◌, List, ◌==◌, bit_or, arith,
  Bool-cases, ==_iff,
}
use magnus_tcp.Net.{Result, ok, err}
use magnus_tcp.Text.{codes}
use magnus_tcp.Tun.{
  Io, done, failed, Ifreq, IfreqHwAddr, CtlInfo, Keeps, Acquires, Sys, TracksDescriptors, Tun,
  add_nonblock, set_nonblocking,
}
use magnus_tcp.Tun.Linux
use magnus_tcp.Tun.Macos

-- A descriptor that was not open is closed: those that were open stay so, and no other is.
reclosed :
    (was now : ℕ → Bool) (fd x : ℕ)
    → was fd ≡ false
    → now x ≡ ((x == fd) || was x)
    → (now x && not (x == fd)) ≡ was x
reclosed was now fd x shut opened = elim (Bool-cases (x == fd)) [
  | inl same ↦ let e : x ≡ fd = (==_iff x fd).0 same in ground arith
  | inr other ↦ ground arith
]

mac_of_state : {S : Type 0} (s : S) (ret : Io IfreqHwAddr) → (Linux.mac_of s ret).0 ≡ s
unfolding Linux.mac_of
mac_of_state s (failed e) = refl
mac_of_state s (done req) = refl

module _ {S : Type 0} {sys : Sys S} (t : TracksDescriptors sys) where
  -- A device opens one descriptor, its file's; an error leaves none behind.
  abbrev pub Opens : S → S × Result Tun → Type 0
  Opens s (s', ok tun) = Acquires t.is_open s s' (done tun.file)
  Opens s (s', err e) = Keeps t.is_open s s'

  -- A descriptor that was opened and closed again.
  closed_again :
      (s s1 s2 : S) (fd : ℕ)
      → Acquires t.is_open s s1 (done fd)
      → Keeps t.is_open s1 s2
      → Keeps t.is_open s (sys.close s2 fd)
  closed_again s s1 s2 fd (shut, opened) kept x =
      t.closed s2 fd x ∙ reclosed (t.is_open s) (t.is_open s2) fd x shut (kept x ∙ opened x)

  ask_mac-Keeps :
      (s s1 : S) (name : List ℕ) (socket : Io ℕ)
      → Acquires t.is_open s s1 socket
      → Keeps t.is_open s (Linux.ask_mac sys s1 name socket).0
  unfolding Linux.ask_mac
  ask_mac-Keeps s s1 name (failed e) got = got
  ask_mac-Keeps s s1 name (done fd) got = λ x.
      let asked = sys.ioctl_hw_addr s1 fd 0x8927 (Linux.mac_request name) in
      ap (λ s'. t.is_open s' x) (mac_of_state (sys.close asked.0 fd) asked.1)
      ∙ closed_again s s1 asked.0 fd got
          (λ y. t.hw_addr_keeps s1 fd 0x8927 (Linux.mac_request name) y) x

  -- `mac_address` on Linux leaves open just the descriptors that were, whichever of its calls fail.
  pub mac_address-Keeps : (s : S) (tun : Tun) → Keeps t.is_open s (Linux.mac_address sys s tun).0
  unfolding Linux.mac_address
  mac_address-Keeps s tun =
      ask_mac-Keeps s (sys.socket s 2 2 0).0 tun.name (sys.socket s 2 2 0).1 (t.gets_socket s 2 2 0)

  attached-Opens :
      (s s1 s2 : S) (fd : ℕ) (name : List ℕ) (ret : Io Ifreq)
      → Acquires t.is_open s s1 (done fd)
      → Keeps t.is_open s1 s2
      → Opens s (Linux.attached sys s2 fd name ret)
  unfolding Linux.attached
  attached-Opens s s1 s2 fd name (failed e) got kept = closed_again s s1 s2 fd got kept
  attached-Opens s s1 s2 fd name (done req) (shut, opened) kept = (shut, λ x. kept x ∙ opened x)

  attach-Opens :
      (s s1 : S) (name : List ℕ) (file : Io ℕ)
      → Acquires t.is_open s s1 file
      → Opens s (Linux.attach sys s1 name file)
  unfolding Linux.attach
  attach-Opens s s1 name (failed e) got = got
  attach-Opens s s1 name (done fd) got =
      let req = Linux.new_ifreq name (bit_or Linux.iff_tap Linux.iff_no_pi) in
      let (s2, ret) = sys.ioctl_ifreq s1 fd Linux.tunsetiff req in
      attached-Opens s s1 s2 fd name ret got (λ x. t.ifreq_keeps s1 fd Linux.tunsetiff req x)

  -- On Linux, `open` opens one descriptor, that of the device it returns, which was not open, and when
  -- any of its calls fails it leaves open just the descriptors that were.
  pub linux-Opens : (s : S) (name : List ℕ) → Opens s (Linux.open_tun sys s name)
  unfolding Linux.open_tun
  linux-Opens s name =
      let path : List ℕ = codes "/dev/net/tun" in
      attach-Opens s (sys.open_path s path).0 name (sys.open_path s path).1 (t.opens s path)

  connected-Opens :
      (s s1 s3 : S) (fd : ℕ) (name : List ℕ) (ret : Io (Unit {0}))
      → Acquires t.is_open s s1 (done fd)
      → Keeps t.is_open s1 s3
      → Opens s (Macos.connected sys s3 fd name ret)
  unfolding Macos.connected Macos.query_ifname
  connected-Opens s s1 s3 fd name (failed e) got kept = closed_again s s1 s3 fd got kept
  connected-Opens s s1 s3 fd name (done u) (shut, opened) kept =
      (shut, λ x. t.getsockopt_keeps s3 fd 2 2 16 x ∙ kept x ∙ opened x)

  found_control-Opens :
      (s s1 s2 : S) (fd : ℕ) (name : List ℕ) (ret : Io CtlInfo)
      → Acquires t.is_open s s1 (done fd)
      → Keeps t.is_open s1 s2
      → Opens s (Macos.found_control sys s2 fd name ret)
  unfolding Macos.found_control
  found_control-Opens s s1 s2 fd name (failed e) got kept = closed_again s s1 s2 fd got kept
  found_control-Opens s s1 s2 fd name (done info) got kept =
      let addr = Macos.control_addr info.ctl_id (Macos.unit_of name) in
      let (s3, ret) = sys.connect s2 fd addr in
      connected-Opens s s1 s3 fd name ret got (λ x. t.connect_keeps s2 fd addr x ∙ kept x)

  with_socket-Opens :
      (s s1 : S) (name : List ℕ) (socket : Io ℕ)
      → Acquires t.is_open s s1 socket
      → Opens s (Macos.with_socket sys s1 name socket)
  unfolding Macos.with_socket
  with_socket-Opens s s1 name (failed e) got = got
  with_socket-Opens s s1 name (done fd) got =
      let (s2, ret) = sys.ioctl_ctl_info s1 fd 0xC064_4E03 Macos.utun_control in
      found_control-Opens s s1 s2 fd name ret got
        (λ x. t.ctl_info_keeps s1 fd 0xC064_4E03 Macos.utun_control x)

  -- On macOS, `open` opens one descriptor, that of the device it returns, which was not open, and when
  -- any of its calls fails it leaves open just the descriptors that were.
  pub macos-Opens : (s : S) (name : List ℕ) → Opens s (Macos.open_tun sys s name)
  unfolding Macos.open_tun
  macos-Opens s name =
      with_socket-Opens s (sys.socket s 32 2 2).0 name (sys.socket s 32 2 2).1
        (t.gets_socket s 32 2 2)

  -- Since the device was opened, with nothing else opened or closed.
  abbrev pub Holds : S → S → Tun → Type 0
  Holds s s' tun = Acquires t.is_open s s' (done tun.file)

  pub still-Holds :
      (s s1 s2 : S) (tun : Tun) → Holds s s1 tun → Keeps t.is_open s1 s2 → Holds s s2 tun
  still-Holds s s1 s2 tun (shut, opened) kept = (shut, λ x. kept x ∙ opened x)

  pub closed_tun :
      (s s' : S) (tun : Tun) → Holds s s' tun → Keeps t.is_open s (sys.close s' tun.file)
  closed_tun s s' tun (shut, opened) x =
      t.closed s' tun.file x ∙ reclosed (t.is_open s) (t.is_open s') tun.file x shut (opened x)

  add_nonblock-Keeps :
      (o_nonblock : ℕ) (s : S) (tun : Tun) (flags : Io ℕ)
      → Keeps t.is_open s (add_nonblock sys o_nonblock s tun flags).0
  unfolding add_nonblock
  add_nonblock-Keeps o_nonblock s tun (failed e) = λ x. refl
  add_nonblock-Keeps o_nonblock s tun (done flags) =
      t.set_flags_keeps s tun.file (bit_or flags o_nonblock)

  pub set_nonblocking-Keeps :
      (o_nonblock : ℕ) (s : S) (tun : Tun)
      → Keeps t.is_open s (set_nonblocking sys o_nonblock s tun).0
  unfolding set_nonblocking
  set_nonblocking-Keeps o_nonblock s tun =
      let (s', flags) = sys.get_flags s tun.file in
      λ x. add_nonblock-Keeps o_nonblock s' tun flags x ∙ t.get_flags_keeps s tun.file x
