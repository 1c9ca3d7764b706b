-- ===== src/Tun/Macos.antt =====
-- The utun device of the module `macos` of magnum-tcp/src/tun.rs.
use magnus_tcp.Base.{
  ℕ, ◌+◌, ◌-◌, ◌%◌, ◌^◌, Option, none, some, List, [], ◌∷◌, ◌++◌, length, take, drop, leb, ◌==◌,
  if◌then◌else◌,
}
use magnus_tcp.Net.{MacAddr, MagnumError, Result, ok, err}
use magnus_tcp.Text.{codes, starts_with}
use magnus_tcp.Text.Utf8.{from_utf8_lossy}
use magnus_tcp.Text.Decimal.{parse_unsigned}
use magnus_tcp.Tun.{Io, done, failed, to_result, CtlInfo, SockaddrCtl, zeros, in_array, Sys, Tun}

abbrev pf_system : ℕ
pf_system = 32

-- `libc::SOCK_DGRAM`.
abbrev sock_dgram : ℕ
sock_dgram = 2

abbrev sysproto_control : ℕ
sysproto_control = 2

abbrev af_system : ℕ
af_system = 32

abbrev af_sys_control : ℕ
af_sys_control = 2

abbrev ctliocginfo : ℕ
ctliocginfo = 0xC064_4E03

abbrev utun_opt_ifname : ℕ
utun_opt_ifname = 2

abbrev ifnamsiz : ℕ
ifnamsiz = 16

-- `libc::O_NONBLOCK`.
abbrev pub o_nonblock : ℕ
o_nonblock = 4

-- The unit that the name asks for, one more than its number; 0 has the kernel choose. The sum is one of
-- 32 bits, which wraps around in a release build.
unfoldable pub unit_of : (name : List ℕ) → ℕ
unit_of name =
    if starts_with name (codes "utun")
    then elim (parse_unsigned (2 ^ 32 - 1) (drop 4 name)) [ none ↦ 0 | some n ↦ (n + 1) % 2 ^ 32 ]
    else 0

-- The bytes in front of the first 0, if there is one.
unfoldable pub position_zero : List ℕ → Option ℕ
position_zero [] = none
position_zero (b ∷ bs) =
    let later : Option ℕ = elim (position_zero bs) [ none ↦ none | some i ↦ some (i + 1) ] in
    if b == 0 then some 0 else later

abbrev header : List ℕ
header = 0 ∷ 0 ∷ 0 ∷ 2 ∷ []

-- The packet behind the header of what was read; nothing where there is no more than the header.
unfoldable pub strip_header : List ℕ → List ℕ
strip_header bytes = if leb (length bytes) 4 then [] else drop 4 bytes

abbrev pub utun_control : CtlInfo
utun_control = record { ctl_id = 0; ctl_name = in_array 96 (codes "com.apple.net.utun_control") }

-- Its `sc_len` is the size of the struct.
abbrev pub control_addr : (ctl_id unit : ℕ) → SockaddrCtl
control_addr ctl_id unit = record {
  sc_len = 32;
  sc_family = af_system;
  ss_sysaddr = af_sys_control;
  sc_id = ctl_id;
  sc_unit = unit;
  sc_reserved = zeros 5;
}

-- The name in the buffer, up to its first 0, if the call succeeded.
unfoldable pub ifname_of : Io (List ℕ × ℕ) → Option (List ℕ)
ifname_of (failed e) = none
ifname_of (done (buf, len)) =
    let end : ℕ = elim (position_zero buf) [ none ↦ len | some i ↦ i ] in
    some (from_utf8_lossy (take end buf))

module _ {S : Type 0} (sys : Sys S) where
  unfoldable pub query_ifname : S → (fd : ℕ) → S × Option (List ℕ)
  query_ifname s fd =
      let (s', ret) = sys.getsockopt s fd sysproto_control utun_opt_ifname ifnamsiz in
      (s', ifname_of ret)

  -- In each of these three, an error number is that of the call that failed, which a `close` that
  -- succeeds leaves alone.
  unfoldable pub connected : S → (fd : ℕ) → (name : List ℕ) → Io (Unit {0}) → S × Result Tun
  connected s fd name (failed e) = (sys.close s fd, err (MagnumError.tun e))
  connected s fd name (done _) =
      let (s', found) = query_ifname s fd in
      (s', ok (record { file = fd; name = elim found [ none ↦ name | some n ↦ n ] }))

  unfoldable pub found_control : S → (fd : ℕ) → (name : List ℕ) → Io CtlInfo → S × Result Tun
  found_control s fd name (failed e) = (sys.close s fd, err (MagnumError.tun e))
  found_control s fd name (done info) =
      let (s', ret) = sys.connect s fd (control_addr info.ctl_id (unit_of name)) in
      connected s' fd name ret

  unfoldable pub with_socket : S → (name : List ℕ) → Io ℕ → S × Result Tun
  with_socket s name (failed e) = (s, err (MagnumError.tun e))
  with_socket s name (done fd) =
      let (s', ret) = sys.ioctl_ctl_info s fd ctliocginfo utun_control in
      found_control s' fd name ret

  unfoldable pub open_tun : S → (name : List ℕ) → S × Result Tun
  open_tun s name =
      let (s', socket) = sys.socket s pf_system sock_dgram sysproto_control in
      with_socket s' name socket

  unfoldable pub try_recv_nb : S → Tun → (size : ℕ) → S × Io (List ℕ)
  try_recv_nb s tun size =
      let (s', n) = sys.read s tun.file size in
      (s', elim n [ failed e ↦ failed e | done bytes ↦ done (strip_header bytes) ])

  unfoldable pub recv : S → Tun → (size : ℕ) → S × Result (List ℕ)
  recv s tun size =
      let (s', n) = sys.read s tun.file size in
      (s', to_result (elim n [ failed e ↦ failed e | done bytes ↦ done (strip_header bytes) ]))

  -- `write_vectored` hands the header and the packet over as one.
  unfoldable pub write_frame_nb : S → Tun → List ℕ → S × Io ℕ
  write_frame_nb s tun buf =
      let (s', written) = sys.write s tun.file (header ++ buf) in
      (s', elim written [ failed e ↦ failed e | done n ↦ done (n - 4) ])

  unfoldable pub send : S → Tun → List ℕ → S × Result ℕ
  send s tun buf =
      let (s', written) = sys.write s tun.file (header ++ buf) in
      (s', to_result (elim written [ failed e ↦ failed e | done n ↦ done (n - 4) ]))

  unfoldable pub mac_address : S → Tun → S × Option MacAddr
  mac_address s tun = (s, none)
