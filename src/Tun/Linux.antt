-- ===== src/Tun/Linux.antt =====
-- The TAP device of the module `linux` of magnum-tcp/src/tun.rs.
use magnus_tcp.Base.{ℕ, Option, none, some, List, bit_or}
use magnus_tcp.Net.{MacAddr, mac_at, MagnumError, Result, ok, err}
use magnus_tcp.Text.{codes}
use magnus_tcp.Text.Utf8.{encode}
use magnus_tcp.Tun.{Io, done, failed, to_result, Ifreq, IfreqHwAddr, zeros, in_array, Sys, Tun}

abbrev pub tunsetiff : ℕ
tunsetiff = 0x4004_54CA

abbrev pub iff_tap : ℕ
iff_tap = 0x0002

abbrev pub iff_no_pi : ℕ
iff_no_pi = 0x1000

abbrev siocgifhwaddr : ℕ
siocgifhwaddr = 0x8927

-- `libc::AF_INET` and `libc::SOCK_DGRAM`.
abbrev af_inet : ℕ
af_inet = 2

abbrev sock_dgram : ℕ
sock_dgram = 2

-- `libc::O_NONBLOCK`.
abbrev pub o_nonblock : ℕ
o_nonblock = 0x800

unfoldable pub new_ifreq : (name : List ℕ) → (flags : ℕ) → Ifreq
new_ifreq name flags = record {
  ifr_name = in_array 16 (encode name);
  ifr_flags = flags;
  pad = zeros 22;
}

-- `IfreqHwAddr`, zeroed, with the name in it.
unfoldable pub mac_request : (name : List ℕ) → IfreqHwAddr
mac_request name = record {
  ifr_name = in_array 16 (encode name);
  sa_family = 0;
  sa_data = zeros 14;
}

-- What is made of the answer, once the socket is closed.
unfoldable pub mac_of : {S : Type 0} → S → Io IfreqHwAddr → S × Option MacAddr
mac_of s (failed e) = (s, none)
mac_of s (done req) = (s, some (mac_at req.sa_data 0))

module _ {S : Type 0} (sys : Sys S) where
  -- When the request is refused, the file is dropped, which closes it.
  unfoldable pub attached : S → (fd : ℕ) → (name : List ℕ) → Io Ifreq → S × Result Tun
  attached s fd name (failed e) = (sys.close s fd, err (MagnumError.tun e))
  attached s fd name (done req) = (s, ok (record { file = fd; name = name }))

  unfoldable pub attach : S → (name : List ℕ) → Io ℕ → S × Result Tun
  attach s name (failed e) = (s, err (MagnumError.tun e))
  attach s name (done fd) =
      let (s', ret) = sys.ioctl_ifreq s fd tunsetiff (new_ifreq name (bit_or iff_tap iff_no_pi)) in
      attached s' fd name ret

  unfoldable pub open_tun : S → (name : List ℕ) → S × Result Tun
  open_tun s name = let (s', file) = sys.open_path s (codes "/dev/net/tun") in attach s' name file

  -- `recv` and `send`.
  unfoldable pub recv : S → Tun → (size : ℕ) → S × Result (List ℕ)
  recv s tun size = let (s', n) = sys.read s tun.file size in (s', to_result n)

  unfoldable pub send : S → Tun → List ℕ → S × Result ℕ
  send s tun buf = let (s', n) = sys.write s tun.file buf in (s', to_result n)

  unfoldable pub try_recv_nb : S → Tun → (size : ℕ) → S × Io (List ℕ)
  try_recv_nb s tun size = sys.read s tun.file size

  unfoldable pub write_frame_nb : S → Tun → List ℕ → S × Io ℕ
  write_frame_nb s tun buf = sys.write s tun.file buf

  unfoldable pub ask_mac : S → (name : List ℕ) → Io ℕ → S × Option MacAddr
  ask_mac s name (failed e) = (s, none)
  ask_mac s name (done fd) =
      let (s', ret) = sys.ioctl_hw_addr s fd siocgifhwaddr (mac_request name) in
      mac_of (sys.close s' fd) ret

  unfoldable pub mac_address : S → Tun → S × Option MacAddr
  mac_address s tun =
      let (s', socket) = sys.socket s af_inet sock_dgram 0 in ask_mac s' tun.name socket
