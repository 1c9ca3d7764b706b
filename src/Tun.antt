-- ===== src/Tun.antt =====
-- The system calls that magnum-tcp/src/tun.rs makes, over a state of the operating system that is not
-- known, and what its devices need of them.
use magnus_tcp.Base.{
  ℕ, zero, suc, ◌-◌, ◌≡◌, Bool, true, false, not, ◌&&◌, ◌||◌, List, [], ◌∷◌, ◌++◌, take, length,
  ◌==◌, bit_or,
}
use magnus_tcp.Net.{Result, ok, err, MagnumError}
pub mod Linux
pub mod Macos
pub mod Descriptors
pub mod Framing

-- `std::io::Result`: an error is its number.
pub data Io (A : Type 0) : Type 0 where
  done : A → Io A
  failed : (os_error : ℕ) → Io A

-- What `?` and `MagnumError::Tun(..)` make of it.
abbrev pub to_result : {A : Type 0} → Io A → Result A
to_result (done a) = ok a
to_result (failed e) = err (MagnumError.tun e)

-- `Ifreq` and `IfreqHwAddr` of the module `linux`, `CtlInfo` and `SockaddrCtl` of the module `macos`.
pub record Ifreq : Type 0 where
  pub ifr_name : List ℕ
  pub ifr_flags : ℕ
  pub pad : List ℕ

pub record IfreqHwAddr : Type 0 where
  pub ifr_name : List ℕ
  pub sa_family : ℕ
  pub sa_data : List ℕ

pub record CtlInfo : Type 0 where
  pub ctl_id : ℕ
  pub ctl_name : List ℕ

pub record SockaddrCtl : Type 0 where
  pub sc_len : ℕ
  pub sc_family : ℕ
  pub ss_sysaddr : ℕ
  pub sc_id : ℕ
  pub sc_unit : ℕ
  pub sc_reserved : List ℕ

-- The calls. Each may fail with an error number; `close` is not asked for its result. An `ioctl` is
-- given its request number and returns the struct as the kernel leaves it.
pub record Sys (S : Type 0) : Type 0 where
  pub open_path : S → (path : List ℕ) → S × Io ℕ
  pub socket : S → (domain kind protocol : ℕ) → S × Io ℕ
  pub ioctl_ifreq : S → (fd request : ℕ) → Ifreq → S × Io Ifreq
  pub ioctl_hw_addr : S → (fd request : ℕ) → IfreqHwAddr → S × Io IfreqHwAddr
  pub ioctl_ctl_info : S → (fd request : ℕ) → CtlInfo → S × Io CtlInfo
  pub connect : S → (fd : ℕ) → SockaddrCtl → S × Io Unit
  -- The bytes that the option leaves in a buffer of the given size, and the length that it reports.
  pub getsockopt : S → (fd level option size : ℕ) → S × Io (List ℕ × ℕ)
  pub get_flags : S → (fd : ℕ) → S × Io ℕ
  pub set_flags : S → (fd flags : ℕ) → S × Io Unit
  -- At most `size` bytes.
  pub read : S → (fd size : ℕ) → S × Io (List ℕ)
  pub write : S → (fd : ℕ) → List ℕ → S × Io ℕ
  pub close : S → (fd : ℕ) → S

-- `[0u8; n]`, and the bytes of `name` in such an array, of which the last stays 0.
abbrev pub zeros : ℕ → List ℕ
zeros zero = []
zeros (suc n) = 0 ∷ zeros n

abbrev pub in_array : ℕ → List ℕ → List ℕ
in_array size bytes = let taken = take (size - 1) bytes in taken ++ zeros (size - length taken)

-- The same descriptors are open in the second state as in the first.
abbrev pub Keeps : {S : Type 0} → (S → ℕ → Bool) → S → S → Type 0
Keeps is_open s s' = (x : ℕ) → is_open s' x ≡ is_open s x

-- A call that returns a descriptor has opened it, and it was not open; one that fails opens none.
abbrev pub Acquires : {S : Type 0} → (S → ℕ → Bool) → S → S → Io ℕ → Type 0
Acquires is_open s s' (done fd) =
    (is_open s fd ≡ false) × ((x : ℕ) → is_open s' x ≡ ((x == fd) || is_open s x))
Acquires is_open s s' (failed e) = Keeps is_open s s'

-- Which descriptors are open, as the manual pages have it: `open` and `socket` open a new one when they
-- succeed, `close` closes its own, and no other call opens or closes one.
pub record TracksDescriptors {S : Type 0} (sys : Sys S) : Type 0 where
  pub is_open : S → ℕ → Bool
  pub opens :
      (s : S) (path : List ℕ) → Acquires is_open s (sys.open_path s path).0 (sys.open_path s path).1
  pub gets_socket :
      (s : S) (domain kind protocol : ℕ)
      → Acquires is_open s
          (sys.socket s domain kind protocol).0
          (sys.socket s domain kind protocol).1
  pub closed : (s : S) (fd x : ℕ) → is_open (sys.close s fd) x ≡ (is_open s x && not (x == fd))
  pub ifreq_keeps :
      (s : S) (fd request : ℕ) (req : Ifreq) → Keeps is_open s (sys.ioctl_ifreq s fd request req).0
  pub hw_addr_keeps :
      (s : S) (fd request : ℕ) (req : IfreqHwAddr)
      → Keeps is_open s (sys.ioctl_hw_addr s fd request req).0
  pub ctl_info_keeps :
      (s : S) (fd request : ℕ) (info : CtlInfo)
      → Keeps is_open s (sys.ioctl_ctl_info s fd request info).0
  pub connect_keeps :
      (s : S) (fd : ℕ) (addr : SockaddrCtl) → Keeps is_open s (sys.connect s fd addr).0
  pub getsockopt_keeps :
      (s : S) (fd level option size : ℕ) → Keeps is_open s (sys.getsockopt s fd level option size).0
  pub get_flags_keeps : (s : S) (fd : ℕ) → Keeps is_open s (sys.get_flags s fd).0
  pub set_flags_keeps : (s : S) (fd flags : ℕ) → Keeps is_open s (sys.set_flags s fd flags).0

-- A device: its file and its name.
pub record Tun : Type 0 where
  pub file : ℕ
  pub name : List ℕ

-- `set_nonblocking`, the same in both modules, whose `O_NONBLOCK` differs.
module _ {S : Type 0} (sys : Sys S) (o_nonblock : ℕ) where
  unfoldable pub add_nonblock : S → Tun → Io ℕ → S × Result (Unit {0})
  add_nonblock s tun (failed e) = (s, err (MagnumError.tun e))
  add_nonblock s tun (done flags) =
      let (s', ret) = sys.set_flags s tun.file (bit_or flags o_nonblock) in (s', to_result ret)

  unfoldable pub set_nonblocking : S → Tun → S × Result (Unit {0})
  set_nonblocking s tun = let (s', flags) = sys.get_flags s tun.file in add_nonblock s' tun flags
