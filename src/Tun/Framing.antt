-- ===== src/Tun/Framing.antt =====
-- The header of the utun device of magnum-tcp/src/tun.rs, in front of every packet.
use magnus_tcp.Base.{ℕ, ◌+◌, ◌-◌, ◌≡◌, refl, ap, List, [], ◌∷◌, length, arith}
use magnus_tcp.Tun.{done, Sys, Tun}
use magnus_tcp.Tun.Macos.{strip_header, try_recv_nb, write_frame_nb}

strip_header-packet : (buf : List ℕ) → strip_header (0 ∷ 0 ∷ 0 ∷ 2 ∷ buf) ≡ buf
unfolding strip_header
strip_header-packet [] = refl
strip_header-packet (b ∷ buf) = ground arith

-- Where the system hands back, at the next read of a device, the bytes of the last write to it, and
-- took all of them, `write_frame_nb` reports the packet's length and `try_recv_nb` returns the packet.
pub try_recv_nb-write_frame_nb :
    {S : Type 0} (sys : Sys S) (s : S) (tun : Tun) (buf : List ℕ) (size : ℕ)
    → (sys.write s tun.file (0 ∷ 0 ∷ 0 ∷ 2 ∷ buf)).1 ≡ done (length buf + 4)
    → (sys.read (sys.write s tun.file (0 ∷ 0 ∷ 0 ∷ 2 ∷ buf)).0 tun.file size).1
      ≡ done (0 ∷ 0 ∷ 0 ∷ 2 ∷ buf)
    → let (s', count) = write_frame_nb sys s tun buf in
      (count ≡ done (length buf)) × ((try_recv_nb sys s' tun size).1 ≡ done buf)
unfolding try_recv_nb write_frame_nb
try_recv_nb-write_frame_nb sys s tun buf size took back = (
  rw took (ap done (let e : length buf + 4 - 4 ≡ length buf = omega arith in e)),
  rw back (ap done (strip_header-packet buf)),
)
