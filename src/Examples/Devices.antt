-- ===== src/Examples/Devices.antt =====
-- The devices on a small operating system.
use magnus_tcp.Base.{
  ℕ, ◌+◌, ◌≤◌, ◌≡◌, refl, Bool, false, not, ◌&&◌, ◌||◌, max, List, [], ◌∷◌, length, ◌==◌,
  if◌then◌else◌, arith,
}
use magnus_tcp.Text.{codes}
use magnus_tcp.Tun.{Io, done, failed, Sys, Tun, TracksDescriptors}
use magnus_tcp.Node.Startup.{Cli, linux_setup, macos_setup, start}
use magnus_tcp.Node.Startup.Leaves.{Leaves, startup-Leaves}
use magnus_tcp.Examples.{nanos}

-- The open descriptors, and the bytes of the last write.
record Kernel : Type 0 where
  open_fds : List ℕ
  pipe : List ℕ

abbrev member : List ℕ → ℕ → Bool
member [] x = false
member (fd ∷ fds) x = (x == fd) || member fds x

abbrev fresh : List ℕ → ℕ
fresh [] = 3
fresh (fd ∷ fds) = max (fd + 1) (fresh fds)

abbrev remove : List ℕ → ℕ → List ℕ
remove [] x = []
remove (fd ∷ fds) x = if fd == x then remove fds x else fd ∷ remove fds x

fresh-above : (fds : List ℕ) (x : ℕ) → fresh fds ≤ x → member fds x ≡ false
fresh-above [] x h = refl
fresh-above (fd ∷ fds) x h = ground (arith, fresh-above fds x)

member-remove :
    (fds : List ℕ) (fd x : ℕ) → member (remove fds fd) x ≡ (member fds x && not (x == fd))
member-remove [] fd x = refl
member-remove (f ∷ fds) fd x = ground (arith, member-remove fds fd x)

abbrev add : Kernel → Kernel × Io ℕ
add k =
    (record { open_fds = fresh k.open_fds ∷ k.open_fds; pipe = k.pipe }, done (fresh k.open_fds))

-- It refuses to connect a control socket.
abbrev kernel : Sys Kernel
kernel = record {
  open_path = λ k path. add k;
  socket = λ k domain kind protocol. add k;
  ioctl_ifreq = λ k fd request req. (k, done req);
  ioctl_hw_addr = λ k fd request req. (k, done req);
  ioctl_ctl_info = λ k fd request info. (k, done info);
  connect = λ k fd addr. (k, failed 61);
  getsockopt = λ k fd level option size. (k, failed 22);
  get_flags = λ k fd. (k, done 2);
  set_flags = λ k fd flags. (k, done tt);
  read = λ k fd size. (k, done (k.pipe));
  write = λ k fd bytes. (record k { pipe = bytes }, done (length bytes));
  close = λ k fd. record { open_fds = remove (k.open_fds) fd; pipe = k.pipe };
}

kernel-TracksDescriptors : TracksDescriptors kernel
kernel-TracksDescriptors = record {
  is_open = λ k x. member k.open_fds x;
  opens = λ k path. (fresh-above k.open_fds (fresh k.open_fds) (omega arith), λ x. refl);
  gets_socket = λ k domain kind protocol.
      (fresh-above k.open_fds (fresh k.open_fds) (omega arith), λ x. refl);
  closed = λ k fd x. member-remove k.open_fds fd x;
  ifreq_keeps = λ k fd request req x. refl;
  hw_addr_keeps = λ k fd request req x. refl;
  ctl_info_keeps = λ k fd request info x. refl;
  connect_keeps = λ k fd addr x. refl;
  getsockopt_keeps = λ k fd level option size x. refl;
  get_flags_keeps = λ k fd x. refl;
  set_flags_keeps = λ k fd flags x. refl;
}

abbrev booted : Kernel
booted = record { open_fds = 4 ∷ []; pipe = [] }

abbrev utun : Tun
utun = record { file = 4; name = codes "utun5" }

abbrev args : Cli ℕ
args = record {
  port = 80 ∷ [];
  bind_ip = codes "192.168.100.2";
  chaos = 0;
  chaos_reorder = 0;
  chaos_jitter_ms = 0;
}

abbrev register : Kernel → ℕ → Kernel × Io (Unit {0})
register k fd = (k, done tt)

startup-Leaves_example :
    Leaves
      (TracksDescriptors.is_open kernel-TracksDescriptors)
      booted
      (start {C = List ℕ} nanos kernel register (linux_setup kernel) args booted)
    × Leaves
        (TracksDescriptors.is_open kernel-TracksDescriptors)
        booted
        (start {C = List ℕ} nanos kernel register (macos_setup kernel) args booted)
startup-Leaves_example =
    startup-Leaves (List ℕ) nanos kernel-TracksDescriptors register args booted (λ s fd x. refl)
