-- ===== src/Pcap.antt =====
-- The capture file of magnum-tcp/src/pcap.rs, as the bytes that the writer is given.
use magnus_tcp.Base.{ℕ, ◌+◌, ◌*◌, ◌/◌, ◌%◌, List, [], ◌∷◌, ◌++◌, length, u32_mod}
pub mod Laws

abbrev pub linktype_ethernet : ℕ
linktype_ethernet = 1

abbrev pub linktype_ipv4 : ℕ
linktype_ipv4 = 228

-- `x.to_le_bytes()` of a `u16`, and of a `u32`, in front of other bytes.
unfoldable pub le16 : ℕ → List ℕ → List ℕ
le16 x rest = x % 256 ∷ x / 256 % 256 ∷ rest

unfoldable pub le32 : ℕ → List ℕ → List ℕ
le32 x rest = x % 256 ∷ x / 256 % 256 ∷ x / 65536 % 256 ∷ x / 16777216 % 256 ∷ rest

-- The bytes of a new file.
unfoldable pub new : ℕ → List ℕ
new linktype = le32 0xa1b2_c3d4 (le16 2 (le16 4 (le32 0 (le32 0 (le32 65535 (le32 linktype []))))))

-- The file after a packet at `now`, in microseconds since the epoch.
unfoldable pub write_packet : List ℕ → ℕ → List ℕ → List ℕ
write_packet file now packet =
    let len = length packet % u32_mod in
    file ++ le32 (now / 1_000_000 % u32_mod) (le32 (now % 1_000_000) (le32 len (le32 len packet)))
