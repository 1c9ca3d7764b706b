-- ===== src/Pcap/Laws.antt =====
-- The capture file of magnum-tcp/src/pcap.rs, read back by a reader of its format.
use magnus_tcp.Base.{
  ℕ, ◌+◌, ◌*◌, ◌/◌, ◌%◌, ◌<◌, ◌≡◌, refl, sym, ◌∙◌, List, [], ◌∷◌, ◌++◌, ltb, if◌then◌else◌, length,
  take, drop, get_or, arith, u32_mod, All, append_assoc, take-length_append, drop-length_append,
  zero, suc, append-nil, Option, none, some, leb, ◌==◌, ◌&&◌,
}
use magnus_tcp.Pcap.{le16, le32, new, write_packet}

-- A packet and the microsecond at which it was captured.
pub record Capture : Type 0 where
  pub at : ℕ
  pub packet : List ℕ

abbrev pub Fits : Capture → Type 0
Fits c = (c.at < u32_mod * 1_000_000) × (length c.packet < u32_mod)

-- `u32::from_le_bytes` of the four bytes at `i`.
abbrev le32_at : List ℕ → ℕ → ℕ
le32_at raw i =
    get_or raw i 0
    + get_or raw (i + 1) 0 * 256
    + get_or raw (i + 2) 0 * 65536
    + get_or raw (i + 3) 0 * 16777216

-- A reader of the records that follow the file's header: for each, sixteen bytes and then as many as
-- the third field says. It stops at the end of the file.
unfoldable pub read_records : (fuel : ℕ) → List ℕ → List Capture
read_records zero raw = []
read_records (suc fuel) raw =
    let n = le32_at raw 8 in
    let body = drop 16 raw in
    let rest = read_records fuel (drop n body) in
    if ltb (length raw) 16
    then []
    else record { at = le32_at raw 0 * 1_000_000 + le32_at raw 4; packet = take n body } ∷ rest

-- A reader of the whole file: the number at its front says the order of its bytes, then come the
-- version, 2.4, eight bytes that are not looked at, and a bound on the packets, which cuts none that fits
-- IPv4. It returns the link type and the packets.
unfoldable pub read_capture : (fuel : ℕ) → List ℕ → Option (ℕ × List Capture)
read_capture fuel raw =
    if le32_at raw 0 == 0xa1b2_c3d4
      && (le32_at raw 4 == 2 + 4 * 65536 && (leb 65535 (le32_at raw 16) && leb 24 (length raw)))
    then some (le32_at raw 20, read_records fuel (drop 24 raw))
    else none

-- The records of the packets, in order.
unfoldable pub write_all : List ℕ → List Capture → List ℕ
write_all file [] = file
write_all file (c ∷ cs) = write_all (write_packet file c.at c.packet) cs

-- The bytes that `write_packet` adds.
abbrev record_bytes : Capture → List ℕ
record_bytes c = write_packet [] c.at c.packet

unfoldable all_bytes : List Capture → List ℕ
all_bytes [] = []
all_bytes (c ∷ cs) = record_bytes c ++ all_bytes cs

write_all-eq : (file : List ℕ) (cs : List Capture) → write_all file cs ≡ file ++ all_bytes cs
unfolding write_all all_bytes write_packet
write_all-eq file [] = sym (append-nil file)
write_all-eq file (c ∷ cs) =
    write_all-eq (write_packet file c.at c.packet) cs
    ∙ append_assoc file (record_bytes c) (all_bytes cs)

le32_value :
    (x : ℕ)
    → x < u32_mod
    → x % 256 + x / 256 % 256 * 256 + x / 65536 % 256 * 65536 + x / 16777216 % 256 * 16777216 ≡ x
le32_value x h = omega arith

read_records-all_bytes :
    (fuel : ℕ) (cs : List Capture)
    → length cs < fuel
    → All Fits cs
    → read_records fuel (all_bytes cs) ≡ cs
unfolding read_records all_bytes write_packet le32
read_records-all_bytes zero cs h v = absurd (omega arith)
read_records-all_bytes (suc fuel) [] h v = refl
read_records-all_bytes (suc fuel) (c ∷ cs) h (v, vs) =
    let n : length c.packet % u32_mod ≡ length c.packet = omega (arith, v) in
    let s : c.at / 1_000_000 % u32_mod ≡ c.at / 1_000_000 = omega (arith, v) in
    rw
      (
        s,
        n,
        le32_value (length c.packet) (omega (arith, v)),
        le32_value (c.at / 1_000_000) (omega (arith, v)),
        le32_value (c.at % 1_000_000) (omega arith),
        take-length_append c.packet (all_bytes cs),
        drop-length_append c.packet (all_bytes cs),
        read_records-all_bytes fuel cs (omega arith) vs,
      )
      (ground arith)

-- A file that is started and given packets is read back as its link type and those packets with their
-- times, in order, if the link type and each time and length fit the format's 32 bits.
pub read_capture-write_all :
    (linktype : ℕ) (cs : List Capture)
    → linktype < u32_mod
    → All Fits cs
    → read_capture (suc (length cs)) (write_all (new linktype) cs) ≡ some (linktype, cs)
unfolding read_capture new le16 le32
read_capture-write_all linktype cs h v =
    rw
      (
        write_all-eq (new linktype) cs,
        le32_value linktype h,
        read_records-all_bytes (suc (length cs)) cs (omega arith) v,
      )
      (ground arith)
