-- ===== src/Connection/Sending.antt =====
-- What a connection of magnum-tcp/src/tcp/connection.rs sends: the next bytes of its stream, within
-- the windows of the peer and of the network.
use magnus_tcp.Base.{
  ℕ, ◌+◌, ◌-◌, ◌≤◌, ◌<◌, ◌≡◌, ◌⊎◌, inl, inr, refl, sym, ap, ◌∙◌, min, none, some, List, arith,
  length, take, drop, ◌==◌, if◌then◌else◌, Bool-cases, wrapping_sub, length-take, length-drop,
}
use magnus_tcp.SendBuffer
use magnus_tcp.SendBuffer.{SendBuffer}
use magnus_tcp.SendBuffer.Stream.{
  contents, inflight, length-contents, write_lem, next_segment_lem, advance_nxt_lem,
  acknowledge_lem,
}
use magnus_tcp.SendBuffer.Stream
use magnus_tcp.Connection.{
  Connection, write_data, data_segment, data_flags, send_segment, next_segment_to_send,
}

-- The control block and the send buffer agree on what is outstanding.
pub record IsSynced {F : Type 0} (c : Connection F) : Type 0 where
  pub valid : Stream.IsValid c.send_buf
  pub una_same : c.tcb.snd.una ≡ c.send_buf.una
  pub nxt_same : c.tcb.snd.nxt ≡ c.send_buf.nxt

-- The lesser of the congestion window and the peer's.
abbrev pub allowed : {F : Type 0} → Connection F → ℕ
allowed c = min c.tcb.cwnd c.tcb.snd.wnd

-- The connection went from `c` to `c'` by sending `bytes` in a segment.
pub record HasSent {F : Type 0} (c c' : Connection F) (max_payload : ℕ) (bytes : List ℕ)
    : Type 0 where
  pub not_empty : 0 < length bytes
  pub fits_segment : length bytes ≤ max_payload
  pub next_bytes : bytes ≡ take (length bytes) (drop (inflight c.send_buf) (contents c.send_buf))
  pub outstanding : inflight c'.send_buf ≡ inflight c.send_buf + length bytes
  pub within_window : inflight c'.send_buf ≤ allowed c
  pub kept : contents c'.send_buf ≡ contents c.send_buf
  pub synced : IsSynced c'

module _ {F : Type 0} (c : Connection F) where
  -- How many bytes `next_segment_to_send` sends.
  abbrev pub to_send : ℕ → ℕ
  to_send max_payload =
      min (c.send_buf.len - inflight c.send_buf) (min max_payload (allowed c - inflight c.send_buf))

  abbrev pub next_bytes : ℕ → List ℕ
  next_bytes n = take n (drop (inflight c.send_buf) (contents c.send_buf))

module _ {F : Type 0} (c : Connection F) (s : IsSynced c) where
  pub write_data-IsSynced : (bytes : List ℕ) → IsSynced (write_data c bytes).0
  unfolding write_data
  write_data-IsSynced bytes =
      let (_, _, una, nxt, valid) = write_lem bytes s.valid in
      record { valid = valid; una_same = s.una_same ∙ sym una; nxt_same = s.nxt_same ∙ sym nxt }

  same_inflight : wrapping_sub c.tcb.snd.nxt c.tcb.snd.una ≡ inflight c.send_buf
  same_inflight = rw (s.una_same, s.nxt_same)

  pub length-next_bytes :
      (n : ℕ) → n ≤ c.send_buf.len - inflight c.send_buf → length (next_bytes c n) ≡ n
  length-next_bytes n h = omega (
    arith,
    length-take n (drop (inflight c.send_buf) (contents c.send_buf)),
    length-drop (inflight c.send_buf) (contents c.send_buf),
    length-contents c.send_buf,
  )

  pub send_segment-HasSent :
      (n max_payload now : ℕ)
      → 0 < n
      → n ≤ to_send c max_payload
      → HasSent c
          (send_segment c now (c.send_buf.nxt, next_bytes c n)).0
          max_payload
          (next_bytes c n)
  unfolding send_segment
  send_segment-HasSent n max_payload now pos h =
      let len = length-next_bytes n (omega arith) in
      let (kept, more, valid) =
        advance_nxt_lem (length (next_bytes c n)) s.valid (omega (arith, s.valid)) in
      record {
        not_empty = omega arith;
        fits_segment = omega arith;
        next_bytes = ap (λ k. next_bytes c k) (sym len);
        outstanding = more;
        within_window = omega arith;
        kept = kept;
        synced = record {
          valid = valid;
          una_same = unfold SendBuffer.advance_nxt in s.una_same;
          nxt_same = refl;
        };
      }

  pub next_segment_to_send-eq :
      (max_payload now : ℕ)
      → next_segment_to_send c max_payload now ≡ (
          if to_send c max_payload == 0
          then (c, none)
          else send_segment c now (c.send_buf.nxt, next_bytes c (to_send c max_payload)))
  unfolding next_segment_to_send
  next_segment_to_send-eq max_payload now =
      rw same_inflight (
        ground
          (arith, next_segment_lem (min max_payload (allowed c - inflight c.send_buf)) s.valid))

-- With the control block and the send buffer in agreement, `next_segment_to_send` changes nothing
-- and sends nothing if there is no unsent byte or no room in a window; else it sends one segment, of
-- the next bytes of the stream, at most `max_payload` of them, and with them no more is outstanding
-- than either window allows.
pub flow_control :
    {F : Type 0} (c : Connection F) (max_payload now : ℕ)
    → IsSynced c
    → let (c', segment) = next_segment_to_send c max_payload now in
      ((to_send c max_payload ≡ 0) × (c' ≡ c) × (segment ≡ none))
      ⊎ ((bytes : List ℕ) × HasSent c c' max_payload bytes
          × (segment ≡ some (data_segment c' c.send_buf.nxt data_flags bytes)))
flow_control c max_payload now s = elim (Bool-cases (to_send c max_payload == 0)) [
  | inl idle ↦
      rw (next_segment_to_send-eq c s max_payload now, idle) (inl (ground arith, refl, refl))
  | inr busy ↦
      rw (next_segment_to_send-eq c s max_payload now, busy)
        (inr (
          next_bytes c (to_send c max_payload),
          send_segment-HasSent c s (to_send c max_payload) max_payload now (ground arith)
              (omega arith),
          unfold send_segment in refl,
        ))
]
