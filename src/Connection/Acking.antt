-- ===== src/Connection/Acking.antt =====
-- What an acknowledgement does to an established connection of magnum-tcp/src/tcp/connection.rs.
use magnus_tcp.Base.{
  ℕ, ◌-◌, ◌≤◌, ◌≡◌, refl, sym, ◌∙◌, true, none, [], arith, IsU32, drop, wrapping_sub, Bool-cases,
  inl, inr,
}
use magnus_tcp.Float.{F64}
use magnus_tcp.Tcb.{ack_acceptable, seq_lt}
use magnus_tcp.Tcb.Seq.{ack_acceptable_iff}
use magnus_tcp.Header.{TcpSegment}
use magnus_tcp.Retransmit.{is_nil}
use magnus_tcp.SendBuffer.Stream.{contents, inflight, acknowledge_lem}
use magnus_tcp.Connection.{Connection, ack_flags}
use magnus_tcp.Connection.Steps.{silence}
use magnus_tcp.Connection.Established.{
  grown_cwnd, take_ack, new_ack, dup_ack, established_ack, receive, established_rest,
  handle_established,
}
use magnus_tcp.Connection.Sending.{IsSynced}

-- An acceptable acknowledgement covers only bytes that were sent.
acked_in :
    {F : Type 0} (c : Connection F) (ack : ℕ)
    → IsSynced c
    → IsU32 ack
    → ack_acceptable c.tcb.snd.una ack c.tcb.snd.nxt ≡ true
    → wrapping_sub ack c.send_buf.una ≤ inflight c.send_buf
acked_in c ack s u h =
    let v = s.valid in
    ((ack_acceptable_iff c.send_buf.una ack c.send_buf.nxt v.una_u32 u v.nxt_u32 (omega arith)).0
      (rw (s.una_same, s.nxt_same) at h)).1

-- The connection has taken an acknowledgement of the first bytes outstanding.
pub record HasTaken {F : Type 0} (c c' : Connection F) (ack : ℕ) : Type 0 where
  pub removed : contents c'.send_buf ≡ drop (wrapping_sub ack c.send_buf.una) (contents c.send_buf)
  pub fewer : inflight c'.send_buf ≡ inflight c.send_buf - wrapping_sub ack c.send_buf.una
  pub una_is : c'.tcb.snd.una ≡ ack
  pub synced : IsSynced c'

module _ {F : Type 0} (f : F64 F) (c : Connection F) (s : IsSynced c) where
  take_ack-HasTaken :
      (seg : TcpSegment) (now : ℕ)
      → IsU32 seg.header.ack_num
      → ack_acceptable c.tcb.snd.una seg.header.ack_num c.tcb.snd.nxt ≡ true
      → HasTaken c (take_ack f c seg now) seg.header.ack_num
  unfolding take_ack
  take_ack-HasTaken seg now u h =
      let ack = seg.header.ack_num in
      let (removed, una, nxt, fewer, valid) =
        acknowledge_lem ack s.valid u (acked_in c ack s u h) in
      record {
        removed = removed;
        fewer = fewer;
        una_is = refl;
        synced = record { valid = valid; una_same = sym una; nxt_same = s.nxt_same ∙ sym nxt };
      }

  pub new_ack-HasTaken :
      (seg : TcpSegment) (now : ℕ)
      → IsU32 seg.header.ack_num
      → ack_acceptable c.tcb.snd.una seg.header.ack_num c.tcb.snd.nxt ≡ true
      → HasTaken c (new_ack f c seg now) seg.header.ack_num
  unfolding new_ack
  new_ack-HasTaken seg now u h =
      let t = take_ack-HasTaken seg now u h in
      record {
        removed = t.removed;
        fewer = t.fewer;
        una_is = refl;
        synced = record {
          valid = t.synced.valid;
          una_same = t.synced.una_same;
          nxt_same = t.synced.nxt_same;
        };
      }

  dup_ack-IsSynced : IsSynced (dup_ack c).0
  unfolding dup_ack
  dup_ack-IsSynced = ground arith

  established_ack-IsSynced :
      (seg : TcpSegment) (now : ℕ)
      → IsU32 seg.header.ack_num
      → IsSynced (established_ack f c seg now).0
  unfolding established_ack
  established_ack-IsSynced seg now u =
      elim (Bool-cases (ack_acceptable c.tcb.snd.una seg.header.ack_num c.tcb.snd.nxt)) [
        | inl h ↦ ground (arith, new_ack-HasTaken seg now u h)
        | inr h ↦ ground (arith, dup_ack-IsSynced)
      ]

established_rest-IsSynced :
    {F : Type 0} (c : Connection F) (seg : TcpSegment)
    → IsSynced c
    → IsSynced (established_rest c seg).0
unfolding established_rest receive
established_rest-IsSynced c seg s = ground arith

-- If the control block and the send buffer of a connection agree, they agree after
-- `handle_established` took a segment, whatever the segment, as long as its acknowledgement number
-- fits 32 bits.
pub handle_established-IsSynced :
    {F : Type 0} (f : F64 F) (c : Connection F) (seg : TcpSegment) (now : ℕ)
    → IsSynced c
    → IsU32 seg.header.ack_num
    → IsSynced (handle_established f c seg now).0
unfolding handle_established
handle_established-IsSynced f c seg now s u =
    let acked = established_ack-IsSynced f c s seg now u in
    ground (arith, acked, established_rest-IsSynced (established_ack f c seg now).0 seg acked)

-- What `handle_established` makes of a bare acceptable acknowledgement.
pub bare_ack :
    {F : Type 0} (f : F64 F) (c : Connection F) (seg : TcpSegment) (now : ℕ)
    → seg.header.flags ≡ ack_flags
    → seg.payload ≡ []
    → ack_acceptable c.tcb.snd.una seg.header.ack_num c.tcb.snd.nxt ≡ true
    → handle_established f c seg now ≡ (new_ack f c seg now, silence)
unfolding handle_established established_ack established_rest is_nil
bare_ack f c seg now flags bare h = ground arith

-- With nothing outstanding, an acknowledgement of what was acknowledged before is no news and no
-- duplicate.
pub established_ack_no_news :
    {F : Type 0} (f : F64 F) (c : Connection F) (seg : TcpSegment) (now : ℕ)
    → c.tcb.snd.una ≡ c.tcb.snd.nxt
    → seg.header.ack_num ≡ c.tcb.snd.nxt
    → established_ack f c seg now ≡ (c, none)
unfolding established_ack ack_acceptable seq_lt
established_ack_no_news f c seg now acked old = ground arith

-- An established connection whose control block and send buffer agree, and that takes a segment
-- with the flag ACK alone, no bytes, and an acceptable acknowledgement number of 32 bits, drops
-- exactly the bytes that it covers, moves `una` to it, grows the congestion window by the rule of
-- RFC 5681, forgets the duplicates, takes the peer's window, keeps its state, and answers nothing.
pub handle_established_ack :
    {F : Type 0} (f : F64 F) (c : Connection F) (seg : TcpSegment) (now : ℕ)
    → IsSynced c
    → IsU32 seg.header.ack_num
    → seg.header.flags ≡ ack_flags
    → seg.payload ≡ []
    → ack_acceptable c.tcb.snd.una seg.header.ack_num c.tcb.snd.nxt ≡ true
    → let (c', reply) = handle_established f c seg now in
      HasTaken c c' seg.header.ack_num
      × (c'.tcb.cwnd
          ≡ grown_cwnd c.tcb.cwnd c.tcb.ssthresh (wrapping_sub seg.header.ack_num c.tcb.snd.una))
      × (c'.tcb.dup_ack_count ≡ 0)
      × (c'.tcb.snd.wnd ≡ seg.header.window)
      × (c'.tcb.state ≡ c.tcb.state)
      × (reply ≡ silence)
unfolding new_ack
handle_established_ack f c seg now s u flags bare h =
    rw (bare_ack f c seg now flags bare h)
      (new_ack-HasTaken f c s seg now u h, refl, refl, refl, refl, refl)
