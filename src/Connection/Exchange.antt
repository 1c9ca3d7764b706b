-- ===== src/Connection/Exchange.antt =====
-- Segments between two connections of magnum-tcp/src/tcp/connection.rs, as bytes on the wire: one
-- side builds them, the other parses them (tcp/header.rs) and processes what it parsed.
use magnus_tcp.Base.{ℕ, ◌≡◌, ap, Option, none, some, List, arith, IsU32, wrapping_add, true}
use magnus_tcp.Float.{F64}
use magnus_tcp.Net.{Ipv4Addr, Result, ok, err}
use magnus_tcp.Tcb.{ack_acceptable, seq_lt, seq_le}
use magnus_tcp.Header.{TcpSegment, SegmentBuilder, parse, build}
use magnus_tcp.Header.RoundTrip.{IsValid, segment_of, parse-build}
use magnus_tcp.Connection.{Connection}
use magnus_tcp.Connection.Steps.{Reply}
use magnus_tcp.Connection.Handlers.{process_segment}

-- An error is logged and sends nothing.
abbrev pub sent : Reply → Option (List ℕ)
sent (ok reply) = reply
sent (err e) = none

-- What the connection does with bytes that were parsed.
unfoldable pub take_parsed :
    {F : Type 0} → F64 F → Connection F → ℕ → Result TcpSegment → Connection F × Option (List ℕ)
take_parsed f c now (err e) = (c, none)
take_parsed f c now (ok seg) = let (c', reply) = process_segment f c seg now in (c', sent reply)

-- The connection takes the bytes that came from `src` for `dst`.
unfoldable pub deliver :
    {F : Type 0}
    → F64 F
    → Connection F
    → List ℕ
    → Ipv4Addr
    → Ipv4Addr
    → ℕ
    → Connection F × Option (List ℕ)
deliver f c raw src dst now = take_parsed f c now (parse raw src dst)

-- The connection takes what the other side sent, if it sent anything.
abbrev pub relay :
    {F : Type 0}
    → F64 F
    → Connection F
    → Option (List ℕ)
    → Ipv4Addr
    → Ipv4Addr
    → ℕ
    → Connection F × Option (List ℕ)
relay f c none src dst now = (c, none)
relay f c (some raw) src dst now = deliver f c raw src dst now

-- What a built segment does is what its fields do.
pub deliver-build :
    {F : Type 0} (f : F64 F) (c : Connection F) (b : SegmentBuilder) (now : ℕ)
    → IsValid b
    → deliver f c (build b) b.src_ip b.dst_ip now
      ≡ (let (c', reply) = process_segment f c (segment_of b) now in (c', sent reply))
unfolding deliver take_parsed
deliver-build f c b now v = ap (take_parsed f c now) (parse-build b v)

pub ack_acceptable_next :
    (x : ℕ) → IsU32 x → ack_acceptable x (wrapping_add x 1) (wrapping_add x 1) ≡ true
unfolding ack_acceptable seq_lt seq_le
ack_acceptable_next x h = ground arith
