-- ===== src/Dispatch/Laws.antt =====
-- The demultiplexers of magnum-tcp/src/tcp/mod.rs keep connections apart.
use magnus_tcp.Base.{
  ℕ, ◌≡◌, refl, sym, ap, ◌∙◌, true, false, Option, none, some, ◌&&◌, if◌then◌else◌, arith, ◌⊎◌, inl,
  inr, Option-cases, Bool-cases,
}
use mathlib.Core.Option
use magnus_tcp.Float.{F64}
use magnus_tcp.Net.{Ipv4Addr, MacAddr}
use magnus_tcp.Tcb.{Hasher}
use magnus_tcp.Header.{TcpSegment}
use magnus_tcp.Connection.{Connection}
use magnus_tcp.Connection.Handlers.{process_segment}
use magnus_tcp.Connection.Exchange.{sent}
use magnus_tcp.Dispatch.{
  FourTuple, same_tuple, insert, remove, tuple_of, opens, contains_key, listening, OutboundPacket,
  Stack, process_at, process, Channels, AsyncDispatch, Spawned, forward, dispatch,
}

same_tuple_refl : (k : FourTuple) → same_tuple k k ≡ true
unfolding same_tuple
same_tuple_refl k = ground arith

module _ {ℓ} {V : Type ℓ} (m : FourTuple → Option V) (key : FourTuple) where
  pub insert_same : (v : V) → insert m key v key ≡ some v
  unfolding insert
  insert_same v = rw (same_tuple_refl key)

  remove_same : remove m key key ≡ none
  unfolding remove
  remove_same = rw (same_tuple_refl key)

  insert_other : (v : V) (k : FourTuple) → same_tuple key k ≡ false → insert m key v k ≡ m k
  unfolding insert
  insert_other v k h = rw h

  remove_other : (k : FourTuple) → same_tuple key k ≡ false → remove m key k ≡ m k
  unfolding remove
  remove_other k h = rw h

-- The connection that the stack gives a segment to, if it gives it to any.
unfoldable pub addressee :
    {F : Type 0}
    → F64 F
    → Hasher
    → ℕ
    → Stack F
    → Ipv4Addr
    → Ipv4Addr
    → TcpSegment
    → Option (Connection F)
addressee f hash nanos s remote_ip local_ip seg =
    elim (s.connections (tuple_of remote_ip local_ip seg)) [
      | some conn ↦ some conn
      | none ↦
          if opens seg && contains_key (s.listeners seg.header.dst_port)
          then some (listening f hash nanos remote_ip local_ip seg)
          else none
    ]

module _ {F : Type 0} (f : F64 F) (s : Stack F) (now : ℕ) (remote_ip local_ip : Ipv4Addr)
    (seg : TcpSegment) (conn : Connection F) where
  process_at_own :
      ((process_at f s now remote_ip local_ip seg conn).0.connections
          (tuple_of remote_ip local_ip seg)
        ≡ some (process_segment f conn seg now).0)
      × (Option.map (λ p. p.tcp_bytes) (process_at f s now remote_ip local_ip seg conn).1
          ≡ sent (process_segment f conn seg now).1)
  unfolding process_at
  process_at_own =
      let own =
        insert_same s.connections (tuple_of remote_ip local_ip seg)
          (process_segment f conn seg now).0 in
      ground (arith, own)

  process_at_other :
      (key : FourTuple)
      → same_tuple (tuple_of remote_ip local_ip seg) key ≡ false
      → (process_at f s now remote_ip local_ip seg conn).0.connections key ≡ s.connections key
  unfolding process_at
  process_at_other key h =
      let other =
        insert_other s.connections (tuple_of remote_ip local_ip seg)
          (process_segment f conn seg now).0 key h in
      ground (arith, other)

module _ {F : Type 0} (f : F64 F) (hash : Hasher) (nanos : ℕ) (s : Stack F) (now : ℕ)
    (remote_ip local_ip : Ipv4Addr) (seg : TcpSegment) where
  abbrev found : Option (Connection F)
  found = addressee f hash nanos s remote_ip local_ip seg

  abbrev processed : Stack F × Option OutboundPacket
  processed = process f hash nanos s now remote_ip local_ip seg

  process_nobody : found ≡ none → processed ≡ (s, none)
  unfolding process addressee
  process_nobody h = ground arith

  process_found :
      (conn : Connection F)
      → found ≡ some conn
      → processed ≡ process_at f s now remote_ip local_ip seg conn
  unfolding process addressee
  process_found conn h = ground arith

-- A segment is for the connection of its own four addresses and ports, or, if it opens one and its
-- port is listened on, for a fresh listening connection. That connection takes the segment and is
-- kept under that key, and what it answers is what is sent; without such a connection nothing is
-- sent and nothing is kept.
pub process_lem :
    {F : Type 0} (f : F64 F) (hash : Hasher) (nanos : ℕ) (s : Stack F) (now : ℕ)
    (remote_ip local_ip : Ipv4Addr) (seg : TcpSegment)
    → let (s', packet) = process f hash nanos s now remote_ip local_ip seg in
      let key = tuple_of remote_ip local_ip seg in
      ((addressee f hash nanos s remote_ip local_ip seg ≡ none) × (s' ≡ s) × (packet ≡ none))
      ⊎ ((conn : Connection F) × (addressee f hash nanos s remote_ip local_ip seg ≡ some conn)
          × (s'.connections key ≡ some (process_segment f conn seg now).0)
          × (Option.map (λ p. p.tcp_bytes) packet ≡ sent (process_segment f conn seg now).1))
process_lem f hash nanos s now remote_ip local_ip seg =
    elim (Option-cases (addressee f hash nanos s remote_ip local_ip seg)) [
      | inl e ↦
          rw (process_nobody f hash nanos s now remote_ip local_ip seg e) (inl (e, refl, refl))
      | inr (conn, e) ↦ rw (process_found f hash nanos s now remote_ip local_ip seg conn e) (
          let (kept, answered) = process_at_own f s now remote_ip local_ip seg conn in
          inr (conn, e, kept, answered))
    ]

-- `process` of a segment changes no connection but that of the segment's own four addresses and
-- ports.
pub process_other :
    {F : Type 0} (f : F64 F) (hash : Hasher) (nanos : ℕ) (s : Stack F) (now : ℕ)
    (remote_ip local_ip : Ipv4Addr) (seg : TcpSegment) (key : FourTuple)
    → same_tuple (tuple_of remote_ip local_ip seg) key ≡ false
    → (process f hash nanos s now remote_ip local_ip seg).0.connections key ≡ s.connections key
process_other f hash nanos s now remote_ip local_ip seg key h =
    elim (Option-cases (addressee f hash nanos s remote_ip local_ip seg)) [
      | inl e ↦ rw (process_nobody f hash nanos s now remote_ip local_ip seg e)
      | inr (conn, e) ↦
          rw (process_found f hash nanos s now remote_ip local_ip seg conn e)
            (process_at_other f s now remote_ip local_ip seg conn key h)
    ]

module _ {C F : Type 0} (f : F64 F) (hash : Hasher) (nanos : ℕ) (ch : Channels C)
    (d : AsyncDispatch C) (remote_ip local_ip : Ipv4Addr) (ether_src ether_dst : MacAddr)
    (seg : TcpSegment) where
  abbrev dispatched : AsyncDispatch C × Option (Spawned F)
  dispatched = dispatch f hash nanos ch d remote_ip local_ip ether_src ether_dst seg

  pub dispatch_to :
      (tx : C)
      → d.channels (tuple_of remote_ip local_ip seg) ≡ some tx
      → dispatched ≡ (forward ch d (tuple_of remote_ip local_ip seg) tx seg, none)
  unfolding dispatch
  dispatch_to tx e = ground arith

  pub dispatch_new :
      d.channels (tuple_of remote_ip local_ip seg) ≡ none
      → (opens seg && d.listeners seg.header.dst_port) ≡ true
      → dispatched ≡ (
        record d { channels = insert d.channels (tuple_of remote_ip local_ip seg) (ch.channel 64) },
        some (record {
          key = tuple_of remote_ip local_ip seg;
          task = record {
            conn = listening f hash nanos remote_ip local_ip seg;
            ether_src = ether_src;
            ether_dst = ether_dst;
            close_initiated = false;
          };
        }),
      )
  unfolding dispatch
  dispatch_new e h = ground arith

  pub dispatch_drop :
      d.channels (tuple_of remote_ip local_ip seg) ≡ none
      → (opens seg && d.listeners seg.header.dst_port) ≡ false
      → dispatched ≡ (d, none)
  unfolding dispatch
  dispatch_drop e h = ground arith

  pub forward_own :
      (tx : C)
      → (forward ch d (tuple_of remote_ip local_ip seg) tx seg).channels
          (tuple_of remote_ip local_ip seg)
        ≡ ch.try_send tx seg
  unfolding forward
  forward_own tx =
      let key = tuple_of remote_ip local_ip seg in
      elim (Option-cases (ch.try_send tx seg)) [
        | inl e ↦ ap (λ o. (kept_or_not o).channels key) e ∙ remove_same d.channels key ∙ sym e
        | inr (tx', e) ↦
            ap (λ o. (kept_or_not o).channels key) e ∙ insert_same d.channels key tx' ∙ sym e
      ]
    where
      kept_or_not : Option C → AsyncDispatch C
      kept_or_not o = elim o [
        | none ↦ record d { channels = remove d.channels (tuple_of remote_ip local_ip seg) }
        | some tx' ↦ record d { channels = insert d.channels (tuple_of remote_ip local_ip seg) tx' }
      ]

  forward_other :
      (tx : C) (key : FourTuple)
      → same_tuple (tuple_of remote_ip local_ip seg) key ≡ false
      → (forward ch d (tuple_of remote_ip local_ip seg) tx seg).channels key ≡ d.channels key
  unfolding forward
  forward_other tx key h =
      let gone = remove_other d.channels (tuple_of remote_ip local_ip seg) key h in
      elim (Option-cases (ch.try_send tx seg)) [
        | inl e ↦ ground (arith, gone)
        | inr (tx', e) ↦
            ground (arith, insert_other d.channels (tuple_of remote_ip local_ip seg) tx' key h)
      ]

  -- `dispatch` of a segment changes no channel but that of the segment's own four addresses and
  -- ports.
  pub dispatch_other :
      (key : FourTuple)
      → same_tuple (tuple_of remote_ip local_ip seg) key ≡ false
      → (dispatch {F = F} f hash nanos ch d remote_ip local_ip ether_src ether_dst seg).0.channels
          key
        ≡ d.channels key
  dispatch_other key h = elim (Option-cases (d.channels (tuple_of remote_ip local_ip seg))) [
    | inr (tx, e) ↦ rw (dispatch_to tx e) (forward_other tx key h)
    | inl e ↦ elim (Bool-cases (opens seg && d.listeners seg.header.dst_port)) [
      | inl b ↦ rw (dispatch_new e b) (insert_other d.channels _ (ch.channel 64) key h)
      | inr b ↦ rw (dispatch_drop e b)
    ]
  ]
