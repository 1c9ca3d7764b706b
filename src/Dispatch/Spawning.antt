-- ===== src/Dispatch/Spawning.antt =====
-- The connections that `AsyncDispatch` of magnum-tcp/src/tcp/mod.rs starts.
use magnus_tcp.Base.{
  ℕ, ◌≡◌, ◌≢◌, refl, sym, ap, ◌∙◌, true, false, not, Option, none, some, ◌&&◌, arith, ◌⊎◌, inl, inr,
  [], Option-cases, Bool-cases, wrapping_add,
}
use magnus_tcp.Float.{F64}
use magnus_tcp.Net.{Ipv4Addr, MacAddr}
use magnus_tcp.Tcb.{Hasher, TcbState, new_for_listen}
use magnus_tcp.Header.{TcpSegment}
use magnus_tcp.Retransmit
use magnus_tcp.Connection
use magnus_tcp.Connection.{Connection, build_syn_ack}
use magnus_tcp.Connection.Steps.{answer}
use magnus_tcp.Connection.Opening.{handle_listen}
use magnus_tcp.Connection.Handlers.{handle_in, process_segment}
use magnus_tcp.Task.{Task}
use magnus_tcp.Dispatch.{
  FourTuple, same_tuple, tuple_of, opens, listening, Channels, AsyncDispatch, Spawned, dispatch,
}
use magnus_tcp.Dispatch.Laws.{
  insert_same, dispatch_to, dispatch_new, dispatch_drop, forward_own, dispatch_other,
}

same_tuple-eq : (a b : FourTuple) → same_tuple a b ≡ true → a ≡ b
unfolding same_tuple
same_tuple-eq a b h = ground arith

same_tuple-differs : (a b : FourTuple) → b ≢ a → same_tuple a b ≡ false
same_tuple-differs a b h = elim (Bool-cases (same_tuple a b)) [
  | inl e ↦ absurd (h (sym (same_tuple-eq a b e)))
  | inr e ↦ e
]

-- A connection that waits for the SYN of the peer that `key` names.
pub record Listens {F : Type 0} (key : FourTuple) (c : Connection F) : Type 0 where
  pub in_listen : c.tcb.state ≡ TcbState.listen
  pub local_ip : c.tcb.local_ip ≡ key.local_ip
  pub local_port : c.tcb.local_port ≡ key.local_port
  pub remote_ip : c.tcb.remote_ip ≡ key.remote_ip
  pub remote_port : c.tcb.remote_port ≡ key.remote_port
  pub no_receiver : c.recv_buf ≡ none
  pub nothing_sent : c.retransmit_queue.entries ≡ []

module _ {C F : Type 0} (f : F64 F) (hash : Hasher) (nanos : ℕ) (ch : Channels C)
    (d : AsyncDispatch C) (remote_ip local_ip : Ipv4Addr) (ether_src ether_dst : MacAddr)
    (seg : TcpSegment) where
  -- The four addresses and ports of the segment.
  abbrev pub four : FourTuple
  four = record {
    remote_ip = remote_ip;
    remote_port = seg.header.src_port;
    local_ip = local_ip;
    local_port = seg.header.dst_port;
  }

  listening-Listens : Listens four (listening f hash nanos remote_ip local_ip seg)
  unfolding listening new_for_listen Connection.new Retransmit.new
  listening-Listens = record {
    in_listen = refl;
    local_ip = refl;
    local_port = refl;
    remote_ip = refl;
    remote_port = refl;
    no_receiver = refl;
    nothing_sent = refl;
  }

  -- What becomes of the key of the segment: its channel takes the segment or is forgotten; a task starts;
  -- or nothing happens.
  abbrev pub Dispatched : AsyncDispatch C → Option (Spawned F) → Type 0
  Dispatched d' spawned =
      let flags = seg.header.flags in
      let listened = d.listeners seg.header.dst_port in
      ((tx : C) × (d.channels four ≡ some tx)
        × (d'.channels four ≡ ch.try_send tx seg)
        × (spawned ≡ none))
      ⊎ (((d.channels four ≡ none)
            × (flags.syn ≡ true)
            × (flags.ack ≡ false)
            × (listened ≡ true)
            × (d'.channels four ≡ some (ch.channel 64))
            × ((t : Task F) × (spawned ≡ some (record { key = four; task = t }))
                × Listens four t.conn))
          ⊎ ((d.channels four ≡ none)
              × ((flags.syn && (not flags.ack && listened)) ≡ false)
              × (d' ≡ d)
              × (spawned ≡ none)))

  abbrev once : AsyncDispatch C × Option (Spawned F)
  once = dispatch f hash nanos ch d remote_ip local_ip ether_src ether_dst seg

  dispatch-Dispatched : Dispatched once.0 once.1
  unfolding tuple_of
  dispatch-Dispatched = elim (Option-cases (d.channels four)) [
    | inr (tx, e) ↦
        rw (dispatch_to f hash nanos ch d remote_ip local_ip ether_src ether_dst seg tx e) (
          inl (
            tx,
            e,
            forward_own {F = F} f hash nanos ch d remote_ip local_ip ether_src ether_dst seg tx,
            refl,
          ))
    | inl e ↦ inr (elim (Bool-cases (opens seg && d.listeners seg.header.dst_port)) [
      | inl h ↦ rw (dispatch_new f hash nanos ch d remote_ip local_ip ether_src ether_dst seg e h) (
          inl (
            e,
            ground arith,
            ground arith,
            ground arith,
            insert_same d.channels four (ch.channel 64),
            (_, refl, listening-Listens),
          ))
      | inr h ↦
          rw (dispatch_drop f hash nanos ch d remote_ip local_ip ether_src ether_dst seg e h)
            (inr (e, ground arith, refl, refl))
    ])
  ]

  -- `dispatch` changes no channel but that of the segment's own addresses and ports. If there is one, no
  -- task starts, and the channel becomes what `try_send` of the segment makes of it: one that does not
  -- take the segment, full or closed, is forgotten. If there is none, a segment with SYN and without ACK
  -- to a port that is listened on starts a task, with a connection in LISTEN for these addresses and
  -- ports, and its channel stays as it was made: the SYN itself is not put in. Any other segment changes
  -- nothing.
  pub dispatch_lem :
      (other : FourTuple)
      → other ≢ four
      → let (d', spawned) = dispatch f hash nanos ch d remote_ip local_ip ether_src ether_dst seg in
        (d'.channels other ≡ d.channels other) × Dispatched d' spawned
  unfolding tuple_of
  dispatch_lem other differs = (
    dispatch_other {F = F} f hash nanos ch d remote_ip local_ip ether_src ether_dst seg other
        (same_tuple-differs four other differs),
    dispatch-Dispatched,
  )

  listening_takes_syn :
      (now : ℕ)
      → seg.header.flags.syn ≡ true
      → seg.header.flags.ack ≡ false
      → seg.header.flags.rst ≡ false
      → let (c', reply) =
          process_segment f (listening f hash nanos remote_ip local_ip seg) seg now in
        (c'.tcb.state ≡ TcbState.syn_received)
        × (c'.tcb.rcv.nxt ≡ wrapping_add seg.header.seq 1)
        × (reply ≡ answer (build_syn_ack c'))
  unfolding process_segment handle_in handle_listen listening Connection.new new_for_listen
  listening_takes_syn now syn ack rst = rw (syn, ack, rst) (refl, refl, refl)

  -- A SYN without ACK and RST, to a port that is listened on and with no channel for its addresses and
  -- ports, is dispatched twice. The first time a task starts and gets nothing; the second time no task
  -- starts and the segment is given to the channel of the first. The connection of the task, once it
  -- takes the segment, is in SYN_RECEIVED, expects the number behind the SYN and answers with a SYN-ACK.
  pub second_syn_opens :
      (now : ℕ)
      → d.channels four ≡ none
      → d.listeners seg.header.dst_port ≡ true
      → seg.header.flags.syn ≡ true
      → seg.header.flags.ack ≡ false
      → seg.header.flags.rst ≡ false
      → let once = dispatch {F = F} f hash nanos ch d remote_ip local_ip ether_src ether_dst seg in
        let twice =
          dispatch {F = F} f hash nanos ch once.0 remote_ip local_ip ether_src ether_dst seg in
        (once.0.channels four ≡ some (ch.channel 64))
        × (twice.0.channels four ≡ ch.try_send (ch.channel 64) seg)
        × (twice.1 ≡ none)
        × ((t : Task F) × (once.1 ≡ some (record { key = four; task = t }))
            × (let (c', reply) = process_segment f t.conn seg now in
                (c'.tcb.state ≡ TcbState.syn_received)
                × (c'.tcb.rcv.nxt ≡ wrapping_add seg.header.seq 1)
                × (reply ≡ answer (build_syn_ack c'))))
  unfolding tuple_of
  second_syn_opens now new listened syn ack rst =
      let first =
        dispatch_new {F = F} f hash nanos ch d remote_ip local_ip ether_src ether_dst seg new
          (ground arith) in
      let made = insert_same d.channels four (ch.channel 64) in
      rw first (
        made,
        ap (λ r. r.0.channels four)
              (dispatch_to {F = F} f hash nanos ch _ remote_ip local_ip ether_src ether_dst seg
                (ch.channel 64) made)
            ∙ forward_own {F = F} f hash nanos ch _ remote_ip local_ip ether_src ether_dst seg
                (ch.channel 64),
        ap (λ r. r.1)
            (dispatch_to {F = F} f hash nanos ch _ remote_ip local_ip ether_src ether_dst seg
              (ch.channel 64) made),
        (_, refl, listening_takes_syn now syn ack rst),
      )
