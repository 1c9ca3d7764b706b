-- ===== src/Connection/Transfer/Busy.antt =====
-- A round between two connections of magnum-tcp/src/tcp/connection.rs in which there is something to
-- send.
use magnus_tcp.Base.{
  ℕ, ◌-◌, ◌%◌, ◌<◌, ◌≡◌, refl, sym, ap, ◌∙◌, true, false, none, some, List, [], ◌++◌, min, arith,
  u32_mod, wrapping_add, wrapping_sub, All, All-take, All-drop, length, take, drop, length-append,
  length-drop, take-take, drop-take, drop-drop, ◌==◌,
}
use magnus_tcp.Float.{F64}
use magnus_tcp.Net.{IsByte}
use magnus_tcp.Tcb.{established, ack_acceptable}
use magnus_tcp.Tcb.Seq.{ack_acceptable_iff}
use magnus_tcp.Header.{SegmentBuilder, build}
use magnus_tcp.Header.RoundTrip.{IsValid, segment_of}
use magnus_tcp.Retransmit.{mss, is_nil}
use magnus_tcp.Ring.Laws.{length-load_from}
use magnus_tcp.SendBuffer
use magnus_tcp.SendBuffer.Stream.{contents, inflight, length-contents}
use magnus_tcp.RecvBuffer
use magnus_tcp.RecvBuffer.{RecvBuffer}
use magnus_tcp.RecvBuffer.Reassembly.{IsSlice, Tracks}
use magnus_tcp.RecvBuffer.Delivery.{insert-Tracks, read-Tracks}
use magnus_tcp.RecvBuffer.Progress.{insert_in_order}
use magnus_tcp.Connection.{
  Connection, acking_builder, ack_flags, data_flags, data_segment, build_ack, current_window,
  send_segment, next_segment_to_send, read_received, received_available,
}
use magnus_tcp.Connection.Steps.{set_rcv_nxt}
use magnus_tcp.Connection.Established.{new_ack}
use magnus_tcp.Connection.Handlers.{handle_in}
use magnus_tcp.Connection.Exchange.{deliver, deliver-build, sent}
use magnus_tcp.Connection.Congestion.{new_ack-IsSteady}
use magnus_tcp.Connection.Sending.{
  HasSent, to_send, next_bytes, length-next_bytes, next_segment_to_send-eq, send_segment-HasSent,
}
use magnus_tcp.Connection.Acking.{HasTaken, new_ack-HasTaken, bare_ack}
use magnus_tcp.Connection.Fields.{
  FitsTypes, data_builder, data_builder-IsValid, acking_builder-IsValid, process_segment_in,
}
use magnus_tcp.Connection.Transfer.{InStep, round}
use magnus_tcp.Connection.Transfer.Data.{is_nil-length, deliver_data}

module _ {F : Type 0} (f : F64 F) (irs : ℕ) (stream : List ℕ) (now : ℕ) (out : List ℕ)
    (a b : Connection F) where
  abbrev pub n : ℕ
  n = to_send a mss

  abbrev pub bytes : List ℕ
  bytes = next_bytes a n

  abbrev pub a1 : Connection F
  a1 = (send_segment a now (a.send_buf.nxt, bytes)).0

  abbrev pub segment : SegmentBuilder
  segment = data_builder a1 a.send_buf.nxt data_flags bytes

  abbrev pub b1 : RecvBuffer → Connection F
  b1 rb =
      let rb' = RecvBuffer.insert rb a.send_buf.nxt bytes in
      set_rcv_nxt (record b { recv_buf = some rb' }) (RecvBuffer.next_expected rb')

  abbrev pub ack : RecvBuffer → SegmentBuilder
  ack rb = acking_builder (b1 rb) b.tcb.snd.nxt ack_flags

  abbrev pub a2 : RecvBuffer → Connection F
  a2 rb = new_ack f a1 (segment_of (ack rb)) now

  module _ (short : length stream < 0x8000_0000) (byte : All IsByte stream)
      (s : InStep irs stream out a b) (busy : 0 < n) where
    open s use {rb}

    pub length-bytes : length bytes ≡ n
    length-bytes = length-next_bytes a s.synced n (omega arith)

    pub a-HasSent : HasSent a a1 mss bytes
    a-HasSent = send_segment-HasSent a s.synced n mss now busy (omega arith)

    pub sends : next_segment_to_send a mss now ≡ (a1, some (build segment))
    unfolding send_segment data_segment
    sends =
        let pos : (n == 0) ≡ false = ground arith in
        next_segment_to_send-eq a s.synced mss now ∙ rw pos

    pub bytes_slice : bytes ≡ take n (drop (length out) stream)
    bytes_slice =
        ap (λ k. take n (drop k (contents a.send_buf))) s.idle
        ∙ ap (λ l. take n l) s.queued
        ∙ take-take n a.send_buf.len n (drop (length out) stream) (omega arith)

    bytes-IsSlice : IsSlice irs stream a.send_buf.nxt bytes
    bytes-IsSlice = record {
      off = length out;
      numbered = omega (arith, s.next, s.tracks.expects, s.drained);
      inside = omega (arith, length-bytes, s.inside);
      same = bytes_slice ∙ ap (λ k. take k (drop (length out) stream)) (sym length-bytes);
    }

    bytes-IsByte : All IsByte bytes
    bytes-IsByte =
        rw bytes_slice
          (All-take IsByte n (drop (length out) stream) (All-drop IsByte (length out) stream byte))

    pub a1-FitsTypes : FitsTypes a1
    unfolding send_segment SendBuffer.advance_nxt
    a1-FitsTypes = omega (arith, s.fields_a)

    pub segment-IsValid : IsValid segment
    segment-IsValid =
        data_builder-IsValid a1 a.send_buf.nxt data_flags bytes a1-FitsTypes s.synced.valid.nxt_u32
          (omega (arith, length-bytes)) bytes-IsByte

    -- What `b` makes of the segment.
    pub bytes_some : is_nil bytes ≡ false
    unfolding is_nil
    bytes_some = is_nil-length bytes (omega (arith, length-bytes))

    pub b_takes :
        (at : ℕ)
        → deliver f b (build segment) a.tcb.local_ip a.tcb.remote_ip at
          ≡ (b1 rb, some (build (ack rb)))
    unfolding send_segment build_ack
    b_takes at =
        deliver_data f b segment at rb segment-IsValid refl bytes_some s.a_expects s.b_state
          s.b_acked s.holds

    -- The receive buffer of `b` once it has the bytes.
    abbrev pub rb' : RecvBuffer
    rb' = RecvBuffer.insert rb a.send_buf.nxt bytes

    pub rb'-grown : (rb'.len ≡ n) × (rb'.ooo ≡ []) × (rb'.nxt ≡ wrapping_add a.send_buf.nxt n)
    rb'-grown =
        let (len, ooo, nxt) =
          insert_in_order rb a.send_buf.nxt bytes s.next s.in_order s.synced.valid.nxt_u32
            (omega (arith, length-bytes)) (omega (arith, length-bytes, s.drained)) in
        (
          omega (arith, len, length-bytes, s.drained),
          ooo,
          nxt ∙ ap (λ k. wrapping_add a.send_buf.nxt k) length-bytes,
        )

    pub rb'-Tracks : Tracks irs stream out rb'
    rb'-Tracks = insert-Tracks irs stream short a.send_buf.nxt bytes s.tracks bytes-IsSlice

    pub b1-FitsTypes : FitsTypes (b1 rb)
    unfolding RecvBuffer.next_expected
    b1-FitsTypes = omega (arith, s.fields_b, rb'-grown)

    pub ack-IsValid : IsValid (ack rb)
    ack-IsValid =
        acking_builder-IsValid (b1 rb) b.tcb.snd.nxt ack_flags b1-FitsTypes s.fields_b.nxt_u32

    -- The acknowledgement covers just the bytes that were sent.
    pub covered : wrapping_sub rb'.nxt a.send_buf.una ≡ n
    covered = omega (arith, rb'-grown, s.idle, s.synced.valid)

    pub acceptable :
        ack_acceptable a1.tcb.snd.una (RecvBuffer.next_expected rb') a1.tcb.snd.nxt ≡ true
    unfolding send_segment SendBuffer.advance_nxt RecvBuffer.next_expected
    acceptable =
        let sent_nxt : wrapping_add a.send_buf.nxt (length bytes % u32_mod) ≡ rb'.nxt =
          omega (arith, rb'-grown, length-bytes) in
        (ack_acceptable_iff a.tcb.snd.una rb'.nxt _ (omega (arith, s.synced))
            (omega (arith, rb'-grown)) (omega arith) (omega (arith, sent_nxt, covered, s.synced))).1
          (omega (arith, covered, s.synced), omega (arith, sent_nxt, covered, s.synced))

    a_takes : deliver f a1 (build (ack rb)) b.tcb.local_ip b.tcb.remote_ip now ≡ (a2 rb, none)
    unfolding handle_in
    a_takes =
        deliver-build f a1 (ack rb) now ack-IsValid
        ∙ ap (λ r. (r.0, sent r.1))
            (process_segment_in f a1 (segment_of (ack rb)) now established
                (unfold send_segment in s.a_state)
              ∙ bare_ack f a1 (segment_of (ack rb)) now refl refl acceptable)

    pub a2-HasTaken : HasTaken a1 (a2 rb) (RecvBuffer.next_expected rb')
    a2-HasTaken =
        new_ack-HasTaken f a1 a-HasSent.synced (segment_of (ack rb)) now b1-FitsTypes.expects_u32
          acceptable

    -- `b` reads all that it has.
    abbrev pub rb'' : RecvBuffer
    rb'' = (RecvBuffer.read rb' rb'.len).0

    abbrev pub got : List ℕ
    got = (RecvBuffer.read rb' rb'.len).1

    abbrev pub b2 : Connection F
    b2 = record (b1 rb) { recv_buf = some rb'' }

    pub length-got : length got ≡ n
    unfolding RecvBuffer.read
    length-got = omega (arith, length-load_from rb'.buf rb'.head 0 (min rb'.len rb'.len), rb'-grown)

    -- The send buffer of `a` has given up just the bytes that were sent.
    removed : contents (a2 rb).send_buf ≡ drop n (contents a.send_buf)
    unfolding send_segment SendBuffer.advance_nxt RecvBuffer.next_expected
    removed =
        a2-HasTaken.removed
        ∙ ap (λ k. drop k (contents a1.send_buf)) covered
        ∙ ap (λ l. drop n l) a-HasSent.kept

    pub shorter : (a2 rb).send_buf.len ≡ a.send_buf.len - n
    shorter = omega (
      arith,
      length-contents (a2 rb).send_buf,
      length-contents a.send_buf,
      ap length removed,
      length-drop n (contents a.send_buf),
    )

    outstanding : inflight (a2 rb).send_buf ≡ 0
    unfolding send_segment SendBuffer.advance_nxt RecvBuffer.next_expected
    outstanding =
        omega (arith, a2-HasTaken.fewer, covered, a-HasSent.outstanding, length-bytes, s.idle)

    next_is : (a2 rb).send_buf.nxt ≡ rb'.nxt
    unfolding RecvBuffer.next_expected
    next_is = omega (arith, outstanding, a2-HasTaken.una_is, a2-HasTaken.synced)

    requeued :
        contents (a2 rb).send_buf ≡ take (a2 rb).send_buf.len (drop (length (out ++ got)) stream)
    requeued =
        removed
        ∙ ap (λ l. drop n l) s.queued
        ∙ drop-take n a.send_buf.len (a2 rb).send_buf.len (drop (length out) stream) shorter
        ∙ ap (λ l. take (a2 rb).send_buf.len l)
            (drop-drop n (length out) (length (out ++ got)) stream
              (omega (arith, length-append out got, length-got)))

    wnd_open : 0 < (a2 rb).tcb.snd.wnd
    unfolding new_ack current_window RecvBuffer.window
    wnd_open = omega (arith, rb'-grown)

    pub round-InStep : InStep irs stream (out ++ got) (a2 rb) b2
    unfolding new_ack send_segment RecvBuffer.read RecvBuffer.next_expected
    round-InStep = record {
      rb = rb'';
      holds = refl;
      tracks = read-Tracks irs stream rb'.len rb'-Tracks;
      in_order = rb'-grown.1;
      drained = omega arith;
      expects = refl;
      a_state = s.a_state;
      b_state = s.b_state;
      synced = a2-HasTaken.synced;
      idle = outstanding;
      next = next_is;
      queued = requeued;
      inside = omega (arith, length-append out got, length-got, shorter, s.inside);
      window = wnd_open;
      steady = new_ack-IsSteady a1 (omega (arith, s.steady)) f (segment_of (ack rb)) now;
      b_acked = s.b_acked;
      a_expects = s.a_expects;
      fields_a = omega (arith, a1-FitsTypes);
      fields_b = omega (arith, b1-FitsTypes);
    }

    -- The round as the code runs it.
    pub round_busy :
        round f now a b ≡ record { sender = a2 rb; receiver = b2; replies = none; delivered = got }
    unfolding round read_received received_available RecvBuffer.available
    round_busy = rw (sends, b_takes now, a_takes)
