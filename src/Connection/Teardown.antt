-- ===== src/Connection/Teardown.antt =====
-- How two connections of magnum-tcp/src/tcp/connection.rs close, over the bytes that they send.
use magnus_tcp.Base.{
  ℕ, ◌-◌, ◌∷◌, leb, if◌then◌else◌, ◌≡◌, refl, ap, ◌∙◌, true, Bool, Option, none, some, List, [],
  arith, wrapping_add,
}
use magnus_tcp.Float.{F64}
use magnus_tcp.Tcb.{
  established, fin_wait_1, fin_wait_2, close_wait, last_ack, time_wait, closed, ack_acceptable,
  seq_le,
}
use magnus_tcp.Header.{TcpFlags, SegmentBuilder, build, no_flags}
use magnus_tcp.Header.RoundTrip.{IsValid, segment_of}
use magnus_tcp.Connection.{
  Connection, set_state, set_snd_nxt, acking_builder, ack_flags, build_ack, build_fin_ack,
  initiate_close, close_in, send_fin, tick_time_wait, two_msl,
}
use magnus_tcp.Connection.Steps.{Reply, take_fin, fin_end, start_time_wait, set_una}
use magnus_tcp.Connection.Established.{take_ack, established_ack}
use magnus_tcp.Connection.Closing.{handle_fin_wait_1, handle_fin_wait_2, handle_last_ack}
use magnus_tcp.Connection.Handlers.{handle_in, process_segment}
use magnus_tcp.Connection.Acking.{established_ack_no_news}
use magnus_tcp.Connection.Fields.{
  FitsTypes, acking_builder-IsValid, process_segment_in, initiate_close_in,
}
use magnus_tcp.Connection.Receiving.{established_fin}
use magnus_tcp.Connection.Exchange.{relay, deliver, deliver-build, ack_acceptable_next, sent}

abbrev fin_flags : TcpFlags
fin_flags = record no_flags { fin = true; ack = true }

-- An established connection that has sent nothing that is not acknowledged, with fields that fit
-- their types.
pub record IsQuiet {F : Type 0} (c : Connection F) : Type 0 where
  pub state_is : c.tcb.state ≡ established
  pub all_acked : c.tcb.snd.una ≡ c.tcb.snd.nxt
  pub fields : FitsTypes c

-- What a handler's result sends.
abbrev answered : {F : Type 0} → Connection F × Reply → Connection F × Option (List ℕ)
answered (c, reply) = (c, sent reply)

-- Two quiet connections that expect each other's next number.
pub record ArePeers {F : Type 0} (a b : Connection F) : Type 0 where
  pub quiet_a : IsQuiet a
  pub quiet_b : IsQuiet b
  pub a_expects : a.tcb.rcv.nxt ≡ b.tcb.snd.nxt
  pub b_expects : b.tcb.rcv.nxt ≡ a.tcb.snd.nxt

-- `a` closes, each side is handed what the other sends, `b` closes once it has the first FIN, and
-- `a` looks at its timer at `last`. The states of the two sides after each of their steps, and the
-- connections at the end.
module _ {F : Type 0} (f : F64 F) (a b : Connection F) (t1 t2 t3 t4 : ℕ) where
  abbrev x : ℕ
  x = a.tcb.snd.nxt

  abbrev y : ℕ
  y = b.tcb.snd.nxt

  abbrev fin_a : SegmentBuilder
  fin_a = acking_builder a x fin_flags

  abbrev a1 : Connection F
  a1 = set_state (set_snd_nxt a (wrapping_add x 1)) fin_wait_1

  abbrev b1 : Connection F
  b1 = (take_fin b (segment_of fin_a) close_wait).0

  abbrev ack_b : SegmentBuilder
  ack_b = acking_builder b1 y ack_flags

  abbrev a2 : Connection F
  a2 = set_state (take_ack f a1 (segment_of ack_b) t2) fin_wait_2

  abbrev b2 : Connection F
  b2 = set_state (set_snd_nxt b1 (wrapping_add y 1)) last_ack

  abbrev fin_b : SegmentBuilder
  fin_b = acking_builder b1 y fin_flags

  abbrev a3 : Connection F
  a3 = (take_fin (start_time_wait a2 t3) (segment_of fin_b) time_wait).0

  abbrev ack_a : SegmentBuilder
  ack_a = acking_builder a3 (wrapping_add x 1) ack_flags

  abbrev b3 : Connection F
  b3 = set_state (set_una b2 (fin_end (segment_of fin_b))) closed

  -- What the timer of the side that closed first finds.
  a3_timer :
      (last : ℕ)
      → let (a4, expired) = tick_time_wait a3 last in
        (expired ≡ leb two_msl (last - t3))
        × (a4.tcb.state ≡ (if expired then closed else time_wait))
  unfolding tick_time_wait
  a3_timer last = ground arith

  module _ (p : ArePeers a b) where
    a_closes : initiate_close a ≡ (a1, some (build fin_a))
    unfolding close_in send_fin build_fin_ack
    a_closes = initiate_close_in a established p.quiet_a.state_is

    fin_a-IsValid : IsValid fin_a
    fin_a-IsValid =
        acking_builder-IsValid a x fin_flags (omega (arith, p.quiet_a.fields))
          (omega (arith, p.quiet_a.fields))

    -- The acknowledgement in the FIN is no news and no duplicate.
    b_no_news : established_ack f b (segment_of fin_a) t1 ≡ (b, none)
    b_no_news = established_ack_no_news f b (segment_of fin_a) t1 p.quiet_b.all_acked p.a_expects

    b_takes_fin :
        deliver f b (build fin_a) a.tcb.local_ip a.tcb.remote_ip t1 ≡ (b1, some (build ack_b))
    unfolding handle_in build_ack
    b_takes_fin =
        deliver-build f b fin_a t1 fin_a-IsValid
        ∙ ap answered (
            process_segment_in f b (segment_of fin_a) t1 established p.quiet_b.state_is
            ∙ established_fin f b (segment_of fin_a) t1 refl refl refl (ap (λ r. r.1) b_no_news)
            ∙ ap (λ r. take_fin r.0 (segment_of fin_a) close_wait) b_no_news)

    ack_b-IsValid : IsValid ack_b
    ack_b-IsValid =
        acking_builder-IsValid b1 y ack_flags (omega (arith, p.quiet_b.fields))
          (omega (arith, p.quiet_b.fields))

    -- The number behind the FIN.
    fin_a_end : fin_end (segment_of fin_a) ≡ wrapping_add x 1
    fin_a_end = omega (arith, p.quiet_a.fields.nxt_u32)

    fin_a_acked :
        (ack_acceptable a.tcb.snd.una (fin_end (segment_of fin_a)) (wrapping_add x 1) ≡ true)
        × (seq_le (wrapping_add x 1) (fin_end (segment_of fin_a)) ≡ true)
    unfolding seq_le
    fin_a_acked =
        rw (fin_a_end, p.quiet_a.all_acked)
          (ack_acceptable_next x p.quiet_a.fields.nxt_u32, ground arith)

    a_takes_ack : deliver f a1 (build ack_b) b.tcb.local_ip b.tcb.remote_ip t2 ≡ (a2, none)
    unfolding process_segment handle_in handle_fin_wait_1
    a_takes_ack = deliver-build f a1 ack_b t2 ack_b-IsValid ∙ rw (fin_a_acked.0, fin_a_acked.1)

    b_closes : initiate_close b1 ≡ (b2, some (build fin_b))
    unfolding initiate_close close_in send_fin build_fin_ack
    b_closes = refl

    fin_b-IsValid : IsValid fin_b
    fin_b-IsValid =
        acking_builder-IsValid b1 y fin_flags (omega (arith, p.quiet_b.fields))
          (omega (arith, p.quiet_b.fields))

    fin_b_end : fin_end (segment_of fin_b) ≡ wrapping_add y 1
    fin_b_end = omega (arith, p.quiet_b.fields.nxt_u32)

    fin_b_acked :
        ack_acceptable b.tcb.snd.una (fin_end (segment_of fin_b)) (wrapping_add y 1) ≡ true
    fin_b_acked =
        rw (fin_b_end, p.quiet_b.all_acked) (ack_acceptable_next y p.quiet_b.fields.nxt_u32)

    a_takes_fin :
        deliver f a2 (build fin_b) b.tcb.local_ip b.tcb.remote_ip t3 ≡ (a3, some (build ack_a))
    unfolding process_segment handle_in handle_fin_wait_2 build_ack take_ack
    a_takes_fin = deliver-build f a2 fin_b t3 fin_b-IsValid

    ack_a-IsValid : IsValid ack_a
    unfolding take_ack
    ack_a-IsValid =
        acking_builder-IsValid a3 (wrapping_add x 1) ack_flags (omega (arith, p.quiet_a.fields))
          (omega (arith, p.quiet_a.fields))

    b_takes_ack : deliver f b2 (build ack_a) a.tcb.local_ip a.tcb.remote_ip t4 ≡ (b3, none)
    unfolding process_segment handle_in handle_last_ack take_ack
    b_takes_ack = deliver-build f b2 ack_a t4 ack_a-IsValid ∙ rw fin_b_acked

-- How far the two sides come.
pub record Closed (F : Type 0) : Type 0 where
  pub b_after_fin : Connection F
  pub a_after_ack : Connection F
  pub a_after_fin : Connection F
  pub b_after_ack : Connection F
  pub a_after_timer : Connection F
  pub expired : Bool
  pub replies : List (Option (List ℕ))

-- `a` closes, each side is handed what the other sends, at the instants given, `b` closes once it has
-- the first FIN, and `a` looks at its timer at `last`. The replies are those to the acknowledgements.
unfoldable pub four_way :
    {F : Type 0} → F64 F → (a b : Connection F) (t1 t2 t3 t4 last : ℕ) → Closed F
four_way f a b t1 t2 t3 t4 last =
    let (a1, m1) = initiate_close a in
    let (b1, m2) = relay f b m1 a.tcb.local_ip a.tcb.remote_ip t1 in
    let (a2, m3) = relay f a1 m2 b.tcb.local_ip b.tcb.remote_ip t2 in
    let (b2, m4) = initiate_close b1 in
    let (a3, m5) = relay f a2 m4 b.tcb.local_ip b.tcb.remote_ip t3 in
    let (b3, m6) = relay f b2 m5 a.tcb.local_ip a.tcb.remote_ip t4 in
    let (a4, expired) = tick_time_wait a3 last in
    record {
      b_after_fin = b1;
      a_after_ack = a2;
      a_after_fin = a3;
      b_after_ack = b3;
      a_after_timer = a4;
      expired = expired;
      replies = m3 ∷ m6 ∷ [];
    }

-- Let two established connections have nothing outstanding and expect each other's next number. When
-- one closes, each side is handed the bytes that the other sends, and the other closes once it has the
-- first FIN: they pass through CLOSE_WAIT, FIN_WAIT_2 and TIME_WAIT, the second to close ends in CLOSED
-- with its FIN acknowledged, neither acknowledgement is answered, and the first ends in CLOSED once
-- 60 s have passed since it took the FIN, and no sooner.
pub teardown :
    {F : Type 0} (f : F64 F) (a b : Connection F) (t1 t2 t3 t4 last : ℕ)
    → ArePeers a b
    → let r = four_way f a b t1 t2 t3 t4 last in
      (r.b_after_fin.tcb.state ≡ close_wait)
      × (r.a_after_ack.tcb.state ≡ fin_wait_2)
      × (r.a_after_fin.tcb.state ≡ time_wait)
      × (r.b_after_ack.tcb.state ≡ closed)
      × (r.b_after_ack.tcb.snd.una ≡ r.b_after_ack.tcb.snd.nxt)
      × (r.replies ≡ none ∷ none ∷ [])
      × (r.expired ≡ leb two_msl (last - t3))
      × (r.a_after_timer.tcb.state ≡ (if r.expired then closed else time_wait))
unfolding four_way
teardown f a b t1 t2 t3 t4 last p =
    rw
      (
        a_closes f a b t1 t2 t3 t4 p,
        b_takes_fin f a b t1 t2 t3 t4 p,
        a_takes_ack f a b t1 t2 t3 t4 p,
        b_closes f a b t1 t2 t3 t4 p,
        a_takes_fin f a b t1 t2 t3 t4 p,
        b_takes_ack f a b t1 t2 t3 t4 p,
      )
      (let (expires, ends) = a3_timer f a b t1 t2 t3 t4 last in
        (refl, refl, refl, refl, fin_b_end f a b t1 t2 t3 t4 p, refl, expires, ends))
