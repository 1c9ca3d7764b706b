-- ===== src/Connection/Transfer/Data.antt =====
-- What a connection of magnum-tcp/src/tcp/connection.rs makes of a segment with bytes.
use magnus_tcp.Base.{ℕ, ◌<◌, ◌≡◌, refl, ap, ◌∙◌, false, none, some, List, [], ◌∷◌, arith, length}
use magnus_tcp.Float.{F64}
use magnus_tcp.Tcb.{established}
use magnus_tcp.Header.{TcpSegment, SegmentBuilder, build}
use magnus_tcp.Header.RoundTrip.{IsValid, segment_of}
use magnus_tcp.Retransmit.{is_nil}
use magnus_tcp.RecvBuffer
use magnus_tcp.RecvBuffer.{RecvBuffer}
use magnus_tcp.Connection.{Connection, data_flags, build_ack}
use magnus_tcp.Connection.Steps.{answer, set_rcv_nxt}
use magnus_tcp.Connection.Established.{established_ack, established_rest}
use magnus_tcp.Connection.Handlers.{handle_in}
use magnus_tcp.Connection.Exchange.{deliver, deliver-build, sent}
use magnus_tcp.Connection.Acking.{established_ack_no_news}
use magnus_tcp.Connection.Receiving.{receive-some, established_data, past_ack}
use magnus_tcp.Connection.Fields.{process_segment_in}

pub is_nil-length : {A : Type 0} (xs : List A) → 0 < length xs → is_nil xs ≡ false
unfolding is_nil
is_nil-length [] h = absurd (omega arith)
is_nil-length (x ∷ xs) h = refl

-- What a connection with nothing outstanding makes of a segment with bytes.
pub deliver_data :
    {F : Type 0} (f : F64 F) (c : Connection F) (d : SegmentBuilder) (at : ℕ) (rb : RecvBuffer)
    → IsValid d
    → d.flags ≡ data_flags
    → is_nil d.payload ≡ false
    → d.ack_num ≡ c.tcb.snd.nxt
    → c.tcb.state ≡ established
    → c.tcb.snd.una ≡ c.tcb.snd.nxt
    → c.recv_buf ≡ some rb
    → let rb' = RecvBuffer.insert rb d.seq d.payload in
      let c' = set_rcv_nxt (record c { recv_buf = some rb' }) (RecvBuffer.next_expected rb') in
      deliver f c (build d) d.src_ip d.dst_ip at ≡ (c', some (build_ack c'))
unfolding handle_in
deliver_data f c d at rb v flags full acks state quiet holds =
    deliver-build f c d at v
    ∙ ap (λ r. (r.0, sent r.1))
        (process_segment_in f c seg at established state
          ∙ past_ack f c seg at (ap (λ l. l.rst) flags) (ap (λ r. r.1) no_news)
          ∙ ap (λ r. established_rest r.0 seg) no_news
          ∙ established_data c seg (ap (λ l. l.fin) flags) full
          ∙ ap (λ e. (e, answer (build_ack e))) (receive-some c seg rb holds))
  where
    seg : TcpSegment
    seg = segment_of d

    no_news : established_ack f c seg at ≡ (c, none)
    no_news = established_ack_no_news f c seg at quiet acks
