-- ===== src/Examples/Buffers.antt =====
-- The buffers and the queue of a connection on concrete inputs.
use magnus_tcp.Base.{
  ℕ, ◌≤◌, ◌<◌, ◌≡◌, ◌↔◌, refl, true, false, List, [], ◌∷◌, arith, length, take, inl, inr,
  wrapping_sub,
}
use magnus_tcp.Tcb.{seq_lt, seq_le, ack_acceptable}
use magnus_tcp.Tcb.Seq.{ack_acceptable_iff}
use magnus_tcp.Ring.{zeroed}
use magnus_tcp.RecvBuffer
use magnus_tcp.RecvBuffer.{RecvBuffer}
use magnus_tcp.RecvBuffer.Delivery
use magnus_tcp.RecvBuffer.Delivery.{Call, arrive, fetch, run-prefix}
use magnus_tcp.RecvBuffer.Progress.{stale_entry_blocks}
use magnus_tcp.Retransmit
use magnus_tcp.Retransmit.{RetransmitEntry, RetransmitQueue}
use magnus_tcp.Retransmit.Laws.{
  QueueCall, pushed, acknowledged, timed_out, call_all, call_all-bounds,
}
use magnus_tcp.Retransmit.Timers.{unacked, acknowledge_resent}
use magnus_tcp.Examples.{nanos, nanos-OrdersDurations, hello}

-- "lo" comes first, then all of "hello", and the application reads twice.
abbrev calls : List Call
calls = arrive 1004 (108 ∷ 111 ∷ []) ∷ arrive 1001 hello ∷ fetch 2 ∷ fetch 100 ∷ []

run-prefix_example :
    let out = (Delivery.run [] (RecvBuffer.new 1000) calls).0 in out ≡ take (length out) hello
run-prefix_example = run-prefix 1000 hello calls (omega arith) (
  record { off = 3; numbered = refl; inside = omega arith; same = refl },
  (record { off = 0; numbered = refl; inside = omega arith; same = refl }, tt),
)

-- All of it is read.
read_all : (Delivery.run [] (RecvBuffer.new 1000) calls).0 ≡ hello
unfolding Delivery.run RecvBuffer.new RecvBuffer.insert RecvBuffer.read magnus_tcp.Ring.load_from
    seq_lt RecvBuffer.place RecvBuffer.drain_ooo RecvBuffer.drain_from RecvBuffer.commit
    RecvBuffer.or_insert magnus_tcp.Ring.store_from
read_all = refl

abbrev fresh : RecvBuffer
fresh = RecvBuffer.new 1000

-- A buffer that expects 1004 and stages an entry that it no longer needs, and the one that comes next.
abbrev stale : RecvBuffer
stale = record {
  buf = zeroed;
  head = 0;
  len = 3;
  nxt = 1004;
  ooo = (1002, 101 ∷ []) ∷ (1005, 111 ∷ []) ∷ [];
}

stale_entry_blocks_example :
    let rb' = RecvBuffer.insert stale stale.nxt (108 ∷ []) in
    (rb'.nxt ≡ (RecvBuffer.commit stale (108 ∷ [])).nxt)
    × (rb'.ooo ≡ (1002, 101 ∷ []) ∷ (1005, 111 ∷ []) ∷ [])
stale_entry_blocks_example =
    stale_entry_blocks stale (108 ∷ []) 1002 (101 ∷ []) ((1005, 111 ∷ []) ∷ []) (omega arith)
      (omega arith) refl (unfold RecvBuffer.commit in omega arith)

-- Two segments, of which the first was sent again, and an acknowledgement of the first.
abbrev first : RetransmitEntry
first = record { seq = 5001; bytes = 65 ∷ 66 ∷ []; sent_at = 0; retransmitted = true }

abbrev second : RetransmitEntry
second = record { seq = 5003; bytes = 67 ∷ []; sent_at = 0; retransmitted = false }

abbrev queue : RetransmitQueue ℕ
queue = record (Retransmit.new nanos) { entries = first ∷ second ∷ [] }

acknowledge_resent_example :
    Retransmit.acknowledge_and_sample_rtt nanos queue 5003 900_000_000
    ≡ record queue { entries = unacked 5003 queue.entries }
unfolding Retransmit.fully_acked seq_le seq_lt
acknowledge_resent_example =
    acknowledge_resent nanos queue 5003 900_000_000 (inr refl, (inl refl, tt))

-- A segment is sent, sent again and acknowledged.
abbrev queue_calls : List QueueCall
queue_calls =
    pushed 5000 (1 ∷ 2 ∷ []) 0
    ∷ timed_out 2_000_000_000
    ∷ pushed 5002 (3 ∷ []) 2_000_000_000
    ∷ acknowledged 5003 2_400_000_000
    ∷ []

call_all-bounds_example :
    let q = call_all nanos (Retransmit.new nanos) queue_calls in
    (length q.entries ≤ 128) × (200_000_000 ≤ q.rto) × (q.rto ≤ 60_000_000_000)
call_all-bounds_example = call_all-bounds nanos nanos-OrdersDurations queue_calls

-- Across the end of the 32-bit space.
ack_acceptable_iff_example : (ack_acceptable 0xffff_fff0 5 10 ≡ true) ↔ (
    (0 < wrapping_sub 5 0xffff_fff0) × (wrapping_sub 5 0xffff_fff0 ≤ wrapping_sub 10 0xffff_fff0))
ack_acceptable_iff_example =
    ack_acceptable_iff 0xffff_fff0 5 10 (omega arith) (omega arith) (omega arith) (omega arith)
