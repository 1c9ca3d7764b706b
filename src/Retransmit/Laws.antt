-- ===== src/Retransmit/Laws.antt =====
-- The retransmission queue of magnum-tcp/src/tcp/retransmit.rs: its size, its timer, Karn's rule,
-- and what an acknowledgement removes.
use magnus_tcp.Base.{ℕ, ◌≤◌, ◌≡◌, refl, false, List, [], ◌∷◌, arith, length, length-append}
use magnus_tcp.Float.{F64, OrdersDurations, clamp-durations}
use magnus_tcp.Retransmit.{
  RetransmitEntry, RetransmitQueue, retransmit_queue_max, min_rto, max_rto, retain_from,
  expire_from, push, expired_segments, new, update_rto, update_all, acknowledge_and_sample_rtt,
}

-- The queue holds at most 128 segments, and its timeout is between 200 ms and 60 s.
pub record IsValid {F : Type 0} (q : RetransmitQueue F) : Type 0 where
  pub bounded : length q.entries ≤ retransmit_queue_max
  pub rto_min : min_rto ≤ q.rto
  pub rto_max : q.rto ≤ max_rto

pub push-IsValid :
    {F : Type 0} {q : RetransmitQueue F} (seq : ℕ) (bytes : List ℕ) (now : ℕ)
    → IsValid q
    → IsValid (push q seq bytes now)
unfolding push
push-IsValid {F} {q} seq bytes now v = ground (
  arith,
  length-append q.entries
      (record { seq = seq; bytes = bytes; sent_at = now; retransmitted = false } ∷ []),
)

length-retain_from :
    (ack now : ℕ) (entries : List RetransmitEntry)
    → length (retain_from ack now entries).0 ≤ length entries
unfolding retain_from
length-retain_from ack now [] = omega arith
length-retain_from ack now (e ∷ rest) = ground (arith, length-retain_from ack now rest)

length-expire_from :
    (now rto : ℕ) (entries : List RetransmitEntry)
    → length (expire_from now rto entries).0 ≡ length entries
unfolding expire_from
length-expire_from now rto [] = refl
length-expire_from now rto (e ∷ rest) = ground (arith, length-expire_from now rto rest)

pub expired_segments-IsValid :
    {F : Type 0} {q : RetransmitQueue F} (now : ℕ) → IsValid q → IsValid (expired_segments q now).0
unfolding expired_segments
expired_segments-IsValid {F} {q} now v = ground (arith, length-expire_from now q.rto q.entries)

-- A call of a method that changes the queue.
pub data QueueCall : Type 0 where
  pushed : (seq : ℕ) → List ℕ → (now : ℕ) → QueueCall
  acknowledged : (ack now : ℕ) → QueueCall
  timed_out : (now : ℕ) → QueueCall

module _ {F : Type 0} (f : F64 F) where
  unfoldable pub call_all : RetransmitQueue F → List QueueCall → RetransmitQueue F
  call_all q [] = q
  call_all q (pushed seq bytes now ∷ calls) = call_all (push q seq bytes now) calls
  call_all q (acknowledged ack now ∷ calls) =
      call_all (acknowledge_and_sample_rtt f q ack now) calls
  call_all q (timed_out now ∷ calls) = call_all (expired_segments q now).0 calls

  pub new-IsValid : IsValid (new f)
  unfolding new
  new-IsValid = omega arith

  module _ (law : OrdersDurations f) where
    update_all-IsValid :
        (q : RetransmitQueue F) (samples : List ℕ) → IsValid q → IsValid (update_all f q samples)
    unfolding update_all update_rto
    update_all-IsValid q [] v = v
    update_all-IsValid q (rtt ∷ samples) v =
        update_all-IsValid (update_rto f q rtt) samples (record {
          bounded = v.bounded;
          rto_min = (clamp-durations f law _ min_rto max_rto (omega arith) (omega arith)).0;
          rto_max = (clamp-durations f law _ min_rto max_rto (omega arith) (omega arith)).1;
        })

    acknowledge-IsValid :
        {q : RetransmitQueue F} (ack now : ℕ)
        → IsValid q
        → IsValid (acknowledge_and_sample_rtt f q ack now)
    unfolding acknowledge_and_sample_rtt
    acknowledge-IsValid {q} ack now v =
        update_all-IsValid (record q { entries = (retain_from ack now q.entries).0 })
          (retain_from ack now q.entries).1
          (record {
            bounded = omega (arith, length-retain_from ack now q.entries, v);
            rto_min = v.rto_min;
            rto_max = v.rto_max;
          })

    call_all-IsValid :
        (calls : List QueueCall) {q : RetransmitQueue F} → IsValid q → IsValid (call_all q calls)
    unfolding call_all
    call_all-IsValid [] v = v
    call_all-IsValid (pushed seq bytes now ∷ calls) v =
        call_all-IsValid calls (push-IsValid seq bytes now v)
    call_all-IsValid (acknowledged ack now ∷ calls) v =
        call_all-IsValid calls (acknowledge-IsValid ack now v)
    call_all-IsValid (timed_out now ∷ calls) v =
        call_all-IsValid calls (expired_segments-IsValid now v)

    -- If the numbers and their durations are ordered as `OrdersDurations` says, then whatever segments
    -- are pushed, acknowledged with all the samples that are taken, and timed out, in any order and at any
    -- times, from a new queue on: the queue has at most 128 segments and a timeout between 200 ms and
    -- 60 s.
    pub call_all-bounds :
        (calls : List QueueCall)
        → let q = call_all (new f) calls in
          (length q.entries ≤ 128) × (200_000_000 ≤ q.rto) × (q.rto ≤ 60_000_000_000)
    call_all-bounds calls =
        let v = call_all-IsValid calls new-IsValid in (v.bounded, v.rto_min, v.rto_max)
