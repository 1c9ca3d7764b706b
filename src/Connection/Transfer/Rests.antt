-- ===== src/Connection/Transfer/Rests.antt =====
-- Two connections of magnum-tcp/src/tcp/connection.rs between which nothing is under way.
use magnus_tcp.Base.{ℕ, ◌+◌, ◌≡◌, refl, Option, List, [], ◌∷◌, arith}
use magnus_tcp.Float.{F64}
use magnus_tcp.Retransmit.{RetransmitQueue, is_nil}
use magnus_tcp.Retransmit.Single.{expired_none}
use magnus_tcp.RecvBuffer.{RecvBuffer}
use magnus_tcp.Tcb.{RecvSequence}
use magnus_tcp.Connection.{Connection, take_retransmits}
use magnus_tcp.Connection.Congestion.{IsSteady}
use magnus_tcp.Connection.Transfer.{InStep}
use magnus_tcp.Connection.Transfer.Lossy.{
  Lost, segments, answers, damaged, Loss, relay_all, missed, exchange, with_queue,
}

-- What data from `a` to `b` leaves as it was: what `a` receives, and what `b` sends.
pub record Keeps {F : Type 0} (a b a' b' : Connection F) : Type 0 where
  pub received : a'.recv_buf ≡ a.recv_buf
  pub rcv : a'.tcb.rcv ≡ a.tcb.rcv
  pub send_buf : b'.send_buf ≡ b.send_buf
  pub snd : b'.tcb.snd ≡ b.tcb.snd
  pub queue : b'.retransmit_queue ≡ b.retransmit_queue
  pub cwnd : b'.tcb.cwnd ≡ b.tcb.cwnd
  pub ssthresh : b'.tcb.ssthresh ≡ b.tcb.ssthresh
  pub dup_ack_count : b'.tcb.dup_ack_count ≡ b.tcb.dup_ack_count

-- `a` and `b` are at rest, nothing waits for an acknowledgement, and the other direction is as it was
-- between `a0` and `b0`.
pub record Rests {F : Type 0} (irs : ℕ) (stream : List ℕ) (a0 b0 : Connection F) (out : List ℕ)
    (a b : Connection F) : Type 0 where
  pub in_step : InStep irs stream out a b
  pub none_waits : a.retransmit_queue.entries ≡ []
  pub keeps : Keeps a0 b0 a b

pub idle_exchange :
    {F : Type 0} (f : F64 F) (losses : List Loss) (now : ℕ) (a b : Connection F)
    → a.retransmit_queue.entries ≡ []
    → exchange f now losses a b [] ≡ (a, b, [])
unfolding exchange relay_all take_retransmits is_nil missed
idle_exchange f [] now a b h = refl
idle_exchange f (l ∷ losses) now a b h =
    rw (expired_none a.retransmit_queue (now + a.retransmit_queue.rto + l.late) h, same l.lost)
      (idle_exchange f losses _ a b h)
  where
    same : (lost : Lost) → missed f lost a b [] now ≡ b
    same segments = refl
    same answers = refl
    same (damaged i y) = refl

pub with_queue-InStep :
    {F : Type 0} {irs : ℕ} {stream out : List ℕ} {a b : Connection F} (q : RetransmitQueue F)
    (cwnd ssthresh : ℕ)
    → InStep irs stream out a b
    → IsSteady (with_queue a q cwnd ssthresh).tcb
    → InStep irs stream out (with_queue a q cwnd ssthresh) b
with_queue-InStep q cwnd ssthresh s steady = record {
  rb = s.rb;
  holds = s.holds;
  tracks = s.tracks;
  in_order = s.in_order;
  drained = s.drained;
  expects = s.expects;
  a_state = s.a_state;
  b_state = s.b_state;
  synced = record {
    valid = s.synced.valid;
    una_same = s.synced.una_same;
    nxt_same = s.synced.nxt_same;
  };
  idle = s.idle;
  next = s.next;
  queued = s.queued;
  inside = s.inside;
  window = s.window;
  steady = steady;
  b_acked = s.b_acked;
  a_expects = s.a_expects;
  fields_a = omega (arith, s.fields_a);
  fields_b = s.fields_b;
}

-- What a round changes of the two connections.
pub kept_on :
    {F : Type 0} {a0 b0 a b : Connection F} {rcv : RecvSequence} {taken : Option RecvBuffer}
    → Keeps a0 b0 a b
    → Keeps a0 b0 a (record b { recv_buf = taken; tcb = record (b.tcb) { rcv = rcv } })
kept_on k = record {
  received = k.received;
  rcv = k.rcv;
  send_buf = k.send_buf;
  snd = k.snd;
  queue = k.queue;
  cwnd = k.cwnd;
  ssthresh = k.ssthresh;
  dup_ack_count = k.dup_ack_count;
}
