-- ===== src/Connection/Transfer/Lossy.antt =====
-- Two connections of magnum-tcp/src/tcp/connection.rs over a link that loses segments, and the timer
-- that sends them again.
use magnus_tcp.Base.{zero, suc, ℕ, ◌%◌, map, ◌+◌, Option, none, some, List, [], ◌∷◌}
use magnus_tcp.Float.{F64}
use magnus_tcp.Net.{Ipv4Addr}
use magnus_tcp.Retransmit.{RetransmitQueue, mss}
use magnus_tcp.Connection.{
  Connection, take_retransmits, next_segment_to_send, read_received, received_available,
}
use magnus_tcp.Connection.Exchange.{deliver}
use magnus_tcp.Connection.Transfer.{Round}
use magnus_tcp.Connection.Transfer.Rounds.{repeat}

-- What the link loses: all that the sender sends, or all that the receiver answers. Or it replaces the
-- byte at an index of each segment by the given one, and loses what that is answered.
pub data Lost : Type 0 where
  segments : Lost
  answers : Lost
  damaged : (index byte : ℕ) → Lost

unfoldable pub put : ℕ → ℕ → List ℕ → List ℕ
put i y [] = []
put zero y (x ∷ xs) = y ∷ xs
put (suc i) y (x ∷ xs) = x ∷ put i y xs

-- A loss, and how long after the timeout the timer of the sender runs.
pub record Loss : Type 0 where
  pub lost : Lost
  pub late : ℕ

-- A connection takes segments, one after another, and answers.
unfoldable pub relay_all :
    {F : Type 0}
    → F64 F
    → Connection F
    → List (List ℕ)
    → Ipv4Addr
    → Ipv4Addr
    → ℕ
    → Connection F × List (List ℕ)
relay_all f c [] src dst now = (c, [])
relay_all f c (raw ∷ rest) src dst now =
    let (c1, reply) = deliver f c raw src dst now in
    let (c2, replies) = relay_all f c1 rest src dst now in
    (c2, elim reply [ none ↦ replies | some answer ↦ answer ∷ replies ])

-- The receiver after segments that were lost or damaged, or whose answers were lost.
unfoldable pub missed :
    {F : Type 0} → F64 F → Lost → (a b : Connection F) → List (List ℕ) → ℕ → Connection F
missed f segments a b sent now = b
missed f answers a b sent now = (relay_all f b sent a.tcb.local_ip a.tcb.remote_ip now).0
missed f (damaged i y) a b sent now =
    (relay_all f b (map (put i (y % 256)) sent) a.tcb.local_ip a.tcb.remote_ip now).0

-- `a` has sent segments at `now`. With each loss the timeout runs out, and `take_retransmits` sends
-- what is to be sent again; then segments and answers arrive.
unfoldable pub exchange :
    {F : Type 0}
    → F64 F
    → ℕ
    → List Loss
    → (a b : Connection F) → List (List ℕ)
    → Connection F × Connection F × List (List ℕ)
exchange f now [] a b sent =
    let (b', answered) = relay_all f b sent a.tcb.local_ip a.tcb.remote_ip now in
    let (a', replies) = relay_all f a answered b.tcb.local_ip b.tcb.remote_ip now in
    (a', b', replies)
exchange f now (l ∷ losses) a b sent =
    let b' = missed f l.lost a b sent now in
    let later = now + a.retransmit_queue.rto + l.late in
    let (a', again) = take_retransmits a later in exchange f later losses a' b' again

abbrev pub to_list : Option (List ℕ) → List (List ℕ)
to_list none = []
to_list (some raw) = raw ∷ []

-- `a` sends a segment, if it may, and it and its answer arrive after some losses. Then the
-- application reads all that `b` has.
unfoldable pub lossy_round : {F : Type 0} → F64 F → ℕ → List Loss → (a b : Connection F) → Round F
lossy_round f now losses a b =
    let (a1, segment) = next_segment_to_send a mss now in
    let (a2, b1, replies) = exchange f now losses a1 b (to_list segment) in
    let (b2, got) = read_received b1 (received_available b1) in
    record {
      sender = a2;
      receiver = b2;
      replies = elim replies [ [] ↦ none | reply ∷ rest ↦ some reply ];
      delivered = got;
    }

-- A connection with another queue, window and threshold.
abbrev pub with_queue : {F : Type 0} → Connection F → RetransmitQueue F → ℕ → ℕ → Connection F
with_queue c q cwnd ssthresh = record c {
  retransmit_queue = q;
  tcb = record (c.tcb) { cwnd = cwnd; ssthresh = ssthresh };
}

-- Rounds over the link. `link k` is when the round with `k` to come begins, and what it loses.
unfoldable pub lossy_transfer :
    {F : Type 0}
    → F64 F
    → (ℕ → ℕ × List Loss)
    → (rounds : ℕ) → (a b : Connection F) → List ℕ × Connection F × Connection F
lossy_transfer f link rounds a b = repeat (λ k. lossy_round f (link k).0 (link k).1) rounds a b
