-- ===== src/Examples/Losses.antt =====
-- Lost and repeated segments on concrete inputs.
use magnus_tcp.Base.{ℕ, ◌+◌, ◌*◌, ◌≤◌, ◌≡◌, refl, false, List, [], ◌∷◌, length, arith}
use magnus_tcp.Tcb.{TcbState, new_for_connect}
use magnus_tcp.Header.{TcpSegment}
use magnus_tcp.Retransmit
use magnus_tcp.Retransmit.{mss}
use magnus_tcp.Retransmit.Backoff.{BackedOff, timeouts, timeouts_lem}
use magnus_tcp.Connection.{
  Connection, ack_flags, data_flags, data_segment, fast_retransmit_segment, new, connect,
}
use magnus_tcp.Connection.Steps.{answer}
use magnus_tcp.Connection.Established.{handle_established, new_ack}
use magnus_tcp.Connection.Duplicates.{
  IsDuplicate, halved, after_duplicates, arrives_again, replies_to, arrives_again_lem,
  third_duplicate_drops, not_deflated,
}
use magnus_tcp.Task.{Task, TaskEvent, retransmit_tick, zwp_tick}
use magnus_tcp.Task.Unanswered.{retransmits, probes, sent_in_turns, syn_sent_once}
use magnus_tcp.Task.Probing.{NothingQueued, probes_not_repeated}
use magnus_tcp.SendBuffer.Stream.{contents, inflight}
use magnus_tcp.Examples.{
  nanos, hasher, client_ip, server_ip, client_mac, server_mac, hello, conn, bare,
}

-- The connection with the two bytes that it sent in its queue.
abbrev waiting : Connection ℕ
waiting = record conn {
  retransmit_queue = record (Retransmit.new nanos) {
    entries = record { seq = 5001; bytes = 65 ∷ 66 ∷ []; sent_at = 0; retransmitted = false } ∷ [];
  };
}

repeated : IsDuplicate waiting (bare ack_flags 5001)
repeated = record { acks = refl; outstanding = omega arith; flags = refl; bare = refl }

arrives_again_lem_example :
    arrives_again nanos waiting (bare ack_flags 5001) 9 5
    ≡ (after_duplicates waiting 5, replies_to waiting 5)
arrives_again_lem_example =
    arrives_again_lem nanos waiting (bare ack_flags 5001) 9 5 repeated refl (omega arith)

timeouts_lem_example :
    let (q, end, sent) = timeouts waiting.retransmit_queue 0 7 in
    BackedOff waiting.retransmit_queue
      (record { seq = 5001; bytes = 65 ∷ 66 ∷ []; sent_at = 0; retransmitted = false })
      0
      7
      q
      end
      sent
unfolding Retransmit.new
timeouts_lem_example =
    timeouts_lem waiting.retransmit_queue
      (record { seq = 5001; bytes = 65 ∷ 66 ∷ []; sent_at = 0; retransmitted = false }) 0 7 refl
      refl (omega arith)

-- Five duplicates leave a threshold and a window of segments.
window_after_five : (after_duplicates waiting 5).tcb.cwnd ≡ 2920 + 5 * 1460
window_after_five = refl

-- It carries the next bytes of the client.
abbrev data_again : TcpSegment
data_again = record (bare data_flags 5001) { payload = hello }

abbrev twice : Connection ℕ
twice = record waiting { tcb = record (waiting.tcb) { dup_ack_count = 2 } }

third_duplicate_drops_example :
    let (c', reply) = handle_established nanos twice data_again 9 in
    (reply ≡ answer (data_segment twice 5001 data_flags (65 ∷ 66 ∷ [])))
    × (c'.recv_buf ≡ twice.recv_buf)
    × (c'.tcb.rcv ≡ twice.tcb.rcv)
    × (c'.tcb.state ≡ twice.tcb.state)
unfolding fast_retransmit_segment Retransmit.first_unacked
third_duplicate_drops_example =
    third_duplicate_drops nanos twice data_again 9
      (data_segment twice 5001 data_flags (65 ∷ 66 ∷ [])) refl refl refl refl (omega arith) refl

not_deflated_example :
    let c' = new_ack nanos (after_duplicates waiting 5) (bare ack_flags 5003) 9 in
    (c'.tcb.ssthresh ≡ halved waiting.tcb.cwnd) × (halved waiting.tcb.cwnd + 3 * mss ≤ c'.tcb.cwnd)
not_deflated_example =
    not_deflated nanos waiting (bare ack_flags 5003) 9 5 (omega arith) (omega arith)

-- A client that waits for an answer to its SYN.
abbrev asking : Task ℕ
asking = record {
  conn = (connect (new nanos (new_for_connect hasher 7 client_ip 12345 server_ip 80))).0;
  ether_src = client_mac;
  ether_dst = server_mac;
  close_initiated = false;
}

abbrev a_minute : List (ℕ × TaskEvent)
a_minute =
    (1_000_000_000, retransmit_tick)
    ∷ (5_000_000_000, zwp_tick)
    ∷ (60_000_000_000, retransmit_tick)
    ∷ []

syn_sent_once_example :
    (sent_in_turns nanos asking a_minute ≡ (asking, []))
    × (asking.conn.tcb.state ≡ TcbState.syn_sent)
syn_sent_once_example =
    syn_sent_once nanos hasher 7 client_ip 12345 server_ip 80 asking a_minute refl
      (retransmits, (probes, (retransmits, tt)))

-- A sender whose peer has closed its window, with two bytes that it has not sent.
abbrev stalled : Task ℕ
stalled = record asking {
  conn = record conn { tcb = record (conn.tcb) { snd = record (conn.tcb.snd) { wnd = 0 } } };
}

stalled-NothingQueued : NothingQueued stalled.conn
unfolding Retransmit.new
stalled-NothingQueued = record {
  synced = record { valid = omega arith; una_same = refl; nxt_same = refl };
  in_established = refl;
  none_queued = refl;
}

probes_not_repeated_example :
    let (t', messages) = sent_in_turns nanos stalled a_minute in
    (inflight t'.conn.send_buf ≡ inflight stalled.conn.send_buf + length messages)
    × (contents t'.conn.send_buf ≡ contents stalled.conn.send_buf)
    × (inflight stalled.conn.send_buf + length messages ≤ stalled.conn.send_buf.len)
probes_not_repeated_example =
    probes_not_repeated nanos stalled a_minute stalled-NothingQueued
      (retransmits, (probes, (retransmits, tt)))
