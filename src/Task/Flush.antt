-- ===== src/Task/Flush.antt =====
-- The sending loop of magnum-tcp/src/tcp/task.rs ends, with nothing left that it may send.
use magnus_tcp.Base.{
  ℕ, suc, zero, ◌-◌, ◌≤◌, ◌<◌, ◌≡◌, refl, sym, ap, ◌∙◌, max, none, some, List, arith, length, inl,
  inr,
}
use magnus_tcp.Retransmit.{mss}
use magnus_tcp.SendBuffer.Stream.{contents, inflight, length-contents}
use magnus_tcp.Connection.{Connection, send_segment, next_segment_to_send}
use magnus_tcp.Connection.Sending.{IsSynced, allowed, to_send, flow_control}
use magnus_tcp.Task.{flush, flush_send_buf}

-- The connection went from `c` to `c'` by sending all that the windows allow.
pub record HasFlushed {F : Type 0} (c c' : Connection F) : Type 0 where
  pub synced : IsSynced c'
  pub kept : contents c'.send_buf ≡ contents c.send_buf
  pub idle : to_send c' mss ≡ 0
  pub window_same : allowed c' ≡ allowed c
  pub not_back : inflight c.send_buf ≤ inflight c'.send_buf
  pub within_window : inflight c'.send_buf ≤ max (inflight c.send_buf) (allowed c)

module _ {F : Type 0} where
  allowed-next_segment_to_send :
      (c : Connection F) (now : ℕ) → allowed (next_segment_to_send c mss now).0 ≡ allowed c
  unfolding next_segment_to_send send_segment
  allowed-next_segment_to_send c now = ground arith

  pub flush-none :
      (fuel : ℕ) (c : Connection F) (now : ℕ)
      → (next_segment_to_send c mss now).1 ≡ none
      → (flush (suc fuel) c now).0 ≡ (next_segment_to_send c mss now).0
  unfolding flush
  flush-none fuel c now h = ground arith

  pub flush-some :
      (fuel : ℕ) (c : Connection F) (now : ℕ) (bytes : List ℕ)
      → (next_segment_to_send c mss now).1 ≡ some bytes
      → (flush (suc fuel) c now).0 ≡ (flush fuel (next_segment_to_send c mss now).0 now).0
  unfolding flush
  flush-some fuel c now bytes h = ground arith

  flush_ends :
      (fuel : ℕ) (c : Connection F) (now : ℕ)
      → IsSynced c
      → c.send_buf.len - inflight c.send_buf < fuel
      → HasFlushed c (flush fuel c now).0
  flush_ends zero c now s h = absurd (omega arith)
  flush_ends (suc fuel) c now s h =
      let c' = (next_segment_to_send c mss now).0 in
      elim (flow_control c mss now s) [
        | inl (idle, same, silent) ↦
            rw (flush-none fuel c now silent, same)
              (record {
                synced = s;
                kept = refl;
                idle = idle;
                window_same = refl;
                not_back = omega arith;
                within_window = omega arith;
              })
        | inr (bytes, s', e) ↦
            let lens : c'.send_buf.len ≡ c.send_buf.len =
              sym (length-contents c'.send_buf) ∙ ap length s'.kept ∙ length-contents c.send_buf in
            let r =
              flush_ends fuel c' now s'.synced (omega (arith, s'.not_empty, s'.outstanding)) in
            let same = allowed-next_segment_to_send c now in
            rw (flush-some fuel c now _ e) (record {
              synced = r.synced;
              kept = r.kept ∙ s'.kept;
              idle = r.idle;
              window_same = r.window_same ∙ same;
              not_back = omega (arith, r.not_back, s'.outstanding);
              within_window = omega (arith, r.within_window, s'.within_window, same);
            })
      ]

-- With the control block and the send buffer in agreement, `flush_send_buf` comes to the end of its
-- loop: the next call of `next_segment_to_send` would send nothing, no byte of the buffer is lost or
-- changed, nothing sent counts as unsent again, and no more is outstanding than before or than the
-- windows allow.
pub flush_send_buf-HasFlushed :
    {F : Type 0} (c : Connection F) (now : ℕ) → IsSynced c → HasFlushed c (flush_send_buf c now).0
unfolding flush_send_buf
flush_send_buf-HasFlushed c now s = flush_ends (suc c.send_buf.len) c now s (omega arith)
