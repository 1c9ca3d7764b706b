-- ===== src/Task/Open.antt =====
-- A task of magnum-tcp/src/tcp/task.rs that is not asked to close keeps its connection open.
use magnus_tcp.Base.{ℕ, zero, suc, none, some, List, IsU32, inl, inr, Option-cases, arith}
use magnus_tcp.Float.{F64}
use magnus_tcp.Header.{TcpSegment}
use magnus_tcp.Retransmit.{mss}
use magnus_tcp.Connection.{Connection, next_segment_to_send, received_available, read_received}
use magnus_tcp.Connection.Run.{Request, arrive, ask, serve, step}
use magnus_tcp.Connection.Syncing.{IsOpenForData, Ordinary, step-IsOpenForData}
use magnus_tcp.Task.Flush.{flush-none, flush-some}
use magnus_tcp.Task.{
  Task, TaskEvent, inbound, flush, flush_send_buf, forward_received_data, end_turn, take_inbound,
  turn,
}

-- What reaches the task of a connection whose application does not close it.
pub data NoClose : TaskEvent → Type 0 where
  segment : {seg : TcpSegment} → IsU32 seg.header.ack_num → NoClose (inbound (some seg))
  dropped : NoClose (inbound none)
  retransmits : NoClose TaskEvent.retransmit_tick
  probes : NoClose TaskEvent.zwp_tick
  app_data : {bytes : List ℕ} → NoClose (TaskEvent.app_send bytes)

module _ {F : Type 0} (f : F64 F) where
  next-IsOpen :
      (c : Connection F) (now : ℕ)
      → IsOpenForData c
      → IsOpenForData (next_segment_to_send c mss now).0
  unfolding step serve
  next-IsOpen c now o = step-IsOpenForData f c (ask (Request.send_next mss now)) Ordinary.sends o

  flush-IsOpen :
      (fuel : ℕ) (c : Connection F) (now : ℕ) → IsOpenForData c → IsOpenForData (flush fuel c now).0
  unfolding flush
  flush-IsOpen zero c now o = o
  flush-IsOpen (suc fuel) c now o =
      let p = next-IsOpen c now o in
      elim (Option-cases (next_segment_to_send c mss now).1) [
        | inl e ↦ rw (flush-none fuel c now e) p
        | inr (bytes, e) ↦
            rw (flush-some fuel c now bytes e)
              (flush-IsOpen fuel (next_segment_to_send c mss now).0 now p)
      ]

  flush_send_buf-IsOpen :
      (c : Connection F) (now : ℕ) → IsOpenForData c → IsOpenForData (flush_send_buf c now).0
  unfolding flush_send_buf
  flush_send_buf-IsOpen c now o = flush-IsOpen _ c now o

  pub forward-IsOpen :
      (c : Connection F) → IsOpenForData c → IsOpenForData (forward_received_data c).0
  unfolding forward_received_data step serve
  forward-IsOpen c o =
      let p : IsOpenForData (read_received c (received_available c)).0 =
        step-IsOpenForData f c (ask (Request.read (received_available c))) Ordinary.reads o in
      ground (arith, o, p)

  end_turn-IsOpen :
      (t : Task F) (now : ℕ) (segments chunks : List (List ℕ))
      → IsOpenForData t.conn
      → IsOpenForData (end_turn t now segments chunks).task.conn
  unfolding end_turn step serve
  end_turn-IsOpen t now segments chunks o =
      step-IsOpenForData f t.conn (ask (Request.tick now)) Ordinary.ticks o

  pub turn-IsOpenForData :
      (t : Task F) (now : ℕ) (e : TaskEvent)
      → NoClose e
      → IsOpenForData t.conn
      → IsOpenForData (turn f t now e).task.conn
  unfolding turn take_inbound step serve
  turn-IsOpenForData t now e (segment {seg = seg} u) o = end_turn-IsOpen _ now _ _ (
      flush_send_buf-IsOpen _ now
        (forward-IsOpen _ (step-IsOpenForData f t.conn (arrive seg now) (Ordinary.arrives u) o)))
  turn-IsOpenForData t now e dropped o = o
  turn-IsOpenForData t now e retransmits o =
      end_turn-IsOpen _ now _ _
        (step-IsOpenForData f t.conn (ask (Request.retransmit now)) Ordinary.retransmits o)
  turn-IsOpenForData t now e probes o =
      end_turn-IsOpen _ now _ _ (step-IsOpenForData f t.conn (ask Request.probe) Ordinary.probes o)
  turn-IsOpenForData t now e (app_data {bytes = bytes}) o = end_turn-IsOpen _ now _ _ (
      flush_send_buf-IsOpen _ now
        (step-IsOpenForData f t.conn (ask (Request.write bytes)) Ordinary.writes o))
