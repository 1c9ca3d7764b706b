-- ===== src/Connection/Fields.antt =====
-- The fields of a connection of magnum-tcp/src/tcp/connection.rs fit their types, so that what it
-- builds can be parsed.
use magnus_tcp.Base.{ℕ, ◌≤◌, ◌<◌, ◌≡◌, ap, List, [], arith, IsU32, All, length}
use magnus_tcp.Float.{F64}
use magnus_tcp.Net.{IsAddr, IsByte}
use magnus_tcp.Tcb.{TcbState}
use magnus_tcp.Header.{TcpSegment, TcpFlags, SegmentBuilder}
use magnus_tcp.Header.RoundTrip.{IsValid}
use magnus_tcp.RecvBuffer
use magnus_tcp.Connection.{Connection, acking_builder, current_window, initiate_close, close_in}
use magnus_tcp.Connection.Handlers.{handle_in, process_segment}

pub record FitsTypes {F : Type 0} (c : Connection F) : Type 0 where
  pub local_addr : IsAddr c.tcb.local_ip
  pub remote_addr : IsAddr c.tcb.remote_ip
  pub local_u16 : c.tcb.local_port < 65536
  pub remote_u16 : c.tcb.remote_port < 65536
  pub nxt_u32 : IsU32 c.tcb.snd.nxt
  pub expects_u32 : IsU32 c.tcb.rcv.nxt

-- A segment with bytes.
abbrev pub data_builder : {F : Type 0} → Connection F → ℕ → TcpFlags → List ℕ → SegmentBuilder
data_builder c seq flags payload = record (acking_builder c seq flags) { payload = payload }

module _ {F : Type 0} where
  pub data_builder-IsValid :
      (c : Connection F) (seq : ℕ) (flags : TcpFlags) (payload : List ℕ)
      → FitsTypes c
      → IsU32 seq
      → length payload ≤ 65515
      → All IsByte payload
      → IsValid (data_builder c seq flags payload)
  unfolding current_window RecvBuffer.window
  data_builder-IsValid c seq flags payload v s h b = ground (arith, v)

  pub acking_builder-IsValid :
      (c : Connection F) (seq : ℕ) (flags : TcpFlags)
      → FitsTypes c
      → IsU32 seq
      → IsValid (acking_builder c seq flags)
  acking_builder-IsValid c seq flags v s = data_builder-IsValid c seq flags [] v s (omega arith) tt

  pub process_segment_in :
      (f : F64 F) (c : Connection F) (seg : TcpSegment) (now : ℕ) (s : TcbState)
      → c.tcb.state ≡ s
      → process_segment f c seg now ≡ handle_in s f c seg now
  unfolding process_segment
  process_segment_in f c seg now s e = ap (λ x. handle_in x f c seg now) e

  pub initiate_close_in :
      (c : Connection F) (s : TcbState) → c.tcb.state ≡ s → initiate_close c ≡ close_in s c
  unfolding initiate_close
  initiate_close_in c s e = ap (λ x. close_in x c) e
