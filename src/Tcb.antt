-- ===== src/Tcb.antt =====
-- The transmission control block and the sequence arithmetic of magnum-tcp/src/tcp/tcb.rs.
use magnus_tcp.Base.{ℕ, ◌%◌, ◌==◌, ltb, Bool, not, ◌&&◌, ◌||◌, u32_mod, wrapping_sub}
use magnus_tcp.Net.{Ipv4Addr}
pub mod Seq

pub data TcbState : Type 0 where
  listen syn_sent syn_received established fin_wait_1 fin_wait_2 : TcbState
  close_wait closing last_ack time_wait closed : TcbState

pub record SendSequence : Type 0 where
  pub una : ℕ  -- u32
  pub nxt : ℕ  -- u32
  pub wnd : ℕ  -- u16
  pub iss : ℕ  -- u32

pub record RecvSequence : Type 0 where
  pub nxt : ℕ  -- u32
  pub wnd : ℕ  -- u16
  pub irs : ℕ  -- u32

pub record Tcb : Type 0 where
  pub state : TcbState
  pub local_ip : Ipv4Addr
  pub local_port : ℕ  -- u16
  pub remote_ip : Ipv4Addr
  pub remote_port : ℕ  -- u16
  pub snd : SendSequence
  pub rcv : RecvSequence
  pub cwnd : ℕ  -- u32
  pub ssthresh : ℕ  -- u32
  pub dup_ack_count : ℕ  -- u8

-- The standard library's hasher, fed with the four-tuple and the clock's nanoseconds: a parameter.
abbrev pub Hasher : Type 0
Hasher = Ipv4Addr → ℕ → Ipv4Addr → ℕ → ℕ → ℕ

-- `hasher.finish() as u32` keeps the low 32 bits.
unfoldable pub generate_isn : Hasher → ℕ → Ipv4Addr → ℕ → Ipv4Addr → ℕ → ℕ
generate_isn hash nanos local_ip local_port remote_ip remote_port =
    hash local_ip local_port remote_ip remote_port nanos % u32_mod

-- What the two constructors share: all but the state.
abbrev fresh : TcbState → ℕ → Ipv4Addr → ℕ → Ipv4Addr → ℕ → Tcb
fresh state isn local_ip local_port remote_ip remote_port = record {
  state = state;
  local_ip = local_ip;
  local_port = local_port;
  remote_ip = remote_ip;
  remote_port = remote_port;
  snd = record { una = isn; nxt = isn; wnd = 65535; iss = isn };
  rcv = record { nxt = 0; wnd = 65535; irs = 0 };
  cwnd = 1460;
  ssthresh = 65535;
  dup_ack_count = 0;
}

unfoldable pub new_for_listen : Hasher → ℕ → Ipv4Addr → ℕ → Ipv4Addr → ℕ → Tcb
new_for_listen hash nanos local_ip local_port remote_ip remote_port =
    fresh TcbState.listen (generate_isn hash nanos local_ip local_port remote_ip remote_port)
      local_ip local_port remote_ip remote_port

unfoldable pub new_for_connect : Hasher → ℕ → Ipv4Addr → ℕ → Ipv4Addr → ℕ → Tcb
new_for_connect hash nanos local_ip local_port remote_ip remote_port =
    fresh TcbState.closed (generate_isn hash nanos local_ip local_port remote_ip remote_port)
      local_ip local_port remote_ip remote_port

-- RFC 793 §3.3: a < b in modular 32-bit space.
unfoldable pub seq_lt : ℕ → ℕ → Bool
seq_lt a b = not (a == b) && ltb (wrapping_sub b a) 0x8000_0000

unfoldable pub seq_le : ℕ → ℕ → Bool
seq_le a b = a == b || seq_lt a b

-- RFC 793 §3.3: SND.UNA < SEG.ACK <= SND.NXT.
unfoldable pub ack_acceptable : ℕ → ℕ → ℕ → Bool
ack_acceptable una ack nxt = seq_lt una ack && seq_le ack nxt
