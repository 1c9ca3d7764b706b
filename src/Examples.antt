-- ===== src/Examples.antt =====
-- Small concrete inputs for the theorems, and runs of the code on them.
use magnus_tcp.Base.{
  ℕ, ◌+◌, ◌*◌, ◌/◌, ◌-◌, ◌≤◌, ◌≡◌, refl, min, max, true, false, none, some, List, [], ◌∷◌, ltb,
  arith, length,
}
use magnus_tcp.Float.{F64, OrdersDurations}
use magnus_tcp.Net.{Ipv4Addr, IsAddr, MacAddr}
use magnus_tcp.Tcb.{Tcb, TcbState, Hasher}
use magnus_tcp.Header.{TcpSegment, TcpFlags, SegmentBuilder, no_flags, new_builder}
use magnus_tcp.Header.RoundTrip.{IsValid, segment_of}
use magnus_tcp.Ring.{zeroed}
use magnus_tcp.SendBuffer.{SendBuffer}
use magnus_tcp.SendBuffer.Stream
use magnus_tcp.RecvBuffer
use magnus_tcp.RecvBuffer.{RecvBuffer}
use magnus_tcp.Retransmit
use magnus_tcp.Connection.{Connection, data_flags}
use magnus_tcp.Connection.Sending.{IsSynced}
mod Buffers
mod Formats
mod Connections
mod Peers
mod Tasks
mod Web
mod Fetching
mod Losses
mod Devices
mod Loops

-- Numbers of nanoseconds, in place of floating-point numbers of seconds.
abbrev pub nanos : F64 ℕ
nanos = record {
  literal = λ n d. n / d;
  plus = λ a b. a + b;
  minus = λ a b. a - b;
  times = λ a b. a * b;
  over = λ a b. a / b;
  abs = λ a. a;
  clamp = λ x lo hi. max lo (min hi x);
  less = λ a b. ltb a b;
  of_u64 = λ n. n;
  as_secs = λ n. n;
  from_secs = λ n. n;
}

pub nanos-OrdersDurations : OrdersDurations nanos
nanos-OrdersDurations = record {
  less_trans = λ a b c h k. ground arith;
  clamp_low = λ x lo hi h. ground arith;
  clamp_high = λ x lo hi h. ground arith;
  as_secs_order = λ d e h. ground arith;
  from_secs_order = λ x y h k l. ground arith;
  exact = λ d h. refl;
}

abbrev pub client_ip : Ipv4Addr
client_ip = record { b0 = 10; b1 = 0; b2 = 0; b3 = 1 }

abbrev pub server_ip : Ipv4Addr
server_ip = record { b0 = 192; b1 = 168; b2 = 100; b3 = 2 }

pub client_ip-IsAddr : IsAddr client_ip
client_ip-IsAddr = omega arith

pub server_ip-IsAddr : IsAddr server_ip
server_ip-IsAddr = omega arith

abbrev pub client_mac : MacAddr
client_mac = record { m0 = 2; m1 = 0; m2 = 0; m3 = 0; m4 = 0; m5 = 1 }

abbrev pub server_mac : MacAddr
server_mac = record { m0 = 2; m1 = 0; m2 = 0; m3 = 0; m4 = 0; m5 = 2 }

abbrev pub hasher : Hasher
hasher = λ local_ip local_port remote_ip remote_port nanoseconds. local_port * 1000 + nanoseconds

-- "hello".
abbrev pub hello : List ℕ
hello = 104 ∷ 101 ∷ 108 ∷ 108 ∷ 111 ∷ []

-- The client's segment with "hello".
abbrev pub hello_builder : SegmentBuilder
hello_builder = record (new_builder client_ip server_ip 12345 80) {
  seq = 1001;
  ack_num = 5001;
  flags = data_flags;
  window = 1000;
  payload = hello;
}

pub hello_builder-IsValid : IsValid hello_builder
hello_builder-IsValid = omega arith

-- A server's side of an established connection: four bytes to send, of which two were sent.
abbrev pub send_buf : SendBuffer
send_buf = record { buf = λ i. i + 65; head = 0; len = 4; una = 5001; nxt = 5003 }

abbrev pub tcb : Tcb
tcb = record {
  state = TcbState.established;
  local_ip = server_ip;
  local_port = 80;
  remote_ip = client_ip;
  remote_port = 12345;
  snd = record { una = 5001; nxt = 5003; wnd = 1000; iss = 5000 };
  rcv = record { nxt = 1001; wnd = 65535; irs = 1000 };
  cwnd = 1460;
  ssthresh = 65535;
  dup_ack_count = 0;
}

abbrev pub conn : Connection ℕ
conn = record {
  tcb = tcb;
  send_buf = send_buf;
  recv_buf = some (RecvBuffer.new 1000);
  retransmit_queue = Retransmit.new nanos;
  time_wait_start = none;
}

pub conn-IsSynced : IsSynced conn
conn-IsSynced = record { valid = omega arith; una_same = refl; nxt_same = refl }

-- A segment of the client with no bytes.
abbrev pub bare : TcpFlags → ℕ → TcpSegment
bare flags ack_num = record {
  header = record {
    src_port = 12345;
    dst_port = 80;
    seq = 1001;
    ack_num = ack_num;
    data_offset = 5;
    flags = flags;
    window = 2000;
    checksum = 0;
    urgent_ptr = 0;
  };
  payload = [];
}
