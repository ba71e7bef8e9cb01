-- ===== src/Tcp/Fixture.antt =====
-- A segment of four bytes for a connection whose rings go round.
use chamelio.Common.{refl, List, [], ◌∷◌, zero, suc, ℕ, Bytes, ◌<◌, ◌++◌, ◌^◌, false, arith, ◌%◌}
use chamelio.Common.{update, none, if◌then◌else◌, ◌==◌, ◌+◌}
use chamelio.Sched.{unused, sched_id_invalid}
use chamelio.Tcp.Context.{Context, ctl_sig}
use chamelio.Tcp.Inv.{IsValid, IsRxValid, IsValid-IsRxValid}
use chamelio.Tcp.Lookup.{sock_find, flow_hash, sock_hash, find_slot, is_match, id_invalid}
use chamelio.Tcp.Lookup.{is_flow}
use chamelio.Tcp.Packet.{is_pktlen_valid, rx_is_ip, rx_is_flags_ctl}
use chamelio.Tcp.Sock.{established, Sock}
use chamelio.Tcp.Stream.{IsSegment}

abbrev pub at : List ℕ → ℕ → ℕ
at [] k = 0
at (b ∷ bs) zero = b
at (b ∷ bs) (suc k) = at bs k

abbrev pub ip_bytes : List ℕ
ip_bytes = 69 ∷ 0 ∷ 0 ∷ 44 ∷ 0 ∷ 0 ∷ 0 ∷ 0 ∷ 64 ∷ 6 ∷ 0 ∷ 0 ∷ 10 ∷ 0 ∷ 0 ∷ 2 ∷ 10 ∷ 0 ∷ 0 ∷ 1 ∷ []

-- From port 80 to port 90, number 7, acknowledging up to 5, a window of 256.
abbrev pub tcp_bytes : List ℕ
tcp_bytes = 0 ∷ 80 ∷ 0 ∷ 90 ∷ 0 ∷ 0 ∷ 0 ∷ 7 ∷ 0 ∷ 0 ∷ 0 ∷ 5 ∷ 80 ∷ 16 ∷ 1 ∷ 0 ∷ 0 ∷ 0 ∷ 0 ∷ 0 ∷ []

abbrev pub segment : Bytes
segment = at (ip_bytes ++ tcp_bytes ++ (97 ∷ 98 ∷ 99 ∷ 100 ∷ []))

abbrev pub AllBytes : List ℕ → Type 0
AllBytes [] = Unit
AllBytes (b ∷ bs) = (b < 2 ^ 8) × AllBytes bs

segment-IsPacket : (bs : List ℕ) → AllBytes bs → (k : ℕ) → at bs k < 2 ^ 8
segment-IsPacket [] all k = omega arith
segment-IsPacket (b ∷ bs) all zero = all.0
segment-IsPacket (b ∷ bs) all (suc k) = segment-IsPacket bs all.1 k

-- Two bytes are unread, two in flight and three to be sent; both rings are at their sixth byte.
abbrev pub conn : Sock
conn = record {
  id = 0;
  opaque = 77;
  core = 0;
  app_bump_qid = 1;
  local_ip = 167772161;
  remote_ip = 167772162;
  local_port = 90;
  remote_port = 80;
  state = established;
  reuport = 0;
  app_id = 0;
  ctx_id = 0;
  flags = 0;
  lock = 0;
  rx_len = 8;
  rx_avail = 2;
  rx_head = 6;
  rx_off = 1000;
  tx_len = 8;
  tx_avail = 3;
  tx_head = 6;
  tx_off = 2000;
  tx_seq = 3;
  tx_pending = 2;
  rx_seq = 7;
  tx_remote_avail = 256;
  tx_rexmit_seq = 0;
  tx_rexmit_end_seq = 0;
  rx_dupack_cnt = 0;
  cc_acks = 0;
  cc_ackb = 0;
  cc_ecnb = 0;
  cc_drops = 0;
  cc_rate = 0;
  ts_recent = 0;
  rtt_est = 0;
  tx_ready_tsc = 0;
  recovery_active = false;
  recovery_end_seq = 0;
}

pub conn-IsValid : IsValid conn
conn-IsValid = record {
  rx_small = omega arith;
  rx_head_in = omega arith;
  rx_fits = omega arith;
  tx_small = omega arith;
  tx_head_in = omega arith;
  tx_fits = omega arith;
  tx_word = omega arith;
  rx_word = omega arith;
  flight = λ active. ground (arith, active);
}

pub conn-IsRxValid : IsRxValid conn
conn-IsRxValid = IsValid-IsRxValid conn-IsValid

-- The clock shows 100, 101, … ; queue 1 is free; the socket is the only one and its turn is at 50.
abbrev pub context : Context
context = record {
  pkt = segment;
  pkt_len = 200;
  shm = λ i. i % 256;
  sched = record {
    entries =
        update (λ i. unused) 0
          (record { id = 0; next_entry = sched_id_invalid; priority = 50; avail = 3; opaque = 0 });
    vtime = 0;
    head = 0;
    tail = 0;
  };
  core = 0;
  equeues = λ q. record { tail = 0; nelems = 4; elsize = 64; off = 0 };
  slots = λ q. record { type = λ k. 0; entry = λ k. ctl_sig 0 };
  dqueues = λ q. record { head = 0; nelems = 4; elsize = 64; off = 0 };
  ctl_slots = λ q. record { type = λ k. 0; entry = λ k. ctl_sig 0 };
  cfg = none;
  socks = λ i. conn;
  n_socks = 1;
  buckets = λ h i. if i == 0 then 0 else id_invalid;
  n_buckets = 4096;
  clock = record { reading = λ n. 100 + n; tsc_to_us = λ t. t; cycles_per_us = 1 };
  ticks = 0;
}

pub context-IsSegment : IsSegment context 0
unfolding is_pktlen_valid rx_is_ip rx_is_flags_ctl sock_find flow_hash sock_hash find_slot is_match
    is_flow
context-IsSegment = record {
  bytes = segment-IsPacket (ip_bytes ++ tcp_bytes ++ (97 ∷ 98 ∷ 99 ∷ 100 ∷ [])) (ground arith);
  whole = refl;
  tcp = refl;
  plain = refl;
  found = refl;
  open_conn = refl;
}
