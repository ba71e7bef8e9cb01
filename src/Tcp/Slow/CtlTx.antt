-- ===== src/Tcp/Slow/CtlTx.antt =====
-- tcp_ctl_tx.c: control packets and retransmission commands for the fast path.
use chamelio.Common.{none, some, true, false, ℕ, Option, Bytes, ◌^◌, sub32, Bool, ◌+◌}
use chamelio.Common.{if◌then◌else◌, ◌*◌, ltb, ◌/◌, has_bit, ◌&&◌, ◌||◌}
use chamelio.Queue.{write_entry, queue_tail, queue_enqueue}
use chamelio.Tcp.Context.{ctl_pkt}
use chamelio.Tcp.Deq.{Command, ctl_tx, tx_retransmit}
use chamelio.Tcp.Packet.{put8, put16, put32, tcp_pkt_inner_size}
use chamelio.Tcp.Punt.{old_bytes, old_core}
use chamelio.Tcp.Slow.State.{Slow}
use chamelio.Tcp.Sock.{Sock}

-- TAS_TCP_FIN, TAS_TCP_SYN, TAS_TCP_RST, TAS_TCP_ACK, TAS_TCP_ECE and TAS_TCP_CWR by their bit.
abbrev pub fin_bit : ℕ
fin_bit = 0

abbrev pub syn_bit : ℕ
syn_bit = 1

abbrev pub rst_bit : ℕ
rst_bit = 2

abbrev pub ack_bit : ℕ
ack_bit = 4

abbrev pub ece_bit : ℕ
ece_bit = 6

abbrev pub cwr_bit : ℕ
cwr_bit = 7

-- The flags of the packets that the slow path sends.
abbrev pub syn_flag : ℕ
syn_flag = 2 ^ syn_bit

abbrev pub rst_flag : ℕ
rst_flag = 2 ^ rst_bit

abbrev pub ack_flag : ℕ
ack_flag = 2 ^ ack_bit

abbrev pub rst_ack_flags : ℕ
rst_ack_flags = 2 ^ rst_bit + 2 ^ ack_bit

abbrev pub syn_ack_flags : ℕ
syn_ack_flags = 2 ^ syn_bit + 2 ^ ack_bit

abbrev pub fin_ack_flags : ℕ
fin_ack_flags = 2 ^ fin_bit + 2 ^ ack_bit

abbrev pub ece_flag : ℕ
ece_flag = 2 ^ ece_bit

abbrev pub ece_cwr_flags : ℕ
ece_cwr_flags = 2 ^ ece_bit + 2 ^ cwr_bit

unfoldable pub tcp_sock_rx_wnd : Sock → ℕ
tcp_sock_rx_wnd s = let wnd = sub32 s.rx_len s.rx_avail in if ltb 65535 wnd then 65535 else wnd

-- The arguments of `ctl_pkt_fill`; `ts` is the `ts_recent` of the socket, where there is one.
pub record CtlFields : Type 0 where
  pub ts : Option ℕ
  pub local_ip : ℕ
  pub local_port : ℕ
  pub remote_ip : ℕ
  pub remote_port : ℕ
  pub seq : ℕ
  pub ack : ℕ
  pub flags : ℕ
  pub wnd : ℕ

-- TCP_TS_OPT_LEN, if the packet has the option.
unfoldable pub opt_len : Option ℕ → ℕ
opt_len none = 0
opt_len (some ts) = 12

ctl_fill_ip : Bytes → CtlFields → Bytes
unfolding opt_len
ctl_fill_ip p f =
    let p1 = put8 (put8 p 0 (4 * 2 ^ 4 + 5)) 1 0 in
    let p2 = put16 p1 2 (tcp_pkt_inner_size + opt_len f.ts) in
    let p3 = put16 (put16 p2 4 3) 6 0 in
    let p4 = put8 (put8 p3 8 0xff) 9 6 in put16 (put32 (put32 p4 12 f.local_ip) 16 f.remote_ip) 10 0

ctl_fill_tcp : Bytes → CtlFields → Bytes
unfolding opt_len
ctl_fill_tcp p f =
    let p1 = put16 (put16 p 20 f.local_port) 22 f.remote_port in
    let p2 = put32 (put32 p1 24 f.seq) 28 f.ack in
    let p3 = put16 p2 32 ((20 + opt_len f.ts) / 4 * 2 ^ 12 + f.flags) in
    put16 (put16 (put16 p3 34 f.wnd) 36 0) 38 0

-- The timestamp option behind the fixed part; the fast path fills its first time in.
unfoldable pub ctl_fill_ts : Bytes → Option ℕ → Bytes
ctl_fill_ts p none = p
ctl_fill_ts p (some ts) = put16 (put32 (put32 (put8 (put8 p 40 8) 41 12) 42 0) 46 ts) 50 0

unfoldable pub ctl_pkt_fill : Bytes → CtlFields → Bytes
unfolding ctl_fill_ip ctl_fill_tcp ctl_fill_ts
ctl_pkt_fill p f = ctl_fill_ts (ctl_fill_tcp (ctl_fill_ip p f) f) f.ts

-- TCP_QUEUE_CTL_TX, TCP_QUEUE_CTL_TX_PKT and TCP_QUEUE_TX_RETRANSMIT.
abbrev pub tcp_queue_ctl_tx : ℕ
tcp_queue_ctl_tx = 20

abbrev pub tcp_queue_ctl_tx_pkt : ℕ
tcp_queue_ctl_tx_pkt = 21

abbrev pub tcp_queue_tx_retransmit : ℕ
tcp_queue_tx_retransmit = 22

-- `queue_tail`, the entry filled in, and `queue_enqueue` on the queue of signals.
unfoldable pub send_sig : Slow → Command → (type : ℕ) → Slow × Bool
send_sig c command type =
    let filled = λ (pos : ℕ). write_entry c.slow_fast_sig_slots pos command in
    elim (queue_tail c.slow_fast_sig_q c.slow_fast_sig_slots) [
      | none ↦ (c, false)
      | some pos ↦ elim (queue_enqueue c.slow_fast_sig_q (filled pos) type) [
        | none ↦ (record c { slow_fast_sig_slots = filled pos }, false)
        | some r ↦ (record c { slow_fast_sig_q = r.0; slow_fast_sig_slots = r.1 }, true)
      ]
    ]

unfoldable pub send_pkt : Slow → CtlFields → Slow × Bool
unfolding ctl_pkt_fill
send_pkt c f =
    let old = c.slow_fast_pkt_slots in
    let filled = λ (pos : ℕ).
      write_entry old pos
        (ctl_pkt (ctl_pkt_fill (old_bytes (old.entry pos)) f) (old_core (old.entry pos))) in
    elim (queue_tail c.slow_fast_pkt_q old) [
      | none ↦ (c, false)
      | some pos ↦ elim (queue_enqueue c.slow_fast_pkt_q (filled pos) tcp_queue_ctl_tx_pkt) [
        | none ↦ (record c { slow_fast_pkt_slots = filled pos }, false)
        | some r ↦ (record c { slow_fast_pkt_q = r.0; slow_fast_pkt_slots = r.1 }, true)
      ]
    ]

is_some : {A : Type 0} → Option A → Bool
is_some none = false
is_some (some a) = true

-- Both queues must have a free entry before either is filled.
unfoldable pub ctl_pkt_enqueue : Slow → CtlFields → Slow × Bool
unfolding is_some send_pkt send_sig
ctl_pkt_enqueue c f =
    let (c1, sent) = send_pkt c f in
    let signalled = send_sig c1 ctl_tx tcp_queue_ctl_tx in
    if is_some (queue_tail c.slow_fast_pkt_q c.slow_fast_pkt_slots)
      && is_some (queue_tail c.slow_fast_sig_q c.slow_fast_sig_slots)
    then if sent then signalled else (c1, false)
    else (c, false)

-- The fields of a packet of the socket's connection.
abbrev pub sock_fields : Sock → (seq flags : ℕ) → CtlFields
sock_fields s seq flags = record {
  ts = some s.ts_recent;
  local_ip = s.local_ip;
  local_port = s.local_port;
  remote_ip = s.remote_ip;
  remote_port = s.remote_port;
  seq = seq;
  ack = s.rx_seq;
  flags = flags;
  wnd = tcp_sock_rx_wnd s;
}

unfoldable pub tcp_ctl_tx : Slow → (sid flags : ℕ) → Slow × Bool
unfolding ctl_pkt_enqueue tcp_sock_rx_wnd
tcp_ctl_tx c sid flags = ctl_pkt_enqueue c (sock_fields (c.socks sid) (c.socks sid).tx_seq flags)

unfoldable pub tcp_ctl_tx_resend : Slow → (sid flags : ℕ) → Slow × Bool
unfolding ctl_pkt_enqueue tcp_sock_rx_wnd
tcp_ctl_tx_resend c sid flags =
    let s = c.socks sid in
    let seq =
      if has_bit flags syn_bit || has_bit flags fin_bit then sub32 s.tx_seq 1 else s.tx_seq in
    ctl_pkt_enqueue c (sock_fields s seq flags)

unfoldable pub tcp_ctl_tx_reply :
    Slow → (local_ip local_port remote_ip remote_port seq ack flags : ℕ) → Slow × Bool
unfolding ctl_pkt_enqueue
tcp_ctl_tx_reply c local_ip local_port remote_ip remote_port seq ack flags =
    ctl_pkt_enqueue c (record {
      ts = none;
      local_ip = local_ip;
      local_port = local_port;
      remote_ip = remote_ip;
      remote_port = remote_port;
      seq = seq;
      ack = ack;
      flags = flags;
      wnd = 0;
    })

unfoldable pub tcp_tx_retransmit : Slow → (sid : ℕ) → Slow × Bool
unfolding send_sig
tcp_tx_retransmit c sid =
    let s = c.socks sid in
    send_sig c (tx_retransmit s.id s.tx_seq s.tx_pending) tcp_queue_tx_retransmit
