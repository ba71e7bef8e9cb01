-- ===== src/Tcp/Sock.antt =====
-- `struct tcp_sock` of protos/tcp/include/tcp.h, the recovery helpers there, and the helpers of
-- tcp_fast.c that read or change one socket only.
use chamelio.Common.{ℕ, ◌+◌, ◌-◌, ◌%◌, ◌^◌, Bool, true, false, ◌&&◌, ◌||◌, not, ltb, leb, ◌==◌}
use chamelio.Common.{if◌then◌else◌, u32, add32, sub32, s32_positive, s32_negative, Bytes, copy}
use chamelio.Tcp.Packet.{tcp_seqno, tcp_ackno, rx_get_paylen, rx_is_ece}

-- `enum tcp_sock_state`
pub data SockState : Type 0 where
  closed init listen syn_sent syn_recv accept_pending established fin_wait1 : SockState

abbrev pub is_closed : SockState → Bool
is_closed closed = true
is_closed _ = false

abbrev pub is_established : SockState → Bool
is_established established = true
is_established _ = false

pub record Sock : Type 0 where
  pub id : ℕ
  pub opaque : ℕ
  pub core : ℕ
  pub app_bump_qid : ℕ
  pub local_ip : ℕ
  pub remote_ip : ℕ
  pub local_port : ℕ
  pub remote_port : ℕ
  pub state : SockState
  pub reuport : ℕ
  pub app_id : ℕ
  pub ctx_id : ℕ
  pub flags : ℕ
  pub lock : ℕ
  pub rx_len : ℕ
  pub rx_avail : ℕ
  pub rx_head : ℕ
  pub rx_off : ℕ
  pub tx_len : ℕ
  pub tx_avail : ℕ
  pub tx_head : ℕ
  pub tx_off : ℕ
  pub tx_seq : ℕ
  pub tx_pending : ℕ
  pub rx_seq : ℕ
  pub tx_remote_avail : ℕ
  pub tx_rexmit_seq : ℕ
  pub tx_rexmit_end_seq : ℕ
  pub rx_dupack_cnt : ℕ
  pub cc_acks : ℕ
  pub cc_ackb : ℕ
  pub cc_ecnb : ℕ
  pub cc_drops : ℕ
  pub cc_rate : ℕ
  pub ts_recent : ℕ
  pub rtt_est : ℕ
  pub tx_ready_tsc : ℕ
  pub recovery_active : Bool
  pub recovery_end_seq : ℕ

-- The exchange that ends `util_spin_lock`, and the one of `util_spin_unlock`.
abbrev pub lock_sock : Sock → Sock
lock_sock s = record s { lock = 1 }

abbrev pub unlock_sock : Sock → Sock
unlock_sock s = record s { lock = 0 }

unfoldable pub tcp_sock_recovery_reset : Sock → Sock
tcp_sock_recovery_reset s = record s { recovery_active = false; recovery_end_seq = 0 }

unfoldable pub tcp_sock_recovery_enter : Sock → Sock
tcp_sock_recovery_enter s =
    if s.recovery_active
    then s
    else record s { recovery_active = true; recovery_end_seq = add32 s.tx_seq s.tx_pending }

-- `(__s32) w >= 0` is the negation of `(__s32) w < 0`.
unfoldable pub tcp_sock_recovery_ack : Sock → Sock
tcp_sock_recovery_ack s =
    if s.recovery_active && not (s32_negative (sub32 s.tx_seq s.recovery_end_seq))
    then tcp_sock_recovery_reset s
    else s

unfoldable pub tcp_sock_recovery_avail : Sock → ℕ
tcp_sock_recovery_avail s =
    if not s.recovery_active
    then 2 ^ 32 - 1
    else (let left = sub32 s.recovery_end_seq (add32 s.tx_seq s.tx_pending) in
        if s32_positive left then left else 0)

unfoldable pub rx_is_ack_valid : ℕ → ℕ → ℕ → ℕ → Bool
rx_is_ack_valid seqno pending avail ackno =
    let max_ack = u32 (seqno + pending + avail) in
    if leb seqno max_ack
    then not (ltb ackno seqno || ltb max_ack ackno)
    else not (ltb ackno seqno && ltb max_ack ackno)

unfoldable pub rx_get_ack_bump : Bytes → Sock → ℕ
rx_get_ack_bump p s =
    if rx_is_ack_valid s.tx_seq s.tx_pending s.tx_avail (tcp_ackno p)
    then sub32 (tcp_ackno p) s.tx_seq
    else 0

unfoldable pub rx_get_payload_overlap : Bytes → Sock → ℕ
rx_get_payload_overlap p s =
    let behind =
      if s32_negative (sub32 (tcp_seqno p) s.rx_seq) then sub32 s.rx_seq (tcp_seqno p) else 0 in
    if ltb (rx_get_paylen p) behind then rx_get_paylen p else behind

unfoldable pub rx_is_payload_dup : Bytes → Sock → Bool
rx_is_payload_dup p s = leb (rx_get_paylen p) (rx_get_payload_overlap p s)

unfoldable pub rx_is_out_of_order : Bytes → Sock → Bool
rx_is_out_of_order p s = s32_positive (sub32 (tcp_seqno p) s.rx_seq)

unfoldable pub rx_get_rx_bump : Sock → ℕ → ℕ
rx_get_rx_bump s paylen =
    let free_rx = sub32 s.rx_len s.rx_avail in if ltb free_rx paylen then free_rx else paylen

unfoldable pub rx_sock_bump_ack : Bytes → Sock → ℕ → Sock
rx_sock_bump_ack p s ack_bump =
    let beyond = if ltb s.tx_pending ack_bump then ack_bump - s.tx_pending else 0 in
    let extra = if ltb s.tx_avail beyond then s.tx_avail else beyond in
    let inside = leb ack_bump s.tx_pending in
    let s' = record s {
      tx_seq = add32 s.tx_seq ack_bump;
      tx_pending = if inside then s.tx_pending - ack_bump else 0;
      tx_avail = if inside then s.tx_avail else s.tx_avail - extra;
      cc_ackb = add32 s.cc_ackb ack_bump;
      cc_ecnb = if rx_is_ece p then add32 s.cc_ecnb ack_bump else s.cc_ecnb;
      tx_head = add32 s.tx_head ack_bump % s.tx_len;
    } in
    if ltb 0 ack_bump then tcp_sock_recovery_ack (record s' { rx_dupack_cnt = 0 }) else s'

unfoldable pub rx_sock_bump_rx : Sock → ℕ → Sock
rx_sock_bump_rx s rx_bump = record s {
  rx_seq = add32 s.rx_seq rx_bump;
  rx_avail = add32 s.rx_avail rx_bump;
}

-- The two `memcpy` of a write that may go round the end of the RX ring.
unfoldable pub rx_copy_payload : Bytes → Sock → Bytes → ℕ → ℕ → Bytes
rx_copy_payload shm s pkt payload paylen =
    let sum = add32 s.rx_head s.rx_avail in
    let tail = if leb s.rx_len sum then sum - s.rx_len else sum in
    if leb (add32 tail paylen) s.rx_len
    then copy shm (s.rx_off + tail) pkt payload paylen
    else (let part = sub32 s.rx_len tail in
        copy (copy shm (s.rx_off + tail) pkt payload part) s.rx_off pkt (payload + part)
          (sub32 paylen part))

unfoldable pub tx_get_tx_bump : Sock → ℕ → ℕ
tx_get_tx_bump s max_paylen =
    let all = if ltb max_paylen s.tx_avail then max_paylen else s.tx_avail in
    let fc_avail = s.tx_remote_avail - s.tx_pending in
    let allowed = if ltb fc_avail all then fc_avail else all in
    let recovery_avail = tcp_sock_recovery_avail s in
    if ltb recovery_avail allowed then recovery_avail else allowed

-- The two `memcpy` of a read that may go round the end of the TX ring.
unfoldable pub tx_copy_payload : Bytes → Sock → Bytes → ℕ → ℕ → Bytes
tx_copy_payload shm s pkt payload tx_bump =
    let sum = add32 s.tx_head s.tx_pending in
    let tx_pos = if leb s.tx_len sum then sum - s.tx_len else sum in
    if leb (add32 tx_pos tx_bump) s.tx_len
    then copy pkt payload shm (s.tx_off + tx_pos) tx_bump
    else (let part = sub32 s.tx_len tx_pos in
        copy (copy pkt payload shm (s.tx_off + tx_pos) part) (payload + part) shm s.tx_off
          (sub32 tx_bump part))

unfoldable pub tx_sock_tx_bump : Sock → ℕ → Sock
tx_sock_tx_bump s tx_bump = record s {
  tx_avail = sub32 s.tx_avail tx_bump;
  tx_pending = add32 s.tx_pending tx_bump;
}

unfoldable pub sock_sched_avail : Sock → ℕ
sock_sched_avail s =
    let fc_avail = s.tx_remote_avail - s.tx_pending in
    let avail = if ltb s.tx_avail fc_avail then s.tx_avail else fc_avail in
    let recovery_avail = tcp_sock_recovery_avail s in
    if leb s.tx_remote_avail s.tx_pending
    then 0
    else if ltb recovery_avail avail
    then recovery_avail
    else avail

-- The application has put `bump` more bytes into the TX ring.
unfoldable pub deq_sock_bump_tx : Sock → ℕ → ℕ → ℕ → Sock
deq_sock_bump_tx s bump_avail bump_ip bump_port = record s {
  tx_avail = add32 s.tx_avail bump_avail;
  remote_ip = if bump_ip == 0 then s.remote_ip else bump_ip;
  remote_port = if bump_port == 0 then s.remote_port else bump_port;
}

-- The application has read `bump` bytes from the RX ring.
unfoldable pub deq_sock_bump_rx : Sock → ℕ → Sock
deq_sock_bump_rx s bump =
    let sum = add32 s.rx_head bump in
    let new_head = if leb s.rx_len sum then sum - s.rx_len else sum in
    record s { rx_head = new_head; rx_avail = sub32 s.rx_avail bump }

unfoldable pub deq_is_retransmit_stale : Sock → ℕ → ℕ → Bool
deq_is_retransmit_stale s cmd_tx_seq cmd_tx_pending =
    s.tx_pending == 0 || not (s.tx_seq == cmd_tx_seq) || not (s.tx_pending == cmd_tx_pending)
