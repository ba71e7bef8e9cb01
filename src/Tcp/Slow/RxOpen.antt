-- ===== src/Tcp/Slow/RxOpen.antt =====
-- tcp_rx_open.c: the handshake. A result that is not -1 is `true`.
use chamelio.Common.{none, some, true, false, ℕ, Bool, add32, ◌==◌, if◌then◌else◌, sub32, has_bit}
use chamelio.Common.{not, ◌&&◌, ◌||◌, clear_bit, leb, set_bit}
use chamelio.Tcp.Fill.{ecn_bit}
use chamelio.Tcp.Slow.AppRes.{tcp_app_listen_newconn}
use chamelio.Tcp.Slow.CcInit.{tcp_sock_cc_init}
use chamelio.Tcp.Slow.CtlTx.{tcp_ctl_tx, tcp_ctl_tx_resend, tcp_ctl_tx_reply, ack_flag}
use chamelio.Tcp.Slow.CtlTx.{rst_ack_flags, ece_bit, rst_bit, syn_ack_flags, syn_bit, cwr_bit}
use chamelio.Tcp.Slow.CtlTx.{ece_flag, ack_bit}
use chamelio.Tcp.Slow.Flow.{tcp_flow_insert, tcp_flow_lookup}
use chamelio.Tcp.Slow.Listener.{tcp_listener_ready_push}
use chamelio.Tcp.Slow.SockState.{answer_connect, tcp_sock_connect_fail, tcp_sock_close_final}
use chamelio.Tcp.Slow.SockState.{tcp_sock_alloc}
use chamelio.Tcp.Slow.State.{Slow, tcp_cc_ecn_enabled, RxCtl, actx_of, tcp_sock_meta}
use chamelio.Tcp.Slow.State.{set_listener, set_sock, set_meta, econnrefused, retx_synack, success}
use chamelio.Tcp.Slow.Timeout.{with_ecn}
use chamelio.Tcp.Slow.Timer.{tcp_timeout_cancel, tcp_timeout_arm}
use chamelio.Tcp.Sock.{Sock, accept_pending, syn_recv, closed, established}

unfoldable pub sock_ack_valid : Sock → (ack : ℕ) → Bool
sock_ack_valid s ack = ack == add32 s.tx_seq s.tx_pending

-- The socket once its SYN is answered; the queue is that of the packet's core in its context.
unfoldable pub active_sock : (app_bump_qids : ℕ → ℕ) → Sock → RxCtl → Sock
active_sock app_bump_qids s rx = record s {
  core = rx.core;
  app_bump_qid = app_bump_qids rx.core;
  flags = if has_bit rx.flags ece_bit then s.flags else clear_bit s.flags ecn_bit;
  rx_seq = add32 rx.seq 1;
  tx_seq = add32 s.tx_seq 1;
  tx_remote_avail = rx.wnd;
  tx_pending = sub32 s.tx_pending 1;
  state = established;
}

unfoldable pub sock_active_established : Slow → ℕ → RxCtl → Slow
unfolding tcp_timeout_cancel tcp_sock_cc_init active_sock
sock_active_established c sid rx =
    let s = c.socks sid in
    let s1 = active_sock (actx_of c s.app_id s.ctx_id).app_bump_qids s rx in
    tcp_sock_cc_init (set_sock (tcp_timeout_cancel c sid) sid s1) sid

-- The socket once its SYN and ACK are acknowledged.
unfoldable pub passive_sock : Sock → RxCtl → Sock
passive_sock s rx = record s {
  tx_remote_avail = rx.wnd;
  tx_pending = sub32 s.tx_pending 1;
  tx_seq = add32 s.tx_seq 1;
  state = accept_pending;
}

unfoldable pub sock_passive_established : Slow → ℕ → RxCtl → Slow × Bool
unfolding tcp_timeout_cancel passive_sock tcp_listener_ready_push tcp_sock_close_final
sock_passive_established c sid rx =
    let c1 = set_sock (tcp_timeout_cancel c sid) sid (passive_sock (c.socks sid) rx) in
    let (c2, pushed) =
      tcp_listener_ready_push c1 (tcp_sock_meta c1 sid).listener_id (c1.socks sid).id in
    if pushed then (c2, true) else (tcp_sock_close_final c2 sid, false)

unfoldable pub tcp_rx_syn_sent : Slow → ℕ → RxCtl → Slow
unfolding tcp_sock_connect_fail sock_ack_valid sock_active_established tcp_ctl_tx answer_connect
tcp_rx_syn_sent c sid rx =
    let opened = (tcp_ctl_tx (sock_active_established c sid rx) sid ack_flag).0 in
    if has_bit rx.flags rst_bit
    then tcp_sock_connect_fail c sid econnrefused
    else if not (has_bit rx.flags syn_bit && has_bit rx.flags ack_bit)
    then c
    else if sock_ack_valid (c.socks sid) rx.ack
    then answer_connect opened sid success
    else c

unfoldable pub tcp_rx_syn_recv : Slow → ℕ → RxCtl → Slow
unfolding tcp_sock_close_final tcp_ctl_tx_resend sock_ack_valid sock_passive_established
    tcp_app_listen_newconn
tcp_rx_syn_recv c sid rx =
    let (c1, opened) = sock_passive_established c sid rx in
    let ready = (tcp_app_listen_newconn c1 (tcp_sock_meta c1 sid).listener_id sid).0 in
    if has_bit rx.flags rst_bit
    then tcp_sock_close_final c sid
    else if has_bit rx.flags syn_bit && not (has_bit rx.flags ack_bit)
    then (tcp_ctl_tx_resend c sid (with_ecn (c.socks sid) syn_ack_flags ece_flag)).0
    else if not (has_bit rx.flags ack_bit) || not (sock_ack_valid (c.socks sid) rx.ack)
    then c
    else if opened
    then ready
    else c1

-- RST and ACK for a connection that is not opened.
abbrev pub refuse : Slow → RxCtl → (seq ack : ℕ) → Slow
refuse c rx seq ack =
    (tcp_ctl_tx_reply c rx.local_ip rx.local_port rx.remote_ip rx.remote_port seq ack
      rst_ack_flags).0

-- The new socket of a connection that a peer opens.
unfoldable pub syn_sock : Slow → Sock → RxCtl → Sock
unfolding tcp_cc_ecn_enabled
syn_sock c s rx = record s {
  local_ip = rx.local_ip;
  local_port = rx.local_port;
  remote_ip = rx.remote_ip;
  remote_port = rx.remote_port;
  core = rx.core;
  tx_seq = 1;
  tx_pending = 1;
  rx_seq = add32 rx.seq 1;
  tx_remote_avail = rx.wnd;
  ts_recent = if rx.ts_valid then rx.ts_val else 0;
  state = syn_recv;
  flags =
      if tcp_cc_ecn_enabled c && (has_bit rx.flags ece_bit && has_bit rx.flags cwr_bit)
      then set_bit s.flags ecn_bit
      else s.flags;
}

-- The socket is in the flow table: the SYN is answered.
unfoldable pub answer_syn : Slow → (listen_id sid : ℕ) → RxCtl → Slow × Bool
unfolding tcp_ctl_tx tcp_timeout_arm tcp_sock_close_final tcp_ctl_tx_reply
answer_syn c listen_id sid rx =
    let l = c.listeners listen_id in
    let c1 = set_listener c listen_id (record l { backlog_used = add32 l.backlog_used 1 }) in
    let (c2, sent) = tcp_ctl_tx c1 sid (with_ecn (c1.socks sid) syn_ack_flags ece_flag) in
    let (c3, armed) = tcp_timeout_arm c2 sid retx_synack in
    let s = c3.socks sid in
    if not sent
    then (refuse (tcp_sock_close_final c2 sid) rx 0 (add32 rx.seq 1), false)
    else if armed
    then (c3, true)
    else (tcp_sock_close_final (refuse c3 rx s.tx_seq s.rx_seq) sid, false)

unfoldable pub open_syn : Slow → (listen_id sid : ℕ) → RxCtl → Slow × Bool
unfolding syn_sock tcp_flow_insert answer_syn tcp_ctl_tx_reply
open_syn c listen_id sid rx =
    let c1 = set_sock c sid (syn_sock c (c.socks sid) rx) in
    let c2 = set_meta c1 sid (record (tcp_sock_meta c1 sid) { listener_id = listen_id }) in
    let (c3, inserted) = tcp_flow_insert c2 sid in
    let failed = set_sock c3 sid (record (c3.socks sid) { state = closed }) in
    if inserted
    then answer_syn c3 listen_id sid rx
    else (refuse failed rx 0 (add32 rx.seq 1), false)

unfoldable pub tcp_rx_listen_syn : Slow → (listen_sid : ℕ) → RxCtl → Slow × Bool
unfolding tcp_flow_lookup tcp_sock_alloc open_syn tcp_ctl_tx_reply
tcp_rx_listen_syn c listen_sid rx =
    let listen_id = (c.socks listen_sid).id in
    let l = c.listeners listen_id in
    let (c1, new) = tcp_sock_alloc c 0 0 0 0 in
    let fresh : Slow × Bool = elim new [
      | none ↦ (c1, false)
      | some sid ↦ open_syn c1 listen_id sid rx
    ] in
    let handled : Slow × Bool =
      elim (tcp_flow_lookup c rx.local_ip rx.local_port rx.remote_ip rx.remote_port) [
        | some known ↦ (c, true)
        | none ↦ fresh
      ] in
    if not l.active || leb l.backlog_len l.backlog_used
    then (refuse c rx 0 (add32 rx.seq 1), true)
    else handled
