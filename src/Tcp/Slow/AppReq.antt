-- ===== src/Tcp/Slow/AppReq.antt =====
-- tcp_app_req.c: the helpers of the requests, which change a socket's state. A result that is not
use chamelio.Common.{zero, suc, true, false, ℕ, Bool, if◌then◌else◌, set_bit, ◌==◌, ◌&&◌}
use chamelio.Common.{clear_bit, not, ◌+◌}
use chamelio.Tcp.Fill.{ecn_bit}
use chamelio.Tcp.Lookup.{id_invalid}
use chamelio.Tcp.Slow.CcInit.{tcp_sock_cc_init}
use chamelio.Tcp.Slow.CtlTx.{tcp_ctl_tx, rst_ack_flags, rst_flag, fin_ack_flags, syn_flag}
use chamelio.Tcp.Slow.CtlTx.{ece_cwr_flags}
use chamelio.Tcp.Slow.Flow.{tcp_flow_insert}
use chamelio.Tcp.Slow.Listener.{tcp_listener_reset}
use chamelio.Tcp.Slow.Ports.{tcp_bound_find_free, tcp_listener_remove, tcp_bound_insert}
use chamelio.Tcp.Slow.SockState.{tcp_sock_close_final, tcp_sock_connect_fail}
use chamelio.Tcp.Slow.State.{Slow, tcp_cc_ecn_enabled, set_sock, actx_of, set_meta, tcp_sock_meta}
use chamelio.Tcp.Slow.State.{is_success, retx_fin, retx_syn, enobufs, eagain}
use chamelio.Tcp.Slow.Timeout.{with_ecn}
use chamelio.Tcp.Slow.Timer.{tcp_timeout_arm}
use chamelio.Tcp.Sock.{established, syn_sent, fin_wait1, is_closed}

-- -1 is `true`.

unfoldable pub sock_autobind_port : Slow → ℕ → Slow × Bool
unfolding tcp_bound_find_free tcp_bound_insert
sock_autobind_port c sid =
    let port = tcp_bound_find_free c in
    let (c1, status) = tcp_bound_insert c port (c.socks sid).id false in
    let c2 = set_meta c1 sid (record (tcp_sock_meta c1 sid) { auto_bound = true }) in
    let bound = set_sock c2 sid (record (c2.socks sid) { local_port = port }) in
    if port == 0 then (c, false) else if is_success status then (bound, true) else (c1, false)

unfoldable pub sock_autobind_ip : Slow → ℕ → Slow
sock_autobind_ip c sid = set_sock c sid (record (c.socks sid) { local_ip = c.local_ip })

unfoldable pub sock_connect_start : Slow → (sid remote_ip remote_port : ℕ) → Slow × Bool
unfolding tcp_cc_ecn_enabled tcp_flow_insert tcp_ctl_tx tcp_timeout_arm tcp_sock_connect_fail
sock_connect_start c sid remote_ip remote_port =
    let s = c.socks sid in
    let s1 = record s {
      remote_ip = remote_ip;
      remote_port = remote_port;
      tx_seq = 1;
      tx_pending = 1;
      rx_seq = 0;
      state = syn_sent;
      flags = if tcp_cc_ecn_enabled c then set_bit s.flags ecn_bit else clear_bit s.flags ecn_bit;
    } in
    let (c2, inserted) = tcp_flow_insert (set_sock c sid s1) sid in
    let (c3, sent) = tcp_ctl_tx c2 sid (with_ecn (c2.socks sid) syn_flag ece_cwr_flags) in
    let (c4, armed) = tcp_timeout_arm c3 sid retx_syn in
    if not inserted
    then (tcp_sock_connect_fail c2 sid enobufs, false)
    else if not sent
    then (tcp_sock_connect_fail c3 sid eagain, false)
    else if armed
    then (c4, true)
    else (tcp_sock_connect_fail c4 sid enobufs, false)

-- Context `k` of application `app` takes a connection over.
unfoldable pub sock_accept_own : Slow → (sid app k opaque : ℕ) → Slow
unfolding tcp_sock_cc_init
sock_accept_own c sid app k opaque =
    let x = actx_of c app k in
    let s = c.socks sid in
    let s1 = record s {
      opaque = opaque;
      app_bump_qid = x.app_bump_qids s.core;
      app_id = x.app_id;
      ctx_id = x.id;
      state = established;
    } in
    let c1 = set_meta c sid (record (tcp_sock_meta c sid) { listener_id = id_invalid }) in
    tcp_sock_cc_init (set_sock c1 sid s1) sid

unfoldable pub sock_shutdown_start : Slow → ℕ → Slow × Bool
unfolding tcp_ctl_tx tcp_sock_close_final tcp_timeout_arm
sock_shutdown_start c sid =
    let s = c.socks sid in
    let s1 = record s { flags = set_bit (set_bit s.flags 0) 1; state = fin_wait1 } in
    let (c2, sent) = tcp_ctl_tx (set_sock c sid s1) sid fin_ack_flags in
    let (c3, armed) = tcp_timeout_arm c2 sid retx_fin in
    if not sent
    then (tcp_sock_close_final c2 sid, false)
    else if armed
    then (c3, true)
    else (tcp_sock_close_final c3 sid, false)

unfoldable pub sock_abort_open : Slow → ℕ → Slow
unfolding tcp_ctl_tx tcp_sock_close_final
sock_abort_open c sid =
    let s = c.socks sid in
    let reset = (tcp_ctl_tx c sid (if s.rx_seq == 0 then rst_flag else rst_ack_flags)).0 in
    tcp_sock_close_final (if s.remote_port == 0 then c else reset) sid

-- The children of a listener among the `n` sockets from `i` on.
unfoldable pub abort_children_from : (n : ℕ) → Slow → (i listener_id : ℕ) → Slow
unfolding tcp_ctl_tx tcp_sock_close_final
abort_children_from zero c i listener_id = c
abort_children_from (suc n) c i listener_id =
    let s = c.socks i in
    let reset = (tcp_ctl_tx c i rst_ack_flags).0 in
    let ended = tcp_sock_close_final (if s.remote_port == 0 then c else reset) i in
    let child = (tcp_sock_meta c i).listener_id == listener_id && not (is_closed s.state) in
    abort_children_from n (if child then ended else c) (i + 1) listener_id

unfoldable pub tcp_listener_abort_children : Slow → (listen_sid : ℕ) → Slow
unfolding abort_children_from
tcp_listener_abort_children c listen_sid = abort_children_from c.n_socks c 0 (c.socks listen_sid).id

unfoldable pub sock_close_listen : Slow → ℕ → Slow
unfolding tcp_listener_remove tcp_listener_abort_children tcp_listener_reset tcp_sock_close_final
sock_close_listen c sid =
    let s = c.socks sid in
    let c1 = tcp_listener_abort_children (tcp_listener_remove c s.local_port s.id) sid in
    tcp_sock_close_final (tcp_listener_reset c1 (c1.socks sid).id) sid
