-- ===== src/Tcp/Slow/SockState.antt =====
-- tcp_sock_state.c: a socket is made, a connection ends.
use chamelio.Common.{none, some, false, Option, ℕ, ◌+◌, u32, ◌*◌, if◌then◌else◌, leb, ◌==◌}
use chamelio.Common.{update}
use chamelio.Tcp.Lookup.{id_invalid}
use chamelio.Tcp.Slow.AppRes.{tcp_app_connect_res}
use chamelio.Tcp.Slow.CcInit.{tcp_sock_cc_reset}
use chamelio.Tcp.Slow.Flow.{tcp_flow_remove}
use chamelio.Tcp.Slow.Listener.{tcp_listener_detach_child}
use chamelio.Tcp.Slow.Ports.{tcp_bound_remove}
use chamelio.Tcp.Slow.State.{Slow, Region, set_sock, set_meta, tcp_sock_meta, Status, max_sockets}
use chamelio.Tcp.Slow.Timer.{tcp_timeout_cancel}
use chamelio.Tcp.Sock.{Sock, closed, init}

-- `memset(sock, 0, sizeof(*sock))`
abbrev pub zero_sock : Sock
zero_sock = record {
  id = 0;
  opaque = 0;
  core = 0;
  app_bump_qid = 0;
  local_ip = 0;
  remote_ip = 0;
  local_port = 0;
  remote_port = 0;
  state = closed;
  reuport = 0;
  app_id = 0;
  ctx_id = 0;
  flags = 0;
  lock = 0;
  rx_len = 0;
  rx_avail = 0;
  rx_head = 0;
  rx_off = 0;
  tx_len = 0;
  tx_avail = 0;
  tx_head = 0;
  tx_off = 0;
  tx_seq = 0;
  tx_pending = 0;
  rx_seq = 0;
  tx_remote_avail = 0;
  tx_rexmit_seq = 0;
  tx_rexmit_end_seq = 0;
  rx_dupack_cnt = 0;
  cc_acks = 0;
  cc_ackb = 0;
  cc_ecnb = 0;
  cc_drops = 0;
  cc_rate = 0;
  ts_recent = 0;
  rtt_est = 0;
  tx_ready_tsc = 0;
  recovery_active = false;
  recovery_end_seq = 0;
}

-- `cham_new_queue`: the next answer of the shared memory.
unfoldable pub cham_new_queue : Slow → Option Region × Slow
cham_new_queue c = (c.regions c.n_regions, record c { n_regions = c.n_regions + 1 })

-- The socket before it has its rings.
abbrev pub fresh_sock : Slow → (opaque app_id ctx_id app_bump_qid : ℕ) → Sock
fresh_sock c opaque app_id ctx_id app_bump_qid = record zero_sock {
  id = c.n_socks;
  opaque = opaque;
  app_bump_qid = app_bump_qid;
  local_ip = c.local_ip;
  state = init;
  app_id = app_id;
  ctx_id = ctx_id;
}

abbrev pub with_rx : Sock → Region → Sock
with_rx s r = record s { rx_len = u32 (r.elsize * r.nelems); rx_off = r.off }

abbrev pub with_tx : Sock → Region → Sock
with_tx s r = record s { tx_len = u32 (r.elsize * r.nelems); tx_off = r.off }

-- The socket gets its place in the map and starts with no listener.
unfoldable pub add_sock : Slow → Sock → Slow
add_sock c s = record c {
  socks = update c.socks c.n_socks s;
  sock_meta =
      update c.sock_meta s.id
        (record (c.sock_meta s.id) { listener_id = id_invalid; auto_bound = false });
  n_socks = c.n_socks + 1;
}

-- The socket's number, or `none` for -1; a socket that got one ring only stays behind in the map.
unfoldable pub tcp_sock_alloc : Slow → (opaque app_id ctx_id app_bump_qid : ℕ) → Slow × Option ℕ
unfolding cham_new_queue add_sock
tcp_sock_alloc c opaque app_id ctx_id app_bump_qid =
    let sid = c.n_socks in
    let s = fresh_sock c opaque app_id ctx_id app_bump_qid in
    let (rx, c1) = cham_new_queue (set_sock c sid s) in
    let (tx, c2) = cham_new_queue c1 in
    let full = λ (r : Region). elim tx as (λ _. Slow × Option ℕ) [
      | none ↦ (set_sock c2 sid (with_rx s r), none)
      | some t ↦ (add_sock c2 (with_tx (with_rx s r) t), some sid)
    ] in
    if leb max_sockets c.n_socks then (c, none) else elim rx [ none ↦ (c1, none) | some r ↦ full r ]

unfoldable pub sock_conn_reset : Sock → Sock
sock_conn_reset s = record s {
  flags = 0;
  remote_ip = 0;
  remote_port = 0;
  tx_seq = 0;
  tx_pending = 0;
  rx_seq = 0;
  tx_remote_avail = 0;
  tx_rexmit_seq = 0;
  tx_rexmit_end_seq = 0;
  rx_dupack_cnt = 0;
  ts_recent = 0;
  rtt_est = 0;
  tx_ready_tsc = 0;
}

-- The timeout, the listener, the flow table and the port let the socket go; the port where the
-- socket has no listener (any more).
unfoldable pub let_go : Slow → ℕ → Slow
unfolding tcp_timeout_cancel tcp_listener_detach_child tcp_flow_remove tcp_bound_remove
let_go c sid =
    let c1 = tcp_flow_remove (tcp_listener_detach_child (tcp_timeout_cancel c sid) sid) sid in
    if (tcp_sock_meta c1 sid).listener_id == id_invalid
    then tcp_bound_remove c1 (c1.socks sid).local_port (c1.socks sid).id
    else c1

abbrev pub clear_auto_bound : Slow → ℕ → Slow
clear_auto_bound c sid = set_meta c sid (record (tcp_sock_meta c sid) { auto_bound = false })

unfoldable pub mark_closed : Slow → ℕ → Slow
unfolding sock_conn_reset
mark_closed c sid = set_sock c sid (sock_conn_reset (record (c.socks sid) { state = closed }))

unfoldable pub tcp_sock_close_final : Slow → ℕ → Slow
unfolding let_go mark_closed tcp_sock_cc_reset
tcp_sock_close_final c sid =
    tcp_sock_cc_reset (clear_auto_bound (mark_closed (let_go c sid) sid) sid) sid

unfoldable pub sock_autobind_drop : Slow → ℕ → Slow
unfolding tcp_bound_remove
sock_autobind_drop c sid =
    let c1 = tcp_bound_remove c (c.socks sid).local_port (c.socks sid).id in
    let c2 = set_sock c1 sid (record (c1.socks sid) { local_port = 0; local_ip = c1.local_ip }) in
    let c3 = set_meta c2 sid (record (tcp_sock_meta c2 sid) { auto_bound = false }) in
    if (tcp_sock_meta c sid).auto_bound then c3 else c

unfoldable pub forget_conn : Slow → ℕ → Slow
unfolding sock_conn_reset
forget_conn c sid = set_sock c sid (sock_conn_reset (c.socks sid))

unfoldable pub mark_init : Slow → ℕ → Slow
mark_init c sid = set_sock c sid (record (c.socks sid) { state = init })

-- The answer to the application that owns the socket.
unfoldable pub answer_connect : Slow → ℕ → Status → Slow
unfolding tcp_app_connect_res
answer_connect c sid status =
    let s = c.socks sid in (tcp_app_connect_res c s.app_id s.ctx_id s.opaque status (some s)).0

unfoldable pub tcp_sock_connect_fail : Slow → ℕ → Status → Slow
unfolding tcp_timeout_cancel tcp_flow_remove sock_autobind_drop forget_conn tcp_sock_cc_reset
    mark_init answer_connect
tcp_sock_connect_fail c sid err =
    let c1 = sock_autobind_drop (tcp_flow_remove (tcp_timeout_cancel c sid) sid) sid in
    answer_connect (mark_init (tcp_sock_cc_reset (forget_conn c1 sid) sid) sid) sid err
