-- ===== src/Tcp/Slow/Requests.antt =====
-- tcp_app_req.c: the requests of the applications. A result that is not -1 is `true`; `app` and `k`
use chamelio.Common.{none, some, true, false, ℕ, Bool, if◌then◌else◌, ◌==◌, leb, ◌+◌, ltb, ◌&&◌}
use chamelio.Common.{◌||◌, not, ◌-◌}
use chamelio.Tcp.Lookup.{id_invalid}
use chamelio.Tcp.Slow.AppReq.{sock_autobind_port, sock_shutdown_start, sock_close_listen}
use chamelio.Tcp.Slow.AppReq.{sock_autobind_ip, sock_abort_open, sock_connect_start}
use chamelio.Tcp.Slow.AppReq.{sock_accept_own}
use chamelio.Tcp.Slow.AppRes.{app_send, app_reserve, tcp_app_connect_res, tcp_app_listen_res}
use chamelio.Tcp.Slow.AppRes.{tcp_app_accept_fail, tcp_app_accept_ok, tcp_sock_new_res_fill}
use chamelio.Tcp.Slow.Listener.{tcp_listener_ready_pop}
use chamelio.Tcp.Slow.Ports.{tcp_listener_insert, tcp_listener_remove, is_listen}
use chamelio.Tcp.Slow.SockState.{tcp_sock_alloc, tcp_sock_close_final}
use chamelio.Tcp.Slow.State.{Slow, Listener, actx_of, AppMsg, set_sock, min_port, Status}
use chamelio.Tcp.Slow.State.{setopt_res, max_port, set_listener, bind_res, einval, ebadf}
use chamelio.Tcp.Slow.State.{is_success, eagain, eopnotsupp, success, eaddrinuse, enomem}
use chamelio.Tcp.Sock.{listen, is_established, syn_sent, syn_recv, accept_pending, established}
use chamelio.Tcp.Sock.{closed, init, fin_wait1}

-- are the numbers of the context that asks.

-- SO_REUSEPORT and SHUT_RDWR of the system's socket.h.
abbrev pub so_reuseport : ℕ
so_reuseport = 15

abbrev pub shut_rdwr : ℕ
shut_rdwr = 2

unfoldable pub app_new_sock : Slow → (app k opaque : ℕ) → Slow × Bool
unfolding tcp_sock_alloc app_send
app_new_sock c app k opaque =
    let x = actx_of c app k in
    let (c1, new) = tcp_sock_alloc c opaque x.app_id x.id (x.app_bump_qids 0) in
    elim new [
      | none ↦ (c1, false)
      | some sid ↦ app_send c1 app k (tcp_sock_new_res_fill (c1.socks sid))
    ]

-- The answer `message done`, and whether the request succeeded.
unfoldable pub answer : Slow → (app k : ℕ) → (Bool → AppMsg) → (done : Bool) → Slow × Bool
unfolding app_send
answer c app k message done = let (c1, sent) = app_send c app k (message done) in (c1, sent && done)

unfoldable pub app_setopt : Slow → (app k opt sock_id opaque : ℕ) → Slow × Bool
unfolding answer app_reserve
app_setopt c app k opt sock_id opaque =
    let sock = set_sock c sock_id (record (c.socks sock_id) { reuport = 1 }) in
    let handled =
      if ltb sock_id c.n_socks && opt == so_reuseport
      then answer sock app k (setopt_res opaque) true
      else answer c app k (setopt_res opaque) false in
    elim (app_reserve (actx_of c app k)) [ none ↦ (c, false) | some pos ↦ handled ]

-- The port is missing: one is chosen, and likewise the address.
unfoldable pub bind_missing : Slow → ℕ → Slow × Bool
unfolding sock_autobind_port sock_autobind_ip
bind_missing c sid =
    let (c1, bound) =
      if (c.socks sid).local_port == 0 then sock_autobind_port c sid else (c, true) in
    (if (c1.socks sid).local_ip == 0 then sock_autobind_ip c1 sid else c1, bound)

unfoldable pub app_bind : Slow → (app k sock_id local_port local_ip opaque : ℕ) → Slow × Bool
unfolding bind_missing answer app_reserve
app_bind c app k sock_id local_port local_ip opaque =
    let port_ok = leb min_port local_port && leb local_port max_port || local_port == 0 in
    let (c1, bound) = bind_missing c sock_id in
    let named =
      set_sock c1 sock_id
        (record (c1.socks sock_id) { local_ip = local_ip; local_port = local_port }) in
    let handled =
      if ltb sock_id c.n_socks && port_ok
      then (if bound
          then answer named app k (bind_res opaque) true
          else answer c1 app k (bind_res opaque) false)
      else answer c app k (bind_res opaque) false in
    elim (app_reserve (actx_of c app k)) [ none ↦ (c, false) | some pos ↦ handled ]

unfoldable pub app_connect : Slow → (app k sock_id remote_ip remote_port opaque : ℕ) → Slow × Bool
unfolding tcp_app_connect_res sock_autobind_port sock_autobind_ip sock_connect_start
app_connect c app k sock_id remote_ip remote_port opaque =
    let s = c.socks sock_id in
    let (c1, bound) = if s.local_port == 0 then sock_autobind_port c sock_id else (c, true) in
    let c2 = if (c1.socks sock_id).local_ip == 0 then sock_autobind_ip c1 sock_id else c1 in
    let failed = λ (c' : Slow) (status : Status).
      (tcp_app_connect_res c' app k (c'.socks sock_id).opaque status (some (c'.socks sock_id))).0 in
    if leb c.n_socks sock_id || remote_port == 0
    then ((tcp_app_connect_res c app k opaque einval none).0, false)
    else if is_listen s.state
    then (failed c eopnotsupp, false)
    else if bound
    then sock_connect_start c2 sock_id remote_ip remote_port
    else (failed c1 eaddrinuse, false)

-- `calloc` for the ring of a listener: the next answer of the heap.
unfoldable pub calloc_ready : Slow → Bool × Slow
calloc_ready c = (c.callocs c.n_callocs, record c { n_callocs = c.n_callocs + 1 })

-- The listener starts with an empty ring.
abbrev pub listening : Listener → (sock_id backlog : ℕ) → Listener
listening l sock_id backlog = record l {
  active = true;
  sock_id = sock_id;
  backlog_len = backlog;
  backlog_used = 0;
  ready_head = 0;
  ready_used = 0;
}

-- A new ring of `backlog` places, all of them empty.
abbrev pub with_ring : Listener → (backlog : ℕ) → Listener
with_ring l backlog = record l {
  has_ready = true;
  ready_room = backlog;
  ready_sids = λ i. if ltb i backlog then id_invalid else l.ready_sids i;
}

unfoldable pub app_listen : Slow → (app k sock_id backlog opaque : ℕ) → Slow × Bool
unfolding tcp_app_listen_res tcp_listener_insert tcp_listener_remove calloc_ready
app_listen c app k sock_id backlog opaque =
    let s = c.socks sock_id in
    let reply = λ (c' : Slow) (status : Status). tcp_app_listen_res c' app k opaque status in
    let (c1, status) = tcp_listener_insert c s.local_port s.id (not (s.reuport == 0)) in
    let l = c1.listeners s.id in
    let (allocated, c2) = calloc_ready c1 in
    let started = λ (c' : Slow) (l' : Listener).
      let c3 = set_listener c' s.id (listening l' s.id backlog) in
      set_sock c3 sock_id (record (c3.socks sock_id) { state = listen }) in
    if leb c.n_socks sock_id
    then reply c ebadf
    else if s.local_port == 0
    then reply c einval
    else if not (is_success status)
    then reply c1 status
    else if l.active
    then reply (started c1 l) success
    else if allocated
    then reply (started c2 (with_ring l backlog)) success
    else reply (tcp_listener_remove c2 s.local_port s.id) enomem

unfoldable pub app_accept : Slow → (app k sock_id opaque : ℕ) → Slow × Bool
unfolding tcp_app_accept_fail tcp_app_accept_ok tcp_listener_ready_pop sock_accept_own
app_accept c app k sock_id opaque =
    let l = c.socks sock_id in
    let (c1, ready) = tcp_listener_ready_pop c l.id in
    let owned = λ (sid : ℕ).
      let c2 = sock_accept_own c1 sid app k opaque in
      let r = c2.listeners l.id in
      let c3 = set_listener c2 l.id (record r { backlog_used = r.backlog_used - 1 }) in
      tcp_app_accept_ok c3 app k (c3.socks sock_id).opaque (c3.socks sid) in
    let taken : Slow × Bool = elim ready [
      | none ↦ tcp_app_accept_fail c1 app k l.opaque opaque eagain
      | some sid ↦ owned sid
    ] in
    if leb c.n_socks sock_id
    then tcp_app_accept_fail c app k 0 opaque ebadf
    else if is_listen l.state
    then taken
    else tcp_app_accept_fail c app k l.opaque opaque einval

unfoldable pub app_shutdown : Slow → (sock_id how : ℕ) → Slow × Bool
unfolding sock_shutdown_start
app_shutdown c sock_id how =
    if ltb sock_id c.n_socks && how == shut_rdwr && is_established (c.socks sock_id).state
    then sock_shutdown_start c sock_id
    else (c, false)

unfoldable pub app_close : Slow → (sock_id : ℕ) → Slow × Bool
unfolding sock_close_listen sock_abort_open sock_shutdown_start tcp_sock_close_final
app_close c sock_id =
    let ended : Slow × Bool = elim (c.socks sock_id).state [
      | listen ↦ (sock_close_listen c sock_id, true)
      | syn_sent ↦ (sock_abort_open c sock_id, true)
      | syn_recv ↦ (sock_abort_open c sock_id, true)
      | accept_pending ↦ (sock_abort_open c sock_id, true)
      | established ↦ sock_shutdown_start c sock_id
      | closed ↦ (tcp_sock_close_final c sock_id, true)
      | init ↦ (tcp_sock_close_final c sock_id, true)
      | fin_wait1 ↦ (tcp_sock_close_final c sock_id, true)
    ] in
    if leb c.n_socks sock_id then (c, false) else ended
