-- ===== src/Tcp/Slow/Poll.antt =====
-- tcp_app_poll of tcp_app_req.c, and the rounds of the main loop of tcp_slow.c.
use chamelio.Common.{zero, suc, none, some, ℕ, update, if◌then◌else◌, Option, leb, ◌+◌, ◌%◌, ◌||◌}
use chamelio.Common.{◌==◌}
use chamelio.Queue.{queue_dequeue, queue_head}
use chamelio.Tcp.Slow.CcPoll.{tcp_cc_poll}
use chamelio.Tcp.Slow.Requests.{app_new_sock, app_setopt, app_bind, app_connect, app_listen}
use chamelio.Tcp.Slow.Requests.{app_accept, app_shutdown, app_close}
use chamelio.Tcp.Slow.RxCtl.{tcp_fast_poll}
use chamelio.Tcp.Slow.State.{Slow, actx_of, slow_batch_size, set_actx, AppReq, new_sock_req}
use chamelio.Tcp.Slow.State.{setopt_req, bind_req, connect_req, listen_req, accept_req}
use chamelio.Tcp.Slow.State.{shutdown_req, close_req, other_req}
use chamelio.Tcp.Slow.Timeout.{tcp_timeout_poll}

unfoldable pub app_request : Slow → (app k : ℕ) → AppReq → Slow
unfolding app_new_sock app_setopt app_bind app_connect app_listen app_accept app_shutdown app_close
app_request c app k (new_sock_req opaque) = (app_new_sock c app k opaque).0
app_request c app k (setopt_req opt sock_id opaque) = (app_setopt c app k opt sock_id opaque).0
app_request c app k (bind_req sock_id local_port local_ip opaque) =
    (app_bind c app k sock_id local_port local_ip opaque).0
app_request c app k (connect_req sock_id remote_ip remote_port opaque) =
    (app_connect c app k sock_id remote_ip remote_port opaque).0
app_request c app k (listen_req sock_id backlog opaque) =
    (app_listen c app k sock_id backlog opaque).0
app_request c app k (accept_req sock_id opaque) = (app_accept c app k sock_id opaque).0
app_request c app k (shutdown_req sock_id how opaque) = (app_shutdown c sock_id how).0
app_request c app k (close_req sock_id opaque) = (app_close c sock_id).0
app_request c app k other_req = c

-- `queue_dequeue` on the requests of a context.
unfoldable pub drop_request : Slow → (app k : ℕ) → Slow
drop_request c app k =
    let x = actx_of c app k in
    elim (queue_dequeue x.app_slow_q x.app_slow_slots) [
      | none ↦ c
      | some r ↦ set_actx c app k (record x { app_slow_q = r.0; app_slow_slots = r.1 })
    ]

abbrev pub set_next_ctx : Slow → (app next : ℕ) → Slow
set_next_ctx c app next = record c {
  apps = update c.apps app (record (c.apps app) { next_ctx = next });
}

-- The counters of the loop.
pub record Counts : Type 0 where
  pub msg_nr : ℕ
  pub app_nr : ℕ
  pub ctx_nr : ℕ

-- The contexts of the application that is polled have all been looked at: the next one is polled.
unfoldable pub next_app_of : Slow → Counts → Slow × Counts
next_app_of c n =
    if leb (c.apps c.next_app).n_ctxs n.ctx_nr
    then (record c { next_app = (c.next_app + 1) % c.n_apps }, record n { app_nr = n.app_nr + 1 })
    else (c, n)

-- `none` means that the fuel ran out before the loop ended.
unfoldable pub app_rounds : (fuel : ℕ) → Slow → Counts → Option Slow
unfolding next_app_of app_request drop_request
app_rounds zero c n = none
app_rounds (suc fuel) c n =
    let (c1, n1) = next_app_of c n in
    let app = c1.next_app in
    let a = c1.apps app in
    let k = a.next_ctx in
    let x = a.ctxs k in
    let empty =
      app_rounds fuel (set_next_ctx c1 app ((k + 1) % a.n_ctxs))
        (record n1 { ctx_nr = n1.ctx_nr + 1 }) in
    let full = λ (pos : ℕ).
      app_rounds fuel (drop_request (app_request c1 app k (x.app_slow_slots.entry pos)) app k)
        (record n1 { msg_nr = n1.msg_nr + 1 }) in
    let round : Option Slow = elim (queue_head x.app_slow_q x.app_slow_slots) [
      | none ↦ empty
      | some pos ↦ full pos
    ] in
    if leb slow_batch_size n.msg_nr || c.n_apps == 0
    then some c
    else if leb c1.n_apps n1.app_nr || a.n_ctxs == 0
    then some c1
    else round

-- Every round handles a message, or looks at one more context or application.
abbrev pub app_fuel : Slow → ℕ
app_fuel c = slow_batch_size + 256 + c.n_apps + 1

unfoldable pub tcp_app_poll : Slow → Option Slow
unfolding app_rounds
tcp_app_poll c = app_rounds (app_fuel c) c (record { msg_nr = 0; app_nr = 0; ctx_nr = 0 })

-- One round of the loop of `main`, without the sockets through which applications register.
unfoldable pub slow_round : Slow → Option Slow
unfolding tcp_app_poll tcp_fast_poll tcp_cc_poll tcp_timeout_poll
slow_round c = elim (tcp_app_poll c) [
  | none ↦ none
  | some c1 ↦ some (tcp_timeout_poll (tcp_cc_poll (tcp_fast_poll c1).0).0).0
]
