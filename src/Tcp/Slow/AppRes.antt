-- ===== src/Tcp/Slow/AppRes.antt =====
-- tcp_app_res.c: the answers of the slow path to an application.
use chamelio.Common.{none, some, true, false, ℕ, Option, Bool}
use chamelio.Queue.{queue_tail, write_entry, queue_enqueue}
use chamelio.Tcp.Slow.State.{AppMsg, Actx, Slow, new_sock_res, Status, accept_res, setopt_res}
use chamelio.Tcp.Slow.State.{actx_of, listen_res, connect_res, success, listen_newconn, bind_res}
use chamelio.Tcp.Slow.State.{set_actx}
use chamelio.Tcp.Sock.{Sock}

-- The numbers of the answers in `enum tcp_queue_type`.
unfoldable pub res_type : AppMsg → ℕ
res_type (new_sock_res opaque sock_id core rx_len rx_off tx_len tx_off) = 4
res_type (setopt_res opaque ok) = 6
res_type (bind_res opaque ok) = 8
res_type (connect_res status opaque core local_ip local_port remote_ip remote_port) = 10
res_type (listen_res status opaque) = 12
res_type (listen_newconn opaque remote_ip remote_port) = 13
res_type
      (accept_res status opaque listen_opaque sock_id core rx_len rx_off tx_len tx_off local_ip
        local_port remote_ip remote_port) =
    15

-- `app_reserve`
unfoldable pub app_reserve : Actx → Option ℕ
app_reserve x = queue_tail x.slow_app_q x.slow_app_slots

-- `app_reserve`, the entry filled in, and `app_submit`, for context `k` of application `app`.
unfoldable pub app_send : Slow → (app k : ℕ) → AppMsg → Slow × Bool
unfolding app_reserve res_type
app_send c app k message =
    let x = actx_of c app k in
    let filled = λ (pos : ℕ). write_entry x.slow_app_slots pos message in
    elim (app_reserve x) [
      | none ↦ (c, false)
      | some pos ↦ elim (queue_enqueue x.slow_app_q (filled pos) (res_type message)) [
        | none ↦ (set_actx c app k (record x { slow_app_slots = filled pos }), false)
        | some r ↦ (set_actx c app k (record x { slow_app_q = r.0; slow_app_slots = r.1 }), true)
      ]
    ]

unfoldable pub tcp_app_listen_res : Slow → (app k opaque : ℕ) → Status → Slow × Bool
unfolding app_send
tcp_app_listen_res c app k opaque status = app_send c app k (listen_res status opaque)

-- The answer for a socket, or with zeros where there is none.
unfoldable pub tcp_app_connect_res : Slow → (app k opaque : ℕ) → Status → Option Sock → Slow × Bool
unfolding app_send
tcp_app_connect_res c app k opaque status none =
    app_send c app k (connect_res status opaque 0 0 0 0 0)
tcp_app_connect_res c app k opaque status (some s) =
    app_send c app k
      (connect_res status opaque s.core s.local_ip s.local_port s.remote_ip s.remote_port)

-- `tcp_sock_accept_res_fill`
abbrev pub tcp_sock_accept_res_fill : (listen_opaque : ℕ) → Sock → AppMsg
tcp_sock_accept_res_fill listen_opaque s =
    accept_res success s.opaque listen_opaque s.id s.core s.rx_len s.rx_off s.tx_len s.tx_off
      s.local_ip s.local_port s.remote_ip s.remote_port

unfoldable pub tcp_app_accept_ok : Slow → (app k listen_opaque : ℕ) → Sock → Slow × Bool
unfolding app_send
tcp_app_accept_ok c app k listen_opaque s =
    app_send c app k (tcp_sock_accept_res_fill listen_opaque s)

-- The answer of `tcp_app_accept_res` for a status other than 0.
unfoldable pub tcp_app_accept_fail : Slow → (app k listen_opaque opaque : ℕ) → Status → Slow × Bool
unfolding app_send
tcp_app_accept_fail c app k listen_opaque opaque status =
    app_send c app k (accept_res status opaque listen_opaque 0 0 0 0 0 0 0 0 0 0)

unfoldable pub tcp_app_listen_newconn : Slow → (listen_sid sid : ℕ) → Slow × Bool
unfolding app_send
tcp_app_listen_newconn c listen_sid sid =
    let l = c.socks listen_sid in
    let s = c.socks sid in
    app_send c l.app_id l.ctx_id (listen_newconn l.opaque s.remote_ip s.remote_port)

-- `tcp_sock_new_res_fill`
abbrev pub tcp_sock_new_res_fill : Sock → AppMsg
tcp_sock_new_res_fill s = new_sock_res s.opaque s.id s.core s.rx_len s.rx_off s.tx_len s.tx_off
