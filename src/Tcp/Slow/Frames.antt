-- ===== src/Tcp/Slow/Frames.antt =====
-- What the helpers of the slow path leave alone: the sockets.
use chamelio.Common.{refl, none, some, ℕ, ◌≡◌, arith, Option, ◌∙◌, inl, inr, Bool-cases, ◌==◌}
use chamelio.Tcp.Deq.{Command, ctl_tx}
use chamelio.Tcp.Lookup.{id_invalid}
use chamelio.Tcp.Slow.AppRes.{app_send, tcp_app_connect_res, tcp_app_listen_newconn}
use chamelio.Tcp.Slow.CtlTx.{send_pkt, send_sig, ctl_pkt_enqueue, tcp_ctl_tx, tcp_ctl_tx_resend}
use chamelio.Tcp.Slow.CtlTx.{tcp_ctl_tx_reply, CtlFields, tcp_queue_ctl_tx}
use chamelio.Tcp.Slow.Flow.{tcp_flow_remove, tcp_flow_insert}
use chamelio.Tcp.Slow.Listener.{tcp_listener_detach_child, tcp_listener_ready_push}
use chamelio.Tcp.Slow.Ports.{tcp_bound_remove}
use chamelio.Tcp.Slow.SockState.{let_go}
use chamelio.Tcp.Slow.State.{Slow, tsc_after_us, AppMsg, Status, slow_rdtsc, RetxKind}
use chamelio.Tcp.Slow.State.{tcp_sock_meta}
use chamelio.Tcp.Slow.Timer.{tcp_timeout_cancel, sock_retx_sched, tcp_timeout_arm}
use chamelio.Tcp.Sock.{Sock}

send_pkt_socks : (c : Slow) (f : CtlFields) → (send_pkt c f).0.socks ≡ c.socks
unfolding send_pkt
send_pkt_socks c f = ground arith

send_sig_socks :
    (c : Slow) (command : Command) (type : ℕ) → (send_sig c command type).0.socks ≡ c.socks
unfolding send_sig
send_sig_socks c command type = ground arith

ctl_pkt_enqueue_socks : (c : Slow) (f : CtlFields) → (ctl_pkt_enqueue c f).0.socks ≡ c.socks
unfolding ctl_pkt_enqueue
ctl_pkt_enqueue_socks c f =
    ground (arith, send_pkt_socks c f, send_sig_socks (send_pkt c f).0 ctl_tx tcp_queue_ctl_tx)

pub tcp_ctl_tx_socks : (c : Slow) (sid flags : ℕ) → (tcp_ctl_tx c sid flags).0.socks ≡ c.socks
unfolding tcp_ctl_tx
tcp_ctl_tx_socks c sid flags = search (ctl_pkt_enqueue_socks)

pub tcp_ctl_tx_resend_socks :
    (c : Slow) (sid flags : ℕ) → (tcp_ctl_tx_resend c sid flags).0.socks ≡ c.socks
unfolding tcp_ctl_tx_resend
tcp_ctl_tx_resend_socks c sid flags = search (ctl_pkt_enqueue_socks)

pub tcp_ctl_tx_reply_socks :
    (c : Slow) (li lp ri rp seq ack flags : ℕ)
    → (tcp_ctl_tx_reply c li lp ri rp seq ack flags).0.socks ≡ c.socks
unfolding tcp_ctl_tx_reply
tcp_ctl_tx_reply_socks c li lp ri rp seq ack flags = search (ctl_pkt_enqueue_socks)

pub app_send_socks : (c : Slow) (app k : ℕ) (m : AppMsg) → (app_send c app k m).0.socks ≡ c.socks
unfolding app_send
app_send_socks c app k m = ground arith

pub tcp_app_connect_res_socks :
    (c : Slow) (app k opaque : ℕ) (status : Status) (s : Option Sock)
    → (tcp_app_connect_res c app k opaque status s).0.socks ≡ c.socks
unfolding tcp_app_connect_res
tcp_app_connect_res_socks c app k opaque status none = search (app_send_socks)
tcp_app_connect_res_socks c app k opaque status (some s) = search (app_send_socks)

pub tcp_app_listen_newconn_socks :
    (c : Slow) (l sid : ℕ) → (tcp_app_listen_newconn c l sid).0.socks ≡ c.socks
unfolding tcp_app_listen_newconn
tcp_app_listen_newconn_socks c l sid = search (app_send_socks)

pub tcp_flow_remove_socks : (c : Slow) (sid : ℕ) → (tcp_flow_remove c sid).socks ≡ c.socks
unfolding tcp_flow_remove
tcp_flow_remove_socks c sid = ground arith

pub tcp_flow_insert_socks : (c : Slow) (sid : ℕ) → (tcp_flow_insert c sid).0.socks ≡ c.socks
unfolding tcp_flow_insert
tcp_flow_insert_socks c sid = ground arith

pub tcp_bound_remove_socks :
    (c : Slow) (port sid : ℕ) → (tcp_bound_remove c port sid).socks ≡ c.socks
unfolding tcp_bound_remove
tcp_bound_remove_socks c port sid = ground arith

pub tcp_timeout_cancel_socks : (c : Slow) (sid : ℕ) → (tcp_timeout_cancel c sid).socks ≡ c.socks
unfolding tcp_timeout_cancel
tcp_timeout_cancel_socks c sid = refl

pub sock_retx_sched_socks : (c : Slow) (sid : ℕ) → (sock_retx_sched c sid).0.socks ≡ c.socks
unfolding sock_retx_sched tsc_after_us slow_rdtsc
sock_retx_sched_socks c sid = ground arith

pub tcp_timeout_arm_socks :
    (c : Slow) (sid : ℕ) (kind : RetxKind) → (tcp_timeout_arm c sid kind).0.socks ≡ c.socks
unfolding tcp_timeout_arm tcp_timeout_cancel
tcp_timeout_arm_socks c sid kind = search (sock_retx_sched_socks)

pub tcp_listener_detach_child_socks :
    (c : Slow) (sid : ℕ) → (tcp_listener_detach_child c sid).socks ≡ c.socks
unfolding tcp_listener_detach_child
tcp_listener_detach_child_socks c sid = ground arith

pub tcp_listener_ready_push_socks :
    (c : Slow) (l sid : ℕ) → (tcp_listener_ready_push c l sid).0.socks ≡ c.socks
unfolding tcp_listener_ready_push
tcp_listener_ready_push_socks c l sid = ground arith

pub tcp_timeout_kept :
    (c : Slow) (sid : ℕ) → (tcp_flow_remove (tcp_timeout_cancel c sid) sid).socks ≡ c.socks
tcp_timeout_kept c sid =
    tcp_flow_remove_socks (tcp_timeout_cancel c sid) sid ∙ tcp_timeout_cancel_socks c sid

pub let_go_socks : (c : Slow) (sid : ℕ) → (let_go c sid).socks ≡ c.socks
unfolding let_go
let_go_socks c sid =
    let c1 = tcp_timeout_cancel c sid in
    let c2 = tcp_listener_detach_child c1 sid in
    let c3 = tcp_flow_remove c2 sid in
    let kept =
      tcp_flow_remove_socks c2 sid
      ∙ tcp_listener_detach_child_socks c1 sid
      ∙ tcp_timeout_cancel_socks c sid in
    elim (Bool-cases ((tcp_sock_meta c3 sid).listener_id == id_invalid)) [
      | inl e ↦ rw e (tcp_bound_remove_socks c3 (c3.socks sid).local_port (c3.socks sid).id ∙ kept)
      | inr e ↦ rw e kept
    ]
