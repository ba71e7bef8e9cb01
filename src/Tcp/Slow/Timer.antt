-- ===== src/Tcp/Slow/Timer.antt =====
-- tcp_timeout.c: the timeout of a socket is set and cancelled.
use chamelio.Common.{none, some, true, false, ℕ, Option, Bool}
use chamelio.Tcp.Slow.State.{Slow, tsc_after_us, tcp_sock_meta, RetxKind, set_meta, retx_none}
use chamelio.Tomgr.{Tomgr, tomgr_insert, tomgr_cancel}

-- TCP_TO_RETX, TCP_RETX_US and TCP_RETX_RETRIES.
abbrev pub tcp_to_retx : ℕ
tcp_to_retx = 1

abbrev pub tcp_retx_us : ℕ
tcp_retx_us = 1000

abbrev pub tcp_retx_retries : ℕ
tcp_retx_retries = 3

unfoldable pub cancel_timer : Tomgr → Option ℕ → Tomgr
cancel_timer timers none = timers
cancel_timer timers (some e) = (tomgr_cancel timers e).0

unfoldable pub tcp_timeout_cancel : Slow → ℕ → Slow
unfolding cancel_timer
tcp_timeout_cancel c sid =
    let m = tcp_sock_meta c sid in
    set_meta (record c { tomgr = cancel_timer c.tomgr m.timer }) sid
      (record m { timer = none; retx_kind = retx_none; retx_left = 0 })

unfoldable pub sock_retx_sched : Slow → ℕ → Slow × Bool
unfolding tsc_after_us
sock_retx_sched c sid =
    let m = tcp_sock_meta c sid in
    let (to, c1) = tsc_after_us c tcp_retx_us in
    let (timers, entry) = tomgr_insert c1.tomgr tcp_to_retx to sid in
    let c2 = record c1 { tomgr = timers } in
    elim entry [
      | none ↦
          (set_meta c2 sid (record m { timer = none; retx_kind = retx_none; retx_left = 0 }), false)
      | some e ↦ (set_meta c2 sid (record m { timer = some e }), true)
    ]

unfoldable pub tcp_timeout_arm : Slow → ℕ → RetxKind → Slow × Bool
unfolding tcp_timeout_cancel sock_retx_sched
tcp_timeout_arm c sid kind =
    let c1 = tcp_timeout_cancel c sid in
    let m = record (tcp_sock_meta c1 sid) { retx_kind = kind; retx_left = tcp_retx_retries } in
    sock_retx_sched (set_meta c1 sid m) sid
