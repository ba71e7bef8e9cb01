-- ===== src/Tcp/Slow/Timeout.antt =====
-- tcp_timeout.c: a timeout sends the control packet again, or gives the connection up.
use chamelio.Common.{zero, suc, none, some, true, false, ℕ, Option, Bool, u32, if◌then◌else◌, ◌+◌}
use chamelio.Common.{has_bit, ◌-◌, leb, ◌^◌, ◌==◌, not}
use chamelio.Tcp.Fill.{ecn_bit}
use chamelio.Tcp.Slow.CtlTx.{tcp_ctl_tx_reply, syn_flag, rst_ack_flags, ece_cwr_flags}
use chamelio.Tcp.Slow.CtlTx.{syn_ack_flags, ece_flag, fin_ack_flags}
use chamelio.Tcp.Slow.SockState.{tcp_sock_connect_fail, tcp_sock_close_final}
use chamelio.Tcp.Slow.State.{Slow, RetxKind, slow_rdtsc, tcp_sock_meta, set_meta, slow_batch_size}
use chamelio.Tcp.Slow.State.{retx_none, retx_syn, etimedout, retx_synack, retx_fin}
use chamelio.Tcp.Slow.Timer.{sock_retx_sched}
use chamelio.Tcp.Sock.{Sock}
use chamelio.Tomgr.{tomgr_peek, tomgr_pop}

unfoldable pub sock_retx_seq : Sock → ℕ
sock_retx_seq s = u32 (s.tx_seq + s.tx_pending + 2 ^ 32 - 1)

-- `flags | (sock->flags & TCP_SOCK_FLAG_ECN ? more : 0)`, where the bits are not set yet.
abbrev pub with_ecn : Sock → (flags more : ℕ) → ℕ
with_ecn s flags more = if has_bit s.flags ecn_bit then flags + more else flags

unfoldable pub sock_retx_flags : Sock → RetxKind → Option ℕ
sock_retx_flags s retx_syn = some (with_ecn s syn_flag ece_cwr_flags)
sock_retx_flags s retx_synack = some (with_ecn s syn_ack_flags ece_flag)
sock_retx_flags s retx_fin = some fin_ack_flags
sock_retx_flags s retx_none = none

-- A packet about the connection that is not filled from the socket.
abbrev pub sock_reply : Slow → ℕ → (seq flags : ℕ) → Slow × Bool
sock_reply c sid seq flags =
    let s = c.socks sid in
    tcp_ctl_tx_reply c s.local_ip s.local_port s.remote_ip s.remote_port seq s.rx_seq flags

unfoldable pub sock_retx_tx : Slow → ℕ → Slow × Bool
unfolding sock_retx_flags sock_retx_seq tcp_ctl_tx_reply
sock_retx_tx c sid = elim (sock_retx_flags (c.socks sid) (tcp_sock_meta c sid).retx_kind) [
  | none ↦ (c, false)
  | some flags ↦ sock_reply c sid (sock_retx_seq (c.socks sid)) flags
]

unfoldable pub reset_and_close : Slow → ℕ → Slow
unfolding tcp_ctl_tx_reply tcp_sock_close_final
reset_and_close c sid =
    tcp_sock_close_final (sock_reply c sid (c.socks sid).tx_seq rst_ack_flags).0 sid

unfoldable pub sock_retx_expire : Slow → ℕ → Slow
unfolding tcp_sock_connect_fail reset_and_close
sock_retx_expire c sid = elim (tcp_sock_meta c sid).retx_kind [
  | retx_syn ↦ tcp_sock_connect_fail c sid etimedout
  | retx_synack ↦ reset_and_close c sid
  | retx_fin ↦ reset_and_close c sid
  | retx_none ↦ c
]

unfoldable pub sock_on_timeout : Slow → ℕ → Slow × Bool
unfolding sock_retx_expire sock_retx_tx sock_retx_sched
sock_on_timeout c sid =
    let (c1, sent) = sock_retx_tx c sid in
    let m = tcp_sock_meta c1 sid in
    let (c2, set) =
      sock_retx_sched (set_meta c1 sid (record m { retx_left = m.retx_left - 1 })) sid in
    if (tcp_sock_meta c sid).retx_left == 0
    then (sock_retx_expire c sid, true)
    else if not sent
    then (sock_retx_expire c1 sid, false)
    else if set
    then (c2, true)
    else (sock_retx_expire c2 sid, false)

is_retx_none : RetxKind → Bool
is_retx_none retx_none = true
is_retx_none _ = false

-- The timeout of a socket has come: it is out of the heap.
unfoldable pub on_due : Slow → ℕ → Slow
unfolding is_retx_none sock_on_timeout
on_due c sid =
    let c1 = set_meta c sid (record (tcp_sock_meta c sid) { timer = none }) in
    if is_retx_none (tcp_sock_meta c sid).retx_kind then c1 else (sock_on_timeout c1 sid).0

-- The rounds that are left of SLOW_BATCH_SIZE.
unfoldable pub timeout_rounds : (rounds : ℕ) → Slow → Slow × Bool
unfolding slow_rdtsc on_due
timeout_rounds zero c = (c, true)
timeout_rounds (suc n) c = elim (tomgr_peek c.tomgr) [
  | none ↦ (c, true)
  | some e ↦
      let (now, c1) = slow_rdtsc c in
      let due : Slow × Bool = elim (tomgr_pop c1.tomgr).1 [
        | none ↦ (record c1 { tomgr = (tomgr_pop c1.tomgr).0 }, false)
        | some e' ↦
            let c2 = record c1 { tomgr = (tomgr_pop c1.tomgr).0 } in
            timeout_rounds n (on_due c2 (c2.tomgr.entries e').data_ptr)
      ] in
      if leb now (c.tomgr.entries e).to then (c1, true) else due
]

unfoldable pub tcp_timeout_poll : Slow → Slow × Bool
unfolding timeout_rounds
tcp_timeout_poll c = timeout_rounds slow_batch_size c
