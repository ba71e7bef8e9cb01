-- ===== src/Tcp/Slow/CcInit.antt =====
-- tcp_cc.c: what a socket's congestion control starts from.
use chamelio.Common.{true, false, ℕ, Bool, if◌then◌else◌, ◌==◌}
use chamelio.Tcp.Slow.State.{Meta, Slow, Config, slow_rdtsc, set_sock, tcp_sock_meta, set_meta}
use chamelio.Tcp.Slow.State.{cc_other, cc_const_rate_algo, cc_dctcp_rate_algo}
use chamelio.Tcp.Sock.{Sock}

abbrev cc_meta_reset : Meta → Meta
cc_meta_reset m = record m {
  cc_tsc = 0;
  cc_rtt = 0;
  cc_last_drops = 0;
  cc_last_acks = 0;
  cc_last_ackb = 0;
  cc_last_ecnb = 0;
  cc_rexmits = 0;
  cnt_tx_pending = 0;
  ts_tx_pending = 0;
  dctcp_unproc_acks = 0;
  dctcp_unproc_ackb = 0;
  dctcp_unproc_ecnb = 0;
  dctcp_unproc_drops = 0;
  dctcp_ecn_rate = 0;
  dctcp_act_rate = 0;
  dctcp_slowstart = false;
}

abbrev pub cc_sock_cleared : Sock → Sock
cc_sock_cleared s = record s {
  cc_acks = 0;
  cc_ackb = 0;
  cc_ecnb = 0;
  cc_drops = 0;
  cc_rate = 0;
  tx_ready_tsc = 0;
  recovery_active = false;
  recovery_end_seq = 0;
}

unfoldable pub cc_sock_reset : Slow → ℕ → Slow
cc_sock_reset c sid =
    set_sock (set_meta c sid (cc_meta_reset (tcp_sock_meta c sid))) sid
      (cc_sock_cleared (c.socks sid))

unfoldable pub tcp_sock_cc_reset : Slow → ℕ → Slow
unfolding cc_sock_reset
tcp_sock_cc_reset c sid = cc_sock_reset c sid

-- The first rate, and whether the socket is in slow start.
unfoldable pub cc_init_rate : Config → Bool → ℕ × Bool
cc_init_rate config slowstart = elim config.cc_algorithm [
  | cc_other ↦ (0, slowstart)
  | cc_const_rate_algo ↦ (config.cc_const_rate, slowstart)
  | cc_dctcp_rate_algo ↦ (config.cc_dctcp_init, true)
]

-- The socket with its first rate.
abbrev pub cc_started : Config → Sock → Sock
cc_started config s = record (cc_sock_cleared s) { cc_rate = (cc_init_rate config false).0 }

unfoldable pub tcp_sock_cc_init : Slow → ℕ → Slow
unfolding cc_sock_reset slow_rdtsc cc_init_rate
tcp_sock_cc_init c sid =
    let (now, c1) = slow_rdtsc (cc_sock_reset c sid) in
    let rtt_est = (c.socks sid).rtt_est in
    let m = record (tcp_sock_meta c1 sid) {
      cc_tsc = now;
      cc_rtt = if rtt_est == 0 then c.config.cc_rtt_init else rtt_est;
      dctcp_slowstart = (cc_init_rate c.config false).1;
    } in
    set_sock (set_meta c1 sid m) sid (cc_started c.config (c.socks sid))
