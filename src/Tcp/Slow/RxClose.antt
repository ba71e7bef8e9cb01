-- ===== src/Tcp/Slow/RxClose.antt =====
-- tcp_rx_close.c: a control packet for a connection that is open or that closes.
use chamelio.Common.{ℕ, if◌then◌else◌, add32, has_bit, ◌&&◌, ◌==◌}
use chamelio.Tcp.Slow.CtlTx.{tcp_ctl_tx, ack_flag, rst_bit, fin_bit, ack_bit}
use chamelio.Tcp.Slow.SockState.{tcp_sock_close_final}
use chamelio.Tcp.Slow.State.{Slow, RxCtl, set_sock}
use chamelio.Tcp.Slow.Timer.{tcp_timeout_cancel}

-- The peer's FIN is counted and acknowledged.
abbrev pub ack_fin : Slow → ℕ → RxCtl → Slow
ack_fin c sid rx =
    (tcp_ctl_tx (set_sock c sid (record (c.socks sid) { rx_seq = add32 rx.seq 1 })) sid ack_flag).0

unfoldable pub tcp_rx_established : Slow → ℕ → RxCtl → Slow
unfolding tcp_sock_close_final tcp_ctl_tx
tcp_rx_established c sid rx =
    if has_bit rx.flags rst_bit
    then tcp_sock_close_final c sid
    else if has_bit rx.flags fin_bit
    then tcp_sock_close_final (ack_fin c sid rx) sid
    else c

-- The peer's acknowledgment of our FIN ends the connection, and so does its own FIN.
unfoldable pub fin_wait1_end : Slow → ℕ → RxCtl → Slow
unfolding tcp_sock_close_final tcp_timeout_cancel
fin_wait1_end c sid rx =
    let done = tcp_sock_close_final (tcp_timeout_cancel c sid) sid in
    if has_bit rx.flags ack_bit && rx.ack == (c.socks sid).tx_seq
    then done
    else if has_bit rx.flags fin_bit
    then done
    else c

unfoldable pub fin_acked : Slow → ℕ → RxCtl → Slow
unfolding tcp_ctl_tx
fin_acked c sid rx = if has_bit rx.flags fin_bit then ack_fin c sid rx else c

unfoldable pub tcp_rx_fin_wait1 : Slow → ℕ → RxCtl → Slow
unfolding fin_acked fin_wait1_end
tcp_rx_fin_wait1 c sid rx = fin_wait1_end (fin_acked c sid rx) sid rx
