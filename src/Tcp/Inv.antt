-- ===== src/Tcp/Inv.antt =====
-- The invariant of a connection's socket.
use chamelio.Common.{ℕ, ◌+◌, ◌^◌, ◌≤◌, ◌<◌, ◌≡◌, arith, true, sub32, Bytes}
use chamelio.Tcp.Packet.{tcp_ackno}
use chamelio.Tcp.Seq.{rx_get_ack_bump-le}
use chamelio.Tcp.Sock.{Sock, rx_get_ack_bump, rx_sock_bump_ack, tcp_sock_recovery_ack}
use chamelio.Tcp.Sock.{tcp_sock_recovery_reset, tcp_sock_recovery_avail, rx_sock_bump_rx}
use chamelio.Tcp.Sock.{rx_get_rx_bump, tx_get_tx_bump, tx_sock_tx_bump, deq_sock_bump_rx}

-- Both rings are smaller than half the sequence space, and their marks lie inside them.
pub record IsValid (s : Sock) : Type 0 where
  pub rx_small : s.rx_len < 2 ^ 31
  pub rx_head_in : s.rx_head < s.rx_len
  pub rx_fits : s.rx_avail ≤ s.rx_len
  pub tx_small : s.tx_len < 2 ^ 31
  pub tx_head_in : s.tx_head < s.tx_len
  pub tx_fits : s.tx_pending + s.tx_avail ≤ s.tx_len
  pub tx_word : s.tx_seq < 2 ^ 32
  pub rx_word : s.rx_seq < 2 ^ 32
  -- In recovery the bytes in flight belong to the flight in which the loss was seen.
  pub flight :
      s.recovery_active ≡ true
      → (0 < sub32 s.recovery_end_seq s.tx_seq)
        × (sub32 s.recovery_end_seq s.tx_seq ≤ s.tx_pending + s.tx_avail)
        × (s.tx_pending ≤ sub32 s.recovery_end_seq s.tx_seq)
        × (s.recovery_end_seq < 2 ^ 32)

-- The half that concerns receiving.
pub record IsRxValid (s : Sock) : Type 0 where
  pub small : s.rx_len < 2 ^ 31
  pub head_in : s.rx_head < s.rx_len
  pub fits : s.rx_avail ≤ s.rx_len
  pub word : s.rx_seq < 2 ^ 32

pub IsValid-IsRxValid : {s : Sock} → IsValid s → IsRxValid s
IsValid-IsRxValid v = omega arith

pub rx_sock_bump_rx-IsValid :
    (s : Sock) (paylen : ℕ) → IsValid s → IsValid (rx_sock_bump_rx s (rx_get_rx_bump s paylen))
unfolding rx_sock_bump_rx rx_get_rx_bump
rx_sock_bump_rx-IsValid s paylen v = ground arith

pub deq_sock_bump_rx-IsValid :
    (s : Sock) (bump : ℕ) → bump ≤ s.rx_avail → IsValid s → IsValid (deq_sock_bump_rx s bump)
unfolding deq_sock_bump_rx
deq_sock_bump_rx-IsValid s bump le v = ground arith

pub tx_sock_tx_bump-IsValid :
    (s : Sock) (max_paylen : ℕ)
    → IsValid s
    → IsValid (tx_sock_tx_bump s (tx_get_tx_bump s max_paylen))
unfolding tx_sock_tx_bump tx_get_tx_bump tcp_sock_recovery_avail
tx_sock_tx_bump-IsValid s max_paylen v = ground arith

-- Whatever 32-bit number a packet acknowledges, taking its acknowledgment keeps the invariant.
pub rx_sock_bump_ack-IsValid :
    (p : Bytes) (s : Sock)
    → tcp_ackno p < 2 ^ 32
    → IsValid s
    → IsValid (rx_sock_bump_ack p s (rx_get_ack_bump p s))
unfolding rx_sock_bump_ack tcp_sock_recovery_ack tcp_sock_recovery_reset
rx_sock_bump_ack-IsValid p s a v = ground (arith, rx_get_ack_bump-le p s)
