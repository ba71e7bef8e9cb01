-- ===== src/Tcp/Seq.antt =====
-- Sequence numbers go round at 2 ^ 32: what the tests of the fast path say about the numbers.
use chamelio.Common.{ℕ, ◌+◌, ◌^◌, ◌≤◌, ◌<◌, ◌≡◌, ◌↔◌, arith, true, sub32, Bytes}
use chamelio.Tcp.Packet.{tcp_ackno}
use chamelio.Tcp.Sock.{Sock, rx_is_ack_valid, rx_get_ack_bump}

-- For numbers of 32 bits, and fewer than 2 ^ 32 bytes in the TX ring: an acknowledgment number is
-- accepted exactly when it lies, going round at 2 ^ 32, at most as far past the oldest
-- unacknowledged byte as there are bytes in the TX ring.
pub rx_is_ack_valid_iff :
    (seqno pending avail ackno : ℕ)
    → seqno < 2 ^ 32
    → ackno < 2 ^ 32
    → pending + avail < 2 ^ 32
    → (rx_is_ack_valid seqno pending avail ackno ≡ true) ↔ (sub32 ackno seqno ≤ pending + avail)
unfolding rx_is_ack_valid
rx_is_ack_valid_iff seqno pending avail ackno p q r = ground arith

pub rx_get_ack_bump-le :
    (p : Bytes) (s : Sock)
    → s.tx_seq < 2 ^ 32
    → tcp_ackno p < 2 ^ 32
    → s.tx_pending + s.tx_avail < 2 ^ 32
    → rx_get_ack_bump p s ≤ s.tx_pending + s.tx_avail
unfolding rx_get_ack_bump
rx_get_ack_bump-le p s a b c =
    ground (arith, rx_is_ack_valid_iff s.tx_seq s.tx_pending s.tx_avail (tcp_ackno p) a b c)
