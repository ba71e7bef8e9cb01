-- ===== src/Tcp/Ack.antt =====
-- What an acknowledgment, a send and a rewind do to the bytes that the peer has not acknowledged.
use chamelio.Common.{ℕ, ◌+◌, ◌-◌, ◌≡◌, add32}
use chamelio.Common.{slot_at}
use chamelio.Tcp.Sock.{Sock}

-- The send marks after an acknowledgment of `bump` bytes.
record Acked (s s' : Sock) (bump : ℕ) : Type 0 where
  head : s'.tx_head ≡ slot_at s.tx_len s.tx_head bump
  left : s'.tx_pending + s'.tx_avail ≡ s.tx_pending + s.tx_avail - bump
  same_off : s'.tx_off ≡ s.tx_off
  same_len : s'.tx_len ≡ s.tx_len
  seq : s'.tx_seq ≡ add32 s.tx_seq bump
