-- ===== src/Tcp/DeqKeeps.antt =====
-- `tcp_event_deq`: what a command of the application or of the slow path does to the socket that
-- it names.
use chamelio.Common.{Bytes, ℕ, ◌+◌, ◌≡◌, ◌≤◌, ◌++◌, ◌≢◌, ring_bytes, slot_at}
use chamelio.Common.{true, false}
use chamelio.Tcp.Context.{Context, Outcome, done}
use chamelio.Tcp.Deq.{ctl_tx, unknown, Command, bump_cham_tx, bump_cham_rx}
use chamelio.Tcp.Deq.{tx_retransmit}
use chamelio.Tcp.Inv.{IsValid}
use chamelio.Tcp.RxRing.{unread}
use chamelio.Tcp.Sock.{Sock, lock_sock, deq_is_retransmit_stale}
use chamelio.Tcp.TxRing.{unacked}

-- The command is for socket `sid`, and the application stays within its buffers: it has put bytes
-- where the TX ring is free, and has read bytes that are there.
abbrev pub IsHonest : Sock → ℕ → Command → Type 0
IsHonest s sid (bump_cham_tx sock_id tx_port tx_ip bump) =
    (sock_id ≡ sid) × (s.tx_pending + s.tx_avail + bump ≤ s.tx_len)
IsHonest s sid (bump_cham_rx sock_id bump) = (sock_id ≡ sid) × (bump ≤ s.rx_avail)
IsHonest s sid ctl_tx = ⊥
IsHonest s sid (tx_retransmit sock_id tx_seq tx_pending) = sock_id ≡ sid
IsHonest s sid unknown = ⊥

-- The streams: bytes that are put go behind the ones to be sent, bytes that are read go off the
-- front of the unread ones, and a timeout that is not stale takes everything in flight back.
abbrev pub Effect : Bytes → Sock → Command → Sock → Type 0
Effect shm s (bump_cham_tx sock_id tx_port tx_ip bump) s' =
    unacked shm s'
    ≡ unacked shm s
      ++ ring_bytes shm s.tx_off s.tx_len (slot_at s.tx_len s.tx_head (s.tx_pending + s.tx_avail))
          bump
Effect shm s (bump_cham_rx sock_id bump) s' =
    unread shm s ≡ ring_bytes shm s.rx_off s.rx_len s.rx_head bump ++ unread shm s'
Effect shm s ctl_tx s' = Unit
Effect shm s (tx_retransmit sock_id tx_seq tx_pending) s' =
    (unacked shm s' ≡ unacked shm s)
    × (deq_is_retransmit_stale s tx_seq tx_pending ≡ true → s'.tx_pending ≡ s.tx_pending)
    × (deq_is_retransmit_stale s tx_seq tx_pending ≡ false → s'.tx_pending ≡ 0)
Effect shm s unknown s' = Unit

pub record Applied (c : Context) (sid : ℕ) (command : Command) (c' : Context) : Type 0 where
  pub valid : IsValid (c'.socks sid)
  pub unlocked : (c'.socks sid).lock ≡ 0
  pub effect : Effect c.shm (c.socks sid) command (c'.socks sid)
  pub others : (j : ℕ) → j ≢ sid → c'.socks j ≡ c.socks j
  pub memory : c'.shm ≡ c.shm

-- The event returns, and has applied the command.
abbrev pub Applies : Context → ℕ → Command → Outcome → Type 0
Applies c sid command Outcome.overrun = ⊥
Applies c sid command (done ret c') = Applied c sid command c'

module _ (c : Context) (sid : ℕ) (v : IsValid (c.socks sid)) where
  abbrev locked : Sock
  locked = lock_sock (c.socks sid)
