-- ===== src/Tcp/Turn.antt =====
-- `tcp_event_sched` for a socket whose turn it is.
use chamelio.Common.{ℕ, ◌≤◌, ◌+◌, ◌≡◌, ◌≢◌, ◌<◌, some, ◌^◌}
use chamelio.Common.{true, Bytes}
use chamelio.Sched.{Entry, Scheduler, sched_head, sched_pop}
use chamelio.Tcp.Context.{Context, Outcome, done}
use chamelio.Tcp.Fill.{tx_get_hdrlen}
use chamelio.Tcp.Packet.{is_pktlen_valid}
use chamelio.Tcp.Send.{Sent}
use chamelio.Tcp.Sock.{Sock}

-- It is the turn of socket `sid`: the entry at the scheduler's head names it and is due, and the
-- packet buffer has room for the headers.
pub record IsTurn (c : Context) (sid : ℕ) : Type 0 where
  pub entry : Entry
  pub rest : Scheduler
  pub head : sched_head c.sched ≡ some entry
  pub due : entry.priority ≤ c.clock.reading c.ticks
  pub popped : sched_pop c.sched ≡ some rest
  pub named : entry.id ≡ sid
  pub known : sid < c.n_socks
  pub whole : is_pktlen_valid c.pkt_len ≡ true
  pub headers : 52 ≤ c.pkt_len
  pub small : c.pkt_len < 2 ^ 16

-- What the event leaves behind when it has sent `n` bytes from the first memory and sockets.
pub record Served (shm : Bytes) (socks : ℕ → Sock) (sid n : ℕ) (c' : Context) : Type 0 where
  pub sent : Sent shm (socks sid) n c' (c'.socks sid)
  pub unlocked : (c'.socks sid).lock ≡ 0
  pub others : (j : ℕ) → j ≢ sid → c'.socks j ≡ socks j

-- The event returns the length of a packet with the headers and `n` bytes.
abbrev pub Serves : Bytes → (ℕ → Sock) → ℕ → ℕ → Outcome → Type 0
Serves shm socks sid n Outcome.overrun = ⊥
Serves shm socks sid n (done ret c') = (ret ≡ some (tx_get_hdrlen + n)) × Served shm socks sid n c'
