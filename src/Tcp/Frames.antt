-- ===== src/Tcp/Frames.antt =====
-- What the steps of an event leave alone.
use chamelio.Common.{ℕ, ◌≡◌, refl, arith, none, some, ◌⊎◌, inl, inr, Option, Bytes, ltb}
use chamelio.Common.{Bool-cases}
use chamelio.Tcp.Context.{Context, Message, clock_rdtsc, tcp_now_us, enqueue_bump}
use chamelio.Tcp.Fill.{tx_fill_ack, tx_fill_hdr}
use chamelio.Tcp.Packet.{rx_is_ack}
use chamelio.Tcp.Rx.{remit, sock_ts_rx, rx_sched_tx, tx_sched_tsc, rx_dupack, rx_take_ack}
use chamelio.Tcp.Rx.{rx_bump_app}
use chamelio.Tcp.Sock.{Sock, rx_sock_bump_ack, tcp_sock_recovery_ack, tcp_sock_recovery_reset}
use chamelio.Tcp.Sock.{tcp_sock_recovery_enter}

-- The receiving half of a socket.
pub record SameRx (s s' : Sock) : Type 0 where
  pub rx_len_same : s'.rx_len ≡ s.rx_len
  pub rx_avail_same : s'.rx_avail ≡ s.rx_avail
  pub rx_head_same : s'.rx_head ≡ s.rx_head
  pub rx_off_same : s'.rx_off ≡ s.rx_off
  pub rx_seq_same : s'.rx_seq ≡ s.rx_seq

-- The packet, the shared memory and the sockets.
pub record SameBuffers (c c' : Context) : Type 0 where
  pub pkt_same : c'.pkt ≡ c.pkt
  pub pkt_len_same : c'.pkt_len ≡ c.pkt_len
  pub shm_same : c'.shm ≡ c.shm
  pub socks_same : c'.socks ≡ c.socks

pub option_cases {ℓ} : {A : Type ℓ} (o : Option A) → (o ≡ none) ⊎ ((a : A) × (o ≡ some a))
option_cases none = inl refl
option_cases (some a) = inr (a, refl)

pub tx_fill_ack-SameRx : (c : Context) (s : Sock) → SameRx s (tx_fill_ack c s).2
unfolding tx_fill_ack tx_fill_hdr
tx_fill_ack-SameRx c s = ground arith

pub tx_fill_ack-shm : (c : Context) (s : Sock) → (tx_fill_ack c s).1.shm ≡ c.shm
unfolding tx_fill_ack tx_fill_hdr tcp_now_us clock_rdtsc
tx_fill_ack-shm c s = ground arith

pub SameRx-trans : {s t u : Sock} → SameRx s t → SameRx t u → SameRx s u
SameRx-trans a b = omega arith

recovery_ack-SameRx : (s : Sock) → SameRx s (tcp_sock_recovery_ack s)
unfolding tcp_sock_recovery_ack tcp_sock_recovery_reset
recovery_ack-SameRx s = ground arith

rx_sock_bump_ack-SameRx : (p : Bytes) (s : Sock) (n : ℕ) → SameRx s (rx_sock_bump_ack p s n)
unfolding rx_sock_bump_ack
rx_sock_bump_ack-SameRx p s n = elim (Bool-cases (ltb 0 n)) [
  | inl e ↦ rw e (SameRx-trans (omega arith) (recovery_ack-SameRx _))
  | inr e ↦ rw e (omega arith)
]

sock_ts_rx-SameRx : (c : Context) (s : Sock) → SameRx s (sock_ts_rx c s).1
unfolding sock_ts_rx
sock_ts_rx-SameRx c s = ground arith

pub rx_take_ack-SameRx : (c : Context) (s : Sock) → SameRx s (rx_take_ack c s).1
unfolding rx_take_ack
rx_take_ack-SameRx c s = elim (Bool-cases (rx_is_ack c.pkt)) [
  | inl e ↦ rw e (
      SameRx-trans (SameRx-trans (omega arith) (sock_ts_rx-SameRx c _))
        (rx_sock_bump_ack-SameRx c.pkt _ _))
  | inr e ↦ rw e (SameRx-trans (omega arith) (sock_ts_rx-SameRx c _))
]

pub rx_take_ack-SameBuffers : (c : Context) (s : Sock) → SameBuffers c (rx_take_ack c s).0
unfolding rx_take_ack sock_ts_rx tcp_now_us clock_rdtsc
rx_take_ack-SameBuffers c s = ground arith

pub rx_bump_app-SameBuffers :
    (c : Context) (old new : Sock) (ack_bump : ℕ) (c' : Context)
    → rx_bump_app c old new ack_bump ≡ some c'
    → SameBuffers c c'
unfolding rx_bump_app enqueue_bump
rx_bump_app-SameBuffers c old new ack_bump c' e = ground arith

pub enqueue_bump-SameBuffers :
    (c : Context) (qid type : ℕ) (message : Message) (c' : Context)
    → enqueue_bump c qid type message ≡ some c'
    → SameBuffers c c'
unfolding enqueue_bump
enqueue_bump-SameBuffers c qid type message c' e = ground arith

pub rx_dupack-SameRx : (c : Context) (s : Sock) (n : ℕ) → SameRx s (rx_dupack c s n).1
unfolding rx_dupack remit tcp_sock_recovery_enter
rx_dupack-SameRx c s n = ground arith

pub rx_dupack-SameBuffers : (c : Context) (s : Sock) (n : ℕ) → SameBuffers c (rx_dupack c s n).0
unfolding rx_dupack remit clock_rdtsc
rx_dupack-SameBuffers c s n = ground arith

pub rx_sched_tx-SameBuffers :
    (c : Context) (s : Sock) (a b : ℕ) → SameBuffers c (rx_sched_tx c s a b)
unfolding rx_sched_tx tx_sched_tsc clock_rdtsc
rx_sched_tx-SameBuffers c s a b = ground arith
