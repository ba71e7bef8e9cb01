-- ===== src/Tcp/Context.antt =====
-- `struct cham_ebpf_ctx` of lib/include/cham_fast.h, as a TCP event sees it: the packet buffer, the
-- shared memory with the rings of the sockets, the maps, the queues and the scheduler. The queues'
-- slots and the maps are regions of their own. A pointer to a socket is its number in the map.
use chamelio.Common.{ℕ, ◌+◌, ◌-◌, ◌*◌, ◌/◌, Option, none, some, Bytes, u32, u64, ◌==◌}
use chamelio.Common.{if◌then◌else◌, update}
use chamelio.Queue.{Equeue, Dqueue, Slots, queue_tail, queue_enqueue, write_entry}
use chamelio.Sched.{Scheduler}
use chamelio.Tcp.Sock.{Sock}

-- What the fast path puts into the queues: the bumps for the application
-- (`tcp_queue_bump_app_tx`, `tcp_queue_bump_app_rx`), a punted packet and the signal beside it.
pub data Message : Type 0 where
  bump_app_tx : (opaque tx_head : ℕ) → Message
  bump_app_rx : (opaque rx_avail rx_port rx_ip : ℕ) → Message
  ctl_pkt : (pkt : Bytes) (core : ℕ) → Message
  ctl_sig : (ready : ℕ) → Message

-- TCP_QUEUE_BUMP_APP_TX and its neighbours in `enum tcp_queue_type`.
abbrev pub tcp_queue_ctl_rx : ℕ
tcp_queue_ctl_rx = 23

abbrev pub tcp_queue_ctl_rx_pkt : ℕ
tcp_queue_ctl_rx_pkt = 24

abbrev pub tcp_queue_bump_app_tx : ℕ
tcp_queue_bump_app_tx = 25

abbrev pub tcp_queue_bump_app_rx : ℕ
tcp_queue_bump_app_rx = 26

-- `struct tcp_ctl_cfg`, the queue ids that the slow path publishes.
pub record CtlCfg : Type 0 where
  pub fast_slow_sig_qids : ℕ → ℕ
  pub fast_slow_pkt_qids : ℕ → ℕ
  pub slow_fast_sig_qid : ℕ
  pub slow_fast_pkt_qid : ℕ

-- The time stamp counter as the sequence of values that it will give, and the conversions of
-- clock.c, which compute with the measured frequency in floating point.
pub record Clock : Type 0 where
  pub reading : ℕ → ℕ
  pub tsc_to_us : ℕ → ℕ
  pub cycles_per_us : ℕ

pub record Context : Type 0 where
  pub pkt : Bytes
  pub pkt_len : ℕ
  pub shm : Bytes
  pub sched : Scheduler
  pub core : ℕ
  pub equeues : ℕ → Equeue
  pub slots : ℕ → Slots Message
  pub dqueues : ℕ → Dqueue
  pub ctl_slots : ℕ → Slots Message
  pub cfg : Option CtlCfg
  pub socks : ℕ → Sock
  pub n_socks : ℕ
  pub buckets : ℕ → ℕ → ℕ
  pub n_buckets : ℕ
  pub clock : Clock
  pub ticks : ℕ

-- `overrun` is a write behind the end of a queue entry, which C leaves undefined. Otherwise the
-- event returns: `none` is -1, `some n` the non-negative result.
pub data Outcome : Type 0 where
  overrun : Outcome
  done : Option ℕ → Context → Outcome

-- A chain of calls that each may return -1.
infixl 5 ◌>>=◌
abbrev pub ◌>>=◌ {ℓ κ} : {A : Type ℓ} {B : Type κ} → Option A → (A → Option B) → Option B
none >>= k = none
some a >>= k = k a

-- `clock_rdtsc`: the counter's value, and the context in which the next reading is the next value.
unfoldable pub clock_rdtsc : Context → ℕ × Context
clock_rdtsc c = (c.clock.reading c.ticks, record c { ticks = c.ticks + 1 })

unfoldable pub tcp_now_us : Context → ℕ × Context
unfolding clock_rdtsc
tcp_now_us c = let (tsc, c') = clock_rdtsc c in (u32 (c.clock.tsc_to_us tsc), c')

unfoldable pub rate_delay_tsc : Clock → ℕ → ℕ → ℕ
rate_delay_tsc k bytes rate_kbps =
    let nr = u64 (bytes * 8 * 1000 * k.cycles_per_us) in
    if bytes == 0
    then 0
    else if rate_kbps == 0
    then 0
    else if k.cycles_per_us == 0
    then 0
    else u64 (nr + rate_kbps - 1) / rate_kbps

-- The pattern of `rx_enqueue_tx_bump` and `rx_enqueue_rx_bump`: fill the slot at the tail of queue
-- `qid` and hand it over; the result is the context after it.
unfoldable pub enqueue_bump : Context → ℕ → ℕ → Message → Option Context
unfolding queue_tail queue_enqueue write_entry
enqueue_bump c qid type message = queue_tail (c.equeues qid) (c.slots qid) >>= λ pos.
    queue_enqueue (c.equeues qid) (write_entry (c.slots qid) pos message) type >>= λ r.
    some (record c { equeues = update c.equeues qid r.0; slots = update c.slots qid r.1 })

abbrev pub put_sock : Context → ℕ → Sock → Context
put_sock c sid s = record c { socks = update c.socks sid s }
