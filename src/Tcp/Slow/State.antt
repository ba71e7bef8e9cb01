-- ===== src/Tcp/Slow/State.antt =====
-- The state of the TCP slow path: tcp_slow.h, the types of tcp_internal.h and the part of tcp.h that
-- the maps hold. A pointer to a socket is its number in the map, one to an application's context the
-- numbers of both, one to a timeout its number in the timer heap.
use chamelio.Common.{true, false, ℕ, Bool, Option, update, ◌+◌, u64, ◌^◌, ◌-◌}
use chamelio.Queue.{Equeue, Dqueue, Slots}
use chamelio.Tcp.Context.{Clock, Message}
use chamelio.Tcp.Deq.{Command}
use chamelio.Tcp.Sock.{Sock}
use chamelio.Tomgr.{Tomgr}

-- `enum tcp_retx_kind`
pub data RetxKind : Type 0 where
  retx_none retx_syn retx_synack retx_fin : RetxKind

-- The `errno` values that the handlers answer with; `success` is 0.
pub data Status : Type 0 where
  success econnrefused etimedout enobufs eagain einval eopnotsupp eaddrinuse ebadf enomem : Status

-- `struct tcp_sock_meta_slow`
pub record Meta : Type 0 where
  pub listener_id : ℕ
  pub auto_bound : Bool
  pub timer : Option ℕ
  pub retx_kind : RetxKind
  pub retx_left : ℕ
  pub cc_tsc : ℕ
  pub cc_rtt : ℕ
  pub cc_last_drops : ℕ
  pub cc_last_acks : ℕ
  pub cc_last_ackb : ℕ
  pub cc_last_ecnb : ℕ
  pub cc_rexmits : ℕ
  pub cnt_tx_pending : ℕ
  pub ts_tx_pending : ℕ
  pub dctcp_unproc_acks : ℕ
  pub dctcp_unproc_ackb : ℕ
  pub dctcp_unproc_ecnb : ℕ
  pub dctcp_unproc_drops : ℕ
  pub dctcp_ecn_rate : ℕ
  pub dctcp_act_rate : ℕ
  pub dctcp_slowstart : Bool

-- `struct tcp_listener_slow`. `has_ready` tells that `ready_sids` is not NULL, and `ready_room` how
-- many numbers the memory behind it was allocated for.
pub record Listener : Type 0 where
  pub active : Bool
  pub sock_id : ℕ
  pub backlog_len : ℕ
  pub backlog_used : ℕ
  pub ready_head : ℕ
  pub ready_used : ℕ
  pub has_ready : Bool
  pub ready_room : ℕ
  pub ready_sids : ℕ → ℕ

-- `struct tcp_port`
pub record Port : Type 0 where
  pub nsocks : ℕ
  pub next_sock : ℕ
  pub sids : ℕ → ℕ

-- `struct tcp_rx_ctl`
pub record RxCtl : Type 0 where
  pub local_ip : ℕ
  pub remote_ip : ℕ
  pub seq : ℕ
  pub ack : ℕ
  pub ts_val : ℕ
  pub ts_ecr : ℕ
  pub local_port : ℕ
  pub remote_port : ℕ
  pub wnd : ℕ
  pub flags : ℕ
  pub core : ℕ
  pub ts_valid : Bool

-- `enum tcp_cc_algorithm` of tcp_config.h; the setting is a number, and `cc_other` any other one.
pub data CcAlgo : Type 0 where
  cc_other cc_const_rate_algo cc_dctcp_rate_algo : CcAlgo

-- The members of `struct tcp_configuration` that the handlers read.
pub record Config : Type 0 where
  pub rxbuf_sz : ℕ
  pub txbuf_sz : ℕ
  pub cc_algorithm : CcAlgo
  pub cc_control_granularity : ℕ
  pub cc_control_interval : ℕ
  pub cc_rtt_init : ℕ
  pub cc_remit_ints : ℕ
  pub cc_const_rate : ℕ
  pub cc_dctcp_weight : ℕ
  pub cc_dctcp_init : ℕ
  pub cc_dctcp_min : ℕ
  pub cc_dctcp_step : ℕ
  pub cc_dctcp_mimd : ℕ
  pub cc_dctcp_minpkts : ℕ

-- What `cham_new_queue` returns: the size of an element, their number and the offset.
pub record Region : Type 0 where
  pub elsize : ℕ
  pub nelems : ℕ
  pub off : ℕ

-- The messages of the slow path for an application; the queue ids in them are always 0.
pub data AppMsg : Type 0 where
  new_sock_res : (opaque sock_id core rx_len rx_off tx_len tx_off : ℕ) → AppMsg
  setopt_res : (opaque : ℕ) (done : Bool) → AppMsg
  bind_res : (opaque : ℕ) (done : Bool) → AppMsg
  connect_res :
      (status : Status) (opaque core local_ip local_port remote_ip remote_port : ℕ) → AppMsg
  listen_res : (status : Status) (opaque : ℕ) → AppMsg
  listen_newconn : (opaque remote_ip remote_port : ℕ) → AppMsg
  accept_res :
      (status : Status) (opaque listen_opaque sock_id core rx_len rx_off tx_len tx_off : ℕ)
      (local_ip local_port remote_ip remote_port : ℕ)
      → AppMsg

-- The messages of an application for the slow path, by the type of the entry.
pub data AppReq : Type 0 where
  new_sock_req : (opaque : ℕ) → AppReq
  setopt_req : (opt sock_id opaque : ℕ) → AppReq
  bind_req : (sock_id local_port local_ip opaque : ℕ) → AppReq
  connect_req : (sock_id remote_ip remote_port opaque : ℕ) → AppReq
  listen_req : (sock_id backlog opaque : ℕ) → AppReq
  accept_req : (sock_id opaque : ℕ) → AppReq
  shutdown_req : (sock_id how opaque : ℕ) → AppReq
  close_req : (sock_id opaque : ℕ) → AppReq
  other_req : AppReq

-- `struct tcp_app_context_slow`, the slots of its two queues beside them.
pub record Actx : Type 0 where
  pub id : ℕ
  pub app_id : ℕ
  pub app_slow_q : Dqueue
  pub app_slow_slots : Slots AppReq
  pub slow_app_q : Equeue
  pub slow_app_slots : Slots AppMsg
  pub app_bump_qids : ℕ → ℕ

-- `struct tcp_app_slow`
pub record App : Type 0 where
  pub id : ℕ
  pub n_ctxs : ℕ
  pub next_ctx : ℕ
  pub ctxs : ℕ → Actx

-- The clock of the slow path: that of the fast path, and `clock_tsc_after_us`, which adds in
-- floating point.
pub record SlowClock : Type 0 where
  pub base : Clock
  pub tsc_after : (now us : ℕ) → ℕ

-- `struct tcp_slow_context` with the maps and the heap behind its pointers. `regions` are the
-- answers that `cham_new_queue` will give, `callocs` tells which calls of `calloc` will succeed.
pub record Slow : Type 0 where
  pub config : Config
  pub local_ip : ℕ
  pub n_fp_cores : ℕ
  pub n_socks : ℕ
  pub n_apps : ℕ
  pub next_app : ℕ
  pub next_fast_slow_core : ℕ
  pub apps : ℕ → App
  pub fast_slow_sig_qs : ℕ → Dqueue
  pub fast_slow_sig_slots : ℕ → Slots Message
  pub fast_slow_pkt_qs : ℕ → Dqueue
  pub fast_slow_pkt_slots : ℕ → Slots Message
  pub slow_fast_sig_q : Equeue
  pub slow_fast_sig_slots : Slots Command
  pub slow_fast_pkt_q : Equeue
  pub slow_fast_pkt_slots : Slots Message
  pub tomgr : Tomgr
  pub socks : ℕ → Sock
  pub listener_map : ℕ → Port
  pub bound_ports : ℕ → Port
  pub buckets : ℕ → ℕ → ℕ
  pub listeners : ℕ → Listener
  pub sock_meta : ℕ → Meta
  pub cc_poll_tsc : ℕ
  pub cc_next_sock : ℕ
  pub stats_acks_rx : ℕ
  pub stats_drops : ℕ
  pub stats_retx : ℕ
  pub clock : SlowClock
  pub ticks : ℕ
  pub regions : ℕ → Option Region
  pub n_regions : ℕ
  pub callocs : ℕ → Bool
  pub n_callocs : ℕ

-- MIN_PORT, MAX_PORT, MAX_SOCKETS, MAX_REUSOCK_PORT, SLOW_BATCH_SIZE.
abbrev pub min_port : ℕ
min_port = 1002

abbrev pub max_port : ℕ
max_port = 65534

abbrev pub max_sockets : ℕ
max_sockets = max_port

abbrev pub max_reusock_port : ℕ
max_reusock_port = 8

abbrev pub slow_batch_size : ℕ
slow_batch_size = 16

abbrev pub is_success : Status → Bool
is_success success = true
is_success _ = false

abbrev pub set_sock : Slow → ℕ → Sock → Slow
set_sock c sid s = record c { socks = update c.socks sid s }

-- `tcp_sock_meta`
abbrev pub tcp_sock_meta : Slow → ℕ → Meta
tcp_sock_meta c sid = c.sock_meta (c.socks sid).id

abbrev pub set_meta : Slow → ℕ → Meta → Slow
set_meta c sid m = record c { sock_meta = update c.sock_meta (c.socks sid).id m }

abbrev pub set_listener : Slow → ℕ → Listener → Slow
set_listener c id l = record c { listeners = update c.listeners id l }

abbrev pub actx_of : Slow → (app k : ℕ) → Actx
actx_of c app k = (c.apps app).ctxs k

abbrev pub set_actx : Slow → (app k : ℕ) → Actx → Slow
set_actx c app k x = record c {
  apps = update c.apps app (record (c.apps app) { ctxs = update (c.apps app).ctxs k x });
}

-- `clock_rdtsc`, `clock_us_since_tsc` and `clock_tsc_after_us`.
unfoldable pub slow_rdtsc : Slow → ℕ × Slow
slow_rdtsc c = (c.clock.base.reading c.ticks, record c { ticks = c.ticks + 1 })

unfoldable pub us_since_tsc : Slow → ℕ → ℕ × Slow
unfolding slow_rdtsc
us_since_tsc c tsc =
    let (now, c1) = slow_rdtsc c in (c.clock.base.tsc_to_us (u64 (now + 2 ^ 64 - tsc)), c1)

unfoldable pub tsc_after_us : Slow → ℕ → ℕ × Slow
unfolding slow_rdtsc
tsc_after_us c us = let (now, c1) = slow_rdtsc c in (c.clock.tsc_after now us, c1)

-- `tcp_cc_ecn_enabled`
unfoldable pub tcp_cc_ecn_enabled : Slow → Bool
tcp_cc_ecn_enabled c = elim c.config.cc_algorithm [
  | cc_other ↦ false
  | cc_const_rate_algo ↦ false
  | cc_dctcp_rate_algo ↦ true
]
