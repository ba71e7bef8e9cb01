-- ===== src/Udp/State.antt =====
-- The structures of protos/udp/include/udp.h and udp_queue_types.h, and the context of an event. A
use chamelio.Common.{none, some, ℕ, Bytes, Option, ◌-◌, update}
use chamelio.Queue.{Equeue, send, Slots}

-- pointer to a socket or a port is its number in the map.

-- `struct udp_sock`
pub record Sock : Type 0 where
  pub id : ℕ
  pub opaque : ℕ
  pub tx_core : ℕ
  pub rx_core : ℕ
  pub app_bump_qids : ℕ → ℕ
  pub local_ip : ℕ
  pub local_port : ℕ
  pub reuport : ℕ
  pub rx_len : ℕ
  pub rx_avail : ℕ
  pub rx_head : ℕ
  pub rx_off : ℕ
  pub tx_len : ℕ
  pub tx_avail : ℕ
  pub tx_head : ℕ
  pub tx_off : ℕ

-- `struct udp_port`
pub record Port : Type 0 where
  pub nsocks : ℕ
  pub next_sock : ℕ → ℕ
  pub sids : ℕ → ℕ

-- The messages for an application, and the commands of one.
pub data Message : Type 0 where
  bump_app_tx : (opaque tx_head : ℕ) → Message
  bump_app_rx : (opaque core rx_port rx_ip rx_avail : ℕ) → Message

pub data Command : Type 0 where
  bump_cham_tx : (sock_id core tx_port tx_ip tx_avail : ℕ) → Command
  bump_cham_rx : (sock_id core rx_head : ℕ) → Command
  unknown : Command

-- UDP_QUEUE_BUMP_APP_TX and UDP_QUEUE_BUMP_APP_RX.
abbrev pub udp_queue_bump_app_tx : ℕ
udp_queue_bump_app_tx = 11

abbrev pub udp_queue_bump_app_rx : ℕ
udp_queue_bump_app_rx = 12

-- MIN_PORT, MAX_PORT, MAX_REUSOCK_PORT, UDP_PORT_SCAN_MAX, MAX_FP_CORES, and UDP_MAX_PAYLOAD as the
-- room for a packet without its headers.
abbrev pub min_port : ℕ
min_port = 1002

abbrev pub max_port : ℕ
max_port = 65534

abbrev pub max_reusock_port : ℕ
max_reusock_port = 8

abbrev pub udp_port_scan_max : ℕ
udp_port_scan_max = 8

abbrev pub max_fp_cores : ℕ
max_fp_cores = 16

abbrev pub udp_pkt_inner_size : ℕ
udp_pkt_inner_size = 28

abbrev pub udp_max_payload : ℕ
udp_max_payload = 1500 - udp_pkt_inner_size

-- `struct cham_ebpf_ctx`, as a UDP event sees it. `next_port` is the map of `struct udp_cfg`.
pub record Context : Type 0 where
  pub pkt : Bytes
  pub pkt_len : ℕ
  pub shm : Bytes
  pub shm_len : ℕ
  pub core : ℕ
  pub ncores : ℕ
  pub equeues : ℕ → Equeue
  pub slots : ℕ → Slots Message
  pub ports : ℕ → Port
  pub socks : ℕ → Sock
  pub n_socks : ℕ
  pub next_port : Option ℕ

-- What an event returns, with `none` for -1, and the context afterwards; or it uses a socket behind
-- the end of the map, which C leaves undefined.
pub data Outcome : Type 0 where
  returns : Option ℕ → Context → Outcome
  overrun : Outcome

abbrev pub set_sock : Context → ℕ → Sock → Context
set_sock c sid s = record c { socks = update c.socks sid s }

abbrev pub set_port : Context → ℕ → Port → Context
set_port c port p = record c { ports = update c.ports port p }

-- The bump for the application of the socket on the core, if its queue has room.
unfoldable pub bump : Context → Sock → (core type : ℕ) → Message → Option Context
bump c s core type msg =
    let q = s.app_bump_qids core in
    elim (send (c.equeues q) (c.slots q) type msg) [
      | none ↦ none
      | some r ↦ some (record c { equeues = update c.equeues q r.0; slots = update c.slots q r.1 })
    ]
