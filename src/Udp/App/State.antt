-- ===== src/Udp/App/State.antt =====
-- The structures of udp_lib.h, and the sockets of an application.
use chamelio.Common.{none, some, ℕ, ◌^◌, Option, Bytes, update, ◌-◌, Bool, if◌then◌else◌, leb}
use chamelio.Common.{not, ◌==◌, ◌||◌}
use chamelio.Queue.{Equeue, Slots, Dqueue}
use chamelio.Udp.State.{Command, Message}

-- MAX_SOCKETS and SOCK_INACTIVE
abbrev pub max_sockets : ℕ
max_sockets = 8192

abbrev pub sock_inactive : ℕ
sock_inactive = 2 ^ 32 - 1

-- `struct udp_socket_lib`. A pointer to a context is its number, a pointer into the shared memory
-- an offset; -1 as the answer of a request is `none`.
pub record AppSock : Type 0 where
  pub fd : ℕ
  pub sock_id : ℕ
  pub ctx : ℕ
  pub tx_core : ℕ
  pub rx_core : ℕ
  pub rx_port : ℕ
  pub rx_ip : ℕ
  pub rx_len : ℕ
  pub rx_avail : ℕ
  pub rx_head : ℕ
  pub rx_buf : ℕ
  pub tx_port : ℕ
  pub tx_ip : ℕ
  pub tx_len : ℕ
  pub tx_avail : ℕ
  pub tx_head : ℕ
  pub tx_buf : ℕ
  pub bind_success : Option Bool
  pub setopt_success : Option Bool

-- The answers of the slow path.
pub data SlowRes : Type 0 where
  new_sock_res : (opaque core sock_id rx_len rx_off tx_len tx_off : ℕ) → SlowRes
  bind_res : (opaque : ℕ) (success : Bool) → SlowRes
  setopt_res : (opaque : ℕ) (success : Bool) → SlowRes

-- UDP_QUEUE_NEW_SOCK_RES, UDP_QUEUE_SETOPT_RES and UDP_QUEUE_BIND_RES
abbrev pub udp_queue_new_sock_res : ℕ
udp_queue_new_sock_res = 4

abbrev pub udp_queue_setopt_res : ℕ
udp_queue_setopt_res = 6

abbrev pub udp_queue_bind_res : ℕ
udp_queue_bind_res = 8

-- `struct udp_lib` with the shared memory, and `struct udp_context_lib` with the slots of its queues.
pub record App : Type 0 where
  pub socks : ℕ → AppSock
  pub shm : Bytes
  pub id : ℕ
  pub ncores : ℕ
  pub app_fast_qs : ℕ → Equeue
  pub app_fast_slots : ℕ → Slots Command
  pub fast_app_qs : ℕ → Dqueue
  pub fast_app_slots : ℕ → Slots Message
  pub slow_app_q : Dqueue
  pub slow_app_slots : Slots SlowRes

abbrev pub set_app_sock : App → ℕ → AppSock → App
set_app_sock a fd s = record a { socks = update a.socks fd s }

-- UDP_QUEUE_BUMP_CHAM_TX and UDP_QUEUE_BUMP_CHAM_RX
abbrev pub udp_queue_bump_cham_tx : ℕ
udp_queue_bump_cham_tx = 9

abbrev pub udp_queue_bump_cham_rx : ℕ
udp_queue_bump_cham_rx = 10

-- The library and the context are there; a negative descriptor is a number from 2 ^ 31 on.
unfoldable pub lookup_sock : App → (sockfd : ℕ) → Option AppSock
lookup_sock a sockfd =
    let s = a.socks sockfd in
    if leb max_sockets sockfd
    then none
    else if not (s.fd == sockfd) || not (s.ctx == a.id)
    then none
    else some s
