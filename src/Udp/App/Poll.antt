-- ===== src/Udp/App/Poll.antt =====
-- `udp_poll_fast` and `udp_poll_slow`: the messages for the application.
use chamelio.Common.{zero, suc, none, some, Option, ℕ, ◌+◌, update, if◌then◌else◌, ◌==◌}
use chamelio.Queue.{Dqueue, recv, Slots}
use chamelio.Udp.App.Data.{handle_tx_bump, handle_rx_bump}
use chamelio.Udp.App.State.{App, AppSock, SlowRes, new_sock_res, udp_queue_new_sock_res}
use chamelio.Udp.App.State.{set_app_sock, bind_res, udp_queue_bind_res, setopt_res}
use chamelio.Udp.App.State.{udp_queue_setopt_res}
use chamelio.Udp.State.{Message, bump_app_tx, udp_queue_bump_app_tx, bump_app_rx}
use chamelio.Udp.State.{udp_queue_bump_app_rx}

-- What a poll returns, with `none` for -1; or it aborts for a message of an unknown type; or there
-- is no fuel left for the loop.
pub data Polled : Type 0 where
  polled : Option ℕ → App → Polled
  aborts : Polled
  still_polling : Polled

-- A message of the fast path. The opaque pointer of a socket is its descriptor.
unfoldable pub on_bump : App → (type : ℕ) → Message → Option App
unfolding handle_tx_bump handle_rx_bump
on_bump a type (bump_app_tx opaque tx_head) =
    if type == udp_queue_bump_app_tx
    then some (set_app_sock a opaque (handle_tx_bump (a.socks opaque) tx_head))
    else none
on_bump a type (bump_app_rx opaque core rx_port rx_ip rx_avail) =
    if type == udp_queue_bump_app_rx
    then some (set_app_sock a opaque (handle_rx_bump (a.socks opaque) core rx_port rx_ip rx_avail))
    else none

abbrev pub set_fast_app : App → (i : ℕ) → Dqueue → Slots Message → App
set_fast_app a i q m = record a {
  fast_app_qs = update a.fast_app_qs i q;
  fast_app_slots = update a.fast_app_slots i m;
}

-- The inner loop of udp_poll_fast, for core `i`, after `n` messages.
unfoldable pub poll_queue : (fuel i n : ℕ) → App → Polled
unfolding on_bump
poll_queue zero i n a = still_polling
poll_queue (suc fuel) i n a = elim (recv (a.fast_app_qs i) (a.fast_app_slots i)) [
  | none ↦ polled (some n) a
  | some r ↦ elim (on_bump a r.0.0 r.0.1) [
    | none ↦ aborts
    | some a' ↦ poll_queue fuel i (n + 1) (set_fast_app a' i r.1 r.2)
  ]
]

-- The outer loop over the `k` cores from `i` on.
unfoldable pub poll_queues : (fuel k i n : ℕ) → App → Polled
unfolding poll_queue
poll_queues fuel zero i n a = polled (some n) a
poll_queues fuel (suc k) i n a = elim (poll_queue fuel i n a) [
  | polled (some n') a' ↦ poll_queues fuel k (i + 1) n' a'
  | polled none a' ↦ polled none a'
  | aborts ↦ aborts
  | still_polling ↦ still_polling
]

unfoldable pub udp_poll_fast : (fuel : ℕ) → App → Polled
unfolding poll_queues
udp_poll_fast fuel a = poll_queues fuel a.ncores 0 0 a

unfoldable pub handle_new_sock_res :
    AppSock → (core sock_id rx_len rx_off tx_len tx_off : ℕ) → AppSock
handle_new_sock_res s core sock_id rx_len rx_off tx_len tx_off = record s {
  tx_core = core;
  sock_id = sock_id;
  rx_len = rx_len;
  rx_buf = rx_off;
  tx_len = tx_len;
  tx_buf = tx_off;
}

unfoldable pub on_answer : App → (type : ℕ) → SlowRes → Option App
unfolding handle_new_sock_res
on_answer a type (new_sock_res opaque core sock_id rx_len rx_off tx_len tx_off) =
    if type == udp_queue_new_sock_res
    then some (
        set_app_sock a opaque
          (handle_new_sock_res (a.socks opaque) core sock_id rx_len rx_off tx_len tx_off))
    else none
on_answer a type (bind_res opaque success) =
    if type == udp_queue_bind_res
    then some (set_app_sock a opaque (record (a.socks opaque) { bind_success = some success }))
    else none
on_answer a type (setopt_res opaque success) =
    if type == udp_queue_setopt_res
    then some (set_app_sock a opaque (record (a.socks opaque) { setopt_success = some success }))
    else none

-- LIB_BATCH_SIZE
abbrev pub lib_batch_size : ℕ
lib_batch_size = 16

-- The loop of udp_poll_slow with `k` messages to go.
unfoldable pub poll_answers : (k n : ℕ) → App → Polled
unfolding on_answer
poll_answers zero n a = polled (some n) a
poll_answers (suc k) n a = elim (recv a.slow_app_q a.slow_app_slots) [
  | none ↦ polled none a
  | some r ↦ elim (on_answer a r.0.0 r.0.1) [
    | none ↦ aborts
    | some a' ↦ poll_answers k (n + 1) (record a' { slow_app_q = r.1; slow_app_slots = r.2 })
  ]
]

unfoldable pub udp_poll_slow : App → Polled
unfolding poll_answers
udp_poll_slow a = poll_answers lib_batch_size 0 a
