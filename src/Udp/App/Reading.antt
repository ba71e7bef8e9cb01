-- ===== src/Udp/App/Reading.antt =====
-- What `udp_recvfrom` reads.
use chamelio.Common.{some, Bytes, ℕ, if◌then◌else◌, ◌≤◌, ◌≡◌, ltb}
use chamelio.Common.{bytes_at, ◌++◌, ◌≢◌, update}
use chamelio.Queue.{Equeue, Slots, send}
use chamelio.Udp.App.Data.{read_sock}
use chamelio.Udp.App.Rings.{IsAppRx, waiting}
use chamelio.Udp.App.State.{App, AppSock, set_app_sock, udp_queue_bump_cham_rx}
use chamelio.Udp.State.{Command, bump_cham_rx}

-- The `n` oldest bytes have gone into the buffer, the rest of it is as before, and the command for
-- their number is in the queue.
pub record Reads (a : App) (sockfd : ℕ) (buf : Bytes) (n : ℕ) (buf' : Bytes) (a' : App)
    : Type 0 where
  pub bytes : waiting a.shm (a.socks sockfd) ≡ bytes_at buf' 0 n ++ waiting a'.shm (a'.socks sockfd)
  pub rest_kept : (j : ℕ) → n ≤ j → buf' j ≡ buf j
  pub ring : IsAppRx (a'.socks sockfd)
  pub others : (j : ℕ) → j ≢ sockfd → a'.socks j ≡ a.socks j
  pub memory : a'.shm ≡ a.shm
  pub command :
      let s = a.socks sockfd in
      send
        (a.app_fast_qs s.rx_core)
        (a.app_fast_slots s.rx_core)
        udp_queue_bump_cham_rx
        (bump_cham_rx s.sock_id s.rx_core n)
      ≡ some (a'.app_fast_qs s.rx_core, a'.app_fast_slots s.rx_core)

abbrev read_app : App → (sockfd n : ℕ) → Equeue × Slots Command → App
read_app a sockfd n r =
    let s = a.socks sockfd in
    record (set_app_sock a sockfd (read_sock s n)) {
      app_fast_qs = update a.app_fast_qs s.rx_core r.0;
      app_fast_slots = update a.app_fast_slots s.rx_core r.1;
    }

-- How many bytes are read.
abbrev pub read_len : AppSock → (len : ℕ) → ℕ
read_len s len = if ltb s.rx_avail len then s.rx_avail else len
