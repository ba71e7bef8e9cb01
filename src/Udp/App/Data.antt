-- ===== src/Udp/App/Data.antt =====
-- `udp_sendto` and `udp_recvfrom`, and the bumps of the fast path. A sum or difference is a `__u32`.
use chamelio.Common.{none, some, Bytes, Option, ℕ, add32, if◌then◌else◌, u32, leb, ltb, sub32}
use chamelio.Common.{◌-◌, copy, ◌+◌, update, ◌==◌}
use chamelio.Queue.{send}
use chamelio.Udp.App.State.{AppSock, lookup_sock, App, udp_queue_bump_cham_tx}
use chamelio.Udp.App.State.{udp_queue_bump_cham_rx, set_app_sock}
use chamelio.Udp.State.{bump_cham_tx, bump_cham_rx}

-- The place behind the bytes that have been written.
unfoldable pub tx_tail : AppSock → ℕ
tx_tail s =
    let tail = add32 s.tx_head s.tx_avail in if leb s.tx_len tail then tail - s.tx_len else tail

-- The copy into the TX ring, in two parts where it goes round the end.
unfoldable pub tx_write : Bytes → AppSock → (buf : Bytes) → (n : ℕ) → Bytes
unfolding tx_tail
tx_write shm s buf n =
    let tail = tx_tail s in
    if ltb s.tx_len (add32 tail n)
    then (let n1 = sub32 s.tx_len tail in
        copy (copy shm (s.tx_buf + tail) buf 0 n1) s.tx_buf buf n1 (sub32 n n1))
    else copy shm (s.tx_buf + tail) buf 0 n

unfoldable pub sent_sock : AppSock → (n ip port : ℕ) → AppSock
sent_sock s n ip port = record s { tx_avail = add32 s.tx_avail n; tx_ip = ip; tx_port = port }

-- What it returns, with `none` for -1. A queue with a tail takes the entry.
unfoldable pub udp_sendto : App → (sockfd : ℕ) → (buf : Bytes) → (len ip port : ℕ) → Option ℕ × App
unfolding lookup_sock tx_write sent_sock
udp_sendto a sockfd buf len ip port = elim (lookup_sock a sockfd) [
  | none ↦ (none, a)
  | some s ↦
      let q = s.tx_core in
      let n = u32 len in
      let msg = bump_cham_tx s.sock_id s.tx_core port ip n in
      let written : Option ℕ × App =
        elim (send (a.app_fast_qs q) (a.app_fast_slots q) udp_queue_bump_cham_tx msg) [
          | none ↦ (none, a)
          | some r ↦ (
            some n,
            record (set_app_sock a sockfd (sent_sock s n ip port)) {
              shm = tx_write a.shm s buf n;
              app_fast_qs = update a.app_fast_qs q r.0;
              app_fast_slots = update a.app_fast_slots q r.1;
            },
          )
        ] in
      if len == 0
      then (some 0, a)
      else if ltb (sub32 s.tx_len s.tx_avail) len
      then (none, a)
      else written
]

-- The copy out of the RX ring.
unfoldable pub rx_read : Bytes → AppSock → (buf : Bytes) → (n : ℕ) → Bytes
rx_read shm s buf n =
    if ltb s.rx_len (add32 s.rx_head n)
    then (let n1 = sub32 s.rx_len s.rx_head in
        copy (copy buf 0 shm (s.rx_buf + s.rx_head) n1) n1 shm s.rx_buf (sub32 n n1))
    else copy buf 0 shm (s.rx_buf + s.rx_head) n

unfoldable pub read_sock : AppSock → (n : ℕ) → AppSock
read_sock s n =
    let new_head = add32 s.rx_head n in
    record s {
      rx_avail = sub32 s.rx_avail n;
      rx_head = if leb s.rx_len new_head then new_head - s.rx_len else new_head;
    }

-- What is returned, the buffer, and the address if one is stored; the caller has asked for it.
pub record Received : Type 0 where
  pub ret : Option ℕ
  pub buf : Bytes
  pub addr : Option (ℕ × ℕ)

unfoldable pub udp_recvfrom : App → (sockfd : ℕ) → (buf : Bytes) → (len : ℕ) → Received × App
unfolding lookup_sock rx_read read_sock
udp_recvfrom a sockfd buf len = elim (lookup_sock a sockfd) [
  | none ↦ (record { ret = none; buf = buf; addr = none }, a)
  | some s ↦
      let n = if ltb s.rx_avail (u32 len) then s.rx_avail else u32 len in
      let q = s.rx_core in
      let msg = bump_cham_rx s.sock_id s.rx_core n in
      let addr : Option (ℕ × ℕ) = some (s.rx_ip, s.rx_port) in
      let taken : Received × App =
        elim (send (a.app_fast_qs q) (a.app_fast_slots q) udp_queue_bump_cham_rx msg) [
          | none ↦ (record { ret = none; buf = buf; addr = addr }, a)
          | some r ↦ (
            record { ret = some n; buf = rx_read a.shm s buf n; addr = addr },
            record (set_app_sock a sockfd (read_sock s n)) {
              app_fast_qs = update a.app_fast_qs q r.0;
              app_fast_slots = update a.app_fast_slots q r.1;
            },
          )
        ] in
      if n == 0 then (record { ret = some 0; buf = buf; addr = none }, a) else taken
]

unfoldable pub handle_tx_bump : AppSock → (tx_head : ℕ) → AppSock
handle_tx_bump s tx_head =
    let new_head = add32 s.tx_head tx_head in
    record s {
      tx_head = if leb s.tx_len new_head then new_head - s.tx_len else new_head;
      tx_avail = sub32 s.tx_avail tx_head;
    }

unfoldable pub handle_rx_bump : AppSock → (core rx_port rx_ip rx_avail : ℕ) → AppSock
handle_rx_bump s core rx_port rx_ip rx_avail = record s {
  rx_core = core;
  rx_avail = add32 s.rx_avail rx_avail;
  rx_port = rx_port;
  rx_ip = rx_ip;
}
