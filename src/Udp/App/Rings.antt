-- ===== src/Udp/App/Rings.antt =====
-- What `udp_sendto` writes and `udp_recvfrom` reads.
use chamelio.Common.{none, some, Bytes, ℕ, ◌<◌, List, ◌^◌, ring_bytes, ◌+◌, ◌≡◌, ◌≤◌, ◌++◌}
use chamelio.Common.{bytes_at, add32, arith, ◌≢◌, ◌⊎◌, slot_at, ring_bytes-add, ring_bytes_ext}
use chamelio.Common.{ring_bytes-eq-bytes_at, slot_at-lt, slot_at-add, refl, true, false, inl, inr}
use chamelio.Common.{ltb, ◌==◌, sub32, Bool-cases, u32, update_self, Option-cases, update, ap}
use chamelio.Common.{◌∙◌, sym, update_ne}
use chamelio.Queue.{send, Equeue, Slots}
use chamelio.Udp.App.Data.{udp_sendto, tx_write, sent_sock, tx_tail}
use chamelio.Udp.App.State.{App, AppSock, lookup_sock, udp_queue_bump_cham_tx, set_app_sock}
use chamelio.Udp.State.{bump_cham_tx, Command}
use mathlib.Core.Path.{subst}

-- The descriptor is one of the context's sockets.
abbrev pub IsOurs : App → (sockfd : ℕ) → Type 0
IsOurs a sockfd = lookup_sock a sockfd ≡ some (a.socks sockfd)

pub record IsAppTx (s : AppSock) : Type 0 where
  pub small : s.tx_len < 2 ^ 31
  pub head_in : s.tx_head < s.tx_len
  pub fits : s.tx_avail ≤ s.tx_len

pub record IsAppRx (s : AppSock) : Type 0 where
  pub small : s.rx_len < 2 ^ 31
  pub head_in : s.rx_head < s.rx_len
  pub fits : s.rx_avail ≤ s.rx_len

-- The bytes that have been written and that the fast path has not sent yet, and those to read.
abbrev pub unsent : Bytes → AppSock → List ℕ
unsent shm s = ring_bytes shm s.tx_buf s.tx_len s.tx_head s.tx_avail

abbrev pub waiting : Bytes → AppSock → List ℕ
waiting shm s = ring_bytes shm s.rx_buf s.rx_len s.rx_head s.rx_avail

module _ (shm : Bytes) (s : AppSock) (buf : Bytes) (n : ℕ) (v : IsAppTx s)
    (room : s.tx_avail + n ≤ s.tx_len) where
  tx_write_new :
      (j : ℕ)
      → j < n
      → tx_write shm s buf n (s.tx_buf + slot_at s.tx_len s.tx_head (s.tx_avail + j)) ≡ buf (0 + j)
  unfolding tx_write tx_tail
  tx_write_new j lt = ground (arith, v.small, v.head_in, v.fits)

  tx_write_old :
      (k : ℕ)
      → k < s.tx_avail
      → tx_write shm s buf n (s.tx_buf + slot_at s.tx_len s.tx_head k)
        ≡ shm (s.tx_buf + slot_at s.tx_len s.tx_head k)
  unfolding tx_write tx_tail
  tx_write_old k lt = ground (arith, v.small, v.head_in, v.fits)

  tx_write_outside :
      (i : ℕ) → (i < s.tx_buf) ⊎ (s.tx_buf + s.tx_len ≤ i) → tx_write shm s buf n i ≡ shm i
  unfolding tx_write tx_tail
  tx_write_outside i out = ground (arith, v.small, v.head_in, v.fits)

  pub fresh-tx_write :
      ring_bytes (tx_write shm s buf n) s.tx_buf s.tx_len (slot_at s.tx_len s.tx_head s.tx_avail) n
      ≡ bytes_at buf 0 n
  fresh-tx_write =
      ring_bytes-eq-bytes_at (tx_write shm s buf n) s.tx_buf s.tx_len
        (slot_at s.tx_len s.tx_head s.tx_avail) n buf 0
        (slot_at-lt s.tx_len s.tx_head s.tx_avail v.head_in v.fits) (omega arith)
        (λ k lt.
          rw (slot_at-add s.tx_len s.tx_head s.tx_avail k v.head_in (omega arith))
            (tx_write_new k lt))

  unsent-tx_write :
      (ip port : ℕ)
      → unsent (tx_write shm s buf n) (sent_sock s n ip port) ≡ unsent shm s ++ bytes_at buf 0 n
  unfolding sent_sock
  unsent-tx_write ip port =
      let mem = tx_write shm s buf n in
      let sum : add32 s.tx_avail n ≡ s.tx_avail + n = omega (arith, v.small) in
      rw (
        sum,
        ring_bytes-add mem s.tx_buf s.tx_len s.tx_head s.tx_avail n v.head_in room,
        ring_bytes_ext shm mem s.tx_buf s.tx_len s.tx_head s.tx_avail v.head_in v.fits tx_write_old,
        fresh-tx_write,
      )

  sent_sock-IsAppTx : (ip port : ℕ) → IsAppTx (sent_sock s n ip port)
  unfolding sent_sock
  sent_sock-IsAppTx ip port = record {
    small = v.small;
    head_in = v.head_in;
    fits = omega (arith, v.small);
  }

-- The bytes are in the ring behind the older ones, and the command for them in the queue.
pub record Written (a : App) (sockfd : ℕ) (buf : Bytes) (n ip port : ℕ) (a' : App) : Type 0 where
  pub room : (a.socks sockfd).tx_avail + n ≤ (a.socks sockfd).tx_len
  pub bytes : unsent a'.shm (a'.socks sockfd) ≡ unsent a.shm (a.socks sockfd) ++ bytes_at buf 0 n
  pub fresh :
      let s = a.socks sockfd in
      ring_bytes a'.shm s.tx_buf s.tx_len (slot_at s.tx_len s.tx_head s.tx_avail) n
      ≡ bytes_at buf 0 n
  pub ring : IsAppTx (a'.socks sockfd)
  pub others : (j : ℕ) → j ≢ sockfd → a'.socks j ≡ a.socks j
  pub memory :
      (i : ℕ)
      → (i < (a.socks sockfd).tx_buf) ⊎ ((a.socks sockfd).tx_buf + (a.socks sockfd).tx_len ≤ i)
      → a'.shm i ≡ a.shm i
  pub command :
      let s = a.socks sockfd in
      send
        (a.app_fast_qs s.tx_core)
        (a.app_fast_slots s.tx_core)
        udp_queue_bump_cham_tx
        (bump_cham_tx s.sock_id s.tx_core port ip n)
      ≡ some (a'.app_fast_qs s.tx_core, a'.app_fast_slots s.tx_core)

no_room :
    (s : AppSock) (n : ℕ)
    → IsAppTx s
    → ltb (sub32 s.tx_len s.tx_avail) n ≡ true
    → s.tx_len < s.tx_avail + n
no_room s n v large = ground (arith, v.small, v.fits)

enough_room :
    (s : AppSock) (n : ℕ)
    → IsAppTx s
    → ltb (sub32 s.tx_len s.tx_avail) n ≡ false
    → s.tx_avail + n ≤ s.tx_len
enough_room s n v fits = ground (arith, v.small, v.fits)

abbrev sent_app : App → (sockfd : ℕ) (buf : Bytes) (n ip port : ℕ) → Equeue × Slots Command → App
sent_app a sockfd buf n ip port r =
    let s = a.socks sockfd in
    record (set_app_sock a sockfd (sent_sock s n ip port)) {
      shm = tx_write a.shm s buf n;
      app_fast_qs = update a.app_fast_qs s.tx_core r.0;
      app_fast_slots = update a.app_fast_slots s.tx_core r.1;
    }

sent_app-Written :
    (a : App) (sockfd : ℕ) (buf : Bytes) (n ip port : ℕ) (r : Equeue × Slots Command)
    → IsAppTx (a.socks sockfd)
    → (a.socks sockfd).tx_avail + n ≤ (a.socks sockfd).tx_len
    → let s = a.socks sockfd in
      send
          (a.app_fast_qs s.tx_core)
          (a.app_fast_slots s.tx_core)
          udp_queue_bump_cham_tx
          (bump_cham_tx s.sock_id s.tx_core port ip n)
        ≡ some r
      → Written a sockfd buf n ip port (sent_app a sockfd buf n ip port r)
sent_app-Written a sockfd buf n ip port r v room sending =
    let s = a.socks sockfd in
    let mem = tx_write a.shm s buf n in
    let own = update_self a.socks sockfd (sent_sock s n ip port) in
    record {
      room = room;
      bytes = ap (unsent mem) own ∙ unsent-tx_write a.shm s buf n v room ip port;
      fresh = fresh-tx_write a.shm s buf n v room;
      ring = subst IsAppTx (sym own) (sent_sock-IsAppTx a.shm s buf n v room ip port);
      others = λ j ne. update_ne a.socks sockfd (sent_sock s n ip port) j ne;
      memory = λ i out. tx_write_outside a.shm s buf n v room i out;
      command =
          rw (update_self a.app_fast_qs s.tx_core r.0, update_self a.app_fast_slots s.tx_core r.1)
            sending;
    }

-- Sending bytes on a socket of the context with a valid TX ring changes nothing and returns -1
-- when they do not fit into the free part of the ring or the queue for commands has no room;
-- otherwise the bytes stand in the ring behind the unsent ones, the command with their number is in
-- the queue, no other socket and no memory outside the ring has changed, and their number is returned.
pub udp_sendto_lem :
    (a : App) (sockfd : ℕ) (buf : Bytes) (n ip port : ℕ)
    → IsOurs a sockfd
    → IsAppTx (a.socks sockfd)
    → 0 < n
    → let s = a.socks sockfd in
      let sending =
        send
          (a.app_fast_qs s.tx_core)
          (a.app_fast_slots s.tx_core)
          udp_queue_bump_cham_tx
          (bump_cham_tx s.sock_id s.tx_core port ip n) in
      (((s.tx_len < s.tx_avail + n) ⊎ (sending ≡ none))
        × (udp_sendto a sockfd buf n ip port ≡ (none, a)))
      ⊎ ((a' : App) × (udp_sendto a sockfd buf n ip port ≡ (some n, a'))
          × Written a sockfd buf n ip port a')
unfolding udp_sendto
udp_sendto_lem a sockfd buf n ip port ours v pos =
    let s = a.socks sockfd in
    let some_bytes : n == 0 ≡ false = ground (arith, pos) in
    elim (Bool-cases (ltb (sub32 s.tx_len s.tx_avail) n)) [
      | inl large ↦ inl (inl (no_room s n v large), rw (ours, some_bytes, large, udp_sendto) refl)
      | inr fits ↦
          let room = enough_room s n v fits in
          let word : u32 n ≡ n = omega (arith, v.small, room) in
          elim (Option-cases (
            send (a.app_fast_qs s.tx_core) (a.app_fast_slots s.tx_core) udp_queue_bump_cham_tx
              (bump_cham_tx s.sock_id s.tx_core port ip n))) [
                | inl full ↦
                    inl (inr full, rw (ours, some_bytes, fits, word, full, udp_sendto) refl)
                | inr (r, sending) ↦ inr (
                  sent_app a sockfd buf n ip port r,
                  rw (ours, some_bytes, fits, word, sending, udp_sendto)
                      (ap (λ m. (some m, sent_app a sockfd buf m ip port r)) word),
                  sent_app-Written a sockfd buf n ip port r v room sending,
                )
              ]
    ]
