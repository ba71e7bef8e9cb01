-- ===== src/Udp/Delivery.antt =====
-- What `udp_event_rx` delivers.
use chamelio.Common.{refl, none, some, inl, inr, ℕ, Option, ◌≡◌, ◌+◌, ◌++◌, ◌≤◌, update, ◌⊎◌}
use chamelio.Common.{bytes_at, arith, update_self, Option-cases, ◌≢◌, ap, ◌<◌, ◌∙◌, sym}
use chamelio.Common.{update_ne, true, ◌-◌, Bool-cases, ltb, sub32, false}
use chamelio.Headers.{ip_src}
use chamelio.Queue.{Equeue, Slots, send}
use chamelio.Udp.Find.{udp_sock_find}
use chamelio.Udp.Ring.{unread, IsRxRing, unread-rx_copy, rx_copy_outside}
use chamelio.Udp.Rx.{rx_sock, rx_store, rx_copy, udp_src, ip_hdrs_len, udp_event_rx, is_datagram}
use chamelio.Udp.Rx.{udp_dst, udp_len}
use chamelio.Udp.State.{Context, Sock, bump, Message, Outcome, set_sock, bump_app_rx, returns}
use chamelio.Udp.State.{udp_queue_bump_app_rx}
use mathlib.Core.Path.{subst}

-- The application's queue has the message in its next slot, or is full and stays as it is.
abbrev pub Told : Context → (q type : ℕ) → Message → Option ℕ → Context → Type 0
Told c q type msg r c' =
    ((r ≡ some 0) × (send (c.equeues q) (c.slots q) type msg ≡ some (c'.equeues q, c'.slots q)))
    ⊎ ((r ≡ none) × (send (c.equeues q) (c.slots q) type msg ≡ none))

-- The payload of `n` bytes behind offset `k` has been appended to the unread bytes of the socket,
-- and nothing else has changed among sockets and memory.
pub record Delivered (c : Context) (sid k n : ℕ) (c' : Context) : Type 0 where
  pub bytes : unread c'.shm (c'.socks sid) ≡ unread c.shm (c.socks sid) ++ bytes_at c.pkt k n
  pub ring : IsRxRing (c'.socks sid)
  pub others : (j : ℕ) → j ≢ sid → c'.socks j ≡ c.socks j
  pub memory :
      (i : ℕ)
      → (i < (c.socks sid).rx_off) ⊎ ((c.socks sid).rx_off + (c.socks sid).rx_len ≤ i)
      → c'.shm i ≡ c.shm i

abbrev pub app_msg : Context → (sid n : ℕ) → Message
app_msg c sid n =
    bump_app_rx (c.socks sid).opaque c.core (udp_src c.pkt (ip_hdrs_len c.pkt)) (ip_src c.pkt) n

abbrev pub Stores : Context → (sid n : ℕ) → Outcome → Type 0
Stores c sid n o =
    (r : Option ℕ) × (c' : Context) × (o ≡ returns r c')
    × Delivered c sid (ip_hdrs_len c.pkt + 8) n c'
    × Told c ((c.socks sid).app_bump_qids c.core) udp_queue_bump_app_rx (app_msg c sid n) r c'

rx_sock-IsRxRing :
    (s : Sock) (core n : ℕ) → IsRxRing s → s.rx_avail + n ≤ s.rx_len → IsRxRing (rx_sock s core n)
unfolding rx_sock
rx_sock-IsRxRing s core n v room = ground (arith, v.small)

-- The context with the payload stored.
stored : Context → (sid n : ℕ) → Context
stored c sid n = record (set_sock c sid (rx_sock (c.socks sid) c.core n)) {
  shm = rx_copy c.shm (c.socks sid) c.pkt (ip_hdrs_len c.pkt + 8) n;
}

stored-Delivered :
    (c : Context) (sid n : ℕ)
    → IsRxRing (c.socks sid)
    → (c.socks sid).rx_avail + n ≤ (c.socks sid).rx_len
    → Delivered c sid (ip_hdrs_len c.pkt + 8) n (stored c sid n)
unfolding stored
stored-Delivered c sid n v room =
    let s = c.socks sid in
    let k = ip_hdrs_len c.pkt + 8 in
    let own = update_self c.socks sid (rx_sock s c.core n) in
    record {
      bytes =
          ap (unread (rx_copy c.shm s c.pkt k n)) own
          ∙ unread-rx_copy c.shm s c.pkt k n v room c.core;
      ring = subst IsRxRing (sym own) (rx_sock-IsRxRing s c.core n v room);
      others = λ j ne. update_ne c.socks sid (rx_sock s c.core n) j ne;
      memory = λ i out. rx_copy_outside c.shm s c.pkt k n v room i out;
    }

-- A bump leaves sockets and memory alone.
bump-Delivered :
    (c c1 : Context) (sid k n q : ℕ) (r : Equeue × Slots Message)
    → Delivered c sid k n c1
    → Delivered c sid k n
        (record c1 { equeues = update c1.equeues q r.0; slots = update c1.slots q r.1 })
bump-Delivered c c1 sid k n q r d = record {
  bytes = d.bytes;
  ring = d.ring;
  others = d.others;
  memory = d.memory;
}

rx_store-Stores :
    (c : Context) (sid n : ℕ)
    → IsRxRing (c.socks sid)
    → (c.socks sid).rx_avail + n ≤ (c.socks sid).rx_len
    → Stores c sid n (rx_store c sid n)
unfolding rx_store stored rx_sock bump
rx_store-Stores c sid n v room =
    let q = (c.socks sid).app_bump_qids c.core in
    let d = stored-Delivered c sid n v room in
    elim (Option-cases (send (c.equeues q) (c.slots q) udp_queue_bump_app_rx (app_msg c sid n))) [
      | inl full ↦ (none, stored c sid n, rw (full, rx_store, bump) refl, d, inr (refl, full))
      | inr (r, sent) ↦ (
        some 0,
        record (stored c sid n) { equeues = update c.equeues q r.0; slots = update c.slots q r.1 },
        rw (sent, rx_store, bump) refl,
        bump-Delivered c (stored c sid n) sid (ip_hdrs_len c.pkt + 8) n q r d,
        inl (refl, rw (update_self c.equeues q r.0, update_self c.slots q r.1) sent),
      )
    ]

room_less :
    (s : Sock) (n : ℕ)
    → IsRxRing s
    → ltb (sub32 s.rx_len s.rx_avail) n ≡ true
    → s.rx_len < s.rx_avail + n
room_less s n v large = ground (arith, v.small, v.fits)

room_more :
    (s : Sock) (n : ℕ)
    → IsRxRing s
    → ltb (sub32 s.rx_len s.rx_avail) n ≡ false
    → s.rx_avail + n ≤ s.rx_len
room_more s n v fits = ground (arith, v.small, v.fits)

-- What looking for the socket leaves as it is.
abbrev pub SameData : Context → Context → Type 0
SameData c c1 = (c1.pkt ≡ c.pkt) × (c1.shm ≡ c.shm) × (c1.socks ≡ c.socks) × (c1.core ≡ c.core)

find-SameData :
    (c : Context) (port sid : ℕ) (c1 : Context)
    → udp_sock_find c port ≡ some (sid, c1)
    → SameData c c1
unfolding udp_sock_find
find-SameData c port sid c1 found = ground (arith, found)

-- A datagram for a socket with a valid RX ring is dropped with nothing written, when it does not fit
-- into the free part of the ring; or its payload is appended to the unread bytes, no other socket and
-- no memory outside the ring being written, and the message for the application is put into the
-- queue of the core, or, when that queue is full, the payload stays without a message and the event
-- returns -1.
pub udp_event_rx-Stores :
    (c : Context) (sid : ℕ) (c1 : Context)
    → is_datagram c.pkt c.pkt_len ≡ true
    → udp_sock_find c (udp_dst c.pkt (ip_hdrs_len c.pkt)) ≡ some (sid, c1)
    → IsRxRing (c1.socks sid)
    → let n = udp_len c.pkt (ip_hdrs_len c.pkt) - 8 in
      let s = c1.socks sid in
      SameData c c1
      × (((s.rx_len < s.rx_avail + n) × (udp_event_rx c ≡ returns none c1))
          ⊎ ((s.rx_avail + n ≤ s.rx_len) × Stores c1 sid n (udp_event_rx c)))
unfolding udp_event_rx
udp_event_rx-Stores c sid c1 good found v =
    let n = udp_len c.pkt (ip_hdrs_len c.pkt) - 8 in
    let s = c1.socks sid in
    (
      find-SameData c (udp_dst c.pkt (ip_hdrs_len c.pkt)) sid c1 found,
      elim (Bool-cases (ltb (sub32 s.rx_len s.rx_avail) n)) [
        | inl large ↦ inl (room_less s n v large, rw (good, found, large, udp_event_rx) refl)
        | inr fits ↦
            let room : s.rx_avail + n ≤ s.rx_len = room_more s n v fits in
            inr (room, rw (good, found, fits, udp_event_rx) (rx_store-Stores c1 sid n v room))
      ],
    )
