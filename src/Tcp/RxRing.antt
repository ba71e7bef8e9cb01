-- ===== src/Tcp/RxRing.antt =====
-- `rx_copy_payload` on a valid socket: what it writes, and where.
use chamelio.Common.{ℕ, ◌+◌, ◌-◌, ◌≤◌, ◌<◌, ◌≡◌, ◌⊎◌, ◌∙◌, ap, sym, arith, ◌++◌, List, add32, leb}
use chamelio.Common.{sub32, if◌then◌else◌, Bytes, slot_at, slot_at-lt, slot_at-add, ring_bytes}
use chamelio.Common.{bytes_at, ring_bytes-add, ring_bytes_ext, ring_bytes-eq-bytes_at}
use chamelio.Tcp.Inv.{IsRxValid}
use chamelio.Tcp.Sock.{Sock, rx_copy_payload, rx_sock_bump_rx, deq_sock_bump_rx}

-- The bytes that the application has not read yet, oldest first.
abbrev pub unread : Bytes → Sock → List ℕ
unread shm s = ring_bytes shm s.rx_off s.rx_len s.rx_head s.rx_avail

module _ (shm : Bytes) (s : Sock) (pkt : Bytes) (payload n : ℕ) (v : IsRxValid s)
    (room : s.rx_avail + n ≤ s.rx_len) where
  -- The bytes behind the unread ones are the new ones.
  rx_copy_new :
      (j : ℕ)
      → j < n
      → rx_copy_payload shm s pkt payload n (s.rx_off + slot_at s.rx_len s.rx_head (s.rx_avail + j))
        ≡ pkt (payload + j)
  unfolding rx_copy_payload
  rx_copy_new j lt = ground arith

  -- The unread bytes stay.
  rx_copy_old :
      (k : ℕ)
      → k < s.rx_avail
      → rx_copy_payload shm s pkt payload n (s.rx_off + slot_at s.rx_len s.rx_head k)
        ≡ shm (s.rx_off + slot_at s.rx_len s.rx_head k)
  unfolding rx_copy_payload
  rx_copy_old k lt = ground arith

  -- Nothing outside the socket's RX ring is written.
  pub rx_copy_outside :
      (i : ℕ)
      → (i < s.rx_off) ⊎ (s.rx_off + s.rx_len ≤ i)
      → rx_copy_payload shm s pkt payload n i ≡ shm i
  unfolding rx_copy_payload
  rx_copy_outside i out = ground arith

  -- When the receiving half of the socket is valid and `n` bytes are free, storing `n` bytes of a
  -- packet and counting them appends exactly these bytes, in their order, to the unread ones, also
  -- when the write goes round the end of the ring.
  pub unread-rx_copy_payload :
      unread (rx_copy_payload shm s pkt payload n) (rx_sock_bump_rx s n)
      ≡ unread shm s ++ bytes_at pkt payload n
  unfolding rx_sock_bump_rx
  unread-rx_copy_payload =
      let mem = rx_copy_payload shm s pkt payload n in
      let sum : add32 s.rx_avail n ≡ s.rx_avail + n = omega arith in
      rw (
        sum,
        ring_bytes-add mem s.rx_off s.rx_len s.rx_head s.rx_avail n v.head_in room,
        ring_bytes_ext shm mem s.rx_off s.rx_len s.rx_head s.rx_avail v.head_in v.fits rx_copy_old,
        ring_bytes-eq-bytes_at mem s.rx_off s.rx_len (slot_at s.rx_len s.rx_head s.rx_avail) n pkt
            payload (slot_at-lt s.rx_len s.rx_head s.rx_avail v.head_in v.fits) (omega arith)
            (λ k lt.
              rw (slot_at-add s.rx_len s.rx_head s.rx_avail k v.head_in (omega arith))
                (rx_copy_new k lt)),
      )

-- Reading takes the oldest bytes off, and leaves the others in their order.
pub unread-deq_sock_bump_rx :
    (shm : Bytes) (s : Sock) (bump : ℕ)
    → IsRxValid s
    → bump ≤ s.rx_avail
    → unread shm s
      ≡ ring_bytes shm s.rx_off s.rx_len s.rx_head bump ++ unread shm (deq_sock_bump_rx s bump)
unfolding deq_sock_bump_rx
unread-deq_sock_bump_rx shm s bump v le =
    let left : bump + sub32 s.rx_avail bump ≡ s.rx_avail = omega arith in
    let head : (if leb s.rx_len (add32 s.rx_head bump)
          then add32 s.rx_head bump - s.rx_len
          else add32 s.rx_head bump)
        ≡ slot_at s.rx_len s.rx_head bump =
      ground arith in
    rw head (
      ap (ring_bytes shm s.rx_off s.rx_len s.rx_head) (sym left)
      ∙ ring_bytes-add shm s.rx_off s.rx_len s.rx_head bump (sub32 s.rx_avail bump) v.head_in
          (omega arith))
