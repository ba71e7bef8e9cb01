-- ===== src/Udp/Ring.antt =====
-- The rings of a UDP socket.
use chamelio.Common.{Bytes, ◌<◌, List, ℕ, ◌^◌, ring_bytes, ◌+◌, ◌≤◌, ◌≡◌, bytes_at, ◌++◌, slot_at}
use chamelio.Common.{arith, sym, ◌⊎◌, add32, sub32, ring_bytes-eq-bytes_at, ring_bytes-add}
use chamelio.Common.{if◌then◌else◌, ring_bytes_ext, leb, slot_at-lt, ◌-◌, slot_at-add, ap, ◌∙◌}
use chamelio.Udp.Deq.{deq_sock}
use chamelio.Udp.Rx.{rx_copy, rx_sock, rx_tail}
use chamelio.Udp.State.{Sock}
use chamelio.Udp.Tx.{tx_copy}

-- The RX ring is smaller than half a word, and its marks lie inside it; so for the TX ring.
pub record IsRxRing (s : Sock) : Type 0 where
  pub small : s.rx_len < 2 ^ 31
  pub head_in : s.rx_head < s.rx_len
  pub fits : s.rx_avail ≤ s.rx_len

pub record IsTxRing (s : Sock) : Type 0 where
  pub small : s.tx_len < 2 ^ 31
  pub head_in : s.tx_head < s.tx_len

-- The bytes that the application has not read yet, oldest first.
abbrev pub unread : Bytes → Sock → List ℕ
unread shm s = ring_bytes shm s.rx_off s.rx_len s.rx_head s.rx_avail

module _ (shm : Bytes) (s : Sock) (pkt : Bytes) (payload n : ℕ) (v : IsRxRing s)
    (room : s.rx_avail + n ≤ s.rx_len) where
  rx_copy_new :
      (j : ℕ)
      → j < n
      → rx_copy shm s pkt payload n (s.rx_off + slot_at s.rx_len s.rx_head (s.rx_avail + j))
        ≡ pkt (payload + j)
  unfolding rx_copy rx_tail
  rx_copy_new j lt = ground arith

  rx_copy_old :
      (k : ℕ)
      → k < s.rx_avail
      → rx_copy shm s pkt payload n (s.rx_off + slot_at s.rx_len s.rx_head k)
        ≡ shm (s.rx_off + slot_at s.rx_len s.rx_head k)
  unfolding rx_copy rx_tail
  rx_copy_old k lt = ground arith

  pub rx_copy_outside :
      (i : ℕ) → (i < s.rx_off) ⊎ (s.rx_off + s.rx_len ≤ i) → rx_copy shm s pkt payload n i ≡ shm i
  unfolding rx_copy rx_tail
  rx_copy_outside i out = ground arith

  pub unread-rx_copy :
      (core : ℕ)
      → unread (rx_copy shm s pkt payload n) (rx_sock s core n)
        ≡ unread shm s ++ bytes_at pkt payload n
  unfolding rx_sock
  unread-rx_copy core =
      let mem = rx_copy shm s pkt payload n in
      let sum : add32 s.rx_avail n ≡ s.rx_avail + n = omega arith in
      rw (
        sum,
        ring_bytes-add mem s.rx_off s.rx_len s.rx_head s.rx_avail n v.head_in room,
        ring_bytes_ext shm mem s.rx_off s.rx_len s.rx_head s.rx_avail v.head_in v.fits rx_copy_old,
        ring_bytes-eq-bytes_at mem s.rx_off s.rx_len (slot_at s.rx_len s.rx_head s.rx_avail) n pkt
            payload (slot_at-lt s.rx_len s.rx_head s.rx_avail v.head_in v.fits) (omega arith)
            (λ k lt.
              rw (slot_at-add s.rx_len s.rx_head s.rx_avail k v.head_in (omega arith))
                (rx_copy_new k lt)),
      )

-- Reading takes the oldest bytes off.
pub unread-deq_sock :
    (shm : Bytes) (s : Sock) (n : ℕ)
    → IsRxRing s
    → n ≤ s.rx_avail
    → unread shm s ≡ ring_bytes shm s.rx_off s.rx_len s.rx_head n ++ unread shm (deq_sock s n)
unfolding deq_sock
unread-deq_sock shm s n v le =
    let left : n + sub32 s.rx_avail n ≡ s.rx_avail = omega arith in
    let head : (if leb s.rx_len (add32 s.rx_head n)
          then add32 s.rx_head n - s.rx_len
          else add32 s.rx_head n)
        ≡ slot_at s.rx_len s.rx_head n =
      ground arith in
    rw head (
      ap (ring_bytes shm s.rx_off s.rx_len s.rx_head) (sym left)
      ∙ ring_bytes-add shm s.rx_off s.rx_len s.rx_head n (sub32 s.rx_avail n) v.head_in
          (omega arith))

module _ (shm : Bytes) (s : Sock) (pkt : Bytes) (payload n : ℕ) (v : IsTxRing s)
    (fits : n ≤ s.tx_len) where
  tx_copy_at :
      (j : ℕ)
      → j < n
      → tx_copy shm s pkt payload n (payload + j) ≡ shm (s.tx_off + slot_at s.tx_len s.tx_head j)
  unfolding tx_copy
  tx_copy_at j lt = ground arith

  pub tx_copy_before : (i : ℕ) → i < payload → tx_copy shm s pkt payload n i ≡ pkt i
  unfolding tx_copy
  tx_copy_before i lt = ground arith

  pub bytes_at-tx_copy :
      bytes_at (tx_copy shm s pkt payload n) payload n
      ≡ ring_bytes shm s.tx_off s.tx_len s.tx_head n
  bytes_at-tx_copy = sym (
      ring_bytes-eq-bytes_at shm s.tx_off s.tx_len s.tx_head n (tx_copy shm s pkt payload n) payload
        v.head_in fits (λ k lt. sym (tx_copy_at k lt)))
