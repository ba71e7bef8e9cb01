-- ===== src/Tcp/TxRing.antt =====
-- The TX ring of a valid socket: what a packet carries, and what an acknowledgment frees.
use chamelio.Common.{ℕ, ◌+◌, ◌≤◌, ◌<◌, ◌≡◌, ◌⊎◌, sym, arith, List, Bytes, slot_at, slot_at-lt}
use chamelio.Common.{slot_at-add, ring_bytes, bytes_at, ring_bytes-eq-bytes_at}
use chamelio.Tcp.Inv.{IsValid}
use chamelio.Tcp.Sock.{Sock, tx_copy_payload}

-- The bytes in flight, and behind them those not sent yet.
abbrev pub in_flight : Bytes → Sock → List ℕ
in_flight shm s = ring_bytes shm s.tx_off s.tx_len s.tx_head s.tx_pending

abbrev pub unsent : Bytes → Sock → List ℕ
unsent shm s = ring_bytes shm s.tx_off s.tx_len (slot_at s.tx_len s.tx_head s.tx_pending) s.tx_avail

-- The two together: what the peer has not acknowledged.
abbrev pub unacked : Bytes → Sock → List ℕ
unacked shm s = ring_bytes shm s.tx_off s.tx_len s.tx_head (s.tx_pending + s.tx_avail)

module _ (shm : Bytes) (s : Sock) (pkt : Bytes) (payload n : ℕ) (v : IsValid s)
    (fits : n ≤ s.tx_avail) where
  tx_copy_at :
      (j : ℕ)
      → j < n
      → tx_copy_payload shm s pkt payload n (payload + j)
        ≡ shm (s.tx_off + slot_at s.tx_len s.tx_head (s.tx_pending + j))
  unfolding tx_copy_payload
  tx_copy_at j lt = ground arith

  -- Only the payload's bytes of the packet are written.
  pub tx_copy_outside :
      (i : ℕ) → (i < payload) ⊎ (payload + n ≤ i) → tx_copy_payload shm s pkt payload n i ≡ pkt i
  unfolding tx_copy_payload
  tx_copy_outside i out = ground arith

  -- For a valid socket with at least `n` unsent bytes, the payload of the packet is the first `n`
  -- unsent bytes, in their order, also when the read goes round the end of the ring.
  pub bytes_at-tx_copy_payload :
      bytes_at (tx_copy_payload shm s pkt payload n) payload n
      ≡ ring_bytes shm s.tx_off s.tx_len (slot_at s.tx_len s.tx_head s.tx_pending) n
  bytes_at-tx_copy_payload = sym (
      ring_bytes-eq-bytes_at shm s.tx_off s.tx_len (slot_at s.tx_len s.tx_head s.tx_pending) n
        (tx_copy_payload shm s pkt payload n) payload
        (slot_at-lt s.tx_len s.tx_head s.tx_pending v.tx_head_in (omega arith)) (omega arith)
        (λ k lt.
          rw (slot_at-add s.tx_len s.tx_head s.tx_pending k v.tx_head_in (omega arith))
            (sym (tx_copy_at k lt))))
