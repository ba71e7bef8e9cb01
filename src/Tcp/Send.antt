-- ===== src/Tcp/Send.antt =====
-- `tcp_event_sched` as a sender of a byte stream.
use chamelio.Common.{refl, ℕ, ◌≡◌, ◌≤◌, bytes_at, arith, ◌<◌, ◌+◌, ring_bytes, Bool-cases}
use chamelio.Common.{slot_at, ltb, inl, inr, add32, ◌++◌, Bytes, ring_bytes-add, ◌∙◌, sym}
use chamelio.Common.{clear_bit}
use chamelio.Tcp.Context.{Context, clock_rdtsc, tcp_now_us}
use chamelio.Tcp.Fill.{tx_get_hdrlen, tx_fill_hdr, send_ece_bit}
use chamelio.Tcp.Header.{tcp_seqno-tx_fill_hdr}
use chamelio.Tcp.Inv.{IsValid, tx_sock_tx_bump-IsValid}
use chamelio.Tcp.Packet.{tcp_seqno}
use chamelio.Tcp.Rx.{tx_sched_tsc}
use chamelio.Tcp.Sock.{tx_get_tx_bump, Sock, tx_sock_tx_bump, tx_copy_payload}
use chamelio.Tcp.Sock.{tcp_sock_recovery_avail}
use chamelio.Tcp.Steps.{SameMarks-IsValid}
use chamelio.Tcp.Tx.{tx_again, tx_data, tx_sock_sched_next}
use chamelio.Tcp.TxRing.{in_flight, unacked, bytes_at-tx_copy_payload, tx_copy_outside}
use mathlib.Core.List.{append-nil}

-- What `tx_data` keeps of a context.
tx_again-pkt : (c : Context) (s : Sock) → (tx_again c s).pkt ≡ c.pkt
unfolding tx_again tx_sched_tsc clock_rdtsc
tx_again-pkt c s = ground arith

tx_again-shm : (c : Context) (s : Sock) → (tx_again c s).shm ≡ c.shm
unfolding tx_again tx_sched_tsc clock_rdtsc
tx_again-shm c s = ground arith

pub tx_again-socks : (c : Context) (s : Sock) → (tx_again c s).socks ≡ c.socks
unfolding tx_again tx_sched_tsc clock_rdtsc
tx_again-socks c s = ground arith

-- What a socket sends is no more than is unsent and no more than fits the packet, and when it sends
-- anything, what is in flight afterwards is inside the window that the peer offered.
pub tx_get_tx_bump_bounds :
    (s : Sock) (max_paylen : ℕ)
    → (tx_get_tx_bump s max_paylen ≤ s.tx_avail)
      × (tx_get_tx_bump s max_paylen ≤ max_paylen)
      × (0 < tx_get_tx_bump s max_paylen
          → s.tx_pending + tx_get_tx_bump s max_paylen ≤ s.tx_remote_avail)
unfolding tx_get_tx_bump
tx_get_tx_bump_bounds s max_paylen = ground arith

-- The packet carries the next `n` unsent bytes behind a header with their sequence number; they are
-- in flight afterwards, and what the peer has not acknowledged is the same stream as before.
pub record Sent (shm : Bytes) (s : Sock) (n : ℕ) (c' : Context) (s' : Sock) : Type 0 where
  pub payload :
      bytes_at c'.pkt tx_get_hdrlen n
      ≡ ring_bytes shm s.tx_off s.tx_len (slot_at s.tx_len s.tx_head s.tx_pending) n
  pub seqno : tcp_seqno c'.pkt ≡ add32 s.tx_seq s.tx_pending
  pub flight : in_flight c'.shm s' ≡ in_flight shm s ++ bytes_at c'.pkt tx_get_hdrlen n
  pub stream : unacked c'.shm s' ≡ unacked shm s
  pub window : 0 < n → s'.tx_pending ≤ s.tx_remote_avail
  pub valid : IsValid s'
  pub memory : c'.shm ≡ shm

tcp_seqno-same : (p p' : Bytes) → ((i : ℕ) → i < 52 → p' i ≡ p i) → tcp_seqno p' ≡ tcp_seqno p
tcp_seqno-same p p' h =
    omega (arith, h 24 (omega arith), h 25 (omega arith), h 26 (omega arith), h 27 (omega arith))

-- The marks of a socket after a send, when only its flags and its pacing have changed besides.
module _ (c d : Context) (s : Sock) (flags n now_tsc : ℕ) (v : IsValid s) (shm : d.shm ≡ c.shm)
    (seq : tcp_seqno d.pkt ≡ add32 s.tx_seq s.tx_pending) (le : n ≤ s.tx_avail)
    (window : 0 < n → s.tx_pending + n ≤ s.tx_remote_avail) where
  abbrev filled : Sock
  filled = record s { flags = flags }

  abbrev after : Sock
  after = tx_sock_sched_next d.clock (tx_sock_tx_bump filled n) (tx_get_hdrlen + n) now_tsc

  abbrev buffer : Bytes
  buffer = tx_copy_payload d.shm filled d.pkt tx_get_hdrlen n

  filled-IsValid : IsValid filled
  filled-IsValid = SameMarks-IsValid s filled (ground arith) v

  payload_sent :
      bytes_at buffer tx_get_hdrlen n
      ≡ ring_bytes c.shm s.tx_off s.tx_len (slot_at s.tx_len s.tx_head s.tx_pending) n
  payload_sent =
      bytes_at-tx_copy_payload d.shm filled d.pkt tx_get_hdrlen n filled-IsValid le ∙ rw shm

  seqno_sent : tcp_seqno buffer ≡ add32 s.tx_seq s.tx_pending
  seqno_sent =
      tcp_seqno-same d.pkt buffer
        (λ i lt. tx_copy_outside d.shm filled d.pkt tx_get_hdrlen n filled-IsValid le i (inl lt))
      ∙ seq

  marks_sent :
      (after.tx_pending ≡ s.tx_pending + n)
      × (after.tx_pending + after.tx_avail ≡ s.tx_pending + s.tx_avail)
      × (after.tx_off ≡ s.tx_off)
      × (after.tx_len ≡ s.tx_len)
      × (after.tx_head ≡ s.tx_head)
  unfolding tx_sock_sched_next tx_sock_tx_bump
  marks_sent = ground arith

  flight_sent : in_flight d.shm after ≡ in_flight c.shm s ++ bytes_at buffer tx_get_hdrlen n
  flight_sent = rw (
    shm,
    marks_sent.0,
    marks_sent.2,
    marks_sent.3,
    marks_sent.4,
    ring_bytes-add c.shm s.tx_off s.tx_len s.tx_head s.tx_pending n v.tx_head_in
        (omega (arith, v.tx_fits)),
    ← payload_sent,
    shm,
  )

  stream_sent : unacked d.shm after ≡ unacked c.shm s
  stream_sent = rw (shm, marks_sent.1, marks_sent.2, marks_sent.3, marks_sent.4)

  Sent_data :
      IsValid (tx_sock_tx_bump filled n)
      → Sent c.shm s n (tx_again (record d { pkt = buffer }) after) after
  unfolding tx_sock_sched_next
  Sent_data w =
      let e = tx_again-pkt (record d { pkt = buffer }) after in
      let m = tx_again-shm (record d { pkt = buffer }) after in
      record {
        payload = rw e payload_sent;
        seqno = rw e seqno_sent;
        flight = rw (e, m) flight_sent;
        stream = rw m stream_sent;
        window = λ pos. rw marks_sent.0 (window pos);
        valid = SameMarks-IsValid (tx_sock_tx_bump filled n) after (ground arith) w;
        memory = m ∙ shm;
      }

  -- A packet with no payload leaves everything in place.
  Sent_none : n ≡ 0 → Sent c.shm s n d filled
  Sent_none e = record {
    payload = rw e;
    seqno = seq;
    flight = rw (e, shm) (sym (append-nil _));
    stream = rw shm;
    window = λ pos. absurd (omega arith);
    valid = filled-IsValid;
    memory = shm;
  }

  Sent_filled :
      IsValid (tx_sock_tx_bump filled n)
      → Sent c.shm s n (tx_data d filled n now_tsc).0 (tx_data d filled n now_tsc).1
  unfolding tx_data
  Sent_filled w = elim (Bool-cases (ltb 0 n)) [
    | inl e ↦ rw e (Sent_data w)
    | inr e ↦ rw e (Sent_none (ground arith))
  ]

tx_get_tx_bump-flags :
    (s : Sock) (flags max_paylen : ℕ)
    → tx_get_tx_bump (record s { flags = flags }) max_paylen ≡ tx_get_tx_bump s max_paylen
unfolding tx_get_tx_bump tcp_sock_recovery_avail
tx_get_tx_bump-flags s flags max_paylen = refl

pub tx_fill_hdr-shm : (c : Context) (s : Sock) (h n : ℕ) → (tx_fill_hdr c s h n).0.shm ≡ c.shm
unfolding tx_fill_hdr tcp_now_us clock_rdtsc
tx_fill_hdr-shm c s h n = refl

pub tx_fill_hdr-flags :
    (c : Context) (s : Sock) (h n : ℕ)
    → (tx_fill_hdr c s h n).1 ≡ record s { flags = clear_bit s.flags send_ece_bit }
unfolding tx_fill_hdr
tx_fill_hdr-flags c s h n = refl

-- What a socket sends, with the packet's room.
pub tx_data-Sent :
    (c : Context) (s : Sock) (now_tsc max_paylen : ℕ)
    → IsValid s
    → let n = tx_get_tx_bump s max_paylen in
      let filled = tx_fill_hdr c s tx_get_hdrlen n in
      let sent = tx_data filled.0 filled.1 n now_tsc in Sent c.shm s n sent.0 sent.1
tx_data-Sent c s now_tsc max_paylen v =
    let n = tx_get_tx_bump s max_paylen in
    let flags = clear_bit s.flags send_ece_bit in
    let bounds = tx_get_tx_bump_bounds s max_paylen in
    rw (tx_fill_hdr-flags c s tx_get_hdrlen n) (
      Sent_filled c (tx_fill_hdr c s tx_get_hdrlen n).0 s flags n now_tsc v
        (tx_fill_hdr-shm c s tx_get_hdrlen n) (tcp_seqno-tx_fill_hdr c s tx_get_hdrlen n) bounds.0
        bounds.2
        (rw (← tx_get_tx_bump-flags s flags max_paylen) (
          tx_sock_tx_bump-IsValid (record s { flags = flags }) max_paylen
            (SameMarks-IsValid s (record s { flags = flags }) (ground arith) v))))
