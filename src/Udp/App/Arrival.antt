-- ===== src/Udp/App/Arrival.antt =====
-- From `udp_sendto` of one host to the RX ring of another.
use chamelio.Common.{none, some, inl, inr, ℕ, ◌≡◌, Bytes, slot_at, ring_bytes, bytes_at, Option}
use chamelio.Common.{◌+◌, ◌≤◌, ◌<◌, ◌⊎◌, ◌++◌, ◌∙◌, ap, List, true, arith, sym}
use chamelio.Udp.App.Data.{udp_sendto}
use chamelio.Udp.App.Rings.{Written, IsOurs, IsAppTx, udp_sendto_lem}
use chamelio.Udp.App.State.{AppSock, App}
use chamelio.Udp.Find.{udp_sock_find, find_free_port}
use chamelio.Udp.Ring.{IsRxRing, unread, IsTxRing}
use chamelio.Udp.Rx.{udp_event_rx}
use chamelio.Udp.Sending.{Sends, udp_event_rx-Sends, IsNamed, handle_bump_tx-Sends}
use chamelio.Udp.State.{Sock, Context, udp_pkt_inner_size, returns, Outcome, udp_max_payload}
use chamelio.Udp.State.{overrun, max_fp_cores}
use chamelio.Udp.Tx.{local_port_for, tx_payload_len, handle_bump_tx}
use mathlib.Core.Path.{subst}

-- What the fast path knows of the TX ring of an application's socket whose older bytes are all sent.
pub record IsCaughtUp (s : AppSock) (t : Sock) : Type 0 where
  pub tx_off : t.tx_off ≡ s.tx_buf
  pub tx_len : t.tx_len ≡ s.tx_len
  pub tx_head : t.tx_head ≡ slot_at s.tx_len s.tx_head s.tx_avail

-- The bytes that the fast path takes from the ring are those of the application's buffer.
taken_bytes :
    (a : App) (sockfd : ℕ) (buf : Bytes) (n ip port : ℕ) (a' : App)
    → Written a sockfd buf n ip port a'
    → (shm : Bytes) (t : Sock) → shm ≡ a'.shm
    → IsCaughtUp (a.socks sockfd) t
    → ring_bytes shm t.tx_off t.tx_len t.tx_head n ≡ bytes_at buf 0 n
taken_bytes a sockfd buf n ip port a' w shm t same up =
    rw (same, up.tx_off, up.tx_len, up.tx_head) w.fresh

-- A port is found or chosen with memory and packet untouched.
port_kept :
    (c : Context) (sid : ℕ)
    → ((local_port_for c sid).0.shm ≡ c.shm) × ((local_port_for c sid).0.pkt_len ≡ c.pkt_len)
unfolding local_port_for find_free_port
port_kept c sid = (ground arith, ground arith)

-- What the event has done, if it has returned.
abbrev SentBy : Context → (sid core tx_ip tx_port n : ℕ) → Outcome → Type 0
SentBy c sid core tx_ip tx_port n (returns r c') = Sends c sid core tx_ip tx_port n r c'
SentBy c sid core tx_ip tx_port n overrun = Unit {0}

-- Bytes that fit into one datagram and into the packet are sent as one.
all_sent :
    (n pkt_len : ℕ)
    → n ≤ udp_max_payload
    → udp_pkt_inner_size + n ≤ pkt_len
    → tx_payload_len n pkt_len ≡ n
unfolding tx_payload_len
all_sent n pkt_len small room = ground arith

-- What `udp_sendto` has done when it has returned the number of the bytes.
sendto-Written :
    (a : App) (sockfd : ℕ) (buf : Bytes) (n ip port : ℕ) (a' : App)
    → IsOurs a sockfd
    → IsAppTx (a.socks sockfd)
    → 0 < n
    → udp_sendto a sockfd buf n ip port ≡ (some n, a')
    → Written a sockfd buf n ip port a'
sendto-Written a sockfd buf n ip port a' ours v pos done =
    elim (udp_sendto_lem a sockfd buf n ip port ours v pos) [
      | inl (why, refused) ↦ absurd (ground (arith, ap (λ x. x.0) (sym refused ∙ done)))
      | inr (a0, sent, w) ↦
          subst (Written a sockfd buf n ip port) (ap (λ x. x.1) (sym sent ∙ done)) w
    ]

-- What the fast path of the host sends for the command, when its context has the memory after
-- `udp_sendto` and all older bytes of the socket have been sent.
module _ (a : App) (sockfd : ℕ) (buf : Bytes) (n ip port : ℕ) (a' : App) (ours : IsOurs a sockfd)
    (ring : IsAppTx (a.socks sockfd)) (pos : 0 < n) (small : n ≤ udp_max_payload)
    (written : udp_sendto a sockfd buf n ip port ≡ (some n, a')) (c : Context) (sid core : ℕ)
    (c1 : Context) (memory : c.shm ≡ a'.shm) (few : core < max_fp_cores) (known : sid < c.n_socks)
    (room : udp_pkt_inner_size + n ≤ c.pkt_len) (bound : local_port_for c sid ≡ (c1, true))
    (tx_ring : IsTxRing (c1.socks sid)) (named : IsNamed (c1.socks sid) ip port)
    (up : IsCaughtUp (a.socks sockfd) (c1.socks sid)) (len : ℕ) (c' : Context)
    (sent : handle_bump_tx c sid core port ip n ≡ returns (some len) c') where
  sendto-Written' : Written a sockfd buf n ip port a'
  sendto-Written' = sendto-Written a sockfd buf n ip port a' ours ring pos written

  bump-Sends : Sends c1 sid core ip port n (some len) c'
  bump-Sends =
      let pkt_len : c1.pkt_len ≡ c.pkt_len =
        ap (λ x. x.0.pkt_len) (sym bound) ∙ (port_kept c sid).1 in
      let whole = all_sent n c1.pkt_len small (omega (arith, room, pkt_len)) in
      let held : n ≤ (c1.socks sid).tx_len = omega (arith, sendto-Written'.room, up.tx_len) in
      let (r0, c0, done, s) =
        handle_bump_tx-Sends c sid core port ip n c1 (omega (arith, room, pkt_len)) pkt_len few
          known bound tx_ring named (omega (arith, held, whole)) in
      subst (SentBy c1 sid core ip port n) (sym done ∙ sent)
        (subst (λ m. Sends c1 sid core ip port m r0 c0) whole s)

  ring_is_buf :
      ring_bytes c1.shm (c1.socks sid).tx_off (c1.socks sid).tx_len (c1.socks sid).tx_head n
      ≡ bytes_at buf 0 n
  ring_is_buf =
      let same : c1.shm ≡ a'.shm = ap (λ x. x.0.shm) (sym bound) ∙ (port_kept c sid).0 ∙ memory in
      taken_bytes a sockfd buf n ip port a' sendto-Written' c1.shm (c1.socks sid) same up

  -- An application sends bytes with `udp_sendto`, which returns their number: not none, and no more
  -- than fit into a datagram and the packet buffer. The fast path of its host, with the memory that
  -- `udp_sendto` has left, takes the command for these bytes with `handle_bump_tx`; the number of the
  -- socket is in the map, it has or gets a port, its names have their fields' widths, its TX ring is
  -- the application's with all older bytes sent, and the event returns a length. The packet comes in at a
  -- context whose lookup for the port finds a socket with a valid RX ring. There it is dropped if it
  -- does not fit; otherwise exactly the bytes of the sending application's buffer are appended to the
  -- unread bytes of the receiver.
  pub udp_sendto-udp_event_rx :
      (d : Context) (sock : ℕ) (d1 : Context)
      → d.pkt ≡ c'.pkt
      → udp_pkt_inner_size + n ≤ d.pkt_len
      → udp_sock_find d port ≡ some (sock, d1)
      → IsRxRing (d1.socks sock)
      → (((d1.socks sock).rx_len < (d1.socks sock).rx_avail + n)
          × (udp_event_rx d ≡ returns none d1))
        ⊎ ((r' : Option ℕ) × (d' : Context) × (udp_event_rx d ≡ returns r' d')
            × ((d1.socks sock).rx_avail + n ≤ (d1.socks sock).rx_len)
            × (unread d'.shm (d'.socks sock) ≡ unread d1.shm (d1.socks sock) ++ bytes_at buf 0 n))
  udp_sendto-udp_event_rx d sock d1 wire fits found v =
      elim (udp_event_rx-Sends c1 sid core port ip n (some len) c' bump-Sends d sock d1 wire fits
        found v) [
          | inl dropped ↦ inl dropped
          | inr (r', d', done, room', bytes) ↦ inr (
            r',
            d',
            done,
            room',
            bytes ∙ ap (λ (b : List ℕ). unread d1.shm (d1.socks sock) ++ b) ring_is_buf,
          )
        ]
