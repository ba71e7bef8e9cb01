-- ===== src/Udp/Sending.antt =====
-- What `handle_bump_tx` sends, and how it is received.
use chamelio.Common.{true, refl, ℕ, Bytes, List, ◌<◌, ◌≤◌, ◌^◌, ◌+◌, ◌≡◌, arith, bytes_at, ap}
use chamelio.Common.{◌∙◌, ◌%◌, ◌*◌, none, some, Option, ring_bytes, slot_at, ◌≢◌, update_self}
use chamelio.Common.{◌⊎◌, false, inl, inr, update_ne, Option-cases, update, ltb, ◌||◌, ◌++◌, leb}
use chamelio.Common.{◌-◌, sym}
use chamelio.Headers.{ip_src, ip_dst}
use chamelio.Queue.{send}
use chamelio.Udp.Delivery.{udp_event_rx-Stores}
use chamelio.Udp.Find.{udp_sock_find}
use chamelio.Udp.Ring.{IsTxRing, bytes_at-tx_copy, tx_copy_before, IsRxRing, unread}
use chamelio.Udp.Rx.{is_datagram, ip_hdrs_len, udp_src, udp_dst, udp_len, udp_event_rx}
use chamelio.Udp.State.{Sock, udp_pkt_inner_size, udp_max_payload, Context, set_sock, returns}
use chamelio.Udp.State.{udp_queue_bump_app_tx, bump_app_tx, bump, max_fp_cores}
use chamelio.Udp.Tx.{fill_hdrs, tx_payload_len, tx_sock, tx_send, tx_copy, handle_bump_tx}
use chamelio.Udp.Tx.{local_port_for}
use mathlib.Core.Path.{subst}

-- The datagram is a proper one from the socket to the peer, and carries the bytes.
pub record IsSent (s : Sock) (tx_ip tx_port n : ℕ) (bytes : List ℕ) (p : Bytes) : Type 0 where
  pub proper : (pkt_len : ℕ) → udp_pkt_inner_size + n ≤ pkt_len → is_datagram p pkt_len ≡ true
  pub hdrs : ip_hdrs_len p ≡ 20
  pub from_ip : ip_src p ≡ s.local_ip
  pub to_ip : ip_dst p ≡ tx_ip
  pub from_port : udp_src p 20 ≡ s.local_port
  pub to_port : udp_dst p 20 ≡ tx_port
  pub len : udp_len p 20 ≡ 8 + n
  pub payload : bytes_at p udp_pkt_inner_size n ≡ bytes

-- The names have the widths of the header's fields.
pub record IsNamed (s : Sock) (tx_ip tx_port : ℕ) : Type 0 where
  pub ip_word : s.local_ip < 2 ^ 32
  pub port_word : s.local_port < 2 ^ 16
  pub tx_ip_word : tx_ip < 2 ^ 32
  pub tx_port_word : tx_port < 2 ^ 16

fill_hdrs_proper :
    (p : Bytes) (s : Sock) (tx_ip tx_port n pkt_len : ℕ)
    → n ≤ udp_max_payload
    → udp_pkt_inner_size + n ≤ pkt_len
    → is_datagram (fill_hdrs p s tx_ip tx_port n) pkt_len ≡ true
unfolding is_datagram fill_hdrs
fill_hdrs_proper p s tx_ip tx_port n pkt_len small room = ground arith

-- The tests read the first 28 bytes only, when there are no options.
is_datagram_ext :
    (p q : Bytes) (pkt_len : ℕ)
    → ((i : ℕ) → i < udp_pkt_inner_size → q i ≡ p i)
    → ip_hdrs_len p ≡ 20
    → is_datagram q pkt_len ≡ is_datagram p pkt_len
unfolding is_datagram
is_datagram_ext p q pkt_len same hdrs =
    let hdrs' : ip_hdrs_len q ≡ 20 = ap (λ b. b % 2 ^ 4 * 4) (same 0 (omega arith)) ∙ hdrs in
    rw
      (
        hdrs,
        hdrs',
        same 0 (omega arith),
        same 2 (omega arith),
        same 3 (omega arith),
        same 6 (omega arith),
        same 7 (omega arith),
        same 9 (omega arith),
        same 24 (omega arith),
        same 25 (omega arith),
      )
      refl

fill_hdrs-IsSent :
    (p q : Bytes) (s : Sock) (tx_ip tx_port n : ℕ)
    → IsNamed s tx_ip tx_port
    → n ≤ udp_max_payload
    → ((i : ℕ) → i < udp_pkt_inner_size → q i ≡ fill_hdrs p s tx_ip tx_port n i)
    → IsSent s tx_ip tx_port n (bytes_at q udp_pkt_inner_size n) q
unfolding fill_hdrs
fill_hdrs-IsSent p q s tx_ip tx_port n w small same = record {
  proper = λ pkt_len room.
      is_datagram_ext (fill_hdrs p s tx_ip tx_port n) q pkt_len same (omega arith)
      ∙ fill_hdrs_proper p s tx_ip tx_port n pkt_len small room;
  hdrs = omega (arith, same 0 (omega arith));
  from_ip = omega (
    arith,
    same 12 (omega arith),
    same 13 (omega arith),
    same 14 (omega arith),
    same 15 (omega arith),
  );
  to_ip = omega (
    arith,
    same 16 (omega arith),
    same 17 (omega arith),
    same 18 (omega arith),
    same 19 (omega arith),
  );
  from_port = omega (arith, same 20 (omega arith), same 21 (omega arith));
  to_port = omega (arith, same 22 (omega arith), same 23 (omega arith));
  len = omega (arith, same 24 (omega arith), same 25 (omega arith));
  payload = refl;
}

pub tx_payload_len_bounds :
    (tx_avail pkt_len : ℕ)
    → udp_pkt_inner_size ≤ pkt_len
    → (tx_payload_len tx_avail pkt_len ≤ udp_max_payload)
      × (tx_payload_len tx_avail pkt_len ≤ tx_avail)
      × (udp_pkt_inner_size + tx_payload_len tx_avail pkt_len ≤ pkt_len)
unfolding tx_payload_len
tx_payload_len_bounds tx_avail pkt_len room = (ground arith, ground arith, ground arith)

-- What is sent when `n` bytes stand in the TX ring of the socket: a proper datagram with them. The
-- head of the ring has moved on, and the application is told or its queue is full.
pub record Sends (c : Context) (sid core tx_ip tx_port n : ℕ) (r : Option ℕ) (c' : Context)
    : Type 0 where
  pub sent :
      let s = c.socks sid in
      IsSent s tx_ip tx_port n (ring_bytes c.shm s.tx_off s.tx_len s.tx_head n) c'.pkt
  pub head : (c'.socks sid).tx_head ≡ slot_at (c.socks sid).tx_len (c.socks sid).tx_head n
  pub others : (j : ℕ) → j ≢ sid → c'.socks j ≡ c.socks j
  pub memory : c'.shm ≡ c.shm
  pub told :
      let q = (c.socks sid).app_bump_qids core in
      let sending =
        send (c.equeues q) (c.slots q) udp_queue_bump_app_tx (bump_app_tx (c.socks sid).opaque n) in
      ((r ≡ some (udp_pkt_inner_size + n)) × (sending ≡ some (c'.equeues q, c'.slots q)))
      ⊎ ((r ≡ none) × (sending ≡ none))

moved_head :
    (s : Sock) (tx_avail n : ℕ)
    → IsTxRing s
    → n ≤ s.tx_len
    → (tx_sock s tx_avail n).tx_head ≡ slot_at s.tx_len s.tx_head n
unfolding tx_sock
moved_head s tx_avail n v held = ground (arith, v.small, v.head_in)

module _ (c : Context) (sid core tx_port tx_ip tx_avail : ℕ) (room : udp_pkt_inner_size ≤ c.pkt_len)
    (v : IsTxRing (c.socks sid)) (w : IsNamed (c.socks sid) tx_ip tx_port)
    (held : tx_payload_len tx_avail c.pkt_len ≤ (c.socks sid).tx_len) where
  -- The context with the datagram in the packet buffer.
  built : Context
  built =
      let s = c.socks sid in
      let n = tx_payload_len tx_avail c.pkt_len in
      record (set_sock c sid (tx_sock s tx_avail n)) {
        pkt = tx_copy c.shm s (fill_hdrs c.pkt s tx_ip tx_port n) udp_pkt_inner_size n;
      }

  built-IsSent :
      let s = c.socks sid in
      let n = tx_payload_len tx_avail c.pkt_len in
      IsSent s tx_ip tx_port n (ring_bytes c.shm s.tx_off s.tx_len s.tx_head n) built.pkt
  unfolding built
  built-IsSent =
      let s = c.socks sid in
      let n = tx_payload_len tx_avail c.pkt_len in
      let p = fill_hdrs c.pkt s tx_ip tx_port n in
      let small = (tx_payload_len_bounds tx_avail c.pkt_len room).0 in
      subst
        (λ (bytes : List ℕ).
          IsSent s tx_ip tx_port n bytes (tx_copy c.shm s p udp_pkt_inner_size n))
        (bytes_at-tx_copy c.shm s p udp_pkt_inner_size n v held)
        (fill_hdrs-IsSent c.pkt (tx_copy c.shm s p udp_pkt_inner_size n) s tx_ip tx_port n w small
          (λ i lt. tx_copy_before c.shm s p udp_pkt_inner_size n v held i lt))

  built_head :
      (built.socks sid).tx_head
      ≡ slot_at (c.socks sid).tx_len (c.socks sid).tx_head (tx_payload_len tx_avail c.pkt_len)
  unfolding built tx_sock
  built_head =
      let s = c.socks sid in
      let n = tx_payload_len tx_avail c.pkt_len in
      ap (λ (x : Sock). x.tx_head) (update_self c.socks sid (tx_sock s tx_avail n))
      ∙ moved_head s tx_avail n v held

  tx_send-Sends :
      (r : Option ℕ) × (c' : Context) × (tx_send c sid core tx_port tx_ip tx_avail ≡ returns r c')
      × Sends c sid core tx_ip tx_port (tx_payload_len tx_avail c.pkt_len) r c'
  unfolding tx_send built bump tx_sock
  tx_send-Sends =
      let s = c.socks sid in
      let n = tx_payload_len tx_avail c.pkt_len in
      let q = s.app_bump_qids core in
      let others = λ (j : ℕ) (ne : j ≢ sid). update_ne c.socks sid (tx_sock s tx_avail n) j ne in
      elim (Option-cases
        (send (c.equeues q) (c.slots q) udp_queue_bump_app_tx (bump_app_tx s.opaque n))) [
          | inl full ↦ (
            none,
            built,
            rw (full, tx_send, bump) refl,
            record {
              sent = built-IsSent;
              head = built_head;
              others = others;
              memory = refl;
              told = inr (refl, full);
            },
          )
          | inr (m, sending) ↦ (
            some (udp_pkt_inner_size + n),
            record built { equeues = update c.equeues q m.0; slots = update c.slots q m.1 },
            rw (sending, tx_send, bump) refl,
            record {
              sent = built-IsSent;
              head = built_head;
              others = others;
              memory = refl;
              told =
                  inl (refl, rw (update_self c.equeues q m.0, update_self c.slots q m.1) sending);
            },
          )
        ]

pub handle_bump_tx-Sends :
    (c : Context) (sock_id core tx_port tx_ip tx_avail : ℕ) (c1 : Context)
    → udp_pkt_inner_size ≤ c1.pkt_len
    → c1.pkt_len ≡ c.pkt_len
    → core < max_fp_cores
    → sock_id < c.n_socks
    → local_port_for c sock_id ≡ (c1, true)
    → IsTxRing (c1.socks sock_id)
    → IsNamed (c1.socks sock_id) tx_ip tx_port
    → tx_payload_len tx_avail c1.pkt_len ≤ (c1.socks sock_id).tx_len
    → (r : Option ℕ) × (c' : Context) × (handle_bump_tx c sock_id core tx_port tx_ip tx_avail
        ≡ returns r c')
      × Sends c1 sock_id core tx_ip tx_port (tx_payload_len tx_avail c1.pkt_len) r c'
unfolding handle_bump_tx
handle_bump_tx-Sends c sock_id core tx_port tx_ip tx_avail c1 room same few known bound v w held =
    let (r, c', done, s) = tx_send-Sends c1 sock_id core tx_port tx_ip tx_avail room v w held in
    let guard : (ltb c.pkt_len udp_pkt_inner_size || leb max_fp_cores core) ≡ false =
      ground (arith, same) in
    let inside : leb c.n_socks sock_id ≡ false = ground (arith, known) in
    (r, c', rw (bound, guard, inside, handle_bump_tx) done, s)

-- What a datagram's reader has of one that was sent.
module _ (d : Context) (s : Sock) (tx_ip tx_port n : ℕ) (ring : List ℕ)
    (e : IsSent s tx_ip tx_port n ring d.pkt) where
  sent_dst : udp_dst d.pkt (ip_hdrs_len d.pkt) ≡ tx_port
  sent_dst = ap (λ k. udp_dst d.pkt k) e.hdrs ∙ e.to_port

  sent_count : udp_len d.pkt (ip_hdrs_len d.pkt) - 8 ≡ n
  sent_count =
      let len : udp_len d.pkt (ip_hdrs_len d.pkt) ≡ 8 + n =
        ap (λ k. udp_len d.pkt k) e.hdrs ∙ e.len in
      omega (arith, len)

  sent_bytes : (d1 : Context) → d1.pkt ≡ d.pkt → bytes_at d1.pkt (ip_hdrs_len d1.pkt + 8) n ≡ ring
  sent_bytes d1 same =
      ap (λ p. bytes_at p (ip_hdrs_len p + 8) n) same
      ∙ ap (λ k. bytes_at d.pkt (k + 8) n) e.hdrs
      ∙ e.payload

-- A datagram that one socket has sent, when it arrives at a context whose lookup for the port finds a
-- socket with a valid RX ring, is dropped there if it does not fit; otherwise exactly the bytes of the
-- sender's TX ring are appended to the unread bytes of the receiver.
pub udp_event_rx-Sends :
    (c : Context) (sid core tx_port tx_ip n : ℕ) (r : Option ℕ) (c' : Context)
    → Sends c sid core tx_ip tx_port n r c'
    → (d : Context) (sock : ℕ) (d1 : Context) → d.pkt ≡ c'.pkt
    → udp_pkt_inner_size + n ≤ d.pkt_len
    → udp_sock_find d tx_port ≡ some (sock, d1)
    → IsRxRing (d1.socks sock)
    → (((d1.socks sock).rx_len < (d1.socks sock).rx_avail + n) × (udp_event_rx d ≡ returns none d1))
      ⊎ ((r' : Option ℕ) × (d' : Context) × (udp_event_rx d ≡ returns r' d')
          × ((d1.socks sock).rx_avail + n ≤ (d1.socks sock).rx_len)
          × (unread d'.shm (d'.socks sock)
              ≡ unread d1.shm (d1.socks sock)
                ++ ring_bytes c.shm
                    (c.socks sid).tx_off
                    (c.socks sid).tx_len
                    (c.socks sid).tx_head
                    n))
udp_event_rx-Sends c sid core tx_port tx_ip n r c' s d sock d1 wire room found v =
    let snd = c.socks sid in
    let ring = ring_bytes c.shm snd.tx_off snd.tx_len snd.tx_head n in
    let e : IsSent snd tx_ip tx_port n ring d.pkt =
      subst (λ (p : Bytes). IsSent snd tx_ip tx_port n ring p) (sym wire) s.sent in
    let count = sent_count d snd tx_ip tx_port n ring e in
    let dst = sent_dst d snd tx_ip tx_port n ring e in
    let (same, stored) =
      udp_event_rx-Stores d sock d1 (e.proper d.pkt_len room) (ap (udp_sock_find d) dst ∙ found)
        v in
    let bytes = sent_bytes d snd tx_ip tx_port n ring e d1 same.0 in
    elim stored [
      | inl (large, dropped) ↦
          inl (
            subst (λ m. (d1.socks sock).rx_len < (d1.socks sock).rx_avail + m) count large,
            dropped,
          )
      | inr (fits, st) ↦ inr (
        st.0,
        st.1,
        st.2,
        subst (λ m. (d1.socks sock).rx_avail + m ≤ (d1.socks sock).rx_len) count fits,
        st.3.bytes
            ∙ ap (λ m. unread d1.shm (d1.socks sock) ++ bytes_at d1.pkt (ip_hdrs_len d1.pkt + 8) m)
                count
            ∙ ap (λ (b : List ℕ). unread d1.shm (d1.socks sock) ++ b) bytes,
      )
    ]
