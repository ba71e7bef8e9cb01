-- ===== src/Tcp/Delivery.antt =====
-- `tcp_event_rx` as a receiver of a byte stream.
use chamelio.Common.{ℕ, ◌+◌, ◌^◌, ◌≤◌, ◌<◌, ◌≡◌, arith, add32, Bytes, true, false, u16, ◌-◌, ◌∙◌}
use chamelio.Common.{inl, Bool-cases, inr, none, Bool, ltb, some, ◌&&◌, not, ap}
use chamelio.Tcp.Context.{Context, Message, bump_app_rx, enqueue_bump, tcp_queue_bump_app_rx}
use chamelio.Tcp.Frames.{SameRx, SameBuffers, option_cases, enqueue_bump-SameBuffers}
use chamelio.Tcp.Inv.{IsRxValid}
use chamelio.Tcp.Packet.{tcp_seqno, is_paylen_valid, rx_get_paylen, tcp_src, ip_src}
use chamelio.Tcp.Packet.{rx_is_ack_only}
use chamelio.Tcp.Rx.{rx_payload, rx_store, rx_data}
use chamelio.Tcp.RxRing.{unread-rx_copy_payload}
use chamelio.Tcp.Sock.{Sock, rx_get_rx_bump, rx_is_out_of_order, rx_get_payload_overlap}
use chamelio.Tcp.Sock.{rx_copy_payload, rx_sock_bump_rx}
use chamelio.Tcp.Takes.{Takes, Takes-none, Took, Delivers, finish-Took, reply_ack-Took}
use chamelio.Tcp.Takes.{reply_ack-Delivers, finish-Delivers, Takes-same, Took-Delivers}

-- New bytes are in the packet, and the first one is the byte that is expected.
new_bytes :
    (p : Bytes) (pkt_len : ℕ) (s : Sock) (hdrlen n : ℕ)
    → s.rx_seq < 2 ^ 32
    → tcp_seqno p < 2 ^ 32
    → hdrlen < 2 ^ 16
    → is_paylen_valid pkt_len hdrlen (rx_get_paylen p) ≡ true
    → rx_is_out_of_order p s ≡ false
    → 0 < n
    → n ≤ u16 (rx_get_paylen p - rx_get_payload_overlap p s)
    → (hdrlen + rx_get_payload_overlap p s + n ≤ pkt_len)
      × (add32 (tcp_seqno p) (rx_get_payload_overlap p s) ≡ s.rx_seq)
unfolding is_paylen_valid rx_is_out_of_order rx_get_payload_overlap rx_get_paylen
new_bytes p pkt_len s hdrlen n word seq small valid ooo pos le = ground arith

pub rx_get_rx_bump_bounds :
    (s : Sock) (paylen : ℕ)
    → IsRxValid s
    → (rx_get_rx_bump s paylen ≤ paylen) × (s.rx_avail + rx_get_rx_bump s paylen ≤ s.rx_len)
unfolding rx_get_rx_bump
rx_get_rx_bump_bounds s paylen v = ground arith

-- As many of the new bytes of a packet as fit.
abbrev pub fitting : Bytes → Sock → ℕ
fitting p s = rx_get_rx_bump s (u16 (rx_get_paylen p - rx_get_payload_overlap p s))

-- The rest of the event, for a socket whose receiving half and whose buffers are still the first
-- ones.
module _ (c : Context) (s : Sock) (sid hdrlen : ℕ) (v : IsRxValid s)
    (seq : tcp_seqno c.pkt < 2 ^ 32) (small : hdrlen < 2 ^ 16) where
  pub unchanged :
      {d : Context} {s1 : Sock} → SameBuffers c d → SameRx s s1 → Takes c s hdrlen 0 0 d s1
  unchanged same rx = Takes-none c s hdrlen 0 _ _ same.shm_same v.word rx

  stored-Takes :
      (d : Context) (s1 : Sock) (n : ℕ)
      → SameBuffers c d
      → SameRx s s1
      → s.rx_avail + n ≤ s.rx_len
      → (0 < n
          → (hdrlen + rx_get_payload_overlap c.pkt s + n ≤ c.pkt_len)
            × (add32 (tcp_seqno c.pkt) (rx_get_payload_overlap c.pkt s) ≡ s.rx_seq))
      → Takes c s hdrlen
          (rx_get_payload_overlap c.pkt s)
          n
          (record d {
            shm = rx_copy_payload d.shm s1 d.pkt (hdrlen + rx_get_payload_overlap c.pkt s) n;
          })
          (rx_sock_bump_rx s1 n)
  unfolding rx_sock_bump_rx
  stored-Takes d s1 n same rx room fresh = record {
    appended =
        unread-rx_copy_payload d.shm s1 d.pkt (hdrlen + rx_get_payload_overlap c.pkt s) n
          (omega arith) (omega arith)
        ∙ rw (
          same.shm_same, same.pkt_same, rx.rx_len_same, rx.rx_avail_same, rx.rx_head_same,
          rx.rx_off_same,
        );
    counted = rw (rx_sock_bump_rx, rx.rx_seq_same);
    in_order = fresh;
  }

  rx_store-Took :
      (d : Context) (s1 : Sock) (n : ℕ)
      → SameBuffers c d
      → SameRx s s1
      → s.rx_avail + n ≤ s.rx_len
      → (0 < n
          → (hdrlen + rx_get_payload_overlap c.pkt s + n ≤ c.pkt_len)
            × (add32 (tcp_seqno c.pkt) (rx_get_payload_overlap c.pkt s) ≡ s.rx_seq))
      → Took c sid s hdrlen
          (rx_get_payload_overlap c.pkt s)
          n
          (rx_store d sid s1 (hdrlen + rx_get_payload_overlap c.pkt s) n)
  unfolding rx_store
  rx_store-Took d s1 n same rx room fresh =
      elim (option_cases (enqueue_bump d1 s1.app_bump_qid tcp_queue_bump_app_rx message)) [
        | inl e ↦ rw (e, rx_store) (finish-Took c s hdrlen overlap n sid none takes)
        | inr (d2, e) ↦
            rw (e, rx_store)
              (reply_ack-Took c s hdrlen overlap n sid (
                Takes-same c s hdrlen overlap n
                  (enqueue_bump-SameBuffers d1 _ _ message d2 e).shm_same (omega arith) takes))
      ]
    where
      overlap : ℕ
      overlap = rx_get_payload_overlap c.pkt s

      d1 : Context
      d1 = record d { shm = rx_copy_payload d.shm s1 d.pkt (hdrlen + overlap) n }

      message : Message
      message = bump_app_rx s1.opaque n (tcp_src d.pkt) (ip_src d.pkt)

      takes : Takes c s hdrlen overlap n d1 (rx_sock_bump_rx s1 n)
      takes = stored-Takes d s1 n same rx room fresh

  -- What the bytes that fit satisfy.
  bump_facts :
      (d : Context) (s1 : Sock)
      → SameBuffers c d
      → SameRx s s1
      → rx_is_out_of_order c.pkt s ≡ false
      → is_paylen_valid d.pkt_len hdrlen (rx_get_paylen d.pkt) ≡ true
      → let n = rx_get_rx_bump s1 (u16 (rx_get_paylen d.pkt - rx_get_payload_overlap c.pkt s)) in
        (s.rx_avail + n ≤ s.rx_len)
        × (0 < n
            → (hdrlen + rx_get_payload_overlap c.pkt s + n ≤ c.pkt_len)
              × (add32 (tcp_seqno c.pkt) (rx_get_payload_overlap c.pkt s) ≡ s.rx_seq))
  bump_facts d s1 same rx ooo valid =
      let bounds =
        rx_get_rx_bump_bounds s1 (u16 (rx_get_paylen d.pkt - rx_get_payload_overlap c.pkt s))
          (omega arith) in
      (
        omega arith,
        λ pos.
            new_bytes c.pkt c.pkt_len s hdrlen _ v.word seq small
              (rw (same.pkt_same, same.pkt_len_same) at valid) ooo pos
              (let same_paylen = ap rx_get_paylen same.pkt_same in omega arith),
      )

  same_fitting :
      (d : Context) (s1 : Sock)
      → SameBuffers c d
      → SameRx s s1
      → rx_get_rx_bump s1 (u16 (rx_get_paylen d.pkt - rx_get_payload_overlap c.pkt s))
        ≡ fitting c.pkt s
  unfolding rx_get_rx_bump
  same_fitting d s1 same rx = rw (same.pkt_same, rx.rx_len_same, rx.rx_avail_same)

  rx_payload-Took :
      (d : Context) (s1 : Sock)
      → SameBuffers c d
      → SameRx s s1
      → rx_is_out_of_order c.pkt s ≡ false
      → is_paylen_valid d.pkt_len hdrlen (rx_get_paylen d.pkt) ≡ true
      → Took c sid s hdrlen
          (rx_get_payload_overlap c.pkt s)
          (fitting c.pkt s)
          (rx_payload d sid s1 hdrlen (rx_get_payload_overlap c.pkt s))
  unfolding rx_payload
  rx_payload-Took d s1 same rx ooo e =
      let facts = bump_facts d s1 same rx ooo e in
      let n = rx_get_rx_bump s1 (u16 (rx_get_paylen d.pkt - rx_get_payload_overlap c.pkt s)) in
      rw (← same_fitting d s1 same rx) (elim (Bool-cases (ltb 0 n)) [
        | inr z ↦
            let empty : n ≡ 0 = ground arith in
            rw (e, z, empty)
              (reply_ack-Took c s hdrlen (rx_get_payload_overlap c.pkt s) 0 sid
                (Takes-none c s hdrlen _ _ _ same.shm_same v.word rx))
        | inl z ↦ rw (e, z) (rx_store-Took d s1 n same rx facts.0 facts.1)
      ])

  rx_payload-Delivers :
      (d : Context) (s1 : Sock)
      → SameBuffers c d
      → SameRx s s1
      → rx_is_out_of_order c.pkt s ≡ false
      → Delivers c sid s hdrlen (rx_payload d sid s1 hdrlen (rx_get_payload_overlap c.pkt s))
  unfolding rx_payload
  rx_payload-Delivers d s1 same rx ooo =
      elim (Bool-cases (is_paylen_valid d.pkt_len hdrlen (rx_get_paylen d.pkt))) [
        | inr e ↦ rw e (reply_ack-Delivers c s hdrlen 0 0 sid (unchanged same rx))
        | inl e ↦ Took-Delivers c sid s hdrlen _ _ _ (rx_payload-Took d s1 same rx ooo e)
      ]

  -- A segment with new data in order is taken as far as it fits.
  pub rx_data-Took :
      (d : Context) (s1 : Sock) (dup fast : Bool)
      → SameBuffers c d
      → SameRx s s1
      → rx_is_ack_only c.pkt ≡ false
      → dup ≡ false
      → rx_is_out_of_order c.pkt s ≡ false
      → is_paylen_valid c.pkt_len hdrlen (rx_get_paylen c.pkt) ≡ true
      → Took c sid s hdrlen (rx_get_payload_overlap c.pkt s) (fitting c.pkt s) (
          rx_data d sid s1 hdrlen
            (rx_get_payload_overlap c.pkt s)
            dup
            (rx_is_out_of_order c.pkt s)
            fast)
  unfolding rx_data
  rx_data-Took d s1 dup fast same rx full new ooo whole =
      let here : rx_is_ack_only d.pkt ≡ false = rw same.pkt_same full in
      rw (here, new, ooo)
        (rx_payload-Took d s1 same rx ooo (rw (same.pkt_len_same, same.pkt_same) whole))

  pub rx_data-Delivers :
      (d : Context) (s1 : Sock) (dup fast : Bool)
      → SameBuffers c d
      → SameRx s s1
      → Delivers c sid s hdrlen (
          rx_data d sid s1 hdrlen
            (rx_get_payload_overlap c.pkt s)
            dup
            (rx_is_out_of_order c.pkt s)
            fast)
  unfolding rx_data
  rx_data-Delivers d s1 dup fast same rx = elim (Bool-cases (rx_is_ack_only d.pkt)) [
    | inl a ↦ rw a (finish-Delivers c s hdrlen 0 0 sid (some 0) (unchanged same rx))
    | inr a ↦ elim (Bool-cases (dup && not fast)) [
      | inl b ↦ rw (a, b) (reply_ack-Delivers c s hdrlen 0 0 sid (unchanged same rx))
      | inr b ↦ elim (Bool-cases (rx_is_out_of_order c.pkt s)) [
        | inl o ↦ rw (a, b, o) (reply_ack-Delivers c s hdrlen 0 0 sid (unchanged same rx))
        | inr o ↦ rw (a, b, o) (rx_payload-Delivers d s1 same rx o)
      ]
    ]
  ]
