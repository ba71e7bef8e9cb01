-- ===== src/Tcp/Stream.antt =====
-- `tcp_event_rx` as a whole: the bytes that a connection receives are the stream of its peer.
use chamelio.Common.{refl, Bytes, ℕ, ◌<◌, ◌^◌, ◌∙◌, arith, ◌+◌, inl, none, inr, ◌≡◌, Bool-cases}
use chamelio.Common.{true, u16, false, some}
use chamelio.Tcp.Context.{Context, Outcome, done}
use chamelio.Tcp.Delivery.{rx_data-Delivers, unchanged}
use chamelio.Tcp.Frames.{SameBuffers, rx_take_ack-SameBuffers, SameRx, rx_take_ack-SameRx}
use chamelio.Tcp.Frames.{option_cases, rx_dupack-SameBuffers, rx_sched_tx-SameBuffers}
use chamelio.Tcp.Frames.{SameRx-trans, rx_dupack-SameRx, rx_bump_app-SameBuffers}
use chamelio.Tcp.Inv.{IsRxValid}
use chamelio.Tcp.Lookup.{sock_find}
use chamelio.Tcp.Packet.{rx_get_hdrlen, be32, tcp_seqno, is_pktlen_valid, is_paylen_valid}
use chamelio.Tcp.Packet.{rx_is_ip, rx_is_flags_ctl}
use chamelio.Tcp.Rx.{rx_segment, rx_take_ack, rx_bump_app, rx_data, rx_sched_tx, rx_dupack}
use chamelio.Tcp.Rx.{tcp_event_rx, rx_locked, rx_mark_ce}
use chamelio.Tcp.Sock.{Sock, sock_sched_avail, rx_get_payload_overlap, rx_is_payload_dup}
use chamelio.Tcp.Sock.{rx_is_out_of_order, lock_sock, is_established}
use chamelio.Tcp.Takes.{Delivers, finish-Delivers, reply_ack-Delivers, Takes-start}

-- The bytes of a packet are bytes.
abbrev pub IsPacket : Bytes → Type 0
IsPacket p = (k : ℕ) → p k < 2 ^ 8

pub be32-lt : (p : Bytes) (k : ℕ) → IsPacket p → be32 p k < 2 ^ 32
be32-lt p k h = omega (arith, h k, h (k + 1), h (k + 2), h (k + 2 + 1))

pub rx_get_hdrlen-lt : (p : Bytes) → IsPacket p → rx_get_hdrlen p < 2 ^ 16
unfolding rx_get_hdrlen
rx_get_hdrlen-lt p h = omega (arith, h 0, h 32, h 33, h (32 + 1))

pub rx_mark_ce-SameRx : (c : Context) (s : Sock) → SameRx s (rx_mark_ce c s)
unfolding rx_mark_ce
rx_mark_ce-SameRx c s = ground arith

pub SameBuffers-refl : (c : Context) → SameBuffers c c
SameBuffers-refl c = record {
  pkt_same = refl;
  pkt_len_same = refl;
  shm_same = refl;
  socks_same = refl;
}

pub SameBuffers-trans : {c d e : Context} → SameBuffers c d → SameBuffers d e → SameBuffers c e
SameBuffers-trans a b = record {
  pkt_same = b.pkt_same ∙ a.pkt_same;
  pkt_len_same = b.pkt_len_same ∙ a.pkt_len_same;
  shm_same = b.shm_same ∙ a.shm_same;
  socks_same = b.socks_same ∙ a.socks_same;
}

Delivers-start :
    (c : Context) (sid : ℕ) (s s1 : Sock) (hdrlen : ℕ) (out : Outcome)
    → SameRx s s1
    → Delivers c sid s1 hdrlen out
    → Delivers c sid s hdrlen out
Delivers-start c sid s s1 hdrlen Outcome.overrun same d = d
Delivers-start c sid s s1 hdrlen (done ret c') same (overlap, n, t) =
    (overlap, n, Takes-start c s s1 hdrlen overlap n c' (c'.socks sid) same t)

-- The packet is a data or acknowledgment segment for an established connection.
pub record IsSegment (c : Context) (sid : ℕ) : Type 0 where
  pub bytes : IsPacket c.pkt
  pub whole : is_pktlen_valid c.pkt_len ≡ true
  pub tcp : rx_is_ip c.pkt ≡ true
  pub plain : rx_is_flags_ctl c.pkt ≡ false
  pub found : sock_find c ≡ some sid
  pub open_conn : is_established (c.socks sid).state ≡ true

-- For such a packet the event is `rx_locked` on the socket that it is for.
pub tcp_event_rx_segment :
    (c : Context) (sid : ℕ)
    → IsSegment c sid
    → tcp_event_rx c ≡ rx_locked c sid (lock_sock (c.socks sid))
unfolding tcp_event_rx
tcp_event_rx_segment c sid g = rw (g.whole, g.tcp, g.plain, g.found, g.open_conn)

module _ (c : Context) (sid : ℕ) (bytes : IsPacket c.pkt) where
  rx_segment-Delivers :
      (s : Sock) (hdrlen : ℕ)
      → IsRxValid s
      → hdrlen < 2 ^ 16
      → Delivers c sid s hdrlen (rx_segment c sid s hdrlen)
  unfolding rx_segment
  rx_segment-Delivers s hdrlen v small = elim (option_cases (rx_bump_app c1 s s1 ack_bump)) [
    | inl e ↦
        rw (e, rx_segment)
          (finish-Delivers c s hdrlen 0 0 sid none
            (unchanged c s sid hdrlen v seq small buffers1 rx1))
    | inr (c2, e) ↦ rw (e, rx_segment) (rest c2 (rx_bump_app-SameBuffers c1 s s1 ack_bump c2 e))
  ]
    where
      seq : tcp_seqno c.pkt < 2 ^ 32
      seq = be32-lt c.pkt 24 bytes

      c1 : Context
      c1 = (rx_take_ack c s).0

      s1 : Sock
      s1 = (rx_take_ack c s).1

      ack_bump : ℕ
      ack_bump = (rx_take_ack c s).2

      buffers1 : SameBuffers c c1
      buffers1 = rx_take_ack-SameBuffers c s

      rx1 : SameRx s s1
      rx1 = rx_take_ack-SameRx c s

      rest :
          (c2 : Context)
          → SameBuffers c1 c2
          → Delivers c sid s hdrlen (
              rx_data
                (rx_sched_tx
                  (rx_dupack c2 s1 ack_bump).0
                  (rx_dupack c2 s1 ack_bump).1
                  (sock_sched_avail s)
                  (sock_sched_avail s1))
                sid
                (rx_dupack c2 s1 ack_bump).1
                hdrlen
                (rx_get_payload_overlap c.pkt s)
                (rx_is_payload_dup c.pkt s)
                (rx_is_out_of_order c.pkt s)
                (rx_dupack c2 s1 ack_bump).2)
      rest c2 buffers2 =
          rx_data-Delivers c s sid hdrlen v seq small _ _ _ _
            (SameBuffers-trans buffers1 (
              SameBuffers-trans buffers2 (
                SameBuffers-trans (rx_dupack-SameBuffers c2 s1 ack_bump)
                  (rx_sched_tx-SameBuffers _ _ _ _))))
            (SameRx-trans rx1 (rx_dupack-SameRx c2 s1 ack_bump))

  rx_locked-Delivers :
      (s : Sock) → IsRxValid s → Delivers c sid s (rx_get_hdrlen c.pkt) (rx_locked c sid s)
  unfolding rx_locked
  rx_locked-Delivers s v =
      elim (Bool-cases (is_paylen_valid c.pkt_len (u16 (rx_get_hdrlen c.pkt)) 0)) [
        | inl e ↦
            rw (e, whole_len)
              (Delivers-start c sid s s1 _ _ marked (
                rx_segment-Delivers s1 (rx_get_hdrlen c.pkt) (omega (arith, marked))
                  (rx_get_hdrlen-lt c.pkt bytes)))
        | inr e ↦ rw e (
            reply_ack-Delivers c s (rx_get_hdrlen c.pkt) 0 0 sid (
              unchanged c s sid (rx_get_hdrlen c.pkt) v (be32-lt c.pkt 24 bytes)
                (rx_get_hdrlen-lt c.pkt bytes) (SameBuffers-refl c) marked))
      ]
    where
      s1 : Sock
      s1 = rx_mark_ce c s

      marked : SameRx s s1
      marked = rx_mark_ce-SameRx c s

      whole_len : u16 (rx_get_hdrlen c.pkt) ≡ rx_get_hdrlen c.pkt
      whole_len = omega (arith, rx_get_hdrlen-lt c.pkt bytes)

-- On a segment for an established connection whose receiving half is valid, the event returns and
-- has appended bytes of the packet to the unread ones, or none: they begin at the sequence number
-- that was expected next, follow one another in the packet, are inside the buffer, and the expected
-- number goes on by exactly their count.
pub tcp_event_rx-Delivers :
    (c : Context) (sid : ℕ)
    → IsSegment c sid
    → IsRxValid (c.socks sid)
    → Delivers c sid (c.socks sid) (rx_get_hdrlen c.pkt) (tcp_event_rx c)
tcp_event_rx-Delivers c sid g v = rw (tcp_event_rx_segment c sid g) (
    Delivers-start c sid (c.socks sid) (lock_sock (c.socks sid)) _ _ (omega arith)
      (rx_locked-Delivers c sid g.bytes (lock_sock (c.socks sid)) (omega arith)))
