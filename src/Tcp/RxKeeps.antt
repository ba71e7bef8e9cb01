-- ===== src/Tcp/RxKeeps.antt =====
-- The whole of `tcp_event_rx` keeps the socket and its surroundings in order.
use chamelio.Common.{ℕ, Bool-cases, arith, u16, inl, inr, none}
use chamelio.Tcp.Context.{Context}
use chamelio.Tcp.Frames.{SameBuffers, SameRx, rx_take_ack-SameBuffers, SameRx-trans}
use chamelio.Tcp.Frames.{rx_dupack-SameBuffers, rx_sched_tx-SameBuffers, rx_take_ack-SameRx}
use chamelio.Tcp.Frames.{rx_dupack-SameRx, option_cases, rx_bump_app-SameBuffers}
use chamelio.Tcp.Inv.{IsValid}
use chamelio.Tcp.Keeps.{Keeps, Working, rx_data-Keeps, reply_ack-Keeps, finish-Keeps}
use chamelio.Tcp.Packet.{is_paylen_valid, rx_get_hdrlen}
use chamelio.Tcp.Rx.{rx_segment, rx_locked, tcp_event_rx, rx_take_ack, rx_data, rx_sched_tx}
use chamelio.Tcp.Rx.{rx_dupack, rx_mark_ce, rx_bump_app}
use chamelio.Tcp.Sock.{Sock, lock_sock, sock_sched_avail, rx_get_payload_overlap}
use chamelio.Tcp.Sock.{rx_is_payload_dup, rx_is_out_of_order}
use chamelio.Tcp.Steps.{SameMarks-IsValid, rx_mark_ce-SameMarks, rx_take_ack-IsValid}
use chamelio.Tcp.Steps.{rx_dupack-IsValid}
use chamelio.Tcp.Stream.{IsPacket, IsSegment, tcp_event_rx_segment, be32-lt, rx_mark_ce-SameRx}
use chamelio.Tcp.Stream.{SameBuffers-trans, SameBuffers-refl}

module _ (c : Context) (sid : ℕ) (bytes : IsPacket c.pkt) where
  -- Buffers that are still the first ones.
  start : {d : Context} {s : Sock} → SameBuffers c d → IsValid s → Working c (c.socks sid) d s
  start same v = record { valid = v; others = same.socks_same; memory = λ i out. rw same.shm_same }

  rx_segment-Keeps :
      (s : Sock) (hdrlen : ℕ)
      → IsValid s
      → SameRx (c.socks sid) s
      → Keeps c sid (rx_segment c sid s hdrlen)
  unfolding rx_segment
  rx_segment-Keeps s hdrlen v rx = elim (option_cases (rx_bump_app c1 s s1 ack_bump)) [
    | inl e ↦ rw (e, rx_segment) (finish-Keeps c sid none (start buffers1 valid1))
    | inr (c2, e) ↦ rw (e, rx_segment) (rest c2 (rx_bump_app-SameBuffers c1 s s1 ack_bump c2 e))
  ]
    where
      c1 : Context
      c1 = (rx_take_ack c s).0

      s1 : Sock
      s1 = (rx_take_ack c s).1

      ack_bump : ℕ
      ack_bump = (rx_take_ack c s).2

      buffers1 : SameBuffers c c1
      buffers1 = rx_take_ack-SameBuffers c s

      valid1 : IsValid s1
      valid1 = rx_take_ack-IsValid c s (be32-lt c.pkt 28 bytes) v

      rest :
          (c2 : Context)
          → SameBuffers c1 c2
          → Keeps c sid (
              rx_data
                (rx_sched_tx
                  (rx_dupack c2 s1 ack_bump).0
                  (rx_dupack c2 s1 ack_bump).1
                  (sock_sched_avail s)
                  (sock_sched_avail s1))
                sid
                (rx_dupack c2 s1 ack_bump).1
                hdrlen
                (rx_get_payload_overlap c.pkt s)
                (rx_is_payload_dup c.pkt s)
                (rx_is_out_of_order c.pkt s)
                (rx_dupack c2 s1 ack_bump).2)
      rest c2 buffers2 =
          rx_data-Keeps c sid _ _
            (start
              (SameBuffers-trans buffers1 (
                SameBuffers-trans buffers2 (
                  SameBuffers-trans (rx_dupack-SameBuffers c2 s1 ack_bump)
                    (rx_sched_tx-SameBuffers _ _ _ _))))
              (rx_dupack-IsValid c2 s1 ack_bump valid1))
            (SameRx-trans rx
              (SameRx-trans (rx_take_ack-SameRx c s) (rx_dupack-SameRx c2 s1 ack_bump)))
            hdrlen _ _ _ _

  rx_locked-Keeps :
      (s : Sock) → IsValid s → SameRx (c.socks sid) s → Keeps c sid (rx_locked c sid s)
  unfolding rx_locked
  rx_locked-Keeps s v rx =
      let marked = SameMarks-IsValid s _ (rx_mark_ce-SameMarks c s) v in
      elim (Bool-cases (is_paylen_valid c.pkt_len (u16 (rx_get_hdrlen c.pkt)) 0)) [
        | inl e ↦ rw e (
            rx_segment-Keeps (rx_mark_ce c s) (u16 (rx_get_hdrlen c.pkt)) marked
              (SameRx-trans rx (rx_mark_ce-SameRx c s)))
        | inr e ↦ rw e (reply_ack-Keeps c sid (start (SameBuffers-refl c) marked))
      ]

-- On every path that a segment for an established, valid connection takes, the event returns with
-- the connection's invariant kept and its lock free, and has written no other socket and no shared
-- memory outside the connection's RX ring.
pub tcp_event_rx-Keeps :
    (c : Context) (sid : ℕ) → IsSegment c sid → IsValid (c.socks sid) → Keeps c sid (tcp_event_rx c)
tcp_event_rx-Keeps c sid g v = rw (tcp_event_rx_segment c sid g) (
    rx_locked-Keeps c sid g.bytes (lock_sock (c.socks sid))
      (SameMarks-IsValid (c.socks sid) _ (ground arith) v) (omega arith))
