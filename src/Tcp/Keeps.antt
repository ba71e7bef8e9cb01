-- ===== src/Tcp/Keeps.antt =====
-- `tcp_event_rx` keeps the invariant of the socket, gives its lock back, and touches neither another
-- socket nor memory outside the socket's RX ring.
use chamelio.Common.{ℕ, ◌≡◌, ◌<◌, ◌≢◌, Option, ◌⊎◌, update_self, ◌+◌, ◌∙◌, ◌≤◌, arith, update_ne}
use chamelio.Common.{inl, none, inr, Bool-cases, Bool, some, ltb, ◌&&◌, u16, not, ◌-◌}
use chamelio.Tcp.Context.{Context, Outcome, done, tcp_now_us, clock_rdtsc, Message, bump_app_rx}
use chamelio.Tcp.Context.{enqueue_bump, tcp_queue_bump_app_rx}
use chamelio.Tcp.Delivery.{rx_get_rx_bump_bounds}
use chamelio.Tcp.Fill.{tx_fill_ack, tx_fill_hdr}
use chamelio.Tcp.Frames.{SameRx, tx_fill_ack-shm, option_cases, enqueue_bump-SameBuffers}
use chamelio.Tcp.Inv.{IsValid, IsValid-IsRxValid, rx_sock_bump_rx-IsValid}
use chamelio.Tcp.Packet.{tcp_src, ip_src, is_paylen_valid, rx_is_ack_only, rx_get_paylen}
use chamelio.Tcp.Rx.{finish, reply_ack, rx_store, rx_payload, rx_data}
use chamelio.Tcp.RxRing.{rx_copy_outside}
use chamelio.Tcp.Sock.{Sock, rx_get_rx_bump, unlock_sock, rx_copy_payload, rx_sock_bump_rx}
use chamelio.Tcp.Steps.{SameMarks-IsValid, tx_fill_ack-SameMarks}

-- The socket `s'` beside a context `c'`, both reached from `c` while socket `s` is worked on.
pub record Working (c : Context) (s : Sock) (c' : Context) (s' : Sock) : Type 0 where
  pub valid : IsValid s'
  pub others : c'.socks ≡ c.socks
  pub memory : (i : ℕ) → (i < s.rx_off) ⊎ (s.rx_off + s.rx_len ≤ i) → c'.shm i ≡ c.shm i

-- After the event.
pub record Kept (c : Context) (sid : ℕ) (c' : Context) : Type 0 where
  pub valid : IsValid (c'.socks sid)
  pub unlocked : (c'.socks sid).lock ≡ 0
  pub others : (j : ℕ) → j ≢ sid → c'.socks j ≡ c.socks j
  pub memory :
      (i : ℕ)
      → (i < (c.socks sid).rx_off) ⊎ ((c.socks sid).rx_off + (c.socks sid).rx_len ≤ i)
      → c'.shm i ≡ c.shm i

-- The event returns, and what it leaves behind is in order.
abbrev pub Keeps : Context → ℕ → Outcome → Type 0
Keeps c sid Outcome.overrun = ⊥
Keeps c sid (done ret c') = Kept c sid c'

module _ (c : Context) (sid : ℕ) where
  pub finish-Keeps :
      {c' : Context} {s' : Sock} (ret : Option ℕ)
      → Working c (c.socks sid) c' s'
      → Keeps c sid (finish c' sid s' ret)
  unfolding finish
  finish-Keeps {c'} {s'} ret w = record {
    valid =
        rw (update_self c'.socks sid (unlock_sock s'))
          (SameMarks-IsValid s' _ (ground arith) w.valid);
    unlocked = rw (update_self c'.socks sid (unlock_sock s'));
    others = λ j ne. update_ne c'.socks sid (unlock_sock s') j ne ∙ rw w.others;
    memory = w.memory;
  }

  pub tx_fill_ack-socks : (d : Context) (s : Sock) → (tx_fill_ack d s).1.socks ≡ d.socks
  unfolding tx_fill_ack tx_fill_hdr tcp_now_us clock_rdtsc
  tx_fill_ack-socks d s = ground arith

  pub reply_ack-Keeps :
      {c' : Context} {s' : Sock} → Working c (c.socks sid) c' s' → Keeps c sid (reply_ack c' sid s')
  unfolding reply_ack
  reply_ack-Keeps {c'} {s'} w = finish-Keeps (tx_fill_ack c' s').0 (record {
    valid = SameMarks-IsValid s' _ (tx_fill_ack-SameMarks c' s') w.valid;
    others = tx_fill_ack-socks c' s' ∙ w.others;
    memory = λ i out. rw (tx_fill_ack-shm c' s') (w.memory i out);
  })

  -- The socket's ring is still where it was.
  module _ (d : Context) (s : Sock) (w : Working c (c.socks sid) d s)
      (rx : SameRx (c.socks sid) s) where
    rx_store-Keeps :
        (payload n : ℕ) → n ≡ rx_get_rx_bump s n → Keeps c sid (rx_store d sid s payload n)
    unfolding rx_store
    rx_store-Keeps payload n fits =
        elim (option_cases (enqueue_bump d1 s.app_bump_qid tcp_queue_bump_app_rx message)) [
          | inl e ↦ rw (e, rx_store) (finish-Keeps none w1)
          | inr (d2, e) ↦
              let same = enqueue_bump-SameBuffers d1 _ _ message d2 e in
              rw (e, rx_store)
                (reply_ack-Keeps (record {
                  valid = w1.valid;
                  others = same.socks_same ∙ w1.others;
                  memory = λ i out. rw same.shm_same (w1.memory i out);
                }))
        ]
      where
        d1 : Context
        d1 = record d { shm = rx_copy_payload d.shm s d.pkt payload n }

        message : Message
        message = bump_app_rx s.opaque n (tcp_src d.pkt) (ip_src d.pkt)

        room : s.rx_avail + n ≤ s.rx_len
        room = rw fits (rx_get_rx_bump_bounds s n (IsValid-IsRxValid w.valid)).1

        w1 : Working c (c.socks sid) d1 (rx_sock_bump_rx s n)
        w1 = record {
          valid = rw fits (rx_sock_bump_rx-IsValid s n w.valid);
          others = w.others;
          memory = λ i out.
              rx_copy_outside d.shm s d.pkt payload n (IsValid-IsRxValid w.valid) room i
                (rw (rx.rx_off_same, rx.rx_len_same) out)
              ∙ w.memory i out;
        }

    rx_get_rx_bump_again : (m : ℕ) → rx_get_rx_bump s m ≡ rx_get_rx_bump s (rx_get_rx_bump s m)
    unfolding rx_get_rx_bump
    rx_get_rx_bump_again m = ground arith

    rx_payload-Keeps : (hdrlen overlap : ℕ) → Keeps c sid (rx_payload d sid s hdrlen overlap)
    unfolding rx_payload
    rx_payload-Keeps hdrlen overlap =
        elim (Bool-cases (is_paylen_valid d.pkt_len hdrlen (rx_get_paylen d.pkt))) [
          | inr e ↦ rw e (reply_ack-Keeps w)
          | inl e ↦
              elim (Bool-cases (ltb 0 (rx_get_rx_bump s (u16 (rx_get_paylen d.pkt - overlap))))) [
                | inr z ↦ rw (e, z) (reply_ack-Keeps w)
                | inl z ↦ rw (e, z) (rx_store-Keeps _ _ (rx_get_rx_bump_again _))
              ]
        ]

    pub rx_data-Keeps :
        (hdrlen overlap : ℕ) (dup ooo fast : Bool)
        → Keeps c sid (rx_data d sid s hdrlen overlap dup ooo fast)
    unfolding rx_data
    rx_data-Keeps hdrlen overlap dup ooo fast = elim (Bool-cases (rx_is_ack_only d.pkt)) [
      | inl a ↦ rw a (finish-Keeps (some 0) w)
      | inr a ↦ elim (Bool-cases (dup && not fast)) [
        | inl b ↦ rw (a, b) (reply_ack-Keeps w)
        | inr b ↦ elim (Bool-cases ooo) [
          | inl o ↦ rw (a, b, o) (reply_ack-Keeps w)
          | inr o ↦ rw (a, b, o) (rx_payload-Keeps hdrlen overlap)
        ]
      ]
    ]
