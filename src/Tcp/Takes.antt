-- ===== src/Tcp/Takes.antt =====
-- What it means for `tcp_event_rx` to take bytes of a packet into a socket's RX ring.
use chamelio.Common.{ℕ, ◌+◌, ◌^◌, ◌≤◌, ◌<◌, ◌≡◌, ◌++◌, sym, refl, arith, Option, add32, bytes_at}
use chamelio.Common.{update_self, ◌∙◌, none, some, inl, ◌⊎◌}
use chamelio.Tcp.Context.{Context, Outcome, overrun, done}
use chamelio.Tcp.Fill.{tx_fill_ack}
use chamelio.Tcp.Frames.{SameRx, tx_fill_ack-SameRx, tx_fill_ack-shm}
use chamelio.Tcp.Packet.{tcp_seqno}
use chamelio.Tcp.Refused.{IsRefused}
use chamelio.Tcp.Rx.{finish, reply_ack}
use chamelio.Tcp.RxRing.{unread}
use chamelio.Tcp.Sock.{Sock, unlock_sock}
use mathlib.Core.List.{append-nil}

-- A byte of the packet that is taken lies `overlap` bytes into a payload that begins at `hdrlen`.
-- The `n` bytes from it on are appended to the unread ones, the expected sequence number goes on by
-- `n`, and if there are any, they lie in the packet and the first has the expected number.
pub record Takes (c : Context) (s : Sock) (hdrlen overlap n : ℕ) (c' : Context) (s' : Sock)
    : Type 0 where
  pub appended : unread c'.shm s' ≡ unread c.shm s ++ bytes_at c.pkt (hdrlen + overlap) n
  pub counted : s'.rx_seq ≡ add32 s.rx_seq n
  pub in_order :
      0 < n → (hdrlen + overlap + n ≤ c.pkt_len) × (add32 (tcp_seqno c.pkt) overlap ≡ s.rx_seq)

-- The event returns and has taken exactly these bytes; or some; or it has taken these, unless the
-- queue to the application is full, it fails and takes none.
abbrev pub Took : Context → ℕ → Sock → (hdrlen overlap n : ℕ) → Outcome → Type 0
Took c sid s hdrlen overlap n overrun = ⊥
Took c sid s hdrlen overlap n (done ret c') = Takes c s hdrlen overlap n c' (c'.socks sid)

abbrev pub Delivers : Context → ℕ → Sock → ℕ → Outcome → Type 0
Delivers c sid s hdrlen overrun = ⊥
Delivers c sid s hdrlen (done ret c') =
    (overlap n : ℕ) × Takes c s hdrlen overlap n c' (c'.socks sid)

abbrev pub Accepts : Context → ℕ → Sock → (hdrlen overlap n : ℕ) → Outcome → Type 0
Accepts c sid s hdrlen overlap n overrun = ⊥
Accepts c sid s hdrlen overlap n (done none c') =
    Takes c s hdrlen overlap n c' (c'.socks sid)
    ⊎ (IsRefused c s × Takes c s hdrlen overlap 0 c' (c'.socks sid))
Accepts c sid s hdrlen overlap n (done (some r) c') = Takes c s hdrlen overlap n c' (c'.socks sid)

pub Took-Delivers :
    (c : Context) (sid : ℕ) (s : Sock) (hdrlen overlap n : ℕ) (out : Outcome)
    → Took c sid s hdrlen overlap n out
    → Delivers c sid s hdrlen out
Took-Delivers c sid s hdrlen overlap n overrun t = t
Took-Delivers c sid s hdrlen overlap n (done ret c') t = (overlap, n, t)

pub Took-Accepts :
    (c : Context) (sid : ℕ) (s : Sock) (hdrlen overlap n : ℕ) (out : Outcome)
    → Took c sid s hdrlen overlap n out
    → Accepts c sid s hdrlen overlap n out
Took-Accepts c sid s hdrlen overlap n overrun t = t
Took-Accepts c sid s hdrlen overlap n (done none c') t = inl t
Took-Accepts c sid s hdrlen overlap n (done (some r) c') t = t

-- Nothing taken.
pub Takes-none :
    (c : Context) (s : Sock) (hdrlen overlap : ℕ) (c' : Context) (s' : Sock)
    → c'.shm ≡ c.shm
    → s.rx_seq < 2 ^ 32
    → SameRx s s'
    → Takes c s hdrlen overlap 0 c' s'
Takes-none c s hdrlen overlap c' s' shm word same = record {
  appended =
      rw (shm, same.rx_len_same, same.rx_avail_same, same.rx_head_same, same.rx_off_same)
        (sym (append-nil _));
  counted = rw same.rx_seq_same (omega arith);
  in_order = λ pos. absurd (omega arith);
}

module _ (c : Context) (s : Sock) (hdrlen overlap n : ℕ) where
  -- What a later step does not touch does not matter.
  pub Takes-same :
      {c' c'' : Context} {s' s'' : Sock}
      → c''.shm ≡ c'.shm
      → SameRx s' s''
      → Takes c s hdrlen overlap n c' s'
      → Takes c s hdrlen overlap n c'' s''
  Takes-same shm same t = record {
    appended =
        rw (shm, same.rx_len_same, same.rx_avail_same, same.rx_head_same, same.rx_off_same)
          t.appended;
    counted = rw same.rx_seq_same t.counted;
    in_order = t.in_order;
  }

  pub finish-Took :
      (sid : ℕ) {c' : Context} {s' : Sock} (ret : Option ℕ)
      → Takes c s hdrlen overlap n c' s'
      → Took c sid s hdrlen overlap n (finish c' sid s' ret)
  unfolding finish
  finish-Took sid {c'} {s'} ret t =
      Takes-same refl (rw (update_self c'.socks sid (unlock_sock s')) (omega arith)) t

  pub reply_ack-Took :
      (sid : ℕ) {c' : Context} {s' : Sock}
      → Takes c s hdrlen overlap n c' s'
      → Took c sid s hdrlen overlap n (reply_ack c' sid s')
  unfolding reply_ack
  reply_ack-Took sid {c'} {s'} t =
      finish-Took sid (tx_fill_ack c' s').0
        (Takes-same (tx_fill_ack-shm c' s') (tx_fill_ack-SameRx c' s') t)

  pub finish-Delivers :
      (sid : ℕ) {c' : Context} {s' : Sock} (ret : Option ℕ)
      → Takes c s hdrlen overlap n c' s'
      → Delivers c sid s hdrlen (finish c' sid s' ret)
  finish-Delivers sid ret t = Took-Delivers c sid s hdrlen overlap n _ (finish-Took sid ret t)

  pub reply_ack-Delivers :
      (sid : ℕ) {c' : Context} {s' : Sock}
      → Takes c s hdrlen overlap n c' s'
      → Delivers c sid s hdrlen (reply_ack c' sid s')
  reply_ack-Delivers sid t = Took-Delivers c sid s hdrlen overlap n _ (reply_ack-Took sid t)

-- The receiving half is what counts of the socket at the start.
pub Takes-start :
    (c : Context) (s s1 : Sock) (hdrlen overlap n : ℕ) (c' : Context) (s' : Sock)
    → SameRx s s1
    → Takes c s1 hdrlen overlap n c' s'
    → Takes c s hdrlen overlap n c' s'
Takes-start c s s1 hdrlen overlap n c' s' same t = record {
  appended =
      t.appended ∙ rw (same.rx_len_same, same.rx_avail_same, same.rx_head_same, same.rx_off_same);
  counted = rw (← same.rx_seq_same) t.counted;
  in_order = λ pos. rw (← same.rx_seq_same) (t.in_order pos);
}
