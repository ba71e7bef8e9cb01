-- ===== src/Tcp/Slow/Move.antt =====
-- The moves of a socket, as a control packet drives them.
use chamelio.Common.{ℕ, ◌≡◌, true, false, sym, ◌⊎◌, has_bit, add32, arith, ◌<◌, ==→eq}
use chamelio.Tcp.Slow.CtlTx.{rst_bit, syn_bit, ack_bit, fin_bit}
use chamelio.Tcp.Slow.Moves.{Becomes, Becomes-kept, Becomes-self}
use chamelio.Tcp.Slow.RxOpen.{sock_ack_valid}
use chamelio.Tcp.Slow.State.{Slow, RxCtl, tcp_sock_meta, Listener}
use chamelio.Tcp.Sock.{SockState, syn_sent, established, init, syn_recv, accept_pending, closed}
use chamelio.Tcp.Sock.{fin_wait1, Sock, listen}
use mathlib.Core.Path.{subst}

-- What a packet says: the connection is reset; the SYN is answered, or our SYN and ACK are
-- acknowledged, in full; the peer has sent a FIN; it has, or it acknowledges just the number `seq`.
abbrev pub Resets : RxCtl → Type 0
Resets rx = has_bit rx.flags rst_bit ≡ true

abbrev pub Covers : (seq pending : ℕ) → RxCtl → Type 0
Covers seq pending rx = (has_bit rx.flags ack_bit ≡ true) × (rx.ack ≡ add32 seq pending)

abbrev pub AnswersSyn : (seq pending : ℕ) → RxCtl → Type 0
AnswersSyn seq pending rx = (has_bit rx.flags syn_bit ≡ true) × Covers seq pending rx

abbrev pub Finishes : RxCtl → Type 0
Finishes rx = has_bit rx.flags fin_bit ≡ true

abbrev pub Closes : (seq : ℕ) → RxCtl → Type 0
Closes seq rx = ((has_bit rx.flags ack_bit ≡ true) × (rx.ack ≡ seq)) ⊎ Finishes rx

-- The listener has a place for one more connection that waits for `accept`.
abbrev pub HasPlace : Listener → Type 0
HasPlace l = (l.active ≡ true) × (l.ready_used < l.backlog_len)

-- What one control packet does to the state of a socket whose oldest byte in flight is `seq`, with
-- `pending` bytes in flight, and that was opened by the listener `l` if it did not open itself.
pub data Move (seq pending : ℕ) (l : Listener) (rx : RxCtl) : SockState → SockState → Type 0 where
  is_refused : Resets rx → Move seq pending l rx syn_sent init
  opens : ¬ Resets rx → AnswersSyn seq pending rx → Move seq pending l rx syn_sent established
  stays_opening :
      ¬ Resets rx → ¬ AnswersSyn seq pending rx → Move seq pending l rx syn_sent syn_sent
  ends_half_open : Resets rx → Move seq pending l rx syn_recv closed
  waits :
      ¬ Resets rx
      → Covers seq pending rx
      → HasPlace l
      → Move seq pending l rx syn_recv accept_pending
  has_no_place :
      ¬ Resets rx → Covers seq pending rx → ¬ HasPlace l → Move seq pending l rx syn_recv closed
  stays_half_open : ¬ Resets rx → ¬ Covers seq pending rx → Move seq pending l rx syn_recv syn_recv
  ends_waiting : Resets rx ⊎ Finishes rx → Move seq pending l rx accept_pending closed
  stays_waiting : ¬ Resets rx → ¬ Finishes rx → Move seq pending l rx accept_pending accept_pending
  ends_open : Resets rx ⊎ Finishes rx → Move seq pending l rx established closed
  stays_open : ¬ Resets rx → ¬ Finishes rx → Move seq pending l rx established established
  ends_closing : Closes seq rx → Move seq pending l rx fin_wait1 closed
  stays_closing : ¬ Closes seq rx → Move seq pending l rx fin_wait1 fin_wait1
  stays_closed : Move seq pending l rx closed closed
  stays_init : Move seq pending l rx init init
  stays_listen : Move seq pending l rx listen listen

abbrev pub listener_of : Slow → ℕ → Listener
listener_of c sid = c.listeners (tcp_sock_meta c sid).listener_id

-- A socket with these numbers makes one move, the others stay as they are.
abbrev pub MovesFrom : (seq pending : ℕ) → Listener → RxCtl → Slow → ℕ → Slow → Type 0
MovesFrom seq pending l rx c sid c' =
    (t : SockState) × Move seq pending l rx (c.socks sid).state t × Becomes c sid t c'

abbrev pub Moves : Slow → ℕ → RxCtl → Slow → Type 0
Moves c sid rx c' =
    MovesFrom (c.socks sid).tx_seq (c.socks sid).tx_pending (listener_of c sid) rx c sid c'

pub is_covered :
    (s : Sock) (rx : RxCtl) → sock_ack_valid s rx.ack ≡ true → rx.ack ≡ add32 s.tx_seq s.tx_pending
unfolding sock_ack_valid
is_covered s rx good = ==→eq rx.ack (add32 s.tx_seq s.tx_pending) good

pub is_stale :
    (s : Sock) (rx : RxCtl) → sock_ack_valid s rx.ack ≡ false → ¬ Covers s.tx_seq s.tx_pending rx
unfolding sock_ack_valid
is_stale s rx stale (ack, e) = absurd (ground (arith, stale, e))

-- In the state `s` the move to `t` is allowed.
pub at_state :
    {seq pending : ℕ} {l : Listener} {rx : RxCtl} {c : Slow} {sid : ℕ} {s t : SockState} (c' : Slow)
    → (c.socks sid).state ≡ s
    → Move seq pending l rx s t
    → Becomes c sid t c'
    → MovesFrom seq pending l rx c sid c'
at_state {seq} {pending} {l} {rx} {t = t} c' e move b =
    (t, subst (λ u. Move seq pending l rx u t) (sym e) move, b)

pub stay_in :
    {seq pending : ℕ} {l : Listener} {rx : RxCtl} {c : Slow} {sid : ℕ} {s : SockState} (c' : Slow)
    → (c.socks sid).state ≡ s
    → Move seq pending l rx s s
    → c'.socks ≡ c.socks
    → MovesFrom seq pending l rx c sid c'
stay_in {c = c} {sid = sid} c' e move same =
    at_state c' e move (Becomes-kept {c1 = c} c' (rw (← e) (Becomes-self c sid)) same)
