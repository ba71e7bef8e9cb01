-- ===== src/Tcp/Slow/Machine.antt =====
-- The state machine of a socket, as the control packets drive it.
use chamelio.Common.{ℕ, ◌≡◌, refl, inl, inr, Bool-cases, has_bit, ◌&&◌, ◌∙◌, add32, ◌==◌, ap}
use chamelio.Common.{arith, update_self, ◌⊎◌, ==→eq}
use chamelio.Tcp.Slow.CtlTx.{ack_flag, rst_bit, ack_bit, fin_bit}
use chamelio.Tcp.Slow.Frames.{tcp_ctl_tx_socks, tcp_timeout_cancel_socks}
use chamelio.Tcp.Slow.Handshake.{rx_syn_sent_Moves, rx_syn_recv_Moves}
use chamelio.Tcp.Slow.Move.{Move, Moves, at_state, ends_closing, ends_waiting, ends_open}
use chamelio.Tcp.Slow.Move.{listener_of, MovesFrom, stays_waiting, Resets, stays_open, stay_in}
use chamelio.Tcp.Slow.Move.{Finishes, stays_closing, stays_closed, stays_init, stays_listen}
use chamelio.Tcp.Slow.Moves.{Becomes, Becomes-kept, Becomes-self, Becomes-then, Becomes-set_sock}
use chamelio.Tcp.Slow.Moves.{Becomes-trans, tcp_sock_close_final-Becomes}
use chamelio.Tcp.Slow.RxClose.{ack_fin, tcp_rx_established, tcp_rx_fin_wait1, fin_wait1_end}
use chamelio.Tcp.Slow.RxClose.{fin_acked}
use chamelio.Tcp.Slow.RxCtl.{sock_ctl_rx, rx_by_state, ctl_ts_rx, conn_rx}
use chamelio.Tcp.Slow.SameSock.{MovesFrom-after, Moves-after, set_sock-SameSock, SameSock-trans}
use chamelio.Tcp.Slow.SameSock.{ts-SameSock}
use chamelio.Tcp.Slow.SockState.{tcp_sock_close_final}
use chamelio.Tcp.Slow.State.{Slow, RxCtl, set_sock, Listener}
use chamelio.Tcp.Slow.Timer.{tcp_timeout_cancel}
use chamelio.Tcp.Sock.{SockState, syn_sent, established, init, syn_recv, accept_pending, closed}
use chamelio.Tcp.Sock.{listen, fin_wait1, lock_sock, unlock_sock, Sock}
use mathlib.Core.Path.{subst}

ack_fin-Becomes :
    (c : Slow) (sid : ℕ) (rx : RxCtl) → Becomes c sid (c.socks sid).state (ack_fin c sid rx)
ack_fin-Becomes c sid rx =
    let s = record (c.socks sid) { rx_seq = add32 rx.seq 1 } in
    Becomes-kept _ (Becomes-set_sock c sid s) (tcp_ctl_tx_socks (set_sock c sid s) sid ack_flag)

-- The moves of a connection that is open, or that waits for `accept`.
rx_established_Moves :
    {seq pending : ℕ} {l : Listener} (c : Slow) (sid : ℕ) (rx : RxCtl) (s : SockState)
    → (c.socks sid).state ≡ s
    → (Resets rx ⊎ Finishes rx → Move seq pending l rx s closed)
    → (¬ Resets rx → ¬ Finishes rx → Move seq pending l rx s s)
    → MovesFrom seq pending l rx c sid (tcp_rx_established c sid rx)
unfolding tcp_rx_established
rx_established_Moves c sid rx s e over on = elim (Bool-cases (has_bit rx.flags rst_bit)) [
  | inl rst ↦ rw rst (at_state _ e (over (inl rst)) (tcp_sock_close_final-Becomes c sid))
  | inr no_rst ↦ elim (Bool-cases (has_bit rx.flags fin_bit)) [
    | inl fin ↦
        rw (no_rst, fin)
          (at_state _ e (over (inr fin)) (
            Becomes-trans (ack_fin-Becomes c sid rx)
              (tcp_sock_close_final-Becomes (ack_fin c sid rx) sid)))
    | inr no_fin ↦
        rw (no_rst, no_fin)
          (stay_in c e
            (on (λ r. absurd (ground (arith, r, no_rst))) (λ f. absurd (ground (arith, f, no_fin))))
            refl)
  ]
]

finished_Becomes :
    (c : Slow) (sid : ℕ)
    → Becomes c sid closed (tcp_sock_close_final (tcp_timeout_cancel c sid) sid)
finished_Becomes c sid =
    Becomes-trans
      (Becomes-kept (tcp_timeout_cancel c sid) (Becomes-self c sid)
        (tcp_timeout_cancel_socks c sid))
      (tcp_sock_close_final-Becomes (tcp_timeout_cancel c sid) sid)

fin_wait1_end-Moves :
    {pending : ℕ} {l : Listener} (c : Slow) (sid : ℕ) (rx : RxCtl)
    → (c.socks sid).state ≡ fin_wait1
    → MovesFrom (c.socks sid).tx_seq pending l rx c sid (fin_wait1_end c sid rx)
unfolding fin_wait1_end
fin_wait1_end-Moves c sid rx e =
    elim (Bool-cases (has_bit rx.flags ack_bit && rx.ack == (c.socks sid).tx_seq)) [
      | inl covered ↦ rw covered (
          at_state _ e
            (ends_closing (
              inl (
                ground (arith, covered),
                ==→eq rx.ack (c.socks sid).tx_seq (ground (arith, covered)),
              )))
            (finished_Becomes c sid))
      | inr other ↦ elim (Bool-cases (has_bit rx.flags fin_bit)) [
        | inl fin ↦ rw (other, fin) (at_state _ e (ends_closing (inr fin)) (finished_Becomes c sid))
        | inr no_fin ↦
            rw (other, no_fin)
              (stay_in c e (stays_closing (λ ends. absurd (ground (arith, ends, other, no_fin))))
                refl)
      ]
    ]

fin_acked-Becomes :
    (c : Slow) (sid : ℕ) (rx : RxCtl) → Becomes c sid (c.socks sid).state (fin_acked c sid rx)
unfolding fin_acked
fin_acked-Becomes c sid rx = elim (Bool-cases (has_bit rx.flags fin_bit)) [
  | inl fin ↦ rw fin (ack_fin-Becomes c sid rx)
  | inr no_fin ↦ rw no_fin (Becomes-self c sid)
]

fin_acked-seq :
    (c : Slow) (sid : ℕ) (rx : RxCtl)
    → ((fin_acked c sid rx).socks sid).tx_seq ≡ (c.socks sid).tx_seq
unfolding fin_acked
fin_acked-seq c sid rx =
    let s = record (c.socks sid) { rx_seq = add32 rx.seq 1 } in
    elim (Bool-cases (has_bit rx.flags fin_bit)) [
      | inl fin ↦ rw fin (
          ap (λ (f : ℕ → Sock). (f sid).tx_seq) (tcp_ctl_tx_socks (set_sock c sid s) sid ack_flag)
          ∙ ap (λ (x : Sock). x.tx_seq) (update_self c.socks sid s))
      | inr no_fin ↦ rw no_fin refl
    ]

rx_fin_wait1_Moves :
    (c : Slow) (sid : ℕ) (rx : RxCtl)
    → (c.socks sid).state ≡ fin_wait1
    → Moves c sid rx (tcp_rx_fin_wait1 c sid rx)
unfolding tcp_rx_fin_wait1
rx_fin_wait1_Moves c sid rx e =
    let c1 = fin_acked c sid rx in
    let b = fin_acked-Becomes c sid rx in
    MovesFrom-after _ b (
      subst
        (λ n.
          MovesFrom n (c.socks sid).tx_pending (listener_of c sid) rx c1 sid
            (fin_wait1_end c1 sid rx))
        (fin_acked-seq c sid rx) (fin_wait1_end-Moves c1 sid rx (b.here ∙ e)))

rx_by_state-Moves :
    (c : Slow) (sid : ℕ) (rx : RxCtl) (s : SockState)
    → (c.socks sid).state ≡ s
    → Moves c sid rx (rx_by_state c sid rx s)
unfolding rx_by_state
rx_by_state-Moves c sid rx syn_sent e = rx_syn_sent_Moves c sid rx e
rx_by_state-Moves c sid rx syn_recv e = rx_syn_recv_Moves c sid rx e
rx_by_state-Moves c sid rx accept_pending e =
    rx_established_Moves c sid rx accept_pending e ends_waiting stays_waiting
rx_by_state-Moves c sid rx established e =
    rx_established_Moves c sid rx established e ends_open stays_open
rx_by_state-Moves c sid rx fin_wait1 e = rx_fin_wait1_Moves c sid rx e
rx_by_state-Moves c sid rx closed e = stay_in c e stays_closed refl
rx_by_state-Moves c sid rx init e = stay_in c e stays_init refl
rx_by_state-Moves c sid rx listen e = stay_in c e stays_listen refl

-- A control packet of a connection moves the connection's socket along the state machine, and no
-- other socket. A socket whose SYN is unanswered is refused by a RST, opens on a SYN and ACK that
-- acknowledges everything in flight, and else keeps its state. A half-open one ends with a RST; an
-- acknowledgment of everything in flight makes it wait for accept if its listener is active and
-- has a place, and ends it if not; else it keeps its state. A waiting or open one ends just with a
-- RST or a FIN, and a closing one just with a FIN or an acknowledgment whose number is the
-- socket's tx_seq. In every other state the packet changes none.
pub conn_rx-Moves : (c : Slow) (sid : ℕ) (rx : RxCtl) → Moves c sid rx (conn_rx c sid rx)
unfolding conn_rx sock_ctl_rx
conn_rx-Moves c sid rx =
    let c1 = set_sock c sid (lock_sock (c.socks sid)) in
    let c2 = ctl_ts_rx c1 sid rx in
    let before =
      SameSock-trans (set_sock-SameSock c sid (lock_sock (c.socks sid)) refl refl refl refl)
        (ts-SameSock c1 sid rx) in
    let (t, move, d) =
      Moves-after _ before (rx_by_state-Moves c2 sid rx (c2.socks sid).state refl) in
    let c3 = sock_ctl_rx c2 sid rx in
    (t, move, Becomes-then d (Becomes-set_sock c3 sid (unlock_sock (c3.socks sid))))
