-- ===== src/Tcp/Slow/Handshake.antt =====
-- The moves of a socket in the two handshakes.
use chamelio.Common.{ℕ, ◌≡◌, refl, true, false, inl, inr, ◌⊎◌, Bool-cases, has_bit, ◌&&◌, ◌∙◌}
use chamelio.Common.{not, ◌||◌, arith, leb, update_self}
use chamelio.Tcp.Slow.CcInit.{tcp_sock_cc_init, cc_sock_reset, cc_sock_cleared, cc_started}
use chamelio.Tcp.Slow.CtlTx.{tcp_ctl_tx, ack_flag, rst_bit, syn_bit, ack_bit, syn_ack_flags}
use chamelio.Tcp.Slow.CtlTx.{ece_flag}
use chamelio.Tcp.Slow.Frames.{tcp_listener_ready_push_socks, tcp_ctl_tx_socks}
use chamelio.Tcp.Slow.Frames.{tcp_ctl_tx_resend_socks, tcp_app_listen_newconn_socks}
use chamelio.Tcp.Slow.Listener.{tcp_listener_ready_push, ready_push}
use chamelio.Tcp.Slow.Move.{Moves, Resets, Covers, HasPlace, listener_of, is_covered, is_stale}
use chamelio.Tcp.Slow.Move.{at_state, stay_in, is_refused, opens, stays_opening, ends_half_open}
use chamelio.Tcp.Slow.Move.{waits, has_no_place, stays_half_open}
use chamelio.Tcp.Slow.Moves.{Becomes, Becomes-kept, Becomes-double, Becomes-then}
use chamelio.Tcp.Slow.Moves.{Becomes-set_sock, Becomes-trans, tcp_sock_close_final-Becomes}
use chamelio.Tcp.Slow.Moves.{tcp_sock_connect_fail-Becomes, answer_connect_socks}
use chamelio.Tcp.Slow.RxOpen.{sock_active_established, active_sock, sock_passive_established}
use chamelio.Tcp.Slow.RxOpen.{tcp_rx_syn_sent, passive_sock, sock_ack_valid, tcp_rx_syn_recv}
use chamelio.Tcp.Slow.SockState.{answer_connect}
use chamelio.Tcp.Slow.State.{Slow, RxCtl, slow_rdtsc, actx_of, set_sock, tcp_sock_meta, success}
use chamelio.Tcp.Slow.State.{econnrefused}
use chamelio.Tcp.Slow.Timeout.{with_ecn}
use chamelio.Tcp.Slow.Timer.{tcp_timeout_cancel}
use chamelio.Tcp.Sock.{syn_sent, established, syn_recv, accept_pending, closed, Sock}

cc_init_Becomes : (c : Slow) (sid : ℕ) → Becomes c sid (c.socks sid).state (tcp_sock_cc_init c sid)
unfolding tcp_sock_cc_init slow_rdtsc cc_sock_reset
cc_init_Becomes c sid =
    Becomes-double c (tcp_sock_cc_init c sid) sid (cc_sock_cleared (c.socks sid))
      (cc_started c.config (c.socks sid)) refl

active_Becomes :
    (c : Slow) (sid : ℕ) (rx : RxCtl) → Becomes c sid established (sock_active_established c sid rx)
unfolding sock_active_established active_sock tcp_timeout_cancel
active_Becomes c sid rx =
    let s = c.socks sid in
    let s1 = active_sock (actx_of c s.app_id s.ctx_id).app_bump_qids s rx in
    let c1 = set_sock (tcp_timeout_cancel c sid) sid s1 in
    Becomes-then (Becomes-kept c1 (Becomes-set_sock c sid s1) refl) (cc_init_Becomes c1 sid)

-- A push succeeds just when the listener has a place.
pushed-HasPlace :
    (c : Slow) (l id : ℕ)
    → ((tcp_listener_ready_push c l id).1 ≡ true → HasPlace (c.listeners l))
      × ((tcp_listener_ready_push c l id).1 ≡ false → ¬ HasPlace (c.listeners l))
unfolding tcp_listener_ready_push ready_push
pushed-HasPlace c l id =
    elim (Bool-cases
      (not (c.listeners l).active || leb (c.listeners l).backlog_len (c.listeners l).ready_used)) [
        | inl none_left ↦
            rw (none_left, tcp_listener_ready_push)
              ((λ e. absurd (cc e)), (λ e place. absurd (ground (arith, none_left, place))))
        | inr some_left ↦
            rw (some_left, tcp_listener_ready_push)
              ((λ e. ground (arith, some_left)), (λ e. absurd (cc e)))
      ]

passive_sock-Becomes :
    (c : Slow) (sid : ℕ) (rx : RxCtl)
    → Becomes c sid accept_pending
        (set_sock (tcp_timeout_cancel c sid) sid (passive_sock (c.socks sid) rx))
unfolding passive_sock tcp_timeout_cancel
passive_sock-Becomes c sid rx =
    Becomes-kept _ (Becomes-set_sock c sid (passive_sock (c.socks sid) rx)) refl

-- Neither a cancelled timeout nor a write to the socket that keeps its number changes its listener.
listener_of-cancelled :
    (c : Slow) (sid : ℕ) (s : Sock)
    → s.id ≡ (c.socks sid).id
    → listener_of (set_sock (tcp_timeout_cancel c sid) sid s) sid ≡ listener_of c sid
unfolding tcp_timeout_cancel
listener_of-cancelled c sid s e =
    rw (update_self c.socks sid s, e, update_self c.sock_meta (c.socks sid).id _) refl

passive_Becomes :
    (c : Slow) (sid : ℕ) (rx : RxCtl)
    → ((sock_passive_established c sid rx).1 ≡ true)
        × HasPlace (listener_of c sid)
        × Becomes c sid accept_pending (sock_passive_established c sid rx).0
      ⊎ ((sock_passive_established c sid rx).1 ≡ false)
        × (¬ HasPlace (listener_of c sid))
        × Becomes c sid closed (sock_passive_established c sid rx).0
unfolding sock_passive_established
passive_Becomes c sid rx =
    let c1 = set_sock (tcp_timeout_cancel c sid) sid (passive_sock (c.socks sid) rx) in
    let l = (tcp_sock_meta c1 sid).listener_id in
    let c2 = tcp_listener_ready_push c1 l (c1.socks sid).id in
    let a =
      Becomes-kept c2.0 (passive_sock-Becomes c sid rx)
        (tcp_listener_ready_push_socks c1 l (c1.socks sid).id) in
    let p = pushed-HasPlace c1 l (c1.socks sid).id in
    let same : c1.listeners l ≡ listener_of c sid =
      listener_of-cancelled c sid (passive_sock (c.socks sid) rx) refl in
    elim (Bool-cases c2.1) [
      | inl e ↦ inl (rw e refl, rw (← same) (p.0 e), rw e a)
      | inr e ↦ inr (
        rw e refl,
        rw (← same) (p.1 e),
        rw e (Becomes-trans a (tcp_sock_close_final-Becomes c2.0 sid)),
      )
    ]

pub rx_syn_sent_Moves :
    (c : Slow) (sid : ℕ) (rx : RxCtl)
    → (c.socks sid).state ≡ syn_sent
    → Moves c sid rx (tcp_rx_syn_sent c sid rx)
unfolding tcp_rx_syn_sent answer_connect
rx_syn_sent_Moves c sid rx e =
    let c1 = sock_active_established c sid rx in
    let c2 = (tcp_ctl_tx c1 sid ack_flag).0 in
    let c3 = answer_connect c2 sid success in
    elim (Bool-cases (has_bit rx.flags rst_bit)) [
      | inl rst ↦
          rw rst (at_state _ e (is_refused rst) (tcp_sock_connect_fail-Becomes c sid econnrefused))
      | inr no_rst ↦ elim (Bool-cases (has_bit rx.flags syn_bit && has_bit rx.flags ack_bit)) [
        | inr other ↦
            rw (no_rst, other)
              (stay_in c e
                (stays_opening (λ r. absurd (ground (arith, r, no_rst)))
                  (λ a. absurd (ground (arith, a, other))))
                refl)
        | inl syn_ack ↦ elim (Bool-cases (sock_ack_valid (c.socks sid) rx.ack)) [
          | inr stale ↦
              rw (no_rst, syn_ack, stale)
                (stay_in c e
                  (stays_opening (λ r. absurd (ground (arith, r, no_rst)))
                    (λ a. is_stale (c.socks sid) rx stale a.1))
                  refl)
          | inl good ↦
              rw (no_rst, syn_ack, good)
                (at_state _ e
                  (opens (λ r. absurd (ground (arith, r, no_rst)))
                    (
                      ground (arith, syn_ack),
                      (ground (arith, syn_ack), is_covered (c.socks sid) rx good),
                    ))
                  (Becomes-kept c3 (active_Becomes c sid rx)
                    (answer_connect_socks c2 sid success ∙ tcp_ctl_tx_socks c1 sid ack_flag)))
        ]
      ]
    ]

pub rx_syn_recv_Moves :
    (c : Slow) (sid : ℕ) (rx : RxCtl)
    → (c.socks sid).state ≡ syn_recv
    → Moves c sid rx (tcp_rx_syn_recv c sid rx)
unfolding tcp_rx_syn_recv
rx_syn_recv_Moves c sid rx e =
    let again = with_ecn (c.socks sid) syn_ack_flags ece_flag in
    let opened = sock_passive_established c sid rx in
    let l = (tcp_sock_meta opened.0 sid).listener_id in
    elim (Bool-cases (has_bit rx.flags rst_bit)) [
      | inl rst ↦ rw rst (at_state _ e (ends_half_open rst) (tcp_sock_close_final-Becomes c sid))
      | inr no_rst ↦
          let live : ¬ Resets rx = λ r. absurd (ground (arith, r, no_rst)) in
          elim (Bool-cases (has_bit rx.flags syn_bit && not (has_bit rx.flags ack_bit))) [
            | inl repeated ↦
                rw (no_rst, repeated)
                  (stay_in _ e (stays_half_open live (λ a. absurd (ground (arith, a, repeated))))
                    (tcp_ctl_tx_resend_socks c sid again))
            | inr other ↦
                elim (Bool-cases
                  (not (has_bit rx.flags ack_bit) || not (sock_ack_valid (c.socks sid) rx.ack))) [
                    | inl stale ↦
                        rw (no_rst, other, stale)
                          (stay_in c e
                            (stays_half_open live
                              (λ a. is_stale (c.socks sid) rx (ground (arith, a, stale)) a))
                            refl)
                    | inr good ↦
                        let covers : Covers (c.socks sid).tx_seq (c.socks sid).tx_pending rx = (
                          ground (arith, good),
                          is_covered (c.socks sid) rx (ground (arith, good)),
                        ) in
                        elim (passive_Becomes c sid rx) [
                          | inl (pushed, place, b) ↦
                              rw (no_rst, other, good, pushed)
                                (at_state _ e (waits live covers place)
                                  (Becomes-kept _ b (tcp_app_listen_newconn_socks opened.0 l sid)))
                          | inr (full, no_place, b) ↦
                              rw (no_rst, other, good, full)
                                (at_state _ e (has_no_place live covers no_place) b)
                        ]
                  ]
          ]
    ]
