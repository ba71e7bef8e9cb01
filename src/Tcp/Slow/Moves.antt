-- ===== src/Tcp/Slow/Moves.antt =====
-- Which states a socket goes through: one socket changes, in its place in the state machine.
use chamelio.Common.{refl, ℕ, ◌≡◌, ◌∙◌, ◌≢◌, ap, update_self, update_ne, inl, inr, Bool-cases}
use chamelio.Common.{update}
use chamelio.Tcp.Slow.CcInit.{cc_sock_reset, tcp_sock_cc_reset, cc_sock_cleared}
use chamelio.Tcp.Slow.Flow.{tcp_flow_remove}
use chamelio.Tcp.Slow.Frames.{let_go_socks, tcp_bound_remove_socks, tcp_app_connect_res_socks}
use chamelio.Tcp.Slow.Frames.{tcp_timeout_kept}
use chamelio.Tcp.Slow.Ports.{tcp_bound_remove}
use chamelio.Tcp.Slow.SockState.{mark_closed, tcp_sock_close_final, sock_conn_reset, let_go}
use chamelio.Tcp.Slow.SockState.{clear_auto_bound, sock_autobind_drop, answer_connect}
use chamelio.Tcp.Slow.SockState.{forget_conn, mark_init, tcp_sock_connect_fail}
use chamelio.Tcp.Slow.State.{Slow, set_sock, Status, tcp_sock_meta}
use chamelio.Tcp.Slow.Timer.{tcp_timeout_cancel}
use chamelio.Tcp.Sock.{SockState, Sock, closed, init}

-- The state of the socket is `t`, the other sockets are as before.
pub record Becomes (c : Slow) (sid : ℕ) (t : SockState) (c' : Slow) : Type 0 where
  pub here : (c'.socks sid).state ≡ t
  pub there : (j : ℕ) → j ≢ sid → c'.socks j ≡ c.socks j

pub Becomes-self : (c : Slow) (sid : ℕ) → Becomes c sid (c.socks sid).state c
Becomes-self c sid = record { here = refl; there = λ j ne. refl }

pub Becomes-trans :
    {c c1 c2 : Slow} {sid : ℕ} {t u : SockState}
    → Becomes c sid t c1
    → Becomes c1 sid u c2
    → Becomes c sid u c2
Becomes-trans a b = record { here = b.here; there = λ j ne. b.there j ne ∙ a.there j ne }

-- A step that leaves the sockets alone.
pub Becomes-kept :
    {c c1 : Slow} {sid : ℕ} {t : SockState} (c2 : Slow)
    → Becomes c sid t c1
    → c2.socks ≡ c1.socks
    → Becomes c sid t c2
Becomes-kept {sid = sid} c2 a e = record {
  here = ap (λ (f : ℕ → Sock). (f sid).state) e ∙ a.here;
  there = λ j ne. ap (λ (f : ℕ → Sock). f j) e ∙ a.there j ne;
}

pub Becomes-set_sock : (c : Slow) (sid : ℕ) (s : Sock) → Becomes c sid s.state (set_sock c sid s)
Becomes-set_sock c sid s = record {
  here = ap (λ (x : Sock). x.state) (update_self c.socks sid s);
  there = λ j ne. update_ne c.socks sid s j ne;
}

-- Two writes to the socket, one after the other.
pub Becomes-double :
    (c c' : Slow) (sid : ℕ) (s1 s2 : Sock)
    → c'.socks ≡ update (update c.socks sid s1) sid s2
    → Becomes c sid s2.state c'
Becomes-double c c' sid s1 s2 e = record {
  here =
      ap (λ (f : ℕ → Sock). (f sid).state) e
      ∙ ap (λ (s : Sock). s.state) (update_self (update c.socks sid s1) sid s2);
  there = λ j ne.
      ap (λ (f : ℕ → Sock). f j) e
      ∙ update_ne (update c.socks sid s1) sid s2 j ne
      ∙ update_ne c.socks sid s1 j ne;
}

cc_sock_reset-Becomes :
    (c : Slow) (sid : ℕ) → Becomes c sid (c.socks sid).state (cc_sock_reset c sid)
unfolding cc_sock_reset
cc_sock_reset-Becomes c sid =
    let b = Becomes-set_sock c sid (cc_sock_cleared (c.socks sid)) in
    record { here = b.here; there = b.there }

tcp_sock_cc_reset-Becomes :
    (c : Slow) (sid : ℕ) → Becomes c sid (c.socks sid).state (tcp_sock_cc_reset c sid)
unfolding tcp_sock_cc_reset
tcp_sock_cc_reset-Becomes c sid = cc_sock_reset-Becomes c sid

mark_closed-Becomes : (c : Slow) (sid : ℕ) → Becomes c sid closed (mark_closed c sid)
unfolding mark_closed sock_conn_reset
mark_closed-Becomes c sid =
    Becomes-set_sock c sid (sock_conn_reset (record (c.socks sid) { state = closed }))

-- A later step that keeps the socket's state.
pub Becomes-then :
    {c c1 c2 : Slow} {sid : ℕ} {t : SockState}
    → Becomes c sid t c1
    → Becomes c1 sid (c1.socks sid).state c2
    → Becomes c sid t c2
Becomes-then a b = record { here = b.here ∙ a.here; there = λ j ne. b.there j ne ∙ a.there j ne }

pub tcp_sock_close_final-Becomes :
    (c : Slow) (sid : ℕ) → Becomes c sid closed (tcp_sock_close_final c sid)
unfolding tcp_sock_close_final
tcp_sock_close_final-Becomes c sid =
    let c1 = let_go c sid in
    let b = Becomes-kept c1 (Becomes-self c sid) (let_go_socks c sid) in
    let closing =
      Becomes-kept (clear_auto_bound (mark_closed c1 sid) sid) (mark_closed-Becomes c1 sid) refl in
    Becomes-then (Becomes-trans b closing)
      (tcp_sock_cc_reset-Becomes (clear_auto_bound (mark_closed c1 sid) sid) sid)

autobind_drop_Becomes :
    (c : Slow) (sid : ℕ) → Becomes c sid (c.socks sid).state (sock_autobind_drop c sid)
unfolding sock_autobind_drop
autobind_drop_Becomes c sid =
    let c1 = tcp_bound_remove c (c.socks sid).local_port (c.socks sid).id in
    let kept = tcp_bound_remove_socks c (c.socks sid).local_port (c.socks sid).id in
    let s = record (c1.socks sid) { local_port = 0; local_ip = c1.local_ip } in
    let c2 = set_sock c1 sid s in
    let dropped =
      Becomes-then (Becomes-kept c1 (Becomes-self c sid) kept) (Becomes-set_sock c1 sid s) in
    elim (Bool-cases (tcp_sock_meta c sid).auto_bound) [
      | inl e ↦ rw e (Becomes-kept (clear_auto_bound c2 sid) dropped refl)
      | inr e ↦ rw e (Becomes-self c sid)
    ]

pub answer_connect_socks :
    (c : Slow) (sid : ℕ) (status : Status) → (answer_connect c sid status).socks ≡ c.socks
unfolding answer_connect
answer_connect_socks c sid status = search (tcp_app_connect_res_socks)

forget_conn-Becomes : (c : Slow) (sid : ℕ) → Becomes c sid (c.socks sid).state (forget_conn c sid)
unfolding forget_conn sock_conn_reset
forget_conn-Becomes c sid = Becomes-set_sock c sid (sock_conn_reset (c.socks sid))

mark_init-Becomes : (c : Slow) (sid : ℕ) → Becomes c sid init (mark_init c sid)
unfolding mark_init
mark_init-Becomes c sid = Becomes-set_sock c sid (record (c.socks sid) { state = init })

pub tcp_sock_connect_fail-Becomes :
    (c : Slow) (sid : ℕ) (err : Status) → Becomes c sid init (tcp_sock_connect_fail c sid err)
unfolding tcp_sock_connect_fail
tcp_sock_connect_fail-Becomes c sid err =
    let c0 = tcp_flow_remove (tcp_timeout_cancel c sid) sid in
    let c1 = sock_autobind_drop c0 sid in
    let c2 = tcp_sock_cc_reset (forget_conn c1 sid) sid in
    let a =
      Becomes-then (Becomes-kept c0 (Becomes-self c sid) (tcp_timeout_kept c sid))
        (autobind_drop_Becomes c0 sid) in
    let b =
      Becomes-then (Becomes-then a (forget_conn-Becomes c1 sid))
        (tcp_sock_cc_reset-Becomes (forget_conn c1 sid) sid) in
    Becomes-kept (answer_connect (mark_init c2 sid) sid err)
      (Becomes-trans b (mark_init-Becomes c2 sid)) (answer_connect_socks (mark_init c2 sid) sid err)
