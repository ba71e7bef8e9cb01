-- ===== src/Tcp/Slow/Opened.antt =====
-- The socket that a handshake hands to the fast path.
use chamelio.Common.{refl, true, ◌<◌, ℕ, ◌^◌, ◌≡◌, add32, arith, update_self, update, ==→eq, ◌∙◌}
use chamelio.Common.{ap, sym}
use chamelio.Tcp.Inv.{IsValid}
use chamelio.Tcp.Slow.CcInit.{tcp_sock_cc_init, cc_sock_reset, cc_started, cc_sock_cleared}
use chamelio.Tcp.Slow.RxOpen.{active_sock, sock_active_established, sock_ack_valid}
use chamelio.Tcp.Slow.State.{Config, slow_rdtsc, RxCtl, Slow, actx_of, set_sock}
use chamelio.Tcp.Slow.Timer.{tcp_timeout_cancel}
use chamelio.Tcp.Sock.{Sock, established}
use mathlib.Core.Path.{subst}

-- A socket whose SYN is on its way: nothing is buffered, and the SYN is the one byte that is
-- pending.
pub record IsOpening (s : Sock) : Type 0 where
  pub rx_ring : (0 < s.rx_len) × (s.rx_len < 2 ^ 31) × (s.rx_head ≡ 0) × (s.rx_avail ≡ 0)
  pub tx_ring : (0 < s.tx_len) × (s.tx_len < 2 ^ 31) × (s.tx_head ≡ 0) × (s.tx_avail ≡ 0)
  pub syn : s.tx_pending ≡ 1
  pub word : s.tx_seq < 2 ^ 32

-- The connection is open for the fast path, from the numbers that the peers agreed on.
pub record IsOpen (s : Sock) (seq ack wnd : ℕ) : Type 0 where
  pub state : s.state ≡ established
  pub valid : IsValid s
  pub sent : (s.tx_seq ≡ ack) × (s.tx_pending ≡ 0)
  pub expected : s.rx_seq ≡ add32 seq 1
  pub window : s.tx_remote_avail ≡ wnd

started_IsOpen :
    (config : Config) (qids : ℕ → ℕ) (s : Sock) (rx : RxCtl)
    → IsOpening s
    → rx.ack ≡ add32 s.tx_seq s.tx_pending
    → IsOpen (cc_started config (active_sock qids s rx)) rx.seq rx.ack rx.wnd
unfolding active_sock
started_IsOpen config qids s rx v e = record {
  state = refl;
  valid = let r = v.rx_ring in let t = v.tx_ring in let n = v.syn in ground arith;
  sent = let n = v.syn in (ground arith, ground arith);
  expected = refl;
  window = refl;
}

cc_init_sock :
    (c : Slow) (sid : ℕ) → (tcp_sock_cc_init c sid).socks sid ≡ cc_started c.config (c.socks sid)
unfolding tcp_sock_cc_init slow_rdtsc cc_sock_reset
cc_init_sock c sid = update_self (update c.socks sid (cc_sock_cleared (c.socks sid))) sid _

ack_valid_eq :
    (s : Sock) (ack : ℕ) → sock_ack_valid s ack ≡ true → ack ≡ add32 s.tx_seq s.tx_pending
unfolding sock_ack_valid
ack_valid_eq s ack e = ==→eq _ _ e

-- When a socket's rings are empty, its SYN is pending and the acknowledgment covers the SYN, an
-- active open leaves a socket that is valid for the fast path: nothing is pending, the next byte
-- to send is the one that the peer acknowledged, the next one to receive follows the peer's SYN,
-- and the window is the peer's.
pub sock_active_established-IsOpen :
    (c : Slow) (sid : ℕ) (rx : RxCtl)
    → IsOpening (c.socks sid)
    → sock_ack_valid (c.socks sid) rx.ack ≡ true
    → IsOpen ((sock_active_established c sid rx).socks sid) rx.seq rx.ack rx.wnd
unfolding sock_active_established tcp_timeout_cancel
sock_active_established-IsOpen c sid rx v valid =
    let s = c.socks sid in
    let qids = (actx_of c s.app_id s.ctx_id).app_bump_qids in
    let s1 = active_sock qids s rx in
    let c1 = set_sock (tcp_timeout_cancel c sid) sid s1 in
    let same : (tcp_sock_cc_init c1 sid).socks sid ≡ cc_started c.config s1 =
      cc_init_sock c1 sid ∙ ap (cc_started c.config) (update_self c.socks sid s1) in
    let covers : rx.ack ≡ add32 s.tx_seq s.tx_pending = ack_valid_eq s rx.ack valid in
    subst (λ x. IsOpen x rx.seq rx.ack rx.wnd) (sym same)
      (started_IsOpen c.config qids s rx v covers)
