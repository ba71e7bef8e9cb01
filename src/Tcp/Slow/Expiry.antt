-- ===== src/Tcp/Slow/Expiry.antt =====
-- What a timeout does to the connection.
use chamelio.Common.{refl, true, false, ℕ, ◌≡◌, ◌==◌, eq→==, arith}
use chamelio.Tcp.Slow.CtlTx.{rst_ack_flags}
use chamelio.Tcp.Slow.Frames.{tcp_ctl_tx_reply_socks}
use chamelio.Tcp.Slow.Moves.{Becomes, tcp_sock_connect_fail-Becomes, Becomes-self, Becomes-trans}
use chamelio.Tcp.Slow.Moves.{Becomes-kept, tcp_sock_close_final-Becomes}
use chamelio.Tcp.Slow.State.{RetxKind, Slow, tsc_after_us, slow_rdtsc, tcp_sock_meta, retx_none}
use chamelio.Tcp.Slow.State.{retx_syn, retx_synack, etimedout, retx_fin}
use chamelio.Tcp.Slow.Timeout.{reset_and_close, sock_retx_expire, sock_on_timeout, sock_reply}
use chamelio.Tcp.Slow.Timer.{sock_retx_sched}
use chamelio.Tcp.Sock.{SockState, init, closed}

-- The state that a connection falls back to when its packets stay unanswered.
abbrev pub fallback : RetxKind → SockState → SockState
fallback retx_syn s = init
fallback retx_synack s = closed
fallback retx_fin s = closed
fallback retx_none s = s

reset_and_close-Becomes : (c : Slow) (sid : ℕ) → Becomes c sid closed (reset_and_close c sid)
unfolding reset_and_close
reset_and_close-Becomes c sid =
    let s = c.socks sid in
    let c1 = (sock_reply c sid s.tx_seq rst_ack_flags).0 in
    let kept =
      tcp_ctl_tx_reply_socks c s.local_ip s.local_port s.remote_ip s.remote_port s.tx_seq s.rx_seq
        rst_ack_flags in
    Becomes-trans (Becomes-kept c1 (Becomes-self c sid) kept) (tcp_sock_close_final-Becomes c1 sid)

expire_by_kind :
    (c : Slow) (sid : ℕ) (kind : RetxKind)
    → (tcp_sock_meta c sid).retx_kind ≡ kind
    → Becomes c sid (fallback kind (c.socks sid).state) (sock_retx_expire c sid)
unfolding sock_retx_expire
expire_by_kind c sid retx_syn e =
    rw (e, sock_retx_expire) (tcp_sock_connect_fail-Becomes c sid etimedout)
expire_by_kind c sid retx_synack e = rw (e, sock_retx_expire) (reset_and_close-Becomes c sid)
expire_by_kind c sid retx_fin e = rw (e, sock_retx_expire) (reset_and_close-Becomes c sid)
expire_by_kind c sid retx_none e = rw (e, sock_retx_expire) (Becomes-self c sid)

-- When no try is left, a timeout gives the connection up: an active open falls back to a socket
-- that is not connected, a passive open and a close end, and with no packet to repeat the state
-- stays; no other socket changes.
pub sock_on_timeout-Becomes :
    (c : Slow) (sid : ℕ)
    → (tcp_sock_meta c sid).retx_left ≡ 0
    → Becomes c sid
        (fallback (tcp_sock_meta c sid).retx_kind (c.socks sid).state)
        (sock_on_timeout c sid).0
unfolding sock_on_timeout
sock_on_timeout-Becomes c sid e =
    let none_left : ((tcp_sock_meta c sid).retx_left == 0) ≡ true = eq→== _ _ e in
    rw none_left (expire_by_kind c sid (tcp_sock_meta c sid).retx_kind refl)

sched_clears :
    (c : Slow) (sid : ℕ)
    → (sock_retx_sched c sid).1 ≡ false
    → (tcp_sock_meta (sock_retx_sched c sid).0 sid).retx_kind ≡ retx_none
unfolding sock_retx_sched tsc_after_us slow_rdtsc
sched_clears c sid failed = ground arith

-- When the next try cannot be scheduled, giving the connection up afterwards has no effect at
-- all.
pub sock_retx_expire-sock_retx_sched :
    (c : Slow) (sid : ℕ)
    → (sock_retx_sched c sid).1 ≡ false
    → sock_retx_expire (sock_retx_sched c sid).0 sid ≡ (sock_retx_sched c sid).0
unfolding sock_retx_expire
sock_retx_expire-sock_retx_sched c sid failed = rw (sched_clears c sid failed, sock_retx_expire)
