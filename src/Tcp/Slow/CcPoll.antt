-- ===== src/Tcp/Slow/CcPoll.antt =====
-- tcp_cc.c: the intervals of congestion control, round all sockets.
use chamelio.Common.{zero, suc, true, false, ℕ, Bool, if◌then◌else◌, not, leb, ◌==◌, u64, add32}
use chamelio.Common.{ltb, ◌+◌, ◌&&◌, ◌*◌}
use chamelio.Tcp.Slow.CtlTx.{tcp_tx_retransmit}
use chamelio.Tcp.Slow.Dctcp.{cc_rtt_of, cc_stats_read, CcStats, sock_on_cc_tick}
use chamelio.Tcp.Slow.State.{Slow, us_since_tsc, slow_rdtsc, tcp_sock_meta, set_meta, set_sock}
use chamelio.Tcp.Sock.{is_established}

-- TCP_CC_BATCH
abbrev pub tcp_cc_batch : ℕ
tcp_cc_batch = 128

unfoldable pub cc_stats_commit : Slow → ℕ → CcStats → Slow
cc_stats_commit c sid stats =
    let s = c.socks sid in
    let m = record (tcp_sock_meta c sid) {
      cc_last_drops = s.cc_drops;
      cc_last_acks = s.cc_acks;
      cc_last_ackb = s.cc_ackb;
      cc_last_ecnb = s.cc_ecnb;
    } in
    record (set_meta c sid m) {
      stats_drops = u64 (c.stats_drops + stats.drops);
      stats_acks_rx = u64 (c.stats_acks_rx + stats.acks);
    }

-- Nothing was acknowledged since `ts_tx_pending`: what is under way is sent again.
unfoldable pub stall_again : Slow → ℕ → Slow
unfolding tcp_tx_retransmit
stall_again c sid =
    let (c1, sent) = tcp_tx_retransmit c sid in
    let m = tcp_sock_meta c1 sid in
    let counted =
      set_meta c1 sid (record m { cnt_tx_pending = 0; cc_rexmits = add32 m.cc_rexmits 1 }) in
    if sent then record counted { stats_retx = u64 (c1.stats_retx + 1) } else c1

unfoldable pub sock_on_tx_stall : Slow → ℕ → CcStats → (now_tsc : ℕ) → Slow
unfolding cc_rtt_of us_since_tsc stall_again
sock_on_tx_stall c sid stats now_tsc =
    let s = c.socks sid in
    let m = tcp_sock_meta c sid in
    let idle = set_meta c sid (record m { cnt_tx_pending = 0 }) in
    let rtt = cc_rtt_of c.config stats in
    let c1 = set_meta c sid (record m { cnt_tx_pending = add32 m.cnt_tx_pending 1 }) in
    let first = set_meta c1 sid (record (tcp_sock_meta c1 sid) { ts_tx_pending = now_tsc }) in
    let (since, c2) = us_since_tsc c1 m.ts_tx_pending in
    let waited = if leb (2 * rtt) since then stall_again c2 sid else c2 in
    if not (s.tx_rexmit_seq == s.tx_rexmit_end_seq)
    then idle
    else if stats.tx_pending && stats.ackb == 0
    then (if m.cnt_tx_pending == 0
        then first
        else if leb c.config.cc_remit_ints (tcp_sock_meta c1 sid).cnt_tx_pending
        then waited
        else c1)
    else idle

-- The interval of a socket has come.
unfoldable pub cc_interval : Slow → (sid now_tsc elapsed_us : ℕ) → Slow
unfolding cc_stats_read cc_stats_commit sock_on_cc_tick sock_on_tx_stall
cc_interval c sid now_tsc elapsed_us =
    let stats = cc_stats_read c.config (c.socks sid) (tcp_sock_meta c sid) in
    let c1 = cc_stats_commit c sid stats in
    let (s, m) = sock_on_cc_tick c.config (c1.socks sid) (tcp_sock_meta c1 sid) stats elapsed_us in
    let c2 = sock_on_tx_stall (set_sock (set_meta c1 sid m) sid s) sid stats now_tsc in
    set_meta c2 sid (record (tcp_sock_meta c2 sid) { cc_tsc = now_tsc })

-- One socket of the scan, and whether its interval had come.
unfoldable pub cc_visit : Slow → (sid now_tsc : ℕ) → Slow × Bool
unfolding us_since_tsc cc_interval
cc_visit c sid now_tsc =
    let m = tcp_sock_meta c sid in
    let (elapsed, c1) = us_since_tsc c m.cc_tsc in
    if not (is_established (c.socks sid).state)
    then (c, false)
    else if m.cc_tsc == 0
    then (set_meta c sid (record m { cc_tsc = now_tsc }), false)
    else if ltb elapsed (m.cc_rtt * c.config.cc_control_interval)
    then (c1, false)
    else (cc_interval c1 sid now_tsc elapsed, true)

unfoldable pub cc_scan : (n : ℕ) → Slow → (now_tsc nr : ℕ) → Slow × ℕ
unfolding cc_visit
cc_scan zero c now_tsc nr = (c, nr)
cc_scan (suc n) c now_tsc nr =
    let sid = if leb c.n_socks c.cc_next_sock then 0 else c.cc_next_sock in
    let (c1, ticked) = cc_visit (record c { cc_next_sock = sid + 1 }) sid now_tsc in
    cc_scan n c1 now_tsc (if ticked then nr + 1 else nr)

-- The second part is the number of sockets whose interval had come.
unfoldable pub tcp_cc_poll : Slow → Slow × ℕ
unfolding slow_rdtsc us_since_tsc cc_scan
tcp_cc_poll c =
    let (now_tsc, c1) = slow_rdtsc c in
    let (since, c2) = us_since_tsc c1 c.cc_poll_tsc in
    let early = not (c.cc_poll_tsc == 0) && ltb since c.config.cc_control_granularity in
    let c3 = if c.cc_poll_tsc == 0 then c1 else c2 in
    let n = if ltb c.n_socks tcp_cc_batch then c.n_socks else tcp_cc_batch in
    let scanned = cc_scan n (record c3 { cc_poll_tsc = now_tsc }) now_tsc 0 in
    if c.n_socks == 0 then (c, 0) else if early then (c2, 0) else scanned
