-- ===== src/Tcp/Rx.antt =====
-- `tcp_event_rx`: a packet has come in.
use chamelio.Common.{ℕ, ◌+◌, ◌-◌, ◌*◌, ◌/◌, Bool, true, false, ◌&&◌, ◌||◌, not, Option, none}
use chamelio.Common.{some, ltb, leb, ◌==◌, if◌then◌else◌, u8, u16, u32, add32, sub32, set_bit}
use chamelio.Sched.{sched_add, sched_remove}
use chamelio.Tcp.Context.{Context, Outcome, done, bump_app_tx, bump_app_rx, put_sock}
use chamelio.Tcp.Context.{tcp_queue_bump_app_tx, tcp_queue_bump_app_rx, clock_rdtsc, tcp_now_us}
use chamelio.Tcp.Context.{enqueue_bump}
use chamelio.Tcp.Fill.{tx_fill_ack, send_ece_bit}
use chamelio.Tcp.Lookup.{sock_find}
use chamelio.Tcp.Packet.{is_pktlen_valid, is_paylen_valid, rx_get_hdrlen, rx_get_paylen, rx_is_ip}
use chamelio.Tcp.Packet.{rx_is_ce, rx_is_flags_ctl, rx_is_ack, rx_is_ack_only, tcph_hdrlen}
use chamelio.Tcp.Packet.{ts_kind, ts_val, ts_ecr, tcp_wnd, tcp_ackno, tcp_src, ip_src}
use chamelio.Tcp.Punt.{rx_punt_ctl}
use chamelio.Tcp.Sock.{Sock, is_established, lock_sock, unlock_sock, tcp_sock_recovery_enter}
use chamelio.Tcp.Sock.{rx_get_ack_bump, rx_get_payload_overlap, rx_is_payload_dup}
use chamelio.Tcp.Sock.{rx_is_out_of_order, rx_get_rx_bump, rx_sock_bump_ack, rx_sock_bump_rx}
use chamelio.Tcp.Sock.{rx_copy_payload, sock_sched_avail}

-- TCP_MAX_RTT and FAST_REMIT_THRESH
abbrev pub tcp_max_rtt : ℕ
tcp_max_rtt = 100000

abbrev pub fast_remit_thresh : ℕ
fast_remit_thresh = 4

-- When a paced socket may send next.
unfoldable pub tx_sched_tsc : Context → Sock → ℕ × Context
unfolding clock_rdtsc
tx_sched_tsc c s =
    let (now_tsc, c') = clock_rdtsc c in
    (if s.cc_rate == 0 || leb s.tx_ready_tsc now_tsc then now_tsc else s.tx_ready_tsc, c')

-- The socket goes back to its oldest unacknowledged byte and is scheduled at once.
unfoldable pub rewind_sock : Sock → Sock
unfolding tcp_sock_recovery_enter
rewind_sock s =
    let s1 = tcp_sock_recovery_enter s in
    record s1 { tx_avail = add32 s1.tx_avail s1.tx_pending; tx_pending = 0 }

unfoldable pub remit : Context → Sock → Context × Sock
unfolding rewind_sock clock_rdtsc
remit c s =
    let s' = rewind_sock s in
    let avail = sock_sched_avail s' in
    let (now_tsc, c') = clock_rdtsc c in
    (record c' { sched = sched_add (sched_remove c.sched s.id).0 s.id now_tsc avail }, s')

-- `rx_read_ts`: the header has options, the first fits the buffer and is a timestamp.
unfoldable pub has_ts : Context → Bool
has_ts c = ltb 20 (tcph_hdrlen c.pkt * 4) && leb 52 c.pkt_len && ts_kind c.pkt == 8

-- The running estimate of the round trip time, from a sample in range.
unfoldable pub rtt_update : ℕ → ℕ → ℕ
rtt_update rtt_est rtt =
    if rtt == 0 || leb tcp_max_rtt rtt
    then rtt_est
    else if rtt_est == 0
    then rtt
    else u32 (u32 (7 * rtt_est) + rtt) / 8

unfoldable pub sock_ts_rx : Context → Sock → Context × Sock
unfolding has_ts rtt_update tcp_now_us
sock_ts_rx c s =
    let s1 = record s { ts_recent = ts_val c.pkt } in
    let (now_us, c') = tcp_now_us c in
    if has_ts c
    then (if ts_ecr c.pkt == 0
        then (c, s1)
        else (c', record s1 { rtt_est = rtt_update s.rtt_est (sub32 now_us (ts_ecr c.pkt)) }))
    else (c, s)

unfoldable pub rx_sched_tx : Context → Sock → (avail_before avail_after : ℕ) → Context
unfolding tx_sched_tsc
rx_sched_tx c s avail_before avail_after =
    let (prio, c') = tx_sched_tsc c s in
    if leb avail_after avail_before
    then c
    else record c' { sched = sched_add c.sched s.id prio (avail_after - avail_before) }

-- Every way out gives the lock back and writes the socket into the map.
unfoldable pub finish : Context → ℕ → Sock → Option ℕ → Outcome
finish c sid s ret = done ret (put_sock c sid (unlock_sock s))

unfoldable pub reply_ack : Context → ℕ → Sock → Outcome
unfolding finish
reply_ack c sid s = let filled = tx_fill_ack c s in finish filled.1 sid filled.2 filled.0

-- `rx_bump` bytes of the packet, from offset `payload` on, go into the RX ring, and the application
-- is told.
unfoldable pub rx_store : Context → ℕ → Sock → (payload rx_bump : ℕ) → Outcome
rx_store c sid s payload rx_bump =
    let c1 = record c { shm = rx_copy_payload c.shm s c.pkt payload rx_bump } in
    let s1 = rx_sock_bump_rx s rx_bump in
    let message = bump_app_rx s.opaque rx_bump (tcp_src c.pkt) (ip_src c.pkt) in
    elim (enqueue_bump c1 s.app_bump_qid tcp_queue_bump_app_rx message) [
      | none ↦ finish c1 sid s1 none
      | some c2 ↦ reply_ack c2 sid s1
    ]

-- New bytes, of which the first `overlap` are known, are stored as far as they fit.
unfoldable pub rx_payload : Context → ℕ → Sock → (hdrlen overlap : ℕ) → Outcome
rx_payload c sid s hdrlen overlap =
    let paylen = rx_get_paylen c.pkt in
    let rx_bump = rx_get_rx_bump s (u16 (paylen - overlap)) in
    if is_paylen_valid c.pkt_len hdrlen paylen
    then if ltb 0 rx_bump then rx_store c sid s (hdrlen + overlap) rx_bump else reply_ack c sid s
    else reply_ack c sid s

-- An acknowledgment without data that moves nothing, with bytes in flight and no recovery.
unfoldable pub is_dupack : Context → Sock → (ack_bump : ℕ) → Bool
is_dupack c s ack_bump =
    rx_is_ack c.pkt
    && rx_is_ack_only c.pkt
    && ack_bump == 0
    && not (s.tx_pending == 0)
    && not s.recovery_active

-- The fourth duplicate rewinds the socket; the last part is `should_fast_remit`.
unfoldable pub rx_count_dup : Context → Sock → Context × Sock × Bool
rx_count_dup c s =
    let cnt = u8 (s.rx_dupack_cnt + 1) in
    let again = remit c (record s { rx_dupack_cnt = cnt; cc_drops = add32 s.cc_drops 1 }) in
    if leb fast_remit_thresh cnt
    then (again.0, record (again.1) { rx_dupack_cnt = 0 }, true)
    else (c, record s { rx_dupack_cnt = cnt }, false)

unfoldable pub rx_dupack : Context → Sock → (ack_bump : ℕ) → Context × Sock × Bool
unfolding is_dupack rx_count_dup
rx_dupack c s ack_bump = if is_dupack c s ack_bump then rx_count_dup c s else (c, s, false)

-- After the acknowledgment is dealt with.
unfoldable pub rx_data : Context → ℕ → Sock → (hdrlen overlap : ℕ) → (dup ooo fast : Bool) → Outcome
rx_data c sid s hdrlen overlap dup ooo fast =
    if rx_is_ack_only c.pkt
    then finish c sid s (some 0)
    else if dup && not fast
    then reply_ack c sid s
    else if ooo
    then reply_ack c sid s
    else rx_payload c sid s hdrlen overlap

-- The acknowledgment of a segment: what the socket becomes, and by how much it moves on.
unfoldable pub rx_take_ack : Context → Sock → Context × Sock × ℕ
rx_take_ack c s =
    let s1 = record s { tx_remote_avail = tcp_wnd c.pkt } in
    let s2 = if rx_is_ack c.pkt then record s1 { cc_acks = add32 s.cc_acks 1 } else s1 in
    let (c', s3) = sock_ts_rx c s2 in
    let ack_bump = rx_get_ack_bump c.pkt s3 in
    (c', if rx_is_ack c.pkt then rx_sock_bump_ack c.pkt s3 ack_bump else s3, ack_bump)

-- The application hears of every acknowledgment number that is not the old one.
unfoldable pub rx_bump_app : Context → (old new : Sock) → (ack_bump : ℕ) → Option Context
rx_bump_app c old new ack_bump =
    if old.tx_seq == tcp_ackno c.pkt
    then some c
    else enqueue_bump c new.app_bump_qid tcp_queue_bump_app_tx (bump_app_tx new.opaque ack_bump)

-- A segment whose headers fit the buffer, for a socket that is locked.
unfoldable pub rx_segment : Context → ℕ → Sock → (hdrlen : ℕ) → Outcome
rx_segment c sid s hdrlen =
    let (c1, s1, ack_bump) = rx_take_ack c s in
    elim (rx_bump_app c1 s s1 ack_bump) [
      | none ↦ finish c1 sid s1 none
      | some c2 ↦
          let (c3, s2, fast) = rx_dupack c2 s1 ack_bump in
          let c4 = rx_sched_tx c3 s2 (sock_sched_avail s) (sock_sched_avail s1) in
          rx_data c4 sid s2 hdrlen (rx_get_payload_overlap c.pkt s) (rx_is_payload_dup c.pkt s)
            (rx_is_out_of_order c.pkt s) fast
    ]

-- A congestion mark of the network is remembered until the next packet to the peer.
unfoldable pub rx_mark_ce : Context → Sock → Sock
rx_mark_ce c s = if rx_is_ce c.pkt then record s { flags = set_bit s.flags send_ece_bit } else s

unfoldable pub rx_locked : Context → ℕ → Sock → Outcome
rx_locked c sid s =
    let hdrlen = u16 (rx_get_hdrlen c.pkt) in
    if is_paylen_valid c.pkt_len hdrlen 0
    then rx_segment c sid (rx_mark_ce c s) hdrlen
    else reply_ack c sid (rx_mark_ce c s)

unfoldable pub tcp_event_rx : Context → Outcome
tcp_event_rx c =
    let found : Outcome = elim (sock_find c) [
      | none ↦ done none c
      | some sid ↦
          if is_established (c.socks sid).state
          then rx_locked c sid (lock_sock (c.socks sid))
          else rx_punt_ctl c
    ] in
    if is_pktlen_valid c.pkt_len && rx_is_ip c.pkt
    then if rx_is_flags_ctl c.pkt then rx_punt_ctl c else found
    else done none c
