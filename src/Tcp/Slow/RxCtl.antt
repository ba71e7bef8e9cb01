-- ===== src/Tcp/Slow/RxCtl.antt =====
-- tcp_rx_ctl.c: the control packets that the fast path hands over.
use chamelio.Common.{zero, suc, none, some, true, Bytes, ℕ, if◌then◌else◌, Bool, ◌+◌, leb, ◌==◌}
use chamelio.Common.{update, ◌%◌, ◌||◌, sub32, ◌-◌, ◌*◌, u32, add32, ◌&&◌, ◌/◌, not, has_bit}
use chamelio.Queue.{queue_dequeue, queue_head}
use chamelio.Tcp.Context.{tcp_queue_ctl_rx_pkt, tcp_queue_ctl_rx}
use chamelio.Tcp.Packet.{tcph_hdrlen, ts_kind, ip_dst, ip_src, tcp_seqno, tcp_ackno, ts_val}
use chamelio.Tcp.Packet.{ts_ecr, tcp_dest, tcp_src, tcp_wnd, tcph_flags}
use chamelio.Tcp.Punt.{old_bytes, old_core}
use chamelio.Tcp.Rx.{tcp_max_rtt}
use chamelio.Tcp.Slow.CtlTx.{tcp_ctl_tx_reply, syn_bit, ack_bit}
use chamelio.Tcp.Slow.Flow.{tcp_flow_lookup}
use chamelio.Tcp.Slow.Ports.{tcp_listener_lookup}
use chamelio.Tcp.Slow.RxClose.{tcp_rx_established, tcp_rx_fin_wait1}
use chamelio.Tcp.Slow.RxOpen.{tcp_rx_syn_sent, tcp_rx_syn_recv, tcp_rx_listen_syn, refuse}
use chamelio.Tcp.Slow.State.{slow_rdtsc, Slow, RxCtl, slow_batch_size, set_sock}
use chamelio.Tcp.Sock.{lock_sock, unlock_sock, syn_sent, syn_recv, accept_pending, established}
use chamelio.Tcp.Sock.{fin_wait1, closed, init, listen, SockState}

-- The fields of the packet, from the receiver's side; without the option its two times are not read.
unfoldable pub ctl_rx_parse : Bytes → (core : ℕ) → RxCtl
ctl_rx_parse p core =
    let opt = leb 32 (tcph_hdrlen p * 4) && ts_kind p == 8 in
    record {
      local_ip = ip_dst p;
      remote_ip = ip_src p;
      seq = tcp_seqno p;
      ack = tcp_ackno p;
      ts_val = if opt then ts_val p else 0;
      ts_ecr = if opt then ts_ecr p else 0;
      local_port = tcp_dest p;
      remote_port = tcp_src p;
      wnd = tcp_wnd p;
      flags = tcph_flags p;
      core = core;
      ts_valid = opt;
    }

-- The smoothed estimate with one more measurement.
unfoldable pub next_rtt : (rtt_est rtt : ℕ) → ℕ
next_rtt rtt_est rtt =
    if rtt == 0 || leb tcp_max_rtt rtt
    then rtt_est
    else if rtt_est == 0
    then rtt
    else u32 (u32 (7 * rtt_est) + rtt) / 8

-- One round trip: from the time that the packet echoes to now.
unfoldable pub measure_rtt : Slow → ℕ → RxCtl → Slow
unfolding slow_rdtsc next_rtt
measure_rtt c sid rx =
    let (now, c1) = slow_rdtsc c in
    let rtt = sub32 (u32 (c.clock.base.tsc_to_us now)) rx.ts_ecr in
    let s = c.socks sid in set_sock c1 sid (record s { rtt_est = next_rtt s.rtt_est rtt })

-- `sock_ts_rx`
unfoldable pub ctl_ts_rx : Slow → ℕ → RxCtl → Slow
unfolding measure_rtt
ctl_ts_rx c sid rx =
    let recent = set_sock c sid (record (c.socks sid) { ts_recent = rx.ts_val }) in
    if not rx.ts_valid then c else if rx.ts_ecr == 0 then recent else measure_rtt recent sid rx

-- The handler for the state of the socket.
unfoldable pub rx_by_state : Slow → ℕ → RxCtl → SockState → Slow
unfolding tcp_rx_syn_sent tcp_rx_syn_recv tcp_rx_established tcp_rx_fin_wait1
rx_by_state c sid rx syn_sent = tcp_rx_syn_sent c sid rx
rx_by_state c sid rx syn_recv = tcp_rx_syn_recv c sid rx
rx_by_state c sid rx accept_pending = tcp_rx_established c sid rx
rx_by_state c sid rx established = tcp_rx_established c sid rx
rx_by_state c sid rx fin_wait1 = tcp_rx_fin_wait1 c sid rx
rx_by_state c sid rx closed = c
rx_by_state c sid rx init = c
rx_by_state c sid rx listen = c

unfoldable pub sock_ctl_rx : Slow → ℕ → RxCtl → Slow
unfolding rx_by_state
sock_ctl_rx c sid rx = rx_by_state c sid rx (c.socks sid).state

-- The packet of a connection that the table knows, under the lock of its socket.
unfoldable pub conn_rx : Slow → ℕ → RxCtl → Slow
unfolding ctl_ts_rx sock_ctl_rx
conn_rx c sid rx =
    let c1 = set_sock c sid (lock_sock (c.socks sid)) in
    let c2 = sock_ctl_rx (ctl_ts_rx c1 sid rx) sid rx in
    set_sock c2 sid (unlock_sock (c2.socks sid))

-- A packet of no connection: a SYN goes to a listener.
unfoldable pub stray_rx : Slow → RxCtl → Slow × Bool
unfolding tcp_listener_lookup tcp_ctl_tx_reply tcp_rx_listen_syn
stray_rx c rx =
    let (c1, listener) = tcp_listener_lookup c rx.local_ip rx.local_port in
    let opened : Slow × Bool = elim listener [
      | none ↦ (refuse c1 rx 0 (add32 rx.seq 1), true)
      | some listener_id ↦ tcp_rx_listen_syn c1 listener_id rx
    ] in
    if not (has_bit rx.flags syn_bit) || has_bit rx.flags ack_bit then (c, true) else opened

unfoldable pub ctl_rx : Slow → Bytes → (core : ℕ) → Slow × Bool
unfolding ctl_rx_parse tcp_flow_lookup conn_rx stray_rx
ctl_rx c pkt core =
    let rx = ctl_rx_parse pkt (if leb c.n_fp_cores core then 0 else core) in
    elim (tcp_flow_lookup c rx.local_ip rx.local_port rx.remote_ip rx.remote_port) [
      | some sid ↦ (conn_rx c sid rx, true)
      | none ↦ stray_rx c rx
    ]

-- `queue_dequeue` on the two queues of a core; nothing happens on an empty one.
unfoldable pub drop_sig : Slow → (core : ℕ) → Slow
drop_sig c core = elim (queue_dequeue (c.fast_slow_sig_qs core) (c.fast_slow_sig_slots core)) [
  | none ↦ c
  | some r ↦ record c {
    fast_slow_sig_qs = update c.fast_slow_sig_qs core r.0;
    fast_slow_sig_slots = update c.fast_slow_sig_slots core r.1;
  }
]

unfoldable pub drop_pkt : Slow → (core : ℕ) → Slow
drop_pkt c core = elim (queue_dequeue (c.fast_slow_pkt_qs core) (c.fast_slow_pkt_slots core)) [
  | none ↦ c
  | some r ↦ record c {
    fast_slow_pkt_qs = update c.fast_slow_pkt_qs core r.0;
    fast_slow_pkt_slots = update c.fast_slow_pkt_slots core r.1;
  }
]

-- The signal at place `sig` of the core's queue is looked at; its own removal comes after.
unfoldable pub signal_rx : Slow → (core sig : ℕ) → Slow
unfolding ctl_rx drop_sig drop_pkt
signal_rx c core sig =
    let packet = λ (pos : ℕ).
      let slots = c.fast_slow_pkt_slots core in
      let taken =
        drop_pkt (ctl_rx c (old_bytes (slots.entry pos)) (old_core (slots.entry pos))).0 core in
      if slots.type pos == tcp_queue_ctl_rx_pkt then taken else drop_pkt (drop_sig c core) core in
    let handled : Slow = elim (queue_head (c.fast_slow_pkt_qs core) (c.fast_slow_pkt_slots core)) [
      | none ↦ drop_sig c core
      | some pos ↦ packet pos
    ] in
    if (c.fast_slow_sig_slots core).type sig == tcp_queue_ctl_rx then handled else c

-- The signals of one core; `room` is what `nr` leaves of SLOW_BATCH_SIZE.
unfoldable pub poll_core : (room : ℕ) → Slow → (core : ℕ) → Slow × ℕ
unfolding signal_rx drop_sig
poll_core zero c core = (c, 0)
poll_core (suc room) c core =
    elim (queue_head (c.fast_slow_sig_qs core) (c.fast_slow_sig_slots core)) [
      | none ↦ (c, suc room)
      | some sig ↦ poll_core room (drop_sig (signal_rx c core sig) core) core
    ]

-- The cores from `start + i` on, round all of them, `n` of them left.
unfoldable pub poll_cores : (n : ℕ) → Slow → (start i room : ℕ) → Slow × ℕ
unfolding poll_core
poll_cores zero c start i room = (c, room)
poll_cores (suc n) c start i room =
    let (c1, room') = poll_core room c ((start + i) % c.n_fp_cores) in
    let rest = poll_cores n c1 start (i + 1) room' in if room == 0 then (c, room) else rest

-- The second part is the number of signals.
unfoldable pub tcp_fast_poll : Slow → Slow × ℕ
unfolding poll_cores
tcp_fast_poll c =
    let start = c.next_fast_slow_core in
    let (c1, room) = poll_cores c.n_fp_cores c start 0 slow_batch_size in
    (record c1 { next_fast_slow_core = (start + 1) % c1.n_fp_cores }, slow_batch_size - room)
