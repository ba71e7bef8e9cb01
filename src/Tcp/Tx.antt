-- ===== src/Tcp/Tx.antt =====
-- `tcp_event_sched`: a socket whose turn it is sends one packet.
use chamelio.Common.{ℕ, ◌+◌, none, some, ltb, ◌==◌, if◌then◌else◌, u64}
use chamelio.Sched.{sched_head, sched_pop, sched_add}
use chamelio.Tcp.Context.{Context, Clock, Outcome, done, clock_rdtsc, rate_delay_tsc}
use chamelio.Tcp.Fill.{tx_get_hdrlen, tx_get_max_paylen, tx_fill_hdr}
use chamelio.Tcp.Lookup.{sock_map_lookup}
use chamelio.Tcp.Packet.{is_pktlen_valid, is_paylen_valid}
use chamelio.Tcp.Rx.{finish, tx_sched_tsc}
use chamelio.Tcp.Sock.{Sock, lock_sock, tx_get_tx_bump, tx_copy_payload, tx_sock_tx_bump}
use chamelio.Tcp.Sock.{sock_sched_avail}

-- When a packet of `pktlen` bytes lets the next one go, at the socket's rate.
unfoldable pub tx_sock_sched_next : Clock → Sock → (pktlen now_tsc : ℕ) → Sock
tx_sock_sched_next k s pktlen now_tsc = record s {
  tx_ready_tsc =
      if s.cc_rate == 0 then now_tsc else u64 (now_tsc + rate_delay_tsc k pktlen s.cc_rate);
}

-- The socket is scheduled again while it may still send.
unfoldable pub tx_again : Context → Sock → Context
tx_again c s =
    let avail = sock_sched_avail s in
    let (prio, c') = tx_sched_tsc c s in
    if ltb 0 avail then record c' { sched = sched_add c'.sched s.id prio avail } else c

-- The payload behind a header that is filled, and the bookkeeping of what is now in flight.
unfoldable pub tx_data : Context → Sock → (tx_bump now_tsc : ℕ) → Context × Sock
tx_data c s tx_bump now_tsc =
    let pkt = tx_copy_payload c.shm s c.pkt tx_get_hdrlen tx_bump in
    let s1 = tx_sock_tx_bump s tx_bump in
    let s2 = tx_sock_sched_next c.clock s1 (tx_get_hdrlen + tx_bump) now_tsc in
    if ltb 0 tx_bump then (tx_again (record c { pkt = pkt }) s2, s2) else (c, s)

unfoldable pub tx_send : Context → ℕ → Sock → (now_tsc : ℕ) → Outcome
tx_send c sid s now_tsc =
    let tx_bump = tx_get_tx_bump s (tx_get_max_paylen c.pkt_len tx_get_hdrlen) in
    let filled = tx_fill_hdr c s tx_get_hdrlen tx_bump in
    let sent = tx_data filled.0 filled.1 tx_bump now_tsc in
    if is_paylen_valid c.pkt_len tx_get_hdrlen tx_bump
    then finish sent.0 sid sent.1 (some (tx_get_hdrlen + tx_bump))
    else finish c sid s none

-- The entry that is taken off the scheduler names the socket.
unfoldable pub tx_pop : Context → (sid now_tsc : ℕ) → Outcome
tx_pop c sid now_tsc = elim (sched_pop c.sched) [
  | none ↦ done none c
  | some sched ↦
      let c1 = record c { sched = sched } in
      elim (sock_map_lookup c1 sid) [
        | none ↦ done none c1
        | some sid' ↦
            if is_pktlen_valid c.pkt_len
            then tx_send c1 sid' (lock_sock (c.socks sid')) now_tsc
            else done none c1
      ]
]

unfoldable pub tcp_event_sched : Context → Outcome
tcp_event_sched c = elim (sched_head c.sched) [
  | none ↦ done (some 0) c
  | some entry ↦
      let (now_tsc, c1) = clock_rdtsc c in
      if ltb now_tsc entry.priority then done (some 0) c1 else tx_pop c1 entry.id now_tsc
]
