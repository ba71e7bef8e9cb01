-- ===== src/Tcp/Deq.antt =====
-- `tcp_event_deq`: a message that the fast path has taken from a queue of the application or of the
-- slow path.
use chamelio.Common.{ℕ, ◌+◌, ◌*◌, Bool, none, some, ltb, ◌==◌, if◌then◌else◌, copy, update}
use chamelio.Queue.{queue_head, queue_dequeue, write_entry}
use chamelio.Sched.{sched_add}
use chamelio.Tcp.Context.{Context, Outcome, overrun, done, ctl_pkt, put_sock, tcp_now_us}
use chamelio.Tcp.Fill.{tx_get_hdrlen}
use chamelio.Tcp.Lookup.{sock_map_lookup}
use chamelio.Tcp.Packet.{put16, put32, ip_len, tcph_hdrlen, is_paylen_valid}
use chamelio.Tcp.Punt.{old_bytes, old_core, pkt_entry_room}
use chamelio.Tcp.Rx.{finish, reply_ack, remit, tx_sched_tsc}
use chamelio.Tcp.Sock.{lock_sock, unlock_sock, deq_sock_bump_tx, deq_sock_bump_rx}
use chamelio.Tcp.Sock.{deq_is_retransmit_stale}

-- The message, read from the queue entry by its type.
pub data Command : Type 0 where
  bump_cham_tx : (sock_id tx_port tx_ip tx_avail : ℕ) → Command
  bump_cham_rx : (sock_id rx_head : ℕ) → Command
  ctl_tx : Command
  tx_retransmit : (sock_id tx_seq tx_pending : ℕ) → Command
  unknown : Command

-- The entry at offset `qe` ends before the end of the shared memory, by the size of its type.
unfoldable pub is_qe_valid : (shm_len qe size : ℕ) → Bool
is_qe_valid shm_len qe size = ltb (qe + size) shm_len

-- `sizeof` of the entries: any, a bump, a control signal, a packet.
abbrev pub queue_entry_size : ℕ
queue_entry_size = 64

abbrev pub bump_entry_size : ℕ
bump_entry_size = 32

abbrev pub ctl_entry_size : ℕ
ctl_entry_size = 32

abbrev pub pkt_entry_size : ℕ
pkt_entry_size = 64

-- The application has put bytes into the TX ring: they are scheduled.
unfoldable pub deq_handle_bump_tx : Context → (sock_id tx_port tx_ip tx_avail : ℕ) → Outcome
deq_handle_bump_tx c sock_id tx_port tx_ip tx_avail = elim (sock_map_lookup c sock_id) [
  | none ↦ done none c
  | some sid ↦
      let s = unlock_sock (deq_sock_bump_tx (lock_sock (c.socks sid)) tx_avail tx_ip tx_port) in
      let (prio, c1) = tx_sched_tsc c s in
      done (some 0) (put_sock (record c1 { sched = sched_add c.sched s.id prio tx_avail }) sid s)
]

-- The application has read bytes: an ACK tells the peer of a window that was shut.
unfoldable pub deq_handle_bump_rx : Context → (sock_id rx_head : ℕ) → Outcome
deq_handle_bump_rx c sock_id rx_head = elim (sock_map_lookup c sock_id) [
  | none ↦ done none c
  | some sid ↦
      let s = lock_sock (c.socks sid) in
      let s1 = deq_sock_bump_rx s rx_head in
      if s.rx_len == s.rx_avail then reply_ack c sid s1 else finish c sid s1 (some 0)
]

unfoldable pub deq_handle_retransmit : Context → (sock_id tx_seq tx_pending : ℕ) → Outcome
deq_handle_retransmit c sock_id tx_seq tx_pending = elim (sock_map_lookup c sock_id) [
  | none ↦ done none c
  | some sid ↦
      let s = lock_sock (c.socks sid) in
      let again = remit c s in
      if deq_is_retransmit_stale s tx_seq tx_pending
      then finish c sid s (some 0)
      else finish again.0 sid again.1 (some 0)
]

-- The packet at position `pos` of queue `qid` is sent as it stands, its timestamp renewed.
unfoldable pub deq_copy_ctl : Context → (qid pos : ℕ) → Outcome
deq_copy_ctl c qid pos =
    let slot = c.ctl_slots qid in
    let hdrlen = ip_len (old_bytes (slot.entry pos)) in
    let p = put16 (put16 (old_bytes (slot.entry pos)) 10 0) 36 0 in
    let slot' = write_entry slot pos (ctl_pkt p (old_core (slot.entry pos))) in
    let c1 = record c { ctl_slots = update c.ctl_slots qid slot'; pkt = copy c.pkt 0 p 0 hdrlen } in
    let (now_us, c2) = tcp_now_us c1 in
    let stamped = record c2 { pkt = put32 c1.pkt 42 now_us } in
    let taken = λ (d : Context).
      let out : Outcome = elim (queue_dequeue (d.dqueues qid) (d.ctl_slots qid)) [
        | none ↦ done none d
        | some r ↦ done (some hdrlen) (record d {
          dqueues = update d.dqueues qid r.0;
          ctl_slots = update d.ctl_slots qid r.1;
        })
      ] in
      out in
    if is_paylen_valid c.pkt_len hdrlen 0
    then (if ltb pkt_entry_room hdrlen
        then overrun
        else if tcph_hdrlen p * 4 == 32
        then if is_paylen_valid c.pkt_len tx_get_hdrlen 0 then taken stamped else done none c1
        else taken c1)
    else done none c

unfoldable pub deq_handle_ctl_tx : Context → (shm_len : ℕ) → Outcome
deq_handle_ctl_tx c shm_len = elim c.cfg [
  | none ↦ done none c
  | some cfg ↦
      let qid = cfg.slow_fast_pkt_qid in
      elim (queue_head (c.dqueues qid) (c.ctl_slots qid)) [
        | none ↦ done none c
        | some pos ↦
            if is_qe_valid shm_len ((c.dqueues qid).off + pos) pkt_entry_size
            then deq_copy_ctl c qid pos
            else done none c
      ]
]

-- The command that stands at offset `qe` of a shared memory of `shm_len` bytes.
unfoldable pub tcp_event_deq : Context → (shm_len qe : ℕ) → Command → Outcome
tcp_event_deq c shm_len qe command =
    let handled : Outcome = elim command [
      | bump_cham_tx sock_id tx_port tx_ip tx_avail ↦
          if is_qe_valid shm_len qe bump_entry_size
          then deq_handle_bump_tx c sock_id tx_port tx_ip tx_avail
          else done none c
      | bump_cham_rx sock_id rx_head ↦
          if is_qe_valid shm_len qe bump_entry_size
          then deq_handle_bump_rx c sock_id rx_head
          else done none c
      | ctl_tx ↦
          if is_qe_valid shm_len qe ctl_entry_size then deq_handle_ctl_tx c shm_len else done none c
      | tx_retransmit sock_id tx_seq tx_pending ↦
          if is_qe_valid shm_len qe ctl_entry_size
          then deq_handle_retransmit c sock_id tx_seq tx_pending
          else done none c
      | unknown ↦ done none c
    ] in
    if is_qe_valid shm_len qe queue_entry_size then handled else done none c
