-- ===== src/Tcp/Punt.antt =====
-- `rx_punt_ctl`: a control packet goes to the slow path through a packet queue and a signal queue.
use chamelio.Common.{ℕ, Option, none, some, Bytes, ltb, leb, if◌then◌else◌, copy, update}
use chamelio.Queue.{queue_tail, queue_enqueue, write_entry}
use chamelio.Tcp.Context.{Context, Outcome, overrun, done, Message, ctl_pkt, ctl_sig, bump_app_tx}
use chamelio.Tcp.Context.{bump_app_rx, tcp_queue_ctl_rx, tcp_queue_ctl_rx_pkt}
use chamelio.Tcp.Packet.{rx_get_hdrlen, is_paylen_valid}

-- MAX_FP_CORES
abbrev pub max_fp_cores : ℕ
max_fp_cores = 16

-- The data bytes of a `struct tcp_queue_pkt_entry`: 64 with the type byte before them.
abbrev pub pkt_entry_room : ℕ
pkt_entry_room = 63

-- The bytes of the packet that a slot held before; other messages are not read back as packets.
unfoldable pub old_bytes : Message → Bytes
old_bytes (ctl_pkt pkt core) = pkt
old_bytes (ctl_sig ready) = λ _. 0
old_bytes (bump_app_tx opaque tx_head) = λ _. 0
old_bytes (bump_app_rx opaque rx_avail rx_port rx_ip) = λ _. 0

unfoldable pub old_core : Message → ℕ
old_core (ctl_pkt pkt core) = core
old_core (ctl_sig ready) = 0
old_core (bump_app_tx opaque tx_head) = 0
old_core (bump_app_rx opaque rx_avail rx_port rx_ip) = 0

put_message : Context → ℕ → ℕ → Message → Context
put_message c qid pos message = record c {
  slots = update c.slots qid (write_entry (c.slots qid) pos message);
}

-- `queue_enqueue` on queue `qid`, with -1 if it fails.
hand_over : Context → ℕ → ℕ → Option Context
hand_over c qid type = elim (queue_enqueue (c.equeues qid) (c.slots qid) type) [
  | none ↦ none
  | some r ↦ some (record c { equeues = update c.equeues qid r.0; slots = update c.slots qid r.1 })
]

-- The header is copied, the signal is set, and both are handed over, the packet first.
punt_entries : Context → (pkt_qid pkt_pos sig_qid sig_pos : ℕ) → Outcome
unfolding old_bytes put_message hand_over
punt_entries c pkt_qid pkt_pos sig_qid sig_pos =
    let hdrlen = rx_get_hdrlen c.pkt in
    let header = copy (old_bytes ((c.slots pkt_qid).entry pkt_pos)) 0 c.pkt 0 hdrlen in
    let c1 = put_message c pkt_qid pkt_pos (ctl_pkt header c.core) in
    let c2 = put_message c1 sig_qid sig_pos (ctl_sig 1) in
    let sent : Outcome = elim (hand_over c2 pkt_qid tcp_queue_ctl_rx_pkt) [
      | none ↦ done none c2
      | some c3 ↦ elim (hand_over c3 sig_qid tcp_queue_ctl_rx) [
        | none ↦ done none c3
        | some c4 ↦ done (some 0) c4
      ]
    ] in
    if is_paylen_valid c.pkt_len hdrlen 0
    then if ltb pkt_entry_room hdrlen then overrun else sent
    else done none c

-- Both queues must have a free entry.
punt_queues : Context → (pkt_qid sig_qid : ℕ) → Outcome
unfolding punt_entries
punt_queues c pkt_qid sig_qid = elim (queue_tail (c.equeues pkt_qid) (c.slots pkt_qid)) [
  | none ↦ done none c
  | some pkt_pos ↦ elim (queue_tail (c.equeues sig_qid) (c.slots sig_qid)) [
    | none ↦ done none c
    | some sig_pos ↦ punt_entries c pkt_qid pkt_pos sig_qid sig_pos
  ]
]

unfoldable pub rx_punt_ctl : Context → Outcome
unfolding punt_queues
rx_punt_ctl c = elim c.cfg [
  | none ↦ done none c
  | some cfg ↦
      if leb max_fp_cores c.core
      then done none c
      else punt_queues c (cfg.fast_slow_pkt_qids c.core) (cfg.fast_slow_sig_qids c.core)
]
