-- ===== src/Arp/Buffer.antt =====
-- The buffer of arp.c for packets that wait for a resolution, and the messages of the control plane.
use chamelio.Arp.Table.{arp_ip_empty}
use chamelio.Common.{zero, suc, none, some, true, false, ℕ, if◌then◌else◌, Bytes, Option, ltb}
use chamelio.Common.{Bool, ◌+◌, ◌==◌, update, ◌&&◌, not}
use chamelio.Queue.{Equeue, Slots, send}

-- The entries of the control plane's queues to the fast path, and the packets of its transmit queue.
pub data ControlMsg : Type 0 where
  mbuf_tx : (gid pkt_len mb : ℕ) → ControlMsg
  arp_update : (ip : ℕ) (mac : Bytes) → ControlMsg
  arp_pkt : Bytes → ControlMsg
  other_msg : ControlMsg

-- QUEUE_ARP_UPDATE, QUEUE_ARP_TX_PKT, QUEUE_ARP_PKT and QUEUE_MBUF_TX.
abbrev pub queue_arp_update : ℕ
queue_arp_update = 17

abbrev pub queue_arp_tx_pkt : ℕ
queue_arp_tx_pkt = 20

abbrev pub queue_arp_pkt : ℕ
queue_arp_pkt = 21

abbrev pub queue_mbuf_tx : ℕ
queue_mbuf_tx = 23

-- A queue with its slots.
pub record Channel : Type 0 where
  pub eq : Equeue
  pub slots : Slots ControlMsg

-- The slot is filled and handed over.
unfoldable pub push : Channel → (type : ℕ) → ControlMsg → Option Channel
push q type msg = elim (send q.eq q.slots type msg) [
  | none ↦ none
  | some r ↦ some (record { eq = r.0; slots = r.1 })
]

-- `struct arp_buf_entry`, ARP_BUF_SIZE and `struct arp_buf`. A pointer to a packet is a number.
pub record BufEntry : Type 0 where
  pub ip : ℕ
  pub core : ℕ
  pub gid : ℕ
  pub pkt_len : ℕ
  pub mb : Option ℕ

abbrev pub arp_buf_size : ℕ
arp_buf_size = 32

abbrev pub ArpBuf : Type 0
ArpBuf = ℕ → BufEntry

unfoldable pub arp_buf_init : ArpBuf → ArpBuf
arp_buf_init entries i =
    if ltb i arp_buf_size then record (entries i) { ip = arp_ip_empty; mb = none } else entries i

-- The loop of arp_buf_insert over the `n` places from `i` on.
unfoldable pub free_entry : ArpBuf → (n i : ℕ) → Option ℕ
free_entry entries zero i = none
free_entry entries (suc n) i =
    let rest = free_entry entries n (i + 1) in
    if (entries i).ip == arp_ip_empty then some i else rest

unfoldable pub arp_buf_insert : ArpBuf → (ip core gid pkt_len mb : ℕ) → Option ArpBuf
unfolding free_entry
arp_buf_insert entries ip core gid pkt_len mb = elim (free_entry entries arp_buf_size 0) [
  | none ↦ none
  | some i ↦ some (
      update entries i
        (record { ip = ip; core = core; gid = gid; pkt_len = pkt_len; mb = some mb }))
]

-- The message for a waiting packet; a NULL is sent as 0.
abbrev pub tx_msg : BufEntry → ControlMsg
tx_msg e = mbuf_tx e.gid e.pkt_len (elim e.mb [ none ↦ 0 | some mb ↦ mb ])

abbrev pub emptied : BufEntry → BufEntry
emptied e = record e { ip = arp_ip_empty; mb = none }

pub record Flush : Type 0 where
  pub buf : ArpBuf
  pub eqs : ℕ → Channel
  pub flushed : Bool
  pub failed : Bool

-- The loop of arp_buf_flush over the `n` places from `i` on.
unfoldable pub flush_from : (ip n i : ℕ) → Flush → Flush
unfolding push
flush_from ip zero i f = f
flush_from ip (suc n) i f =
    let e = f.buf i in
    let skipped = flush_from ip n (i + 1) f in
    let sent = λ (q : Channel). flush_from ip n (i + 1) (record {
      buf = update f.buf i (emptied e);
      eqs = update f.eqs e.core q;
      flushed = true;
      failed = false;
    }) in
    let tried : Flush = elim (push (f.eqs e.core) queue_mbuf_tx (tx_msg e)) [
      | none ↦ record f { failed = true }
      | some q ↦ sent q
    ] in
    if e.ip == ip then tried else skipped

-- The buffer, the queues, and whether a packet was flushed and none failed.
unfoldable pub arp_buf_flush : ArpBuf → (ip : ℕ) (eqs : ℕ → Channel) → ArpBuf × (ℕ → Channel) × Bool
unfolding flush_from
arp_buf_flush buf ip eqs =
    let f =
      flush_from ip arp_buf_size 0
        (record { buf = buf; eqs = eqs; flushed = false; failed = false }) in
    (f.buf, f.eqs, f.flushed && not f.failed)
