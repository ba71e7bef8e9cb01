-- ===== src/Arp/Resolve.antt =====
-- The handlers of control_arp.c.
use chamelio.Arp.Buffer.{push, arp_buf_flush, arp_buf_insert, Channel, ArpBuf, queue_mbuf_tx}
use chamelio.Arp.Buffer.{queue_arp_update, mbuf_tx, arp_update}
use chamelio.Arp.Packets.{arp_request, arp_reply, broadcast}
use chamelio.Arp.Table.{arp_lookup, arp_insert, ArpTable, arp_insert_pending}
use chamelio.Common.{zero, suc, none, some, true, false, ℕ, Bytes, Bool, ◌+◌, if◌then◌else◌}
use chamelio.Common.{update, Option, not, ◌==◌, ◌&&◌, ◌||◌}
use chamelio.Tomgr.{tomgr_insert, tomgr_cancel, Tomgr}

-- What the handlers use of `struct control_context`: txqs[0] and the queues to the fast path, the
-- answers of `clock_tsc_after_us(ARP_TIMEOUT)` as a sequence.
pub record Control : Type 0 where
  pub ip : ℕ
  pub eth_addr : Bytes
  pub fp_cores_max : ℕ
  pub arp_table : ArpTable
  pub arp_buf : ArpBuf
  pub tomgr : Tomgr
  pub txq : Channel
  pub ctl_fast_qs : ℕ → Channel
  pub due : ℕ → ℕ
  pub ticks : ℕ

-- TO_ARP
abbrev pub to_arp : ℕ
to_arp = 0

-- The request for the address is sent.
unfoldable pub request : Control → (ip : ℕ) → Control × Bool
unfolding arp_request
request c ip =
    let (txq, cfq, sent) = arp_request c.txq (c.ctl_fast_qs 0) ip c.eth_addr c.ip in
    (record c { txq = txq; ctl_fast_qs = update c.ctl_fast_qs 0 cfq }, sent)

-- A timeout for the entry at the place, kept in the entry unless the heap is full.
unfoldable pub arm : Control → (i : ℕ) → Control
unfolding tomgr_insert
arm c i =
    let (m, te) = tomgr_insert c.tomgr to_arp (c.due c.ticks) i in
    let c1 = record c { tomgr = m; ticks = c.ticks + 1 } in
    elim te [
      | none ↦ c1
      | some e ↦ record c1 {
        arp_table = update c.arp_table i (record (c.arp_table i) { te = some e });
      }
    ]

unfoldable pub control_arp_timeout : Control → (i : ℕ) → Control
unfolding request arm
control_arp_timeout c i =
    let (c1, sent) = request c (c.arp_table i).ip in
    if not (c.arp_table i).pending then c else if sent then arm c1 i else c1

-- `none` is the write through the NULL that arp_insert_pending gives for a full table.
unfoldable pub control_arp_lookup : Control → (ip : ℕ) → Option Control
unfolding arp_lookup arp_insert_pending request arm
control_arp_lookup c ip = elim (arp_lookup c.arp_table ip) [
  | some i ↦ some c
  | none ↦ elim (arp_insert_pending c.arp_table ip) [
    | some (buckets, i) ↦
        let (c1, sent) = request (record c { arp_table = buckets }) ip in
        some (if sent then arm c1 i else c1)
    | none ↦
        let (c1, sent) = request c ip in
        let (m, te) = tomgr_insert c1.tomgr to_arp (c1.due c1.ticks) 0 in
        if not sent
        then some c1
        else elim te [ none ↦ some (record c1 { ticks = c1.ticks + 1 }) | some e ↦ none ]
  ]
]

-- The place of an address that is resolved.
unfoldable pub resolved : ArpTable → (ip : ℕ) → Option ℕ
unfolding arp_lookup
resolved buckets ip = elim (arp_lookup buckets ip) [
  | none ↦ none
  | some i ↦ if (buckets i).pending then none else some i
]

unfoldable pub control_arp_mbuf : Control → (core ip gid pkt_len mb : ℕ) → Control
unfolding resolved push arp_buf_insert
control_arp_mbuf c core ip gid pkt_len mb = elim (resolved c.arp_table ip) [
  | some i ↦ elim (push (c.ctl_fast_qs core) queue_mbuf_tx (mbuf_tx gid pkt_len mb)) [
    | none ↦ c
    | some q ↦ record c { ctl_fast_qs = update c.ctl_fast_qs core q }
  ]
  | none ↦ elim (arp_buf_insert c.arp_buf ip core gid pkt_len mb) [
    | none ↦ c
    | some buf ↦ record c { arp_buf = buf }
  ]
]

-- The loop of update_arp_fast over the `n` cores from `i` on.
unfoldable pub update_cores :
    (ip : ℕ) (mac : Bytes) (n i : ℕ) → (ℕ → Channel) → (ℕ → Channel) × Bool
unfolding push
update_cores ip mac zero i qs = (qs, true)
update_cores ip mac (suc n) i qs =
    let rest = λ (q : Channel). update_cores ip mac n (i + 1) (update qs i q) in
    elim (push (qs i) queue_arp_update (arp_update ip mac)) [ none ↦ (qs, false) | some q ↦ rest q ]

unfoldable pub update_arp_fast : Control → (ip : ℕ) (mac : Bytes) → Control × Bool
unfolding update_cores
update_arp_fast c ip mac =
    let (qs, done) = update_cores ip mac c.fp_cores_max 0 c.ctl_fast_qs in
    (record c { ctl_fast_qs = qs }, done)

unfoldable pub flush : Control → (ip : ℕ) → Control
unfolding arp_buf_flush
flush c ip =
    let (buf, qs, _) = arp_buf_flush c.arp_buf ip c.ctl_fast_qs in
    record c { arp_buf = buf; ctl_fast_qs = qs }

-- The end of control_arp_req.
unfoldable pub reply : Control → (sha : Bytes) (spa : ℕ) → Control
unfolding arp_reply
reply c sha spa =
    let (txq, cfq, _) = arp_reply c.txq (c.ctl_fast_qs 0) c.eth_addr c.ip sha spa in
    record c { txq = txq; ctl_fast_qs = update c.ctl_fast_qs 0 cfq }

unfoldable pub control_arp_req : Control → (spa tpa : ℕ) (sha : Bytes) → Control
unfolding resolved arp_insert update_arp_fast flush reply
control_arp_req c spa tpa sha =
    let answered : Control = elim (resolved c.arp_table spa) [
      | some i ↦ reply c sha spa
      | none ↦ elim (arp_insert c.arp_table spa sha) [
        | none ↦ c
        | some (buckets, i) ↦
            let (c1, done) = update_arp_fast (record c { arp_table = buckets }) spa sha in
            if done then reply (flush c1 spa) sha spa else c1
      ]
    ] in
    if tpa == c.ip then answered else c

-- The `n` bytes from `k` on agree with those of the other address.
unfoldable pub is_same_mac : (a b : Bytes) (n k : ℕ) → Bool
is_same_mac a b zero k = true
is_same_mac a b (suc n) k = let rest = is_same_mac a b n (k + 1) in a k == b k && rest

unfoldable pub arp_reply_targets_local : Control → (tpa : ℕ) (tha : Bytes) → Bool
unfolding is_same_mac
arp_reply_targets_local c tpa tha =
    tpa == c.ip && (is_same_mac tha c.eth_addr 6 0 || is_same_mac tha broadcast 6 0)

-- The timeout of the entry is cancelled and forgotten.
unfoldable pub disarm : Control → (i : ℕ) → Control
unfolding tomgr_cancel
disarm c i = elim (c.arp_table i).te [
  | none ↦ c
  | some e ↦ record c {
    tomgr = (tomgr_cancel c.tomgr e).0;
    arp_table = update c.arp_table i (record (c.arp_table i) { te = none });
  }
]

-- `none` is the read through the NULL that arp_insert gives for a full table.
unfoldable pub control_arp_rep :
    Control → (spa : ℕ) (sha : Bytes) (tpa : ℕ) (tha : Bytes) → Option Control
unfolding arp_reply_targets_local arp_lookup arp_insert disarm update_arp_fast flush
control_arp_rep c spa sha tpa tha =
    let taken : Option Control = elim (arp_insert c.arp_table spa sha) [
      | none ↦ none
      | some (buckets, i) ↦
          let (c1, done) = update_arp_fast (disarm (record c { arp_table = buckets }) i) spa sha in
          some (if done then flush c1 spa else c1)
    ] in
    if not (arp_reply_targets_local c tpa tha) then some c else elim (arp_lookup c.arp_table spa) [
      | none ↦ some c
      | some i ↦ if (c.arp_table i).pending then taken else some c
    ]
