-- ===== src/Arp/Tests.antt =====
-- A host that waits for the address 7, and the theorems at it.
use chamelio.Arp.Answers.{control_arp_lookup-request, IsResolved, control_arp_rep-IsResolved}
use chamelio.Arp.Answers.{IsCancelled}
use chamelio.Arp.Buffer.{Channel, ArpBuf, other_msg, push}
use chamelio.Arp.Packets.{arp_request, broadcast, send_arp_pkt}
use chamelio.Arp.Resolve.{arp_reply_targets_local, Control, request, is_same_mac, control_arp_rep}
use chamelio.Arp.Resolve.{control_arp_lookup}
use chamelio.Arp.Table.{ArpEntry, ArpTable, arp_insert_pending, InsertedAt, arp_lookup, arp_keyed}
use chamelio.Arp.Table.{hash_ip, WaitsFor, ips, arp_insert_pending_lem}
use chamelio.Common.{refl, none, some, true, false, Option, Bytes, ℕ, ◌≡◌, ◌+◌, if◌then◌else◌}
use chamelio.Common.{◌==◌, arith}
use chamelio.Probe.{IsProbed}
use chamelio.Queue.{send, queue_tail}
use chamelio.Tomgr.{Tomgr}
use mathlib.Core.Path.{subst}

abbrev no_entry : ArpEntry
no_entry = record { ip = 0; pending = false; mac = λ k. 0; te = none }

abbrev empty_table : ArpTable
empty_table i = no_entry

empty-IsProbed : IsProbed arp_keyed (ips empty_table)
empty-IsProbed i lt used = absurd (ground (arith, used))

abbrev table_in : Option (ArpTable × ℕ) → ArpTable
table_in none = empty_table
table_in (some r) = r.0

pending_table : ArpTable
unfolding arp_insert_pending hash_ip
pending_table = table_in (arp_insert_pending empty_table 7)

pending_entered : arp_insert_pending empty_table 7 ≡ some (pending_table, 7)
unfolding pending_table
pending_entered = refl

pending-InsertedAt : InsertedAt empty_table 7 WaitsFor (some (pending_table, 7))
pending-InsertedAt =
    subst (InsertedAt empty_table 7 WaitsFor) pending_entered
      (arp_insert_pending_lem empty_table 7 empty-IsProbed (omega arith))

abbrev seen_mac : Bytes
seen_mac k = 10 + k

abbrev free_channel : Channel
free_channel = record {
  eq = record { tail = 0; nelems = 4; elsize = 64; off = 0 };
  slots = record { type = λ k. 0; entry = λ k. other_msg };
}

abbrev full_channel : Channel
full_channel = record {
  eq = record { tail = 0; nelems = 4; elsize = 64; off = 0 };
  slots = record { type = λ k. 23; entry = λ k. other_msg };
}

-- Two packets wait for the address, of two cores.
abbrev two_waiting : ArpBuf
two_waiting i = record {
  ip = if i == 0 then 7 else if i == 2 then 7 else if i == 1 then 8 else 0;
  core = if i == 2 then 1 else 0;
  gid = 1;
  pkt_len = 60;
  mb = some i;
}

abbrev host : ArpTable → Channel → Control
host table txq = record {
  ip = 5;
  eth_addr = seen_mac;
  fp_cores_max = 2;
  arp_table = table;
  arp_buf = two_waiting;
  tomgr = record {
    heap = λ i. record { idx = 0; to = 0 };
    entries = λ i. record { type = 0; to = 0; data_ptr = 0; heap_idx = 1024 };
    size = 0;
  };
  txq = txq;
  ctl_fast_qs = λ core. free_channel;
  due = λ n. 1000 + n;
  ticks = 0;
}

-- The address 7 waits with timeout 0, which is the only one.
abbrev armed_table : ArpTable
armed_table i = record (pending_table i) { te = if i == 7 then some 0 else none }

abbrev one_timeout : Tomgr
one_timeout = record {
  heap = λ i. record { idx = 0; to = 1000 };
  entries = λ i. record { type = 0; to = 1000; data_ptr = 7; heap_idx = 0 };
  size = 1;
}

abbrev armed_host : Control
armed_host = record (host armed_table free_channel) { tomgr = one_timeout }

reply_taken : arp_reply_targets_local armed_host 5 broadcast ≡ true
unfolding arp_reply_targets_local is_same_mac
reply_taken = refl

armed_there : arp_lookup armed_table 7 ≡ some 7
unfolding arp_lookup
armed_there = pending-InsertedAt.0.own

control_arp_rep-IsResolved_example :
    (c' : Control) × (control_arp_rep armed_host 7 seen_mac 5 broadcast ≡ some c')
    × IsResolved armed_table 7 seen_mac c'.arp_table
    × IsCancelled one_timeout (some 0) c'.tomgr
control_arp_rep-IsResolved_example =
    control_arp_rep-IsResolved armed_host 7 seen_mac 5 broadcast 7 pending-InsertedAt.0.probed
      (omega arith) reply_taken armed_there pending-InsertedAt.1.0
      (λ k pos lt. absurd (omega (arith, pos, lt)))

request_fails : (request (host pending_table full_channel) 7).1 ≡ false
unfolding request arp_request send_arp_pkt push send queue_tail
request_fails = refl

not_there : arp_lookup empty_table 7 ≡ none
unfolding arp_lookup hash_ip
not_there = refl

control_arp_lookup-request_example :
    (c' : Control) × (control_arp_lookup (host empty_table full_channel) 7 ≡ some c')
    × ((c'.arp_table 7).pending ≡ true)
    × ((c'.arp_table 7).te ≡ none)
    × (control_arp_lookup c' 7 ≡ some c')
control_arp_lookup-request_example =
    control_arp_lookup-request (host empty_table full_channel) 7 pending_table 7 empty-IsProbed
      (omega arith) not_there pending_entered request_fails
