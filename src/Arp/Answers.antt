-- ===== src/Arp/Answers.antt =====
-- What an ARP reply and a failed request make of an address.
use chamelio.Arp.Resolve.{disarm, Control, update_arp_fast, control_arp_rep, flush, update_cores}
use chamelio.Arp.Resolve.{arp_reply_targets_local, request, control_arp_lookup}
use chamelio.Arp.Table.{ArpTable, arp_lookup, ips, IsEntered, arp_keyed, arp_ip_empty}
use chamelio.Arp.Table.{arp_insert_lem, arp_insert, lookup_at, never_full, InsertedAt, ResolvedTo}
use chamelio.Arp.Table.{arp_insert_pending, WaitsFor, arp_insert_pending_lem, arp_table_size}
use chamelio.Arp.Table.{hash_ip}
use chamelio.Common.{refl, none, some, true, false, inl, inr, ℕ, Bytes, update, ◌≡◌, ◌<◌, ap, ◌⊎◌}
use chamelio.Common.{if◌then◌else◌, Bool-cases, arith, Option-cases, sym, ◌≢◌, ◌∙◌, update_ne}
use chamelio.Common.{Option, ne→==, copy, Bool, ◌≤◌}
use chamelio.Probe.{IsProbed, lookup, place-find}
use chamelio.Tomgr.{Tomgr, tomgr_cancel, IsHeap, Cancelled, tomgr_cancel_lem}
use mathlib.Core.Path.{fun_ext, subst}

-- The address is resolved to the MAC address, no timeout is kept, and other addresses are as before.
pub record IsResolved (before : ArpTable) (ip : ℕ) (mac : Bytes) (after : ArpTable) : Type 0 where
  pub place : ℕ
  pub entered : IsEntered before ip place after
  pub pending : (after place).pending ≡ false
  pub no_timeout : (after place).te ≡ none
  pub mac_seen : (k : ℕ) → k < 6 → (after place).mac k ≡ mac k

forget_te : ArpTable → ℕ → ArpTable
forget_te buckets p = update buckets p (record (buckets p) { te = none })

forget_te_ne : (buckets : ArpTable) (p j : ℕ) → j ≢ p → forget_te buckets p j ≡ buckets j
unfolding forget_te
forget_te_ne buckets p j ne = update_ne buckets p (record (buckets p) { te = none }) j ne

ips-forget_te : (buckets : ArpTable) (p : ℕ) → ips (forget_te buckets p) ≡ ips buckets
unfolding forget_te
ips-forget_te buckets p = fun_ext (λ i. ground arith)

lookup-forget_te :
    (buckets : ArpTable) (p ip : ℕ) → arp_lookup (forget_te buckets p) ip ≡ arp_lookup buckets ip
unfolding arp_lookup
lookup-forget_te buckets p ip =
    ap (λ (keys : ℕ → ℕ). lookup arp_keyed keys ip) (ips-forget_te buckets p)

forget_te-IsEntered :
    (before : ArpTable) (ip p : ℕ) (after : ArpTable)
    → IsEntered before ip p after
    → IsEntered before ip p (forget_te after p)
forget_te-IsEntered before ip p after v = record {
  probed = subst (IsProbed arp_keyed) (sym (ips-forget_te after p)) v.probed;
  own = lookup-forget_te after p ip ∙ v.own;
  others = λ ip' valid ne.
      let (same, entries) = v.others ip' valid ne in
      (
        lookup-forget_te after p ip' ∙ same,
        λ j found.
            let there = lookup_at after ip' j (same ∙ found) in
            let here = lookup_at after ip p v.own in
            let apart : j ≢ p = λ q. ne (sym there ∙ ap (ips after) q ∙ here) in
            forget_te_ne after p j apart ∙ entries j found,
      );
}

disarmed :
    (c : Control) (i : ℕ)
    → ((disarm c i).arp_table ≡ forget_te c.arp_table i)
      ⊎ ((c.arp_table i).te ≡ none) × ((disarm c i).arp_table ≡ c.arp_table)
unfolding disarm forget_te
disarmed c i = elim (Option-cases (c.arp_table i).te) [
  | inl no_te ↦ inr (no_te, rw (no_te, disarm) refl)
  | inr (e, te) ↦ inl (rw (te, disarm) refl)
]

disarm-IsResolved :
    (c : Control) (before : ArpTable) (ip p : ℕ) (mac : Bytes)
    → IsEntered before ip p c.arp_table
    → (c.arp_table p).pending ≡ false
    → ((k : ℕ) → k < 6 → (c.arp_table p).mac k ≡ mac k)
    → IsResolved before ip mac (disarm c p).arp_table
unfolding forget_te
disarm-IsResolved c before ip p mac v done seen = elim (disarmed c p) [
  | inl forgotten ↦ rw forgotten (record {
    place = p;
    entered = forget_te-IsEntered before ip p c.arp_table v;
    pending = ground (arith, done);
    no_timeout = ground arith;
    mac_seen = λ k lt. ground (arith, seen k lt);
  })
  | inr (no_te, same) ↦
      rw same
        (record { place = p; entered = v; pending = done; no_timeout = no_te; mac_seen = seen })
]

-- What becomes of the timeout that an entry had: it leaves the heap, which holds the others, or
-- the timeouts stay, where it does not stand at the place that it remembers.
abbrev pub IsCancelled : Tomgr → Option ℕ → Tomgr → Type 0
IsCancelled m none m' = m' ≡ m
IsCancelled m (some e) m' =
    Cancelled m (m.entries e).heap_idx m'
    ⊎ ((m' ≡ m) × ((m.size ≤ (m.entries e).heap_idx) ⊎ ((m.heap (m.entries e).heap_idx).idx ≢ e)))

leaves_heap :
    (m : Tomgr) (e : ℕ) → IsHeap m.heap m.size → IsCancelled m (some e) (tomgr_cancel m e).0
leaves_heap m e h = elim (tomgr_cancel_lem m e h) [
  | inl (refused, why) ↦ inr (ap (λ (r : Tomgr × Bool). r.0) refused, why)
  | inr (m', done, at, gone) ↦
      inl (
        subst (Cancelled m (m.entries e).heap_idx) (ap (λ (r : Tomgr × Bool). r.0) (sym done)) gone)
]

disarm-IsCancelled :
    (c : Control) (i : ℕ)
    → IsHeap c.tomgr.heap c.tomgr.size
    → IsCancelled c.tomgr (c.arp_table i).te (disarm c i).tomgr
unfolding disarm
disarm-IsCancelled c i h = elim (Option-cases (c.arp_table i).te) [
  | inl no_te ↦ rw (no_te, disarm) refl
  | inr (e, te) ↦ rw (te, disarm) (leaves_heap c.tomgr e h)
]

-- The end of control_arp_rep, as the table and the timeouts see it.
answered : Control → (spa : ℕ) (sha : Bytes) → Control
answered c spa sha = let (c1, done) = update_arp_fast c spa sha in if done then flush c1 spa else c1

table_of-answered :
    (c : Control) (spa : ℕ) (sha : Bytes) → (answered c spa sha).arp_table ≡ c.arp_table
unfolding answered update_arp_fast flush
table_of-answered c spa sha =
    elim (Bool-cases (update_cores spa sha c.fp_cores_max 0 c.ctl_fast_qs).1) [
      | inl done ↦ rw done refl
      | inr failed ↦ rw failed refl
    ]

timeouts_of-answered : (c : Control) (spa : ℕ) (sha : Bytes) → (answered c spa sha).tomgr ≡ c.tomgr
unfolding answered update_arp_fast flush
timeouts_of-answered c spa sha =
    elim (Bool-cases (update_cores spa sha c.fp_cores_max 0 c.ctl_fast_qs).1) [
      | inl done ↦ rw done refl
      | inr failed ↦ rw failed refl
    ]

abbrev place_of_entry : Option (ArpTable × ℕ) → Option ℕ
place_of_entry none = none
place_of_entry (some r) = some r.1

-- An address that is in the table is entered where it is.
place_is :
    (table : ArpTable) (spa : ℕ) (sha : Bytes) (i : ℕ) (buckets : ArpTable) (p : ℕ)
    → spa ≢ arp_ip_empty
    → arp_lookup table spa ≡ some i
    → arp_insert table spa sha ≡ some (buckets, p)
    → p ≡ i
unfolding arp_insert arp_lookup
place_is table spa sha i buckets p valid found done =
    let again =
      place-find arp_keyed (ips table) spa arp_table_size (hash_ip spa) i
        (ne→== spa arp_ip_empty valid) found in
    let here : arp_insert table spa sha
        ≡ some (
          update table i
              (record (table i) { ip = spa; pending = false; mac = copy (table i).mac 0 sha 0 6 }),
          i,
        ) =
      rw (again, arp_insert) refl in
    ground (arith, ap place_of_entry (sym done ∙ here))

-- In a table in which every address is found where it is, and with the heap of timeouts in order, a
-- reply that is for this host and answers a pending request resolves the sender's address to its
-- MAC address, and all other addresses stay as they were, whatever happens to the queues. The entry
-- keeps no timeout, and the one that it had leaves the heap, which holds the others, in order; the
-- timeouts stay only if it had none or its timeout does not stand at the place that it remembers.
pub control_arp_rep-IsResolved :
    (c : Control) (spa : ℕ) (sha : Bytes) (tpa : ℕ) (tha : Bytes) (i : ℕ)
    → IsProbed arp_keyed (ips c.arp_table)
    → spa ≢ arp_ip_empty
    → arp_reply_targets_local c tpa tha ≡ true
    → arp_lookup c.arp_table spa ≡ some i
    → (c.arp_table i).pending ≡ true
    → IsHeap c.tomgr.heap c.tomgr.size
    → (c' : Control) × (control_arp_rep c spa sha tpa tha ≡ some c')
      × IsResolved c.arp_table spa sha c'.arp_table
      × IsCancelled c.tomgr (c.arp_table i).te c'.tomgr
unfolding control_arp_rep answered
control_arp_rep-IsResolved c spa sha tpa tha i probed valid ours found waits heap =
    let v = arp_insert_lem c.arp_table spa sha probed valid in
    elim (Option-cases (arp_insert c.arp_table spa sha)) [
      | inl full ↦ absurd (
          never_full c.arp_table spa i valid found
            (subst (InsertedAt c.arp_table spa (ResolvedTo spa sha)) full v))
      | inr ((buckets, p), done) ↦
          let (e, (own, pending, te, mac)) =
            subst (InsertedAt c.arp_table spa (ResolvedTo spa sha)) done v in
          let c1 = disarm (record c { arp_table = buckets }) p in
          (
            answered c1 spa sha,
            rw (ours, found, waits, done, control_arp_rep, answered) refl,
            rw (table_of-answered c1 spa sha) (
                disarm-IsResolved (record c { arp_table = buckets }) c.arp_table spa p sha e pending
                  mac),
            rw (timeouts_of-answered c1 spa sha) (
                subst (λ (o : Option ℕ). IsCancelled c.tomgr o c1.tomgr)
                  (te
                    ∙ ap (λ j. (c.arp_table j).te)
                        (place_is c.arp_table spa sha i buckets p valid found done))
                  (disarm-IsCancelled (record c { arp_table = buckets }) p heap)),
          )
    ]

table_of-request : (c : Control) (ip : ℕ) → (request c ip).0.arp_table ≡ c.arp_table
unfolding request
table_of-request c ip = refl

-- When a new address is entered but its request cannot be sent, the address stays pending with the
-- timeout that its place had before, and asking for it again has no effect.
pub control_arp_lookup-request :
    (c : Control) (ip : ℕ) (buckets : ArpTable) (i : ℕ)
    → IsProbed arp_keyed (ips c.arp_table)
    → ip ≢ arp_ip_empty
    → arp_lookup c.arp_table ip ≡ none
    → arp_insert_pending c.arp_table ip ≡ some (buckets, i)
    → (request (record c { arp_table = buckets }) ip).1 ≡ false
    → (c' : Control) × (control_arp_lookup c ip ≡ some c')
      × ((c'.arp_table i).pending ≡ true)
      × ((c'.arp_table i).te ≡ (c.arp_table i).te)
      × (control_arp_lookup c' ip ≡ some c')
unfolding control_arp_lookup
control_arp_lookup-request c ip buckets i probed valid new entry failed =
    let c1 = (request (record c { arp_table = buckets }) ip).0 in
    let v =
      subst (InsertedAt c.arp_table ip WaitsFor) entry
        (arp_insert_pending_lem c.arp_table ip probed valid) in
    let again : arp_lookup c1.arp_table ip ≡ some i =
      ap (λ t. arp_lookup t ip) (table_of-request (record c { arp_table = buckets }) ip)
      ∙ v.0.own in
    (
      c1,
      rw (new, entry, failed, control_arp_lookup) refl,
      v.1.0,
      v.1.1,
      rw (again, control_arp_lookup) refl,
    )
