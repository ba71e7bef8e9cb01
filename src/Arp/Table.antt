-- ===== src/Arp/Table.antt =====
-- The table of arp.c: addresses that are resolved or being resolved.
use chamelio.Common.{refl, none, some, true, false, inl, inr, ℕ, if◌then◌else◌, Bool, ltb, ◌%◌}
use chamelio.Common.{◌<◌, ◌==◌, Option, Bytes, update, ◌≢◌, arith, ◌≡◌, ==→eq, copy, ap}
use chamelio.Common.{Option-cases, sym, ne→==, ◌∙◌, update_self, update_ne}
use chamelio.Probe.{Keyed, find, place, IsProbed, Entered, lookup, entry_place, place-Entered}
use chamelio.Probe.{find_found, place-find}
use mathlib.Core.Path.{fun_ext, subst}

-- ARP_TABLE_SIZE and ARP_IP_EMPTY
abbrev pub arp_table_size : ℕ
arp_table_size = 64

abbrev pub arp_ip_empty : ℕ
arp_ip_empty = 0

-- `struct arp_table_entry`; `te` is the place of the timeout in its heap.
pub record ArpEntry : Type 0 where
  pub ip : ℕ
  pub pending : Bool
  pub mac : Bytes
  pub te : Option ℕ

abbrev pub ArpTable : Type 0
ArpTable = ℕ → ArpEntry

unfoldable pub arp_table_init : ArpTable → ArpTable
arp_table_init buckets i =
    if ltb i arp_table_size
    then record (buckets i) { ip = arp_ip_empty; pending = false }
    else buckets i

unfoldable pub hash_ip : ℕ → ℕ
hash_ip ip = ip % arp_table_size

pub hash_ip_lt : (ip : ℕ) → hash_ip ip < arp_table_size
unfolding hash_ip
hash_ip_lt ip = omega arith

pub same_ip_refl : (ip : ℕ) → ip == ip ≡ true
same_ip_refl ip = ground arith

-- What the loops ask of the addresses.
abbrev pub arp_keyed : Keyed ℕ
arp_keyed = record {
  size = arp_table_size;
  is_same = ◌==◌;
  is_free = λ ip. ip == arp_ip_empty;
  hash = hash_ip;
  hash_lt = hash_ip_lt;
  same_eq = ==→eq;
  same_refl = same_ip_refl;
}

abbrev pub ips : ArpTable → ℕ → ℕ
ips buckets i = (buckets i).ip

-- The place of the entry.
unfoldable pub arp_lookup : ArpTable → (ip : ℕ) → Option ℕ
unfolding find
arp_lookup buckets ip = find arp_keyed (ips buckets) ip arp_table_size (hash_ip ip)

unfoldable pub arp_insert : ArpTable → (ip : ℕ) (mac : Bytes) → Option (ArpTable × ℕ)
unfolding place
arp_insert buckets ip mac = elim (place arp_keyed (ips buckets) ip arp_table_size (hash_ip ip)) [
  | none ↦ none
  | some i ↦ some (
    update buckets i
        (record (buckets i) { ip = ip; pending = false; mac = copy (buckets i).mac 0 mac 0 6 }),
    i,
  )
]

unfoldable pub arp_insert_pending : ArpTable → (ip : ℕ) → Option (ArpTable × ℕ)
unfolding place
arp_insert_pending buckets ip =
    elim (place arp_keyed (ips buckets) ip arp_table_size (hash_ip ip)) [
      | none ↦ none
      | some i ↦ some (update buckets i (record (buckets i) { ip = ip; pending = true }), i)
    ]

-- The address is entered at place `p`, and every other one is found as before, with its entry.
pub record IsEntered (buckets : ArpTable) (ip p : ℕ) (next : ArpTable) : Type 0 where
  pub probed : IsProbed arp_keyed (ips next)
  pub own : arp_lookup next ip ≡ some p
  pub others :
      (ip' : ℕ)
      → ip' ≢ arp_ip_empty
      → ip' ≢ ip
      → (arp_lookup next ip' ≡ arp_lookup buckets ip')
        × ((j : ℕ) → arp_lookup buckets ip' ≡ some j → next j ≡ buckets j)

ips-update :
    (buckets : ArpTable) (p : ℕ) (e : ArpEntry)
    → ips (update buckets p e) ≡ update (ips buckets) p e.ip
ips-update buckets p e = fun_ext (λ i. ground arith)

entered :
    (buckets : ArpTable) (p : ℕ) (e : ArpEntry)
    → e.ip ≢ arp_ip_empty
    → Entered arp_keyed (ips buckets) e.ip p
    → IsEntered buckets e.ip p (update buckets p e)
unfolding arp_lookup
entered buckets p e valid v =
    let set_ips = update (ips buckets) p e.ip in
    let moved =
      λ (ip : ℕ). ap (λ (keys : ℕ → ℕ). lookup arp_keyed keys ip) (ips-update buckets p e) in
    record {
      probed = subst (IsProbed arp_keyed) (sym (ips-update buckets p e)) v.probed;
      own = moved e.ip ∙ v.own;
      others = λ ip' valid' ne.
          let kept = v.others ip' (ne→== ip' arp_ip_empty valid') ne in
          (
            moved ip' ∙ kept,
            λ j found.
                let (_, at_j) =
                  find_found arp_keyed set_ips ip' arp_table_size (hash_ip ip') j (hash_ip_lt ip')
                    (kept ∙ found) in
                update_ne buckets p e j
                  (λ q. ne (sym at_j ∙ ap set_ips q ∙ update_self (ips buckets) p e.ip)),
          );
    }

abbrev pub InsertedAt :
    ArpTable → (ip : ℕ) → (ArpEntry → ArpEntry → Type 0) → Option (ArpTable × ℕ) → Type 0
InsertedAt buckets ip is_new none =
    place arp_keyed (ips buckets) ip arp_table_size (hash_ip ip) ≡ none
InsertedAt buckets ip is_new (some (next, p)) =
    IsEntered buckets ip p next × is_new (buckets p) (next p)

-- The entry for a resolved address in the place of an old one.
abbrev pub ResolvedTo : (ip : ℕ) (mac : Bytes) (old new : ArpEntry) → Type 0
ResolvedTo ip mac old new =
    (new.ip ≡ ip)
    × (new.pending ≡ false)
    × (new.te ≡ old.te)
    × ((k : ℕ) → k < 6 → new.mac k ≡ mac k)

-- In a table in which every address is found where it is, an address that is not empty is entered as
-- resolved, with the first six bytes of the MAC address and the timeout of its place; or no place is
-- free. Every other address is found as before with its entry, and again every address is found.
pub arp_insert_lem :
    (buckets : ArpTable) (ip : ℕ) (mac : Bytes)
    → IsProbed arp_keyed (ips buckets)
    → ip ≢ arp_ip_empty
    → InsertedAt buckets ip (ResolvedTo ip mac) (arp_insert buckets ip mac)
unfolding arp_insert
arp_insert_lem buckets ip mac probed valid =
    elim (Option-cases (entry_place arp_keyed (ips buckets) ip)) [
      | inl full ↦ rw (full, arp_insert) full
      | inr (p, found) ↦
          let e = record (buckets p) {
            ip = ip;
            pending = false;
            mac = copy (buckets p).mac 0 mac 0 6;
          } in
          rw (found, arp_insert)
            (
              entered buckets p e valid (
                  place-Entered arp_keyed (ips buckets) ip p probed (ne→== ip arp_ip_empty valid)
                    found),
              rw (update_self buckets p e) (refl, refl, refl, λ k lt. ground arith),
            )
    ]

pub lookup_at :
    (buckets : ArpTable) (ip j : ℕ) → arp_lookup buckets ip ≡ some j → ips buckets j ≡ ip
unfolding arp_lookup
lookup_at buckets ip j e =
    (find_found arp_keyed (ips buckets) ip arp_table_size (hash_ip ip) j (hash_ip_lt ip) e).1

-- An address that is in the table has a place.
pub never_full :
    (buckets : ArpTable) (ip i : ℕ)
    → ip ≢ arp_ip_empty
    → arp_lookup buckets ip ≡ some i
    → place arp_keyed (ips buckets) ip arp_table_size (hash_ip ip) ≢ none
unfolding arp_lookup
never_full buckets ip i valid found full =
    let again =
      place-find arp_keyed (ips buckets) ip arp_table_size (hash_ip ip) i
        (ne→== ip arp_ip_empty valid) found in
    ground (arith, again, full)

-- A pending entry keeps the timeout of its place.
abbrev pub WaitsFor : (old new : ArpEntry) → Type 0
WaitsFor old new = (new.pending ≡ true) × (new.te ≡ old.te)

pub arp_insert_pending_lem :
    (buckets : ArpTable) (ip : ℕ)
    → IsProbed arp_keyed (ips buckets)
    → ip ≢ arp_ip_empty
    → InsertedAt buckets ip WaitsFor (arp_insert_pending buckets ip)
unfolding arp_insert_pending
arp_insert_pending_lem buckets ip probed valid =
    elim (Option-cases (entry_place arp_keyed (ips buckets) ip)) [
      | inl full ↦ rw (full, arp_insert_pending) full
      | inr (p, found) ↦
          let e = record (buckets p) { ip = ip; pending = true } in
          rw (found, arp_insert_pending)
            (
              entered buckets p e valid (
                  place-Entered arp_keyed (ips buckets) ip p probed (ne→== ip arp_ip_empty valid)
                    found),
              rw (update_self buckets p e) (refl, refl),
            )
    ]
