-- ===== src/Netvirt/History.antt =====
-- A table that has been filled entry by entry answers with the last entry for the keys.
use chamelio.Common.{[], none, some, ◌∷◌, List, ℕ, Option, ◌≢◌, update, if◌then◌else◌, ◌≡◌, arith}
use chamelio.Common.{inl, inr, Bool-cases, ap, update_self, ne→==, refl, ◌⊎◌, sym, Option-cases}
use chamelio.Common.{◌∙◌, update_ne, ◌<◌, lt→ltb}
use chamelio.Netvirt.Table.{netvirt_table_set, NetvirtTable, netvirt_table_get, NetvirtEntry}
use chamelio.Netvirt.Table.{Keys, netvirt_invalid, keys_of, netvirt_keyed, same_keys_refl}
use chamelio.Netvirt.Table.{same_keys, netvirt_table_init, same_keys_eq, netvirt_len, hash_ints}
use chamelio.Netvirt.Table.{hash_ints_lt}
use chamelio.Probe.{IsProbed, Entered, lookup, entry_place, place-Entered, find_found}
use mathlib.Core.Path.{fun_ext, subst}

-- Entries are set one after the other, as netvirt_parser.c does; it gives up at the first failure.
unfoldable pub set_all : NetvirtTable → List NetvirtEntry → Option NetvirtTable
unfolding netvirt_table_set
set_all vals [] = some vals
set_all vals (e ∷ es) = elim (netvirt_table_set vals e) [
  | none ↦ none
  | some next ↦ set_all next es
]

-- The last entry for the keys, or the one before the first.
unfoldable pub last_for : List NetvirtEntry → Keys → Option NetvirtEntry → Option NetvirtEntry
last_for [] k before = before
last_for (e ∷ es) k before =
    last_for es k (if netvirt_keyed.is_same (keys_of e) k then some e else before)

abbrev pub AllValid : List NetvirtEntry → Type 0
AllValid [] = Unit {0}
AllValid (e ∷ es) = (e.keya ≢ netvirt_invalid) × AllValid es

abbrev all_keys : NetvirtTable → ℕ → Keys
all_keys vals i = keys_of (vals i)

keys-update :
    (vals : NetvirtTable) (p : ℕ) (e : NetvirtEntry)
    → all_keys (update vals p e) ≡ update (all_keys vals) p (keys_of e)
keys-update vals p e = fun_ext (λ i. ground arith)

-- One entry is set.
pub record IsEntrySet (vals : NetvirtTable) (e : NetvirtEntry) (next : NetvirtTable) : Type 0 where
  pub probed : IsProbed netvirt_keyed (all_keys next)
  pub get :
      (k : Keys)
      → k.a ≢ netvirt_invalid
      → netvirt_table_get next k
        ≡ (if netvirt_keyed.is_same (keys_of e) k then some e else netvirt_table_get vals k)

set_get :
    (vals : NetvirtTable) (e : NetvirtEntry) (p : ℕ)
    → Entered netvirt_keyed (all_keys vals) (keys_of e) p
    → (k : Keys) → k.a ≢ netvirt_invalid
    → netvirt_table_get (update vals p e) k
      ≡ (if netvirt_keyed.is_same (keys_of e) k then some e else netvirt_table_get vals k)
unfolding netvirt_table_get
set_get vals e p v k valid =
    let set_keys = update (all_keys vals) p (keys_of e) in
    let moved = ap (λ (keys : ℕ → Keys). lookup netvirt_keyed keys k) (keys-update vals p e) in
    elim (Bool-cases (netvirt_keyed.is_same (keys_of e) k)) [
      | inl same ↦
          let here =
            subst (λ x. lookup netvirt_keyed set_keys x ≡ some p) (same_keys_eq (keys_of e) k same)
              v.own in
          rw (same, moved ∙ here, netvirt_table_get) (ap some (update_self vals p e))
      | inr other ↦
          let ne : k ≢ keys_of e =
            λ q. ground (arith, other, same_keys_refl k, ap (λ x. same_keys x k) q) in
          let kept = moved ∙ v.others k (ne→== k.a netvirt_invalid valid) ne in
          elim (Option-cases (lookup netvirt_keyed (all_keys vals) k)) [
            | inl missing ↦ rw (other, kept ∙ missing, missing, netvirt_table_get) refl
            | inr (j, found) ↦
                let (_, at_j) =
                  find_found netvirt_keyed set_keys k netvirt_len (hash_ints k) j (hash_ints_lt k)
                    (v.others k (ne→== k.a netvirt_invalid valid) ne ∙ found) in
                let apart : j ≢ p =
                  λ q. ne (sym at_j ∙ ap set_keys q ∙ update_self (all_keys vals) p (keys_of e)) in
                rw (other, kept ∙ found, found, netvirt_table_get)
                  (ap some (update_ne vals p e j apart))
          ]
    ]

netvirt_table_set-IsEntrySet :
    (vals : NetvirtTable) (e : NetvirtEntry)
    → IsProbed netvirt_keyed (all_keys vals)
    → e.keya ≢ netvirt_invalid
    → (netvirt_table_set vals e ≡ none)
      ⊎ ((next : NetvirtTable) × (netvirt_table_set vals e ≡ some next) × IsEntrySet vals e next)
unfolding netvirt_table_set
netvirt_table_set-IsEntrySet vals e probed valid =
    elim (Option-cases (entry_place netvirt_keyed (all_keys vals) (keys_of e))) [
      | inl full ↦ inl (rw (full, netvirt_table_set))
      | inr (p, found) ↦
          let v =
            place-Entered netvirt_keyed (all_keys vals) (keys_of e) p probed
              (ne→== e.keya netvirt_invalid valid) found in
          inr (
            update vals p e,
            rw (found, netvirt_table_set),
            record {
              probed = subst (IsProbed netvirt_keyed) (sym (keys-update vals p e)) v.probed;
              get = set_get vals e p v;
            },
          )
    ]

set_all-last_for :
    (vals : NetvirtTable) (es : List NetvirtEntry) (last : NetvirtTable) (k : Keys)
    → IsProbed netvirt_keyed (all_keys vals)
    → AllValid es
    → k.a ≢ netvirt_invalid
    → set_all vals es ≡ some last
    → netvirt_table_get last k ≡ last_for es k (netvirt_table_get vals k)
unfolding set_all last_for
set_all-last_for vals [] last k probed all valid e =
    ap (λ t. netvirt_table_get t k) (ground (arith, e))
set_all-last_for vals (x ∷ es) last k probed (ok_x, all) valid e =
    elim (netvirt_table_set-IsEntrySet vals x probed ok_x) [
      | inl full ↦ absurd (ground (arith, full, e))
      | inr (next, done, s) ↦
          let rest : set_all next es ≡ some last = sym (rw (done, set_all) refl) ∙ e in
          set_all-last_for next es last k s.probed all valid rest
          ∙ ap (last_for es k) (s.get k valid)
    ]

init-IsProbed : (vals : NetvirtTable) → IsProbed netvirt_keyed (all_keys (netvirt_table_init vals))
unfolding netvirt_table_init
init-IsProbed vals i lt used = absurd (ground (arith, used))

init_free :
    (vals : NetvirtTable) (j : ℕ)
    → j < netvirt_len
    → (all_keys (netvirt_table_init vals) j).a ≡ netvirt_invalid
unfolding netvirt_table_init
init_free vals j lt = rw (lt→ltb j netvirt_len lt) refl

find_init :
    (vals : NetvirtTable) (k : Keys)
    → k.a ≢ netvirt_invalid
    → netvirt_table_get (netvirt_table_init vals) k ≡ none
unfolding netvirt_table_get netvirt_table_init
find_init vals k valid =
    elim (Option-cases (lookup netvirt_keyed (all_keys (netvirt_table_init vals)) k)) [
      | inl missing ↦ rw (missing, netvirt_table_get)
      | inr (j, found) ↦
          let (lt, own) =
            find_found netvirt_keyed (all_keys (netvirt_table_init vals)) k netvirt_len
              (hash_ints k) j (hash_ints_lt k) found in
          absurd (valid (sym (ap (λ (x : Keys). x.a) own) ∙ init_free vals j lt))
    ]

-- A table that is initialised and then filled with entries whose first keys are valid, without a
-- failure, answers for keys with a valid first one with the last entry that has them, and has no
-- entry where there was none.
pub netvirt_table_get-set_all :
    (vals : NetvirtTable) (es : List NetvirtEntry) (last : NetvirtTable) (k : Keys)
    → AllValid es
    → k.a ≢ netvirt_invalid
    → set_all (netvirt_table_init vals) es ≡ some last
    → netvirt_table_get last k ≡ last_for es k none
netvirt_table_get-set_all vals es last k all valid e =
    set_all-last_for (netvirt_table_init vals) es last k (init-IsProbed vals) all valid e
    ∙ ap (last_for es k) (find_init vals k valid)
