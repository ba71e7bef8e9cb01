-- ===== src/Probe/Laws.antt =====
-- Entering a key: it is found at its place, and the others where they were.
use chamelio.Common.{zero, suc, some, true, false, inl, inr, ℕ, ◌<◌, ◌≡◌, ◌||◌, Bool-cases, ◌⊎◌}
use chamelio.Common.{update, ◌==◌, arith, ==→eq, ◌≢◌, sym, Option-cases, ◌∙◌, ap, update_self}
use chamelio.Common.{update_ne, ==→ne}
use chamelio.Probe.Defs.{Keyed, find, place, lookup, IsProbed, next_place, entry_place}

module _ {K : Type 0} (t : Keyed K) where
  pub find_found :
      (keys : ℕ → K) (k : K) (n h j : ℕ)
      → h < t.size
      → find t keys k n h ≡ some j
      → (j < t.size) × (keys j ≡ k)
  unfolding find
  find_found keys k zero h j lt e = cc
  find_found keys k (suc n) h j lt e = elim (Bool-cases (t.is_same (keys h) k)) [
    | inl same ↦
        let here : h ≡ j = ground (arith, same, e) in rw (← here) (lt, t.same_eq (keys h) k same)
    | inr other ↦ elim (Bool-cases (t.is_free (keys h))) [
      | inl free ↦ cc
      | inr used ↦
          find_found keys k n (next_place t h) j (ground arith) (ground (arith, other, used, e))
    ]
  ]

  place_found :
      (keys : ℕ → K) (k : K) (n h p : ℕ)
      → h < t.size
      → place t keys k n h ≡ some p
      → (p < t.size) × ((t.is_free (keys p) ≡ true) ⊎ (keys p ≡ k))
  unfolding place
  place_found keys k zero h p lt e = cc
  place_found keys k (suc n) h p lt e = elim (Bool-cases (t.is_free (keys h))) [
    | inl free ↦ let here : h ≡ p = ground (arith, free, e) in rw (← here) (lt, inl free)
    | inr used ↦ elim (Bool-cases (t.is_same (keys h) k)) [
      | inl same ↦
          let here : h ≡ p = ground (arith, used, same, e) in
          rw (← here) (lt, inr (t.same_eq (keys h) k same))
      | inr other ↦
          place_found keys k n (next_place t h) p (ground arith) (ground (arith, other, used, e))
    ]
  ]

  -- The key's own place is where it is entered again.
  pub place-find :
      (keys : ℕ → K) (k : K) (n h j : ℕ)
      → t.is_free k ≡ false
      → find t keys k n h ≡ some j
      → place t keys k n h ≡ some j
  unfolding find place
  place-find keys k zero h j used e = cc
  place-find keys k (suc n) h j used e = elim (Bool-cases (t.is_same (keys h) k)) [
    | inl same ↦ ground (arith, same, e)
    | inr other ↦ elim (Bool-cases (t.is_free (keys h))) [
      | inl free ↦ cc
      | inr taken ↦
          let later =
            place-find keys k n (next_place t h) j used (ground (arith, other, taken, e)) in
          ground (arith, other, taken, later)
    ]
  ]

  -- The key is found where it has been entered.
  find-place :
      (keys : ℕ → K) (k : K) (n h p : ℕ)
      → t.is_free k ≡ false
      → place t keys k n h ≡ some p
      → find t (update keys p k) k n h ≡ some p
  unfolding find place
  find-place keys k zero h p used e = cc
  find-place keys k (suc n) h p used e =
      elim (Bool-cases (t.is_free (keys h) || t.is_same (keys h) k)) [
        | inl stop ↦
            let here : h ≡ p = ground (arith, stop, e) in ground (arith, here, t.same_refl k)
        | inr pass ↦
            let later = find-place keys k n (next_place t h) p used (ground (arith, pass, e)) in
            elim (Bool-cases (h == p)) [
              | inl here ↦ ground (arith, here, t.same_refl k)
              | inr apart ↦ ground (arith, apart, pass, later)
            ]
      ]

  -- Another key stays where it is found when a free place is taken.
  find-taken :
      (keys : ℕ → K) (k k' : K) (p n h j : ℕ)
      → t.is_free k' ≡ false
      → (t.is_free (keys p) ≡ true) ⊎ (keys p ≡ k)
      → t.is_same k k' ≡ false
      → t.is_free k ≡ false
      → find t keys k' n h ≡ some j
      → find t (update keys p k) k' n h ≡ some j
  unfolding find
  find-taken keys k k' p zero h j used' was ne used e = cc
  find-taken keys k k' p (suc n) h j used' was ne used e = elim (Bool-cases (h == p)) [
    | inl here ↦
        let at : h ≡ p = ==→eq h p here in
        let not_same : t.is_same (keys h) k' ≡ false = elim (Bool-cases (t.is_same (keys h) k')) [
          | inr other ↦ other
          | inl same ↦
              let own = t.same_eq (keys h) k' same in
              elim was [
                | inl free ↦ ground (arith, at, own, free, used')
                | inr mine ↦ ground (arith, at, own, mine, ne, t.same_refl k)
              ]
        ] in
        elim (Bool-cases (t.is_free (keys h))) [
          | inl free ↦ ground (arith, not_same, free, e)
          | inr taken ↦
              let later =
                find-taken keys k k' p n (next_place t h) j used' was ne used
                  (ground (arith, not_same, taken, e)) in
              ground (arith, here, ne, used, later)
        ]
    | inr apart ↦ elim (Bool-cases (t.is_same (keys h) k')) [
      | inl same ↦ ground (arith, apart, same, e)
      | inr other ↦ elim (Bool-cases (t.is_free (keys h))) [
        | inl free ↦ ground (arith, other, free, e)
        | inr taken ↦
            let later =
              find-taken keys k k' p n (next_place t h) j used' was ne used
                (ground (arith, other, taken, e)) in
            ground (arith, apart, other, taken, later)
      ]
    ]
  ]

  -- What entering a key at its place does to the lookups.
  pub record Entered (keys : ℕ → K) (k : K) (p : ℕ) : Type 0 where
    pub inside : p < t.size
    pub own : lookup t (update keys p k) k ≡ some p
    pub others :
        (k' : K) → t.is_free k' ≡ false → k' ≢ k → lookup t (update keys p k) k' ≡ lookup t keys k'
    pub probed : IsProbed t (update keys p k)

  lookup_kept :
      (keys : ℕ → K) (k k' : K) (p : ℕ)
      → IsProbed t keys
      → t.is_free k ≡ false
      → t.is_free k' ≡ false
      → k' ≢ k
      → (t.is_free (keys p) ≡ true) ⊎ (keys p ≡ k)
      → lookup t (update keys p k) k' ≡ lookup t keys k'
  lookup_kept keys k k' p v used used' ne was =
      let differs : t.is_same k k' ≡ false = elim (Bool-cases (t.is_same k k')) [
        | inr other ↦ other
        | inl same ↦ absurd (ne (sym (t.same_eq k k' same)))
      ] in
      elim (Option-cases (lookup t keys k')) [
        | inr (j, e) ↦ find-taken keys k k' p t.size (t.hash k') j used' was differs used e ∙ sym e
        | inl missing ↦ elim (Option-cases (lookup t (update keys p k) k')) [
          | inl e ↦ e ∙ sym missing
          | inr (j, e) ↦
              let (lt, own) =
                find_found (update keys p k) k' t.size (t.hash k') j (t.hash_lt k') e in
              let apart : j ≢ p =
                λ at. ne (sym own ∙ ap (update keys p k) at ∙ update_self keys p k) in
              let key : keys j ≡ k' = sym (update_ne keys p k j apart) ∙ own in
              let there = v j lt (ap t.is_free key ∙ used') in ground (arith, there, key, missing)
        ]
      ]

  place-IsProbed :
      (keys : ℕ → K) (k : K) (p : ℕ)
      → IsProbed t keys
      → t.is_free k ≡ false
      → entry_place t keys k ≡ some p
      → IsProbed t (update keys p k)
  place-IsProbed keys k p v used e i lt taken =
      let (_, was) = place_found keys k t.size (t.hash k) p (t.hash_lt k) e in
      elim (Bool-cases (i == p)) [
        | inl here ↦
            let at = ==→eq i p here in
            rw (at, update_self keys p k) (find-place keys k t.size (t.hash k) p used e)
        | inr apart ↦
            let kept = update_ne keys p k i (==→ne i p apart) in
            let taken' : t.is_free (keys i) ≡ false = sym (ap t.is_free kept) ∙ taken in
            let ne : keys i ≢ k = λ same.
              let found : lookup t keys k ≡ some i =
                ap (lookup t keys) (sym same) ∙ v i lt taken' in
              let again = place-find keys k t.size (t.hash k) i used found in
              ground (arith, again, e, apart) in
            rw kept (lookup_kept keys k (keys i) p v used taken' ne was ∙ v i lt taken')
      ]

  pub place-Entered :
      (keys : ℕ → K) (k : K) (p : ℕ)
      → IsProbed t keys
      → t.is_free k ≡ false
      → entry_place t keys k ≡ some p
      → Entered keys k p
  place-Entered keys k p v used e =
      let (lt, was) = place_found keys k t.size (t.hash k) p (t.hash_lt k) e in
      record {
        inside = lt;
        own = find-place keys k t.size (t.hash k) p used e;
        others = λ k' used' ne. lookup_kept keys k k' p v used used' ne was;
        probed = place-IsProbed keys k p v used e;
      }
