-- ===== src/Tomgr/Places.antt =====
-- The places that the entries of tomgr.c remember, and where tomgr_pop and tomgr_cancel forget them.
use chamelio.Common.{refl, inl, inr, ℕ, ◌<◌, ◌≡◌, ◌≢◌, sym, arith, Bool-cases, ◌∙◌, ap, zero, suc}
use chamelio.Common.{true, false, ltb, ◌&&◌, leb, ◌+◌, ◌≤◌, update, le→ltb, ◌-◌, ne→==}
use chamelio.Tomgr.Defs.{Tomgr, swap, set_heap_idx, heapify_up, place_entry, tomgr_insert}
use chamelio.Tomgr.Defs.{tomgr_cancel, to_invalid, find_free_entry, tomgr_pop, cancel_at}
use chamelio.Tomgr.Defs.{tomgr_size, heapify_down, parent, smallest_of}
use chamelio.Tomgr.Down.{size_of-swap}
use chamelio.Tomgr.Ops.{find_free_from_cases, place_entry_size}

-- Every heap entry belongs to an entry of the array that knows its place.
abbrev pub IsLinked : Tomgr → Type 0
IsLinked m = (k : ℕ) → k < m.size → (m.entries (m.heap k).idx).heap_idx ≡ k

pub linked_inj :
    (m : Tomgr) (j k : ℕ)
    → IsLinked m
    → j < m.size
    → k < m.size
    → (m.heap j).idx ≡ (m.heap k).idx
    → j ≡ k
linked_inj m j k l p q e = sym (l j p) ∙ ap (λ x. (m.entries x).heap_idx) e ∙ l k q

swap-IsLinked :
    (m : Tomgr) (a b : ℕ) → a < m.size → b < m.size → a ≢ b → IsLinked m → IsLinked (swap m a b)
unfolding swap
swap-IsLinked m a b la lb ne l k lt =
    ground
      (arith, l k lt, linked_inj m a b l la lb, linked_inj m k a l lt la, linked_inj m k b l lt lb)

heapify_up-IsLinked :
    (fuel : ℕ) (m : Tomgr) (i : ℕ) → i < m.size → IsLinked m → IsLinked (heapify_up fuel m i)
unfolding heapify_up
heapify_up-IsLinked zero m i lt l = l
heapify_up-IsLinked (suc fuel) m i lt l =
    elim (Bool-cases (ltb 0 i && ltb (m.heap i).to (m.heap (parent i)).to)) [
      | inl lower ↦
          let pos : 0 < i = ground arith in
          let l' = swap-IsLinked m i (parent i) lt (omega arith) (λ e. omega (arith, e)) l in
          let inside : parent i < (swap m i (parent i)).size =
            omega (arith, size_of-swap m i (parent i)) in
          rw lower (heapify_up-IsLinked fuel (swap m i (parent i)) (parent i) inside l')
      | inr settled ↦ rw settled l
    ]

place_entry-IsLinked :
    (m : Tomgr) (e type to data_ptr : ℕ)
    → (m.entries e).heap_idx ≡ to_invalid
    → m.size < tomgr_size
    → IsLinked m
    → IsLinked (place_entry m e type to data_ptr)
unfolding place_entry
place_entry-IsLinked m e type to data_ptr free room l k lt =
    let apart : k < m.size → (m.heap k).idx ≢ e =
      λ b q. omega (arith, room, l k b, free, ap (λ x. (m.entries x).heap_idx) q) in
    ground (arith, l k, apart)

-- After tomgr_insert every heap entry knows its place, if so it was before.
pub tomgr_insert-IsLinked :
    (m : Tomgr) (type to data_ptr : ℕ) → IsLinked m → IsLinked (tomgr_insert m type to data_ptr).0
unfolding tomgr_insert find_free_entry
tomgr_insert-IsLinked m type to data_ptr l = elim (Bool-cases (leb tomgr_size m.size)) [
  | inl full ↦ rw full l
  | inr room ↦ elim (find_free_from_cases m.entries tomgr_size 0) [
    | inl (no_more, all) ↦ rw (room, no_more) l
    | inr (e, found, free, inside) ↦
        rw (room, found)
          (heapify_up-IsLinked (m.size + 1) (place_entry m e type to data_ptr) m.size
            (omega (arith, place_entry_size m e type to data_ptr))
            (place_entry-IsLinked m e type to data_ptr free (ground arith) l))
  ]
]

-- An entry that knows its place in the heap can be cancelled.
pub cancel-IsLinked :
    (m : Tomgr) (k : ℕ) → IsLinked m → k < m.size → (tomgr_cancel m (m.heap k).idx).1 ≡ true
unfolding tomgr_cancel
cancel-IsLinked m k l lt = ground (arith, l k lt)

heapify_down_one : (fuel : ℕ) (m : Tomgr) → m.size ≤ 1 → heapify_down fuel m 0 ≡ m
unfolding heapify_down smallest_of
heapify_down_one zero m le = refl
heapify_down_one (suc fuel) m le =
    rw (le→ltb 1 m.size (omega arith), le→ltb 2 m.size (omega arith)) refl

refused : (m : Tomgr) (e : ℕ) → m.size ≤ (m.entries e).heap_idx → (tomgr_cancel m e).1 ≡ false
unfolding tomgr_cancel
refused m e le = ground arith

-- Of two timeouts that know their places, when the first has left, the second cannot be
-- cancelled.
pub cancel-tomgr_pop :
    (m : Tomgr) → IsLinked m → m.size ≡ 2 → (tomgr_cancel (tomgr_pop m).0 (m.heap 1).idx).1 ≡ false
unfolding tomgr_pop
cancel-tomgr_pop m l two =
    let m1 = record m {
      entries = set_heap_idx m.entries (m.heap 0).idx to_invalid;
      heap = update m.heap 0 (m.heap (m.size - 1));
      size = m.size - 1;
    } in
    let stays = refused m1 (m.heap 1).idx (ground (arith, l 1, l 0)) in
    rw (ne→== m.size 0 (omega arith), heapify_down_one (m1.size + 1) m1 (omega arith)) stays

-- An entry at the last place of a heap of two or more still remembers that place after it has
-- been cancelled.
pub heap_idx_of-tomgr_cancel :
    (m : Tomgr) (e : ℕ)
    → (m.entries e).heap_idx + 1 ≡ m.size
    → (m.heap (m.entries e).heap_idx).idx ≡ e
    → 1 < m.size
    → ((tomgr_cancel m e).0.entries e).heap_idx ≡ (m.entries e).heap_idx
unfolding tomgr_cancel cancel_at
heap_idx_of-tomgr_cancel m e last own more = ground arith
