-- ===== src/Tomgr/Ops.antt =====
-- What tomgr_insert, tomgr_pop and tomgr_cancel of tomgr.c do to the heap.
use chamelio.Common.{zero, suc, refl, some, ℕ, ◌≡◌, ◌+◌, ◌<◌, arith, update, update_ne, ap}
use chamelio.Common.{update_self, none, inl, inr, ◌≤◌, Bool-cases, ◌⊎◌, ◌≢◌, ◌==◌, ==→eq, leb}
use chamelio.Common.{◌-◌, ==→ne, ◌∙◌}
use chamelio.Tomgr.Defs.{Tomgr, find_free_from, place_entry, tomgr_insert, ToEntry, HeapEntry}
use chamelio.Tomgr.Defs.{to_invalid, tomgr_size, find_free_entry, tomgr_pop, heapify_up}
use chamelio.Tomgr.Defs.{set_heap_idx, heapify_down}
use chamelio.Tomgr.Down.{heapify_down-Sifted}
use chamelio.Tomgr.Order.{IsHeap, tally, tally_ext, tally-suc, tally-update, root_least}
use chamelio.Tomgr.Up.{UpInv, heapify_up-Sifted}

-- The new entry `e` joins those of the heap.
pub record Inserted (m : Tomgr) (to e : ℕ) (m' : Tomgr) : Type 0 where
  pub free : ((m.entries e).heap_idx ≡ to_invalid) × (e < tomgr_size)
  pub heap : IsHeap m'.heap m'.size
  pub more : m'.size ≡ m.size + 1
  pub holds :
      (w : HeapEntry → ℕ)
      → tally w m'.heap m'.size ≡ tally w m.heap m.size + w (record { idx = e; to = to })

-- Every entry of the array is in use, or the heap is full.
abbrev pub NoRoom : Tomgr → Type 0
NoRoom m = (tomgr_size ≤ m.size) ⊎ ((k : ℕ) → k < tomgr_size → (m.entries k).heap_idx ≢ to_invalid)

abbrev pub Found : (ℕ → ToEntry) → (n i : ℕ) → Type 0
Found entries n i =
    ((find_free_from entries n i ≡ none)
      × ((k : ℕ) → i ≤ k → k < i + n → (entries k).heap_idx ≢ to_invalid))
    ⊎ ((e : ℕ) × (find_free_from entries n i ≡ some e)
        × ((entries e).heap_idx ≡ to_invalid)
        × (e < i + n))

pub find_free_from_cases : (entries : ℕ → ToEntry) (n i : ℕ) → Found entries n i
unfolding find_free_from
find_free_from_cases entries zero i = inl (refl, λ k a b. absurd (omega (arith, a, b)))
find_free_from_cases entries (suc n) i = elim (Bool-cases ((entries i).heap_idx == to_invalid)) [
  | inl free ↦ inr (i, rw free, ==→eq _ _ free, omega arith)
  | inr used ↦ elim (find_free_from_cases entries n (i + 1)) [
    | inl (no_more, all) ↦ inl (
      rw used no_more,
      λ k a b. elim (Bool-cases (k == i)) [
        | inl e ↦ rw (==→eq k i e) (==→ne _ _ used)
        | inr ne ↦ let other = ==→ne k i ne in all k (ground arith) (omega arith)
      ],
    )
    | inr (e, found, free, inside) ↦ inr (e, rw used found, free, omega arith)
  ]
]

place_entry-UpInv :
    (m : Tomgr) (e type to data_ptr : ℕ)
    → IsHeap m.heap m.size
    → UpInv (place_entry m e type to data_ptr).heap (place_entry m e type to data_ptr).size m.size
unfolding place_entry
place_entry-UpInv m e type to data_ptr h = record {
  inside = omega arith;
  edges = λ c p q ne. ground (arith, h c);
  bridged = λ c p q up pos. absurd (ground arith);
}

place_entry-tally :
    (m : Tomgr) (e type to data_ptr : ℕ) (w : HeapEntry → ℕ)
    → tally w (place_entry m e type to data_ptr).heap (place_entry m e type to data_ptr).size
      ≡ tally w m.heap m.size + w (record { idx = e; to = to })
unfolding place_entry
place_entry-tally m e type to data_ptr w =
    let new : HeapEntry = record { idx = e; to = to } in
    let h' = update m.heap m.size new in
    let below =
      tally_ext w m.heap h' m.size
        (λ k lt. update_ne m.heap m.size new k (λ q. omega (arith, q))) in
    let top = tally-suc w h' m.size in
    let at_top = ap w (update_self m.heap m.size new) in
    let count : tally w h' (m.size + 1) ≡ tally w h' (suc m.size) = ap (tally w h') (omega arith) in
    omega (arith, below, top, at_top, count)

pub place_entry_size :
    (m : Tomgr) (e type to data_ptr : ℕ) → (place_entry m e type to data_ptr).size ≡ m.size + 1
unfolding place_entry
place_entry_size m e type to data_ptr = refl

heapify_up-Inserted :
    (m : Tomgr) (type to data_ptr e : ℕ)
    → (m.entries e).heap_idx ≡ to_invalid
    → e < tomgr_size
    → IsHeap m.heap m.size
    → Inserted m to e (heapify_up (m.size + 1) (place_entry m e type to data_ptr) m.size)
heapify_up-Inserted m type to data_ptr e free inside h =
    let p = place_entry m e type to data_ptr in
    let up =
      heapify_up-Sifted (m.size + 1) p m.size (omega arith)
        (place_entry-UpInv m e type to data_ptr h) in
    let size = up.size in
    record {
      free = (free, inside);
      heap = rw size up.heap;
      more = size ∙ place_entry_size m e type to data_ptr;
      holds = λ w. rw size (up.same w ∙ place_entry-tally m e type to data_ptr w);
    }

-- Into a heap in order a timeout is inserted at a free entry, which joins those of the heap, in
-- order; or there is no room, and nothing changes.
pub tomgr_insert_lem :
    (m : Tomgr) (type to data_ptr : ℕ)
    → IsHeap m.heap m.size
    → ((tomgr_insert m type to data_ptr ≡ (m, none)) × NoRoom m)
      ⊎ ((m' : Tomgr) × (e : ℕ) × (tomgr_insert m type to data_ptr ≡ (m', some e))
          × Inserted m to e m')
unfolding tomgr_insert find_free_entry
tomgr_insert_lem m type to data_ptr h = elim (Bool-cases (leb tomgr_size m.size)) [
  | inl full ↦ inl (rw full, inl (ground arith))
  | inr room ↦ elim (find_free_from_cases m.entries tomgr_size 0) [
    | inl (no_more, all) ↦ inl (rw (room, no_more), inr (λ k lt. all k (omega arith) (omega arith)))
    | inr (e, found, free, inside) ↦ inr (
      heapify_up (m.size + 1) (place_entry m e type to data_ptr) m.size,
      e,
      rw (room, found),
      heapify_up-Inserted m type to data_ptr e free (omega arith) h,
    )
  ]
]

-- The earliest entry leaves the heap.
pub record Popped (m m' : Tomgr) (e : ℕ) : Type 0 where
  pub root : e ≡ (m.heap 0).idx
  pub earliest : (k : ℕ) → k < m.size → (m.heap 0).to ≤ (m.heap k).to
  pub heap : IsHeap m'.heap m'.size
  pub fewer : m'.size + 1 ≡ m.size
  pub holds : (w : HeapEntry → ℕ) → tally w m'.heap m'.size + w (m.heap 0) ≡ tally w m.heap m.size

-- The last heap entry takes the place `i`, whose entry leaves.
pub shrink_tally :
    (w : HeapEntry → ℕ) (h : ℕ → HeapEntry) (i n : ℕ)
    → i < suc n
    → tally w (update h i (h n)) n + w (h i) ≡ tally w h (suc n)
shrink_tally w h i n lt = elim (Bool-cases (n == i)) [
  | inl here ↦
      let e = ==→eq n i here in
      let same =
        tally_ext w h (update h i (h n)) n
          (λ k b. update_ne h i (h n) k (λ q. omega (arith, q, e, b))) in
      let old = ap (λ k. w (h k)) e in omega (arith, same, tally-suc w h n, old)
  | inr past ↦
      let ne = ==→ne n i past in
      omega (arith, tally-update w h i (h n) n (ground (arith, ne)), tally-suc w h n)
]

-- From a heap in order that is not empty, the root, which is an earliest entry, is popped; the
-- heap holds the other entries, in order.
pub tomgr_pop_lem :
    (m : Tomgr)
    → IsHeap m.heap m.size
    → 0 < m.size
    → (m' : Tomgr) × (e : ℕ) × (tomgr_pop m ≡ (m', some e)) × Popped m m' e
unfolding tomgr_pop
tomgr_pop_lem m h pos =
    let e = (m.heap 0).idx in
    let m1 = record m {
      entries = set_heap_idx m.entries e to_invalid;
      heap = update m.heap 0 (m.heap (m.size - 1));
      size = m.size - 1;
    } in
    let down = heapify_down-Sifted (m1.size + 1) m1 0 (omega arith) (record {
      edges = λ c p q ne. ground (arith, h c);
      bridged = λ c p q up z. absurd (omega arith);
    }) in
    let size = down.size in
    (
      heapify_down (m1.size + 1) m1 0,
      e,
      ground arith,
      record {
        root = refl;
        earliest = λ k lt. root_least m.heap m.size k h lt;
        heap = rw size down.heap;
        fewer = omega (arith, size);
        holds = λ w. rw size (
            let s = shrink_tally w m.heap 0 (m.size - 1) (omega arith) in
            let n : tally w m.heap (suc (m.size - 1)) ≡ tally w m.heap m.size =
              ap (tally w m.heap) (omega arith) in
            omega (arith, s, n, down.same w));
      },
    )
