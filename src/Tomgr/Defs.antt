-- ===== src/Tomgr/Defs.antt =====
-- tomgr.h and tomgr.c. An entry is its number in the array of entries, the pointer to a socket
-- that a timeout belongs to a number as well; `none` is NULL.
use chamelio.Common.{ℕ, zero, suc, ◌+◌, ◌-◌, ◌*◌, ◌/◌, Bool, true, false, ◌&&◌, ◌||◌, not, Option}
use chamelio.Common.{none, some, ltb, leb, ◌==◌, if◌then◌else◌, update}

-- TOMGR_SIZE, and TO_INVALID, which is the same number.
abbrev pub tomgr_size : ℕ
tomgr_size = 1024

abbrev pub to_invalid : ℕ
to_invalid = tomgr_size

-- `struct to_heap_entry`
pub record HeapEntry : Type 0 where
  pub idx : ℕ
  pub to : ℕ

-- `struct to_entry`
pub record ToEntry : Type 0 where
  pub type : ℕ
  pub to : ℕ
  pub data_ptr : ℕ
  pub heap_idx : ℕ

-- `struct tomgr`
pub record Tomgr : Type 0 where
  pub heap : ℕ → HeapEntry
  pub entries : ℕ → ToEntry
  pub size : ℕ

abbrev pub parent : ℕ → ℕ
parent i = (i - 1) / 2

abbrev pub left : ℕ → ℕ
left i = 2 * i + 1

abbrev pub right : ℕ → ℕ
right i = 2 * i + 2

abbrev pub set_heap_idx : (ℕ → ToEntry) → ℕ → ℕ → ℕ → ToEntry
set_heap_idx entries e i = update entries e (record (entries e) { heap_idx = i })

-- The memory that `tomgr_init` allocates holds anything but the indices that it sets.
unfoldable pub tomgr_init : (ℕ → HeapEntry) → (ℕ → ToEntry) → Tomgr
tomgr_init heap entries = record {
  heap = heap;
  entries =
      λ i. if ltb i tomgr_size then record (entries i) { heap_idx = to_invalid } else entries i;
  size = 0;
}

-- The two heap entries change places, and the entries that they stand for learn of it.
unfoldable pub swap : Tomgr → ℕ → ℕ → Tomgr
swap m a b =
    let heap = update (update m.heap a (m.heap b)) b (m.heap a) in
    record m {
      heap = heap;
      entries = set_heap_idx (set_heap_idx m.entries (heap a).idx a) (heap b).idx b;
    }

unfoldable pub smallest_of : Tomgr → ℕ → ℕ
smallest_of m idx =
    let s =
      if ltb (left idx) m.size && ltb (m.heap (left idx)).to (m.heap idx).to
      then left idx
      else idx in
    if ltb (right idx) m.size && ltb (m.heap (right idx)).to (m.heap s).to then right idx else s

unfoldable pub heapify_down : ℕ → Tomgr → ℕ → Tomgr
heapify_down zero m idx = m
heapify_down (suc fuel) m idx =
    let smallest = smallest_of m idx in
    let rest = heapify_down fuel (swap m idx smallest) smallest in
    if smallest == idx then m else rest

unfoldable pub heapify_up : ℕ → Tomgr → ℕ → Tomgr
heapify_up zero m idx = m
heapify_up (suc fuel) m idx =
    let rest = heapify_up fuel (swap m idx (parent idx)) (parent idx) in
    if ltb 0 idx && ltb (m.heap idx).to (m.heap (parent idx)).to then rest else m

-- The first free entry from `i` on, with `n` entries left to look at.
unfoldable pub find_free_from : (ℕ → ToEntry) → ℕ → ℕ → Option ℕ
find_free_from entries zero i = none
find_free_from entries (suc n) i =
    let rest = find_free_from entries n (i + 1) in
    if (entries i).heap_idx == to_invalid then some i else rest

unfoldable pub find_free_entry : Tomgr → Option ℕ
find_free_entry m = find_free_from m.entries tomgr_size 0

unfoldable pub place_entry : Tomgr → (idx type to data_ptr : ℕ) → Tomgr
place_entry m idx type to data_ptr = record m {
  entries =
      update m.entries idx
        (record { type = type; to = to; data_ptr = data_ptr; heap_idx = m.size });
  heap = update m.heap m.size (record { idx = idx; to = to });
  size = m.size + 1;
}

unfoldable pub tomgr_insert : Tomgr → (type to data_ptr : ℕ) → Tomgr × Option ℕ
tomgr_insert m type to data_ptr =
    let free = find_free_entry m in
    let placed = λ (idx : ℕ). heapify_up (m.size + 1) (place_entry m idx type to data_ptr) m.size in
    if leb tomgr_size m.size
    then (m, none)
    else elim free [ none ↦ (m, none) | some idx ↦ (placed idx, some idx) ]

-- The last heap entry takes the place `i`, and goes up or down from there.
unfoldable pub cancel_at : Tomgr → ℕ → Tomgr
cancel_at m i =
    let last = m.heap (m.size - 1) in
    let m' = record m {
      heap = update m.heap i last;
      entries = set_heap_idx m.entries last.idx i;
      size = m.size - 1;
    } in
    if ltb i m'.size
    then (if ltb 0 i && ltb (m'.heap i).to (m'.heap (parent i)).to
        then heapify_up (i + 1) m' i
        else heapify_down (m'.size + 1) m' i)
    else m'

-- The second part tells whether the entry was in the heap (0) or not (-1).
unfoldable pub tomgr_cancel : Tomgr → ℕ → Tomgr × Bool
tomgr_cancel m e =
    let i = (m.entries e).heap_idx in
    let out = record m { entries = set_heap_idx m.entries e to_invalid } in
    if leb m.size i || not ((m.heap i).idx == e)
    then (m, false)
    else if m.size == 1
    then (record out { size = 0 }, true)
    else (cancel_at out i, true)

unfoldable pub tomgr_peek : Tomgr → Option ℕ
tomgr_peek m = if m.size == 0 then none else some (m.heap 0).idx

unfoldable pub tomgr_pop : Tomgr → Tomgr × Option ℕ
tomgr_pop m =
    let e = (m.heap 0).idx in
    let m' = record m {
      entries = set_heap_idx m.entries e to_invalid;
      heap = update m.heap 0 (m.heap (m.size - 1));
      size = m.size - 1;
    } in
    if m.size == 0 then (m, none) else (heapify_down (m'.size + 1) m' 0, some e)
