-- ===== src/Tomgr/Tests.antt =====
-- A heap with three timeouts, and the theorems at it.
use chamelio.Common.{refl, [], none, some, true, false, ◌∷◌, ℕ, ◌≡◌, if◌then◌else◌, arith, ◌≤◌}
use chamelio.Common.{ltb, ◌==◌, ◌⊎◌, Option, ◌≢◌}
use chamelio.Tomgr.Cancel.{Cancelled, tomgr_cancel_lem}
use chamelio.Tomgr.Defs.{Tomgr, tomgr_init, tomgr_insert, tomgr_pop, tomgr_cancel, HeapEntry}
use chamelio.Tomgr.Defs.{ToEntry, find_free_entry, heapify_down, find_free_from, smallest_of}
use chamelio.Tomgr.Defs.{tomgr_size, heapify_up, to_invalid, swap, place_entry}
use chamelio.Tomgr.Ops.{NoRoom, Popped, tomgr_pop_lem, Inserted, tomgr_insert_lem}
use chamelio.Tomgr.Order.{IsHeap}
use chamelio.Tomgr.Places.{IsLinked}

abbrev memory_heap : ℕ → HeapEntry
memory_heap i = record { idx = 0; to = 0 }

abbrev memory_entries : ℕ → ToEntry
memory_entries i = record { type = 0; to = 0; data_ptr = 0; heap_idx = 0 }

abbrev empty_heap : Tomgr
empty_heap = record {
  heap = memory_heap;
  entries = λ i.
      if ltb i tomgr_size
      then record (memory_entries i) { heap_idx = to_invalid }
      else memory_entries i;
  size = 0;
}

init_lem : tomgr_init memory_heap memory_entries ≡ empty_heap
unfolding tomgr_init
init_lem = refl

inserted : Tomgr × Option ℕ
unfolding tomgr_insert find_free_entry find_free_from heapify_up swap place_entry
inserted = tomgr_insert (tomgr_insert (tomgr_insert empty_heap 1 30 7).0 1 20 8).0 1 10 9

third_entry : inserted.1 ≡ some 2
unfolding inserted
third_entry = refl

roots :
    ((inserted.0.heap 0).to ∷ (inserted.0.heap 1).to ∷ (inserted.0.heap 2).to ∷ [])
    ≡ 10 ∷ 30 ∷ 20 ∷ []
unfolding inserted
roots = refl

popped_twice : Option ℕ
unfolding inserted tomgr_pop heapify_down smallest_of
popped_twice = (tomgr_pop (tomgr_pop inserted.0).0).1

second_entry : popped_twice ≡ some 1
unfolding popped_twice
second_entry = refl

-- Entries 3 and 5 of the array, for times 10 and 40.
abbrev two_timeouts : Tomgr
two_timeouts = record {
  heap = λ i. if i == 0 then record { idx = 3; to = 10 } else record { idx = 5; to = 40 };
  entries = λ i. record {
    type = 1;
    to = if i == 3 then 10 else 40;
    data_ptr = i;
    heap_idx = if i == 3 then 0 else if i == 5 then 1 else to_invalid;
  };
  size = 2;
}

two_timeouts-IsHeap : IsHeap two_timeouts.heap two_timeouts.size
two_timeouts-IsHeap c p q = ground arith

two_timeouts-IsLinked : IsLinked two_timeouts
two_timeouts-IsLinked k lt = ground arith

tomgr_insert_lem_example :
    ((tomgr_insert two_timeouts 2 5 9 ≡ (two_timeouts, none)) × NoRoom two_timeouts)
    ⊎ ((m' : Tomgr) × (e : ℕ) × (tomgr_insert two_timeouts 2 5 9 ≡ (m', some e))
        × Inserted two_timeouts 5 e m')
tomgr_insert_lem_example = tomgr_insert_lem two_timeouts 2 5 9 two_timeouts-IsHeap

tomgr_pop_lem_example :
    (m' : Tomgr) × (e : ℕ) × (tomgr_pop two_timeouts ≡ (m', some e)) × Popped two_timeouts m' e
tomgr_pop_lem_example = tomgr_pop_lem two_timeouts two_timeouts-IsHeap (omega arith)

tomgr_cancel_lem_example :
    ((tomgr_cancel two_timeouts 3 ≡ (two_timeouts, false))
      × ((2 ≤ (two_timeouts.entries 3).heap_idx)
          ⊎ ((two_timeouts.heap (two_timeouts.entries 3).heap_idx).idx ≢ 3)))
    ⊎ ((m' : Tomgr) × (tomgr_cancel two_timeouts 3 ≡ (m', true))
        × ((two_timeouts.heap (two_timeouts.entries 3).heap_idx).idx ≡ 3)
        × Cancelled two_timeouts (two_timeouts.entries 3).heap_idx m')
tomgr_cancel_lem_example = tomgr_cancel_lem two_timeouts 3 two_timeouts-IsHeap
