-- ===== src/Queue/Defs.antt =====
-- queue_fns.h and queue.c. An offset into the region stands for the pointer to the slot that begins
-- there; `none` is the -1 or the NULL of the source.
use chamelio.Common.{ℕ, ◌+◌, ◌*◌, Option, none, some, ltb, ◌==◌, if◌then◌else◌, u32, u64, update}

-- QUEUE_EMPTY
abbrev pub queue_empty : ℕ
queue_empty = 0

-- The bookkeeping of the side that enqueues.
pub record Equeue : Type 0 where
  pub tail : ℕ
  pub nelems : ℕ
  pub elsize : ℕ
  pub off : ℕ

-- The bookkeeping of the side that dequeues.
pub record Dqueue : Type 0 where
  pub head : ℕ
  pub nelems : ℕ
  pub elsize : ℕ
  pub off : ℕ

-- The shared slots, by their offset: the type byte and the data behind it.
pub record Slots (D : Type 0) : Type 0 where
  pub type : ℕ → ℕ
  pub entry : ℕ → D

unfoldable pub equeue_init : ℕ → ℕ → ℕ → Equeue
equeue_init nelems elsize off = record { tail = 0; nelems = nelems; elsize = elsize; off = off }

unfoldable pub dqueue_init : ℕ → ℕ → ℕ → Dqueue
dqueue_init nelems elsize off = record { head = 0; nelems = nelems; elsize = elsize; off = off }

-- The offset that both sides move on to. `elsize` is a `size_t`, the result a `__u32`.
unfoldable pub advance : ℕ → ℕ → ℕ → ℕ
advance nelems elsize pos =
    let next = u32 (u64 (pos + elsize)) in if ltb next (u64 (elsize * nelems)) then next else 0

module _ {D : Type 0} where
  unfoldable pub queue_tail : Equeue → Slots D → Option ℕ
  queue_tail q m = if m.type q.tail == queue_empty then some q.tail else none

  unfoldable pub queue_head : Dqueue → Slots D → Option ℕ
  queue_head q m = if m.type q.head == queue_empty then none else some q.head

  unfoldable pub queue_enqueue : Equeue → Slots D → ℕ → Option (Equeue × Slots D)
  queue_enqueue q m type =
      if m.type q.tail == queue_empty
      then some (
        record q { tail = advance q.nelems q.elsize q.tail },
        record m { type = update m.type q.tail type },
      )
      else none

  unfoldable pub queue_dequeue : Dqueue → Slots D → Option (Dqueue × Slots D)
  queue_dequeue q m =
      if m.type q.head == queue_empty
      then none
      else some (
        record q { head = advance q.nelems q.elsize q.head },
        record m { type = update m.type q.head queue_empty },
      )

  -- `*slot = v`, through the pointer that `queue_tail` gave.
  unfoldable pub write_entry : Slots D → ℕ → D → Slots D
  write_entry m pos v = record m { entry = update m.entry pos v }
