-- ===== src/Sched/Defs.antt =====
-- scheduler.h and scheduler.c. An id plays the pointer to its entry. The loops that walk the list
-- take fuel; the list has at most one node for each entry of the array.
use chamelio.Common.{ℕ, zero, suc, ◌+◌, ◌*◌, ◌-◌, ◌^◌, Bool, true, false, not, Option, none, some}
use chamelio.Common.{ltb, ◌==◌, if◌then◌else◌, add32, update}

-- SCHED_ID_INVALID
abbrev pub sched_id_invalid : ℕ
sched_id_invalid = 2 ^ 32 - 1

-- MAX_SCHED_ENTRIES
abbrev pub max_sched_entries : ℕ
max_sched_entries = 128 * 1024

-- `struct cham_sched_entry`
pub record Entry : Type 0 where
  pub id : ℕ
  pub next_entry : ℕ
  pub priority : ℕ
  pub avail : ℕ
  pub opaque : ℕ

-- `struct cham_scheduler`
pub record Scheduler : Type 0 where
  pub entries : ℕ → Entry
  pub vtime : ℕ
  pub head : ℕ
  pub tail : ℕ

-- An entry that is not in the list.
abbrev pub unused : Entry
unused = record {
  id = sched_id_invalid;
  next_entry = sched_id_invalid;
  priority = 0;
  avail = 0;
  opaque = 0;
}

unfoldable pub sched_init : Scheduler
sched_init = record {
  entries = λ _. unused;
  vtime = 0;
  head = sched_id_invalid;
  tail = sched_id_invalid;
}

unfoldable pub sched_head : Scheduler → Option Entry
sched_head s = if s.head == sched_id_invalid then none else some (s.entries s.head)

-- `none` is the -1 of the empty list.
unfoldable pub sched_pop : Scheduler → Option Scheduler
sched_pop s =
    if s.head == sched_id_invalid
    then none
    else (let next = (s.entries s.head).next_entry in
        some (record s {
          entries = update s.entries s.head unused;
          head = next;
          tail = if next == sched_id_invalid then sched_id_invalid else s.tail;
        }))

-- The walk of a loop: go on while `test` holds, and give back the last two ids.
unfoldable pub walk : ℕ → (ℕ → Entry) → (ℕ → Bool) → ℕ → ℕ → ℕ × ℕ
walk zero entries test prev cur = (prev, cur)
walk (suc fuel) entries test prev cur =
    let rest = walk fuel entries test cur (entries cur).next_entry in
    if cur == sched_id_invalid then (prev, cur) else if test cur then rest else (prev, cur)

-- One more than the entries, for the end of the list.
unfoldable pub walk_fuel : ℕ
walk_fuel = max_sched_entries + 1

unfoldable pub set_next : (ℕ → Entry) → ℕ → ℕ → ℕ → Entry
set_next entries i next = update entries i (record (entries i) { next_entry = next })

-- The second part tells whether the id was in the list (0) or not (-1).
unfoldable pub sched_remove : Scheduler → ℕ → Scheduler × Bool
sched_remove s id =
    let found = walk walk_fuel s.entries (λ i. not (i == id)) sched_id_invalid s.head in
    let prev = found.0 in
    if found.1 == sched_id_invalid
    then (s, false)
    else (let next = (s.entries id).next_entry in
        let first = prev == sched_id_invalid in
        (
          record s {
            entries = update (if first then s.entries else set_next s.entries prev next) id unused;
            head = if first then next else s.head;
            tail = if s.tail == id then prev else s.tail;
          },
          true,
        ))

unfoldable pub sched_insert : Scheduler → ℕ → Scheduler
sched_insert s id =
    if s.head == sched_id_invalid
    then record s { entries = set_next s.entries id sched_id_invalid; head = id; tail = id }
    else (let entry = s.entries id in
        let found =
          walk walk_fuel s.entries (λ i. ltb (s.entries i).priority entry.priority) sched_id_invalid
            s.head in
        let prev = found.0 in
        if prev == sched_id_invalid
        then record s { entries = set_next s.entries id s.head; head = id }
        else (let next = (s.entries prev).next_entry in
            record s {
              entries = set_next (set_next s.entries id next) prev id;
              tail = if next == sched_id_invalid then id else s.tail;
            }))

-- The entry that `sched_add` writes before it inserts.
abbrev pub new_entry : ℕ → ℕ → ℕ → Entry
new_entry id priority avail = record {
  id = id;
  next_entry = sched_id_invalid;
  priority = priority;
  avail = avail;
  opaque = 0;
}

unfoldable pub enter : Scheduler → ℕ → ℕ → ℕ → Scheduler
enter s id priority avail =
    sched_insert (record s { entries = update s.entries id (new_entry id priority avail) }) id

-- It always returns 0.
unfoldable pub sched_add : Scheduler → ℕ → ℕ → ℕ → Scheduler
unfolding enter
sched_add s id priority avail =
    let entry = s.entries id in
    if entry.id == sched_id_invalid
    then enter s id priority avail
    else (let total_avail = add32 entry.avail avail in
        if entry.priority == priority
        then record s { entries = update s.entries id (record entry { avail = total_avail }) }
        else enter (sched_remove s id).0 id priority total_avail)
