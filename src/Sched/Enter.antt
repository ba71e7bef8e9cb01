-- ===== src/Sched/Enter.antt =====
-- `sched_insert` keeps the order; `sched_pop` takes the first.
use chamelio.Common.{refl, List, [], ◌∷◌, ℕ, ◌≢◌, ◌≡◌, ltb, length, some, update, ◌≤◌, update_ne}
use chamelio.Common.{sym, update_self, Bool, ◌++◌, ap, ◌∙◌, ◌==◌, false, ne→==, arith}
use chamelio.Common.{if◌then◌else◌, ◌<◌}
use chamelio.Sched.Defs.{Entry, Scheduler, enter, sched_pop, sched_head, sched_id_invalid}
use chamelio.Sched.Defs.{max_sched_entries, new_entry, sched_insert, walk, walk_fuel, unused}
use chamelio.Sched.Insert.{Inserted, insert_first, insert_behind}
use chamelio.Sched.Links.{Seg, Seg-update, walk_lem}
use chamelio.Sched.Lists.{Fresh, before, from, Distinct, last_of, last_of-append, before-from}
use chamelio.Sched.Order.{IsSched, place, AtLeast, Distinct-place, Sorted-same, Sorted-place}
use chamelio.Sched.Order.{Sorted-update, Fresh-place}
use native.Mathlib.Decide.{ℕ_discrete}

-- What an entry that is not in the list does not change.
before-update :
    (e : ℕ → Entry) (i : ℕ) (v : Entry) (p : ℕ) (xs : List ℕ)
    → Fresh i xs
    → before (λ j. ltb (update e i v j).priority p) xs ≡ before (λ j. ltb (e j).priority p) xs
before-update e i v p [] f = refl
before-update e i v p (x ∷ xs) f =
    rw (update_ne e i v x (λ q. f.0 (sym q)), before-update e i v p xs f.1)

from-update :
    (e : ℕ → Entry) (i : ℕ) (v : Entry) (p : ℕ) (xs : List ℕ)
    → Fresh i xs
    → from (λ j. ltb (update e i v j).priority p) xs ≡ from (λ j. ltb (e j).priority p) xs
from-update e i v p [] f = refl
from-update e i v p (x ∷ xs) f =
    rw (update_ne e i v x (λ q. f.0 (sym q)), from-update e i v p xs f.1)

-- The walk has fuel for every list that fits the array of entries.
pub walk_enough : (n : ℕ) → n ≤ max_sched_entries → n < walk_fuel
unfolding walk_fuel
walk_enough n le = omega arith

-- `sched_insert` puts the entry where its priority belongs.
pub sched_insert-Inserted :
    (s : Scheduler) (id p : ℕ) (ids : List ℕ)
    → (s.entries id).priority ≡ p
    → id ≢ sched_id_invalid
    → length ids ≤ max_sched_entries
    → Distinct ids
    → Fresh id ids
    → Seg s.entries s.head ids sched_id_invalid
    → s.tail ≡ last_of sched_id_invalid ids
    → Inserted s id
        (before (λ i. ltb (s.entries i).priority p) ids)
        (from (λ i. ltb (s.entries i).priority p) ids)
        (sched_insert s id)
sched_insert-Inserted s id p ids here valid small d f links tail = rw (← here) (
    go (before test ids) (from test ids) (before-from test ids) (
      ap (λ r. r.0)
        (walk_lem walk_fuel s.entries test sched_id_invalid s.head ids
          (walk_enough (length ids) small) d links)))
  where
    test : ℕ → Bool
    test = λ i. ltb (s.entries i).priority (s.entries id).priority

    go :
        (bs fs : List ℕ)
        → bs ++ fs ≡ ids
        → (walk walk_fuel s.entries test sched_id_invalid s.head).0 ≡ last_of sched_id_invalid bs
        → Inserted s id bs fs (sched_insert s id)
    go [] fs e stop =
        insert_first s id valid fs stop (rw (← e) at d) (rw (← e) at f) (rw (← e) at links)
          (rw (← e) at tail)
    go (x ∷ xs) fs e stop =
        insert_behind s id valid x xs fs stop (rw (← e) at d) (rw (← e) at f) (rw (← e) at links)
          (tail ∙ ap (last_of sched_id_invalid) (sym e))

-- A task that is not waiting goes behind all of smaller priority, and the others stay as they are.
pub record Entered (s : Scheduler) (id priority avail : ℕ) (ids : List ℕ) (s' : Scheduler)
    : Type 0 where
  pub order : IsSched s' (place s.entries priority id ids)
  pub priority_set : (s'.entries id).priority ≡ priority
  pub avail_set : (s'.entries id).avail ≡ avail
  pub others_priority : (j : ℕ) → j ≢ id → (s'.entries j).priority ≡ (s.entries j).priority
  pub others_avail : (j : ℕ) → j ≢ id → (s'.entries j).avail ≡ (s.entries j).avail

pub enter-Entered :
    (s : Scheduler) (id priority avail : ℕ) (ids : List ℕ)
    → id ≢ sched_id_invalid
    → length ids ≤ max_sched_entries
    → Fresh id ids
    → IsSched s ids
    → Entered s id priority avail ids (enter s id priority avail)
unfolding enter
enter-Entered s id priority avail ids valid small f w = record {
  order = record {
    links = into.links;
    distinct = Distinct-place s.entries priority id ids valid f w.distinct;
    sorted = Sorted-same into.tasks _ (
        rw (← placed) (
          Sorted-place s1.entries priority id ids (ap (λ r. r.id) self) (ap (λ r. r.priority) self)
            (Sorted-update s.entries id new ids f w.sorted)));
    idle = λ i fr.
        let r = Fresh-place s.entries priority id i ids fr in
        into.tasks.same_id i ∙ ap (λ r. r.id) (update_ne s.entries id new i r.0) ∙ w.idle i r.1;
    tail = into.tail ∙ sym (last_of-append sched_id_invalid id (before test ids) (from test ids));
  };
  priority_set = into.tasks.same_priority id ∙ ap (λ r. r.priority) self;
  avail_set = into.tasks.same_avail id ∙ ap (λ r. r.avail) self;
  others_priority =
      λ j ne. into.tasks.same_priority j ∙ ap (λ r. r.priority) (update_ne s.entries id new j ne);
  others_avail =
      λ j ne. into.tasks.same_avail j ∙ ap (λ r. r.avail) (update_ne s.entries id new j ne);
}
  where
    new : Entry
    new = new_entry id priority avail

    s1 : Scheduler
    s1 = record s { entries = update s.entries id new }

    self : s1.entries id ≡ new
    self = update_self s.entries id new

    test : ℕ → Bool
    test = λ i. ltb (s.entries i).priority priority

    into : Inserted s1 id (before test ids) (from test ids) (sched_insert s1 id)
    into =
        rw
          (
            ← before-update s.entries id new priority ids f,
            ← from-update s.entries id new priority ids f,
          )
          (sched_insert-Inserted s1 id priority ids (ap (λ r. r.priority) self) valid small
            w.distinct f (Seg-update s.entries id new s.head ids sched_id_invalid f w.links) w.tail)

    placed : place s1.entries priority id ids ≡ place s.entries priority id ids
    placed =
        rw (
          before-update s.entries id new priority ids f,
          from-update s.entries id new priority ids f,
        )

-- When tasks wait, `sched_head` gives the first of them, no task behind it has a smaller priority,
-- and `sched_pop` succeeds and leaves the others waiting in their order.
pub sched_pop_lem :
    (s : Scheduler) (id : ℕ) (ids : List ℕ)
    → IsSched s (id ∷ ids)
    → (sched_head s ≡ some (s.entries id))
      × AtLeast s.entries (s.entries id).priority ids
      × ((s' : Scheduler) × (sched_pop s ≡ some s') × IsSched s' ids)
unfolding sched_pop sched_head
sched_pop_lem s id ids w = rw (front) (
  ap (λ h. some (s.entries h)) w.links.0,
  w.sorted.1,
  (
    s1,
    refl,
    rw (w.links.0) (record {
      links = Seg-update s.entries id unused _ ids sched_id_invalid w.distinct.1 w.links.1;
      distinct = w.distinct.2;
      sorted = Sorted-update s.entries id unused ids w.distinct.1 w.sorted.2;
      idle = idle_after;
      tail = new_tail ids w.distinct.2 w.links.1 w.tail;
    }),
  ),
)
  where
    front : (s.head == sched_id_invalid) ≡ false
    front = rw w.links.0 (ne→== id sched_id_invalid w.distinct.0)

    s1 : Scheduler
    s1 = record s {
      entries = update s.entries s.head unused;
      head = (s.entries s.head).next_entry;
      tail = if (s.entries s.head).next_entry == sched_id_invalid then sched_id_invalid else s.tail;
    }

    idle_after : (i : ℕ) → Fresh i ids → (update s.entries id unused i).id ≡ sched_id_invalid
    idle_after i f = elim (ℕ_discrete i id) [
      | yes e ↦ rw (e, update_self s.entries id unused)
      | no ne ↦ rw (update_ne s.entries id unused i ne) (w.idle i (ne, f))
    ]

    new_tail :
        (gs : List ℕ)
        → Distinct gs
        → Seg s.entries (s.entries id).next_entry gs sched_id_invalid
        → s.tail ≡ last_of id gs
        → (if (s.entries id).next_entry == sched_id_invalid then sched_id_invalid else s.tail)
          ≡ last_of sched_id_invalid gs
    new_tail [] d seg tl = rw seg
    new_tail (y ∷ ys) d seg tl = rw (seg.0, ne→== y sched_id_invalid d.0) tl
