-- ===== src/Sched/Remove.antt =====
-- `sched_remove` takes one entry out of the list and leaves the others in order.
use chamelio.Common.{refl, List, [], ◌∷◌, ℕ, ◌++◌, Bool, ◌≢◌, not, ◌≡◌, if◌then◌else◌, length}
use chamelio.Common.{◌==◌, true, ◌≤◌, update, sym, arith, false, update_self, ne→==, ap}
use chamelio.Common.{update_ne, ◌∙◌}
use chamelio.Sched.Defs.{unused, Entry, Scheduler, sched_remove, sched_id_invalid}
use chamelio.Sched.Defs.{max_sched_entries, walk, walk_fuel, set_next}
use chamelio.Sched.Enter.{walk_enough}
use chamelio.Sched.Insert.{SameTasks, set_next-SameTasks}
use chamelio.Sched.Links.{Seg, walk_lem, Seg-update, Seg-append, append-Seg, Seg-relink}
use chamelio.Sched.Links.{Seg-set_next}
use chamelio.Sched.Lists.{Fresh, Distinct, before, Fresh-append, from, last_of, front_of}
use chamelio.Sched.Lists.{Fresh-last_of, last_of-append, append-Fresh, Distinct-append}
use chamelio.Sched.Lists.{last_of-valid, Distinct-last_of}
use chamelio.Sched.Order.{AtLeast, Sorted, IsSched, Sorted-update, Sorted-same}
use mathlib.Core.List.{append-nil}
use native.Mathlib.Decide.{ℕ_discrete}

AtLeast-remove :
    (e : ℕ → Entry) (p id : ℕ) (bs fs : List ℕ)
    → AtLeast e p (bs ++ id ∷ fs)
    → AtLeast e p (bs ++ fs)
AtLeast-remove e p id [] fs a = a.1
AtLeast-remove e p id (b ∷ bs) fs a = (a.0, AtLeast-remove e p id bs fs a.1)

Sorted-remove :
    (e : ℕ → Entry) (id : ℕ) (bs fs : List ℕ) → Sorted e (bs ++ id ∷ fs) → Sorted e (bs ++ fs)
Sorted-remove e id [] fs a = a.2
Sorted-remove e id (b ∷ bs) fs a =
    (a.0, AtLeast-remove e _ id bs fs a.1, Sorted-remove e id bs fs a.2)

pub Fresh-remove : (i id : ℕ) (bs fs : List ℕ) → Fresh i (bs ++ id ∷ fs) → Fresh i (bs ++ fs)
Fresh-remove i id [] fs f = f.1
Fresh-remove i id (b ∷ bs) fs f = (f.0, Fresh-remove i id bs fs f.1)

-- What is taken out is no longer there.
pub Distinct-remove :
    (id : ℕ) (bs fs : List ℕ)
    → Distinct (bs ++ id ∷ fs)
    → Distinct (bs ++ fs) × Fresh id bs × Fresh id fs × (id ≢ sched_id_invalid)
Distinct-remove id [] fs d = (d.2, tt, d.1, d.0)
Distinct-remove id (b ∷ bs) fs d =
    let r = Distinct-remove id bs fs d.2 in
    let apart = (Fresh-append b bs (id ∷ fs) d.1).1 in
    ((d.0, Fresh-remove b id bs fs d.1, r.0), ((λ q. apart.0 (sym q)), r.1), r.2, r.3)

-- The search stops at the id.
before_id :
    (id : ℕ) (bs fs : List ℕ)
    → Fresh id bs
    → (before (λ i. not (i == id)) (bs ++ id ∷ fs) ≡ bs)
      × (from (λ i. not (i == id)) (bs ++ id ∷ fs) ≡ id ∷ fs)
before_id id [] fs f = let e : (id == id) ≡ true = ground arith in (rw e, rw e)
before_id id (b ∷ bs) fs f =
    let e : (b == id) ≡ false = ne→== b id (λ q. f.0 (sym q)) in
    let r = before_id id bs fs f.1 in (rw (e, r.0), rw (e, r.1))

pub record Removed (s : Scheduler) (id : ℕ) (bs fs : List ℕ) (r : Scheduler × Bool) : Type 0 where
  pub order : IsSched r.0 (bs ++ fs)
  pub found : r.1 ≡ true
  pub others_priority : (j : ℕ) → j ≢ id → (r.0.entries j).priority ≡ (s.entries j).priority
  pub others_avail : (j : ℕ) → j ≢ id → (r.0.entries j).avail ≡ (s.entries j).avail

module _ (s : Scheduler) (id : ℕ) (fs : List ℕ) where
  -- What holds of the result however the entries are linked.
  removed :
      (bs : List ℕ) (e : ℕ → Entry) (head tail : ℕ)
      → IsSched s (bs ++ id ∷ fs)
      → SameTasks s.entries e
      → Seg (update e id unused) head (bs ++ fs) sched_id_invalid
      → tail ≡ last_of sched_id_invalid (bs ++ fs)
      → Removed s id bs fs
          (record s { entries = update e id unused; head = head; tail = tail }, true)
  removed bs e head tail w same links last =
      let d = Distinct-remove id bs fs w.distinct in
      record {
        order = record {
          links = links;
          distinct = d.0;
          sorted =
              Sorted-update e id unused (bs ++ fs) (append-Fresh id bs fs d.1 d.2)
                (Sorted-same same (bs ++ fs) (Sorted-remove s.entries id bs fs w.sorted));
          idle = idle_after;
          tail = last;
        };
        found = refl;
        others_priority =
            λ j ne. ap (λ r. r.priority) (update_ne e id unused j ne) ∙ same.same_priority j;
        others_avail = λ j ne. ap (λ r. r.avail) (update_ne e id unused j ne) ∙ same.same_avail j;
      }
    where
      idle_after : (i : ℕ) → Fresh i (bs ++ fs) → (update e id unused i).id ≡ sched_id_invalid
      idle_after i f = elim (ℕ_discrete i id) [
        | yes q ↦ rw (q, update_self e id unused)
        | no ne ↦
            let r = Fresh-append i bs fs f in
            ap (λ r. r.id) (update_ne e id unused i ne)
            ∙ same.same_id i
            ∙ w.idle i (append-Fresh i bs (id ∷ fs) r.0 (ne, r.1))
      ]

  -- The last id, when `id` was it and when it was not.
  new_tail :
      (bs : List ℕ)
      → IsSched s (bs ++ id ∷ fs)
      → (if s.tail == id then last_of sched_id_invalid bs else s.tail)
        ≡ last_of sched_id_invalid (bs ++ fs)
  new_tail bs w =
      go fs (Distinct-remove id bs fs w.distinct).2
        (w.tail ∙ last_of-append sched_id_invalid id bs fs)
    where
      go :
          (gs : List ℕ)
          → Fresh id gs
          → s.tail ≡ last_of id gs
          → (if s.tail == id then last_of sched_id_invalid bs else s.tail)
            ≡ last_of sched_id_invalid (bs ++ gs)
      go [] f tl = let e : (s.tail == id) ≡ true = ground (arith, tl) in rw (e, append-nil bs)
      go (y ∷ ys) f tl =
          rw (tl, ne→== (last_of y ys) id (λ q. Fresh-last_of id y ys f (sym q)))
            (sym (last_of-append sched_id_invalid y bs ys))

  -- The links around the entry, when it is the first and when it is behind `prev`.
  unlinked :
      (bs : List ℕ)
      → IsSched s (bs ++ id ∷ fs)
      → let prev = last_of sched_id_invalid bs in
        let next = (s.entries id).next_entry in
        let first = prev == sched_id_invalid in
        Removed s id bs fs (
          record s {
            entries = update (if first then s.entries else set_next s.entries prev next) id unused;
            head = if first then next else s.head;
            tail = if s.tail == id then prev else s.tail;
          },
          true,
        )
  unlinked [] w =
      removed [] s.entries _ _ w
        (record { same_id = λ j. refl; same_priority = λ j. refl; same_avail = λ j. refl })
        (Seg-update s.entries id unused _ fs sched_id_invalid w.distinct.1 w.links.1)
        (new_tail [] w)
  unlinked (x ∷ xs) w = rw no_prev (
      removed (x ∷ xs) e1 _ _ w (set_next-SameTasks s.entries prev next) links
        (new_tail (x ∷ xs) w))
    where
      prev : ℕ
      prev = last_of x xs

      next : ℕ
      next = (s.entries id).next_entry

      e1 : ℕ → Entry
      e1 = set_next s.entries prev next

      d : Distinct ((x ∷ xs) ++ fs) × Fresh id (x ∷ xs) × Fresh id fs × (id ≢ sched_id_invalid)
      d = Distinct-remove id (x ∷ xs) fs w.distinct

      own : Distinct (x ∷ xs)
      own = (Distinct-append (x ∷ xs) fs d.0).0

      no_prev : (last_of x xs == sched_id_invalid) ≡ false
      no_prev = ne→== (last_of x xs) sched_id_invalid (last_of-valid x xs own)

      split : (m : ℕ) × Seg s.entries s.head (x ∷ xs) m × Seg s.entries m (id ∷ fs) sched_id_invalid
      split = Seg-append s.entries s.head (x ∷ xs) (id ∷ fs) sched_id_invalid w.links

      links : Seg (update e1 id unused) s.head ((x ∷ xs) ++ fs) sched_id_invalid
      links =
          append-Seg (update e1 id unused) s.head (x ∷ xs) fs next sched_id_invalid
            (Seg-update e1 id unused s.head (x ∷ xs) next d.1
              (Seg-relink s.entries s.head x xs split.0 next own split.1))
            (Seg-update e1 id unused next fs sched_id_invalid d.2 (
              Seg-set_next s.entries prev next next fs sched_id_invalid
                (Distinct-last_of x xs fs d.0) split.2.1))

  -- For a list of at most as many tasks as the array has entries, `sched_remove` finds a task that
  -- waits, takes it out, and leaves the others waiting in their order, with their priorities and
  -- amounts.
  pub sched_remove-Removed :
      (bs : List ℕ)
      → length (bs ++ id ∷ fs) ≤ max_sched_entries
      → IsSched s (bs ++ id ∷ fs)
      → Removed s id bs fs (sched_remove s id)
  unfolding sched_remove
  sched_remove-Removed bs small w = rw (stop, search.0, search.1, valid) (unlinked bs w)
    where
      test : ℕ → Bool
      test = λ i. not (i == id)

      d : Distinct (bs ++ fs) × Fresh id bs × Fresh id fs × (id ≢ sched_id_invalid)
      d = Distinct-remove id bs fs w.distinct

      search : (before test (bs ++ id ∷ fs) ≡ bs) × (from test (bs ++ id ∷ fs) ≡ id ∷ fs)
      search = before_id id bs fs d.1

      stop : walk walk_fuel s.entries test sched_id_invalid s.head ≡ (
        last_of sched_id_invalid (before test (bs ++ id ∷ fs)),
        front_of (from test (bs ++ id ∷ fs)),
      )
      stop =
          walk_lem walk_fuel s.entries test sched_id_invalid s.head (bs ++ id ∷ fs)
            (walk_enough (length (bs ++ id ∷ fs)) small) w.distinct w.links

      valid : (id == sched_id_invalid) ≡ false
      valid = ne→== id sched_id_invalid d.3
