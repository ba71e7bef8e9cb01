-- ===== src/Sched/Add.antt =====
-- `sched_add`: a task is entered, or its amount grows.
use chamelio.Common.{List, [], ◌∷◌, ℕ, length, ◌⊎◌, ◌++◌, ◌≢◌, ◌≡◌, ◌≤◌, update, inl, arith}
use chamelio.Common.{if◌then◌else◌, ◌==◌, Bool, inr, add32, ltb, true, false, update_self, ne→==}
use chamelio.Common.{ap, Bool-cases, ◌∙◌, ==→eq, update_ne}
use chamelio.Sched.Defs.{Entry, Scheduler, sched_add, sched_id_invalid, max_sched_entries}
use chamelio.Sched.Defs.{sched_remove}
use chamelio.Sched.Enter.{Entered, enter-Entered}
use chamelio.Sched.Links.{Seg-agree}
use chamelio.Sched.Lists.{Fresh, before, from, append-Fresh, Fresh-append}
use chamelio.Sched.Order.{Sorted, IsSched, place, place-Fresh, Fresh-place, Sorted-agree}
use chamelio.Sched.Remove.{sched_remove-Removed, Distinct-remove, Fresh-remove}
use native.Mathlib.Decide.{ℕ_discrete}

-- An id is in a list or not.
position :
    (i : ℕ) (ids : List ℕ) → Fresh i ids ⊎ ((bs : List ℕ) × (fs : List ℕ) × (ids ≡ bs ++ i ∷ fs))
position i [] = inl tt
position i (x ∷ xs) = elim (ℕ_discrete i x) [
  | yes e ↦ inr ([], xs, rw e)
  | no ne ↦ elim (position i xs) [ inl f ↦ inl (ne, f) | inr (bs, fs, e) ↦ inr (x ∷ bs, fs, rw e) ]
]

length-remove : (i : ℕ) (bs fs : List ℕ) → length (bs ++ fs) ≤ length (bs ++ i ∷ fs)
length-remove i [] fs = omega arith
length-remove i (b ∷ bs) fs = let le = length-remove i bs fs in omega (arith, le)

Sorted-id : (e : ℕ → Entry) (i : ℕ) (bs fs : List ℕ) → Sorted e (bs ++ i ∷ fs) → (e i).id ≡ i
Sorted-id e i [] fs a = a.0
Sorted-id e i (b ∷ bs) fs a = Sorted-id e i bs fs a.2

-- After `sched_add` the id waits with the new priority, and with the amounts of all its calls since
-- it was last taken off; the rest is as before.
pub record Added (s : Scheduler) (id priority avail : ℕ) (ids : List ℕ) (s' : Scheduler)
    : Type 0 where
  pub ids' : List ℕ
  pub order : IsSched s' ids'
  pub waits : (s'.entries id).id ≡ id
  pub priority_set : (s'.entries id).priority ≡ priority
  pub avail_set :
      (s'.entries id).avail
      ≡ (if (s.entries id).id == sched_id_invalid then avail else add32 (s.entries id).avail avail)
  pub others : (j : ℕ) → j ≢ id → Fresh j ids → Fresh j ids'
  pub others_wait : (j : ℕ) → j ≢ id → Fresh j ids' → Fresh j ids
  pub others_priority : (j : ℕ) → j ≢ id → (s'.entries j).priority ≡ (s.entries j).priority
  pub others_avail : (j : ℕ) → j ≢ id → (s'.entries j).avail ≡ (s.entries j).avail

-- From an entry at its place.
Entered-id :
    (s : Scheduler) (id priority avail : ℕ) (ids : List ℕ) (s' : Scheduler)
    → Entered s id priority avail ids s'
    → (s'.entries id).id ≡ id
Entered-id s id priority avail ids s' w =
    Sorted-id s'.entries id (before test ids) (from test ids) w.order.sorted
  where
    test : ℕ → Bool
    test = λ i. ltb (s.entries i).priority priority

-- A waiting task with the same priority grows in its place.
grown :
    (s : Scheduler) (id avail : ℕ) (ids : List ℕ)
    → IsSched s ids
    → IsSched
        (record s { entries = update s.entries id (record (s.entries id) { avail = avail }) })
        ids
grown s id avail ids w =
    let e : ℕ → Entry = update s.entries id (record (s.entries id) { avail = avail }) in
    record {
      links = Seg-agree s.entries e (λ j. ground arith) s.head ids sched_id_invalid w.links;
      distinct = w.distinct;
      sorted = Sorted-agree s.entries e (λ j. ground arith) (λ j. ground arith) ids w.sorted;
      idle = λ i f. let idle = w.idle i f in ground (arith, idle);
      tail = w.tail;
    }

module _ (s : Scheduler) (id priority avail : ℕ) (ids : List ℕ) (valid : id ≢ sched_id_invalid)
    (small : length ids ≤ max_sched_entries) (w : IsSched s ids) where
  add_new : Fresh id ids → Added s id priority avail ids (sched_add s id priority avail)
  unfolding sched_add
  add_new f =
      let new : ((s.entries id).id == sched_id_invalid) ≡ true = rw (w.idle id f) in
      let r = enter-Entered s id priority avail ids valid small f w in
      rw new (record {
        ids' = place s.entries priority id ids;
        order = r.order;
        waits = Entered-id s id priority avail ids _ r;
        priority_set = r.priority_set;
        avail_set = rw new r.avail_set;
        others = λ j ne fj. place-Fresh s.entries priority id j ids ne fj;
        others_wait = λ j ne fj. (Fresh-place s.entries priority id j ids fj).1;
        others_priority = r.others_priority;
        others_avail = r.others_avail;
      })

  module _ (old : ((s.entries id).id == sched_id_invalid) ≡ false)
      (own : (s.entries id).id ≡ id) where
    add_grown :
        ((s.entries id).priority == priority) ≡ true
        → Added s id priority avail ids (sched_add s id priority avail)
    unfolding sched_add
    add_grown e =
        let total = add32 (s.entries id).avail avail in
        let grow : Entry = record (s.entries id) { avail = total } in
        let self = update_self s.entries id grow in
        rw (old, e)
          (record {
            ids' = ids;
            order = grown s id total ids w;
            waits = ap (λ r. r.id) self ∙ own;
            priority_set = ap (λ r. r.priority) self ∙ ==→eq _ _ e;
            avail_set = rw old (ap (λ r. r.avail) self);
            others = λ j ne fj. fj;
            others_wait = λ j ne fj. fj;
            others_priority = λ j ne. ap (λ r. r.priority) (update_ne s.entries id grow j ne);
            others_avail = λ j ne. ap (λ r. r.avail) (update_ne s.entries id grow j ne);
          })

    add_moved :
        (bs fs : List ℕ)
        → ids ≡ bs ++ id ∷ fs
        → ((s.entries id).priority == priority) ≡ false
        → Added s id priority avail ids (sched_add s id priority avail)
    unfolding sched_add
    add_moved bs fs split e =
        let total = add32 (s.entries id).avail avail in
        let r = sched_remove-Removed s id fs bs (rw split at small) (rw split at w) in
        let s2 = (sched_remove s id).0 in
        let apart = Distinct-remove id bs fs (rw split at (w.distinct)) in
        let len = length-remove id bs fs in
        let enough : length (bs ++ fs) ≤ max_sched_entries =
          omega (arith, len, ap length split, small) in
        let n =
          enter-Entered s2 id priority total (bs ++ fs) valid enough
            (append-Fresh id bs fs apart.1 apart.2) r.order in
        rw (old, e)
          (record {
            ids' = place s2.entries priority id (bs ++ fs);
            order = n.order;
            waits = Entered-id s2 id priority total (bs ++ fs) _ n;
            priority_set = n.priority_set;
            avail_set = rw old n.avail_set;
            others = λ j ne fj.
                place-Fresh s2.entries priority id j (bs ++ fs) ne
                  (Fresh-remove j id bs fs (rw split at fj));
            others_wait = λ j ne fj.
                let kept =
                  Fresh-append j bs fs (Fresh-place s2.entries priority id j (bs ++ fs) fj).1 in
                rw split (append-Fresh j bs (id ∷ fs) kept.0 (ne, kept.1));
            others_priority = λ j ne. n.others_priority j ne ∙ r.others_priority j ne;
            others_avail = λ j ne. n.others_avail j ne ∙ r.others_avail j ne;
          })

  -- For a valid id and a list of at most as many tasks as the array has entries, `sched_add` keeps
  -- the list in the order of the priorities; the id waits afterwards with the priority given, and
  -- with the amount given on top of what it waited with; which other tasks wait, their priorities
  -- and their amounts stay the same.
  pub sched_add-Added : Added s id priority avail ids (sched_add s id priority avail)
  sched_add-Added = elim (position id ids) [
    | inl f ↦ add_new f
    | inr (bs, fs, split) ↦
        let own : (s.entries id).id ≡ id = Sorted-id s.entries id bs fs (rw split at (w.sorted)) in
        let old : ((s.entries id).id == sched_id_invalid) ≡ false =
          rw own (ne→== id sched_id_invalid valid) in
        elim (Bool-cases ((s.entries id).priority == priority)) [
          | inl e ↦ add_grown old own e
          | inr e ↦ add_moved old own bs fs split e
        ]
  ]
