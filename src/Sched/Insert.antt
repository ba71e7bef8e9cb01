-- ===== src/Sched/Insert.antt =====
-- `sched_insert`: where an entry goes into the list.
use chamelio.Common.{refl, List, [], ◌∷◌, ℕ, ◌≡◌, arith, ◌∙◌, ◌≢◌, ◌++◌, ltb, update_self, ◌==◌}
use chamelio.Common.{false, ne→==, if◌then◌else◌}
use chamelio.Sched.Defs.{Entry, set_next, Scheduler, sched_id_invalid, walk, sched_insert}
use chamelio.Sched.Defs.{walk_fuel}
use chamelio.Sched.Links.{Seg, Seg-update, Seg-append, Seg-last_of, append-Seg, Seg-relink}
use chamelio.Sched.Links.{set_next_ne, Seg-set_next, set_next_self}
use chamelio.Sched.Lists.{last_of, Distinct, Fresh, Distinct-append, Fresh-append, last_of-valid}
use chamelio.Sched.Lists.{Fresh-last_of, last_of-append, Distinct-last_of}

-- The links change, the tasks do not.
pub record SameTasks (e e' : ℕ → Entry) : Type 0 where
  pub same_id : (j : ℕ) → (e' j).id ≡ (e j).id
  pub same_priority : (j : ℕ) → (e' j).priority ≡ (e j).priority
  pub same_avail : (j : ℕ) → (e' j).avail ≡ (e j).avail

pub set_next-SameTasks : (e : ℕ → Entry) (i n : ℕ) → SameTasks e (set_next e i n)
unfolding set_next
set_next-SameTasks e i n = record {
  same_id = λ j. ground arith;
  same_priority = λ j. ground arith;
  same_avail = λ j. ground arith;
}

pub SameTasks-trans : {e f g : ℕ → Entry} → SameTasks e f → SameTasks f g → SameTasks e g
SameTasks-trans p q = record {
  same_id = λ j. q.same_id j ∙ p.same_id j;
  same_priority = λ j. q.same_priority j ∙ p.same_priority j;
  same_avail = λ j. q.same_avail j ∙ p.same_avail j;
}

-- The entry `id` stands between `bs` and `fs`.
pub record Inserted (s : Scheduler) (id : ℕ) (bs fs : List ℕ) (s' : Scheduler) : Type 0 where
  pub links : Seg s'.entries s'.head (bs ++ id ∷ fs) sched_id_invalid
  pub tail : s'.tail ≡ last_of id fs
  pub tasks : SameTasks s.entries s'.entries

module _ (s : Scheduler) (id : ℕ) (valid : id ≢ sched_id_invalid) where
  abbrev found : ℕ × ℕ
  found =
      walk walk_fuel s.entries (λ i. ltb (s.entries i).priority (s.entries id).priority)
        sched_id_invalid s.head

  pub insert_first :
      (fs : List ℕ)
      → found.0 ≡ sched_id_invalid
      → Distinct fs
      → Fresh id fs
      → Seg s.entries s.head fs sched_id_invalid
      → s.tail ≡ last_of sched_id_invalid fs
      → Inserted s id [] fs (sched_insert s id)
  unfolding sched_insert set_next
  insert_first [] stop d f links tail = rw (links) (record {
    links = (
      refl,
      rw (update_self s.entries id (record (s.entries id) { next_entry = sched_id_invalid })),
    );
    tail = refl;
    tasks = set_next-SameTasks s.entries id sched_id_invalid;
  })
  insert_first (y ∷ ys) stop d f links tail =
      let ne : (s.head == sched_id_invalid) ≡ false = rw links.0 (ne→== y sched_id_invalid d.0) in
      rw (ne, stop)
        (record {
          links = (
            refl,
            rw (update_self s.entries id (record (s.entries id) { next_entry = s.head })) (
                Seg-update s.entries id (record (s.entries id) { next_entry = s.head }) s.head
                  (y ∷ ys) sched_id_invalid f links),
          );
          tail = tail;
          tasks = set_next-SameTasks s.entries id s.head;
        })

  pub insert_behind :
      (x : ℕ) (xs fs : List ℕ)
      → found.0 ≡ last_of x xs
      → Distinct ((x ∷ xs) ++ fs)
      → Fresh id ((x ∷ xs) ++ fs)
      → Seg s.entries s.head ((x ∷ xs) ++ fs) sched_id_invalid
      → s.tail ≡ last_of x (xs ++ fs)
      → Inserted s id (x ∷ xs) fs (sched_insert s id)
  unfolding sched_insert
  insert_behind x xs fs stop d f links tail =
      rw (ne, stop, no_prev, next)
        (record {
          links =
              append-Seg e2 s.head (x ∷ xs) (id ∷ fs) id sched_id_invalid
                (Seg-relink e1 s.head x xs m id parts.0
                  (Seg-set_next s.entries id m s.head (x ∷ xs) m fresh.0 first))
                (
                  refl,
                  rw (here, set_next_self s.entries id m)
                      (Seg-set_next e1 prev id m fs sched_id_invalid (Distinct-last_of x xs fs d)
                        (Seg-set_next s.entries id m m fs sched_id_invalid fresh.1 second)),
                );
          tail = new_tail fs parts.1 second tail;
          tasks =
              SameTasks-trans (set_next-SameTasks s.entries id m) (set_next-SameTasks e1 prev id);
        })
    where
      prev : ℕ
      prev = last_of x xs

      split : (m : ℕ) × Seg s.entries s.head (x ∷ xs) m × Seg s.entries m fs sched_id_invalid
      split = Seg-append s.entries s.head (x ∷ xs) fs sched_id_invalid links

      m : ℕ
      m = split.0

      first : Seg s.entries s.head (x ∷ xs) m
      first = split.1

      second : Seg s.entries m fs sched_id_invalid
      second = split.2

      e1 : ℕ → Entry
      e1 = set_next s.entries id m

      e2 : ℕ → Entry
      e2 = set_next e1 prev id

      parts : Distinct (x ∷ xs) × Distinct fs
      parts = Distinct-append (x ∷ xs) fs d

      fresh : Fresh id (x ∷ xs) × Fresh id fs
      fresh = Fresh-append id (x ∷ xs) fs f

      ne : (s.head == sched_id_invalid) ≡ false
      ne = rw links.0 (ne→== x sched_id_invalid d.0)

      no_prev : (last_of x xs == sched_id_invalid) ≡ false
      no_prev = ne→== (last_of x xs) sched_id_invalid (last_of-valid x xs parts.0)

      next : (s.entries (last_of x xs)).next_entry ≡ m
      next = Seg-last_of s.entries s.head x xs m first

      here : e2 id ≡ e1 id
      here = set_next_ne e1 prev id id (Fresh-last_of id x xs fresh.0)

      new_tail :
          (gs : List ℕ)
          → Distinct gs
          → Seg s.entries m gs sched_id_invalid
          → s.tail ≡ last_of x (xs ++ gs)
          → (if m == sched_id_invalid then id else s.tail) ≡ last_of id gs
      new_tail [] dg seg tl = rw seg
      new_tail (y ∷ ys) dg seg tl =
          rw (seg.0, ne→== y sched_id_invalid dg.0) (tl ∙ last_of-append x y xs ys)
