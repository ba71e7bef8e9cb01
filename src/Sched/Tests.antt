-- ===== src/Sched/Tests.antt =====
-- A scheduler with one and with two tasks, and the theorems at it.
use chamelio.Common.{refl, [], ◌∷◌, ℕ, update, arith, ◌≡◌}
use chamelio.Sched.Add.{Added, sched_add-Added}
use chamelio.Sched.Defs.{unused, Entry, Scheduler, sched_init, sched_add, sched_id_invalid, enter}
use chamelio.Sched.Defs.{sched_insert, sched_remove, walk, set_next, walk_fuel}
use chamelio.Sched.Order.{IsSched, sched_init-IsSched}

first-Added : Added sched_init 3 50 10 [] (sched_add sched_init 3 50 10)
first-Added =
    sched_add-Added sched_init 3 50 10 [] (λ e. omega (arith, e)) (omega arith) sched_init-IsSched

abbrev waiting : ℕ → Entry
waiting =
    update
      (update (λ i. unused) 3
        (record { id = 3; next_entry = 5; priority = 40; avail = 10; opaque = 0 }))
      5 (record { id = 5; next_entry = sched_id_invalid; priority = 60; avail = 7; opaque = 0 })

-- Socket 3 waits for time 40, socket 5 for time 60.
abbrev two_tasks : Scheduler
two_tasks = record { entries = waiting; vtime = 0; head = 3; tail = 5 }

two_tasks-IsSched : IsSched two_tasks (3 ∷ 5 ∷ [])
two_tasks-IsSched = record {
  links = (refl, (refl, refl));
  distinct =
      ((λ e. omega (arith, e)), ((λ e. omega (arith, e)), tt), ((λ e. omega (arith, e)), tt, tt));
  sorted = (refl, (omega arith, tt), (refl, tt, tt));
  idle = λ i f. let ne3 = f.0 in let ne5 = f.1.0 in ground (arith, ne3, ne5);
  tail = refl;
}

-- Socket 5 moves to the front, and its amount grows.
sched_add-Added_example : Added two_tasks 5 20 1 (3 ∷ 5 ∷ []) (sched_add two_tasks 5 20 1)
sched_add-Added_example =
    sched_add-Added two_tasks 5 20 1 (3 ∷ 5 ∷ []) (λ e. omega (arith, e)) (omega arith)
      two_tasks-IsSched

-- The runs of test_sched_add_existing and test_sched_add_existing_same_priority: tasks 1 and 2 are
-- added, and then task 1 again, with a later time or with its own.
abbrev again_at : ℕ → Scheduler
again_at time = sched_add (sched_add (sched_add sched_init 1 100 10) 2 200 20) 1 time 5

task_behind : (again_at 300).head ≡ 2
unfolding sched_add enter sched_insert sched_remove walk sched_init set_next walk_fuel
task_behind = refl

-- The head is task 2 with its own time and amount, not those of task 1.
head_kept : ((again_at 300).entries 2).priority ≡ 200
unfolding sched_add enter sched_insert sched_remove walk sched_init set_next walk_fuel
head_kept = refl

amount_added : ((again_at 300).entries 1).avail ≡ 15
unfolding sched_add enter sched_insert sched_remove walk sched_init set_next walk_fuel
amount_added = refl

link_kept : ((again_at 100).entries 1).next_entry ≡ 2
unfolding sched_add enter sched_insert sched_remove walk sched_init set_next walk_fuel
link_kept = refl
