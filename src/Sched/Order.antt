-- ===== src/Sched/Order.antt =====
-- The scheduler's invariant: the list holds the sockets that wait, in the order of their priorities.
use chamelio.Common.{refl, List, [], ◌∷◌, ℕ, ◌≤◌, ◌≡◌, ◌≢◌, update, arith, ltb, Bool, Bool-cases}
use chamelio.Common.{inl, update_ne, ◌++◌, inr, sym}
use chamelio.Sched.Defs.{Entry, Scheduler, sched_id_invalid, sched_init}
use chamelio.Sched.Insert.{SameTasks}
use chamelio.Sched.Links.{Seg}
use chamelio.Sched.Lists.{Fresh, before, Distinct, Fresh-append, last_of, from, before-from}
use chamelio.Sched.Lists.{append-Fresh}

abbrev pub AtLeast : (ℕ → Entry) → ℕ → List ℕ → Type 0
AtLeast e p [] = Unit
AtLeast e p (x ∷ xs) = (p ≤ (e x).priority) × AtLeast e p xs

-- Each entry carries its own id, and no entry behind it has a smaller priority.
abbrev pub Sorted : (ℕ → Entry) → List ℕ → Type 0
Sorted e [] = Unit
Sorted e (x ∷ xs) = ((e x).id ≡ x) × AtLeast e (e x).priority xs × Sorted e xs

pub record IsSched (s : Scheduler) (ids : List ℕ) : Type 0 where
  pub links : Seg s.entries s.head ids sched_id_invalid
  pub distinct : Distinct ids
  pub sorted : Sorted s.entries ids
  pub idle : (i : ℕ) → Fresh i ids → (s.entries i).id ≡ sched_id_invalid
  pub tail : s.tail ≡ last_of sched_id_invalid ids

AtLeast-update :
    (e : ℕ → Entry) (i : ℕ) (v : Entry) (p : ℕ) (xs : List ℕ)
    → Fresh i xs
    → AtLeast e p xs
    → AtLeast (update e i v) p xs
AtLeast-update e i v p [] f a = tt
AtLeast-update e i v p (x ∷ xs) f a =
    (rw (update_ne e i v x (λ q. f.0 (sym q))) a.0, AtLeast-update e i v p xs f.1 a.1)

pub Sorted-update :
    (e : ℕ → Entry) (i : ℕ) (v : Entry) (xs : List ℕ)
    → Fresh i xs
    → Sorted e xs
    → Sorted (update e i v) xs
Sorted-update e i v [] f a = tt
Sorted-update e i v (x ∷ xs) f a =
    rw (update_ne e i v x (λ q. f.0 (sym q)))
      (a.0, AtLeast-update e i v _ xs f.1 a.1, Sorted-update e i v xs f.1 a.2)

module _ (e e' : ℕ → Entry) (same_id : (j : ℕ) → (e' j).id ≡ (e j).id)
    (same_priority : (j : ℕ) → (e' j).priority ≡ (e j).priority) where
  AtLeast-agree : (p : ℕ) (xs : List ℕ) → AtLeast e p xs → AtLeast e' p xs
  AtLeast-agree p [] a = tt
  AtLeast-agree p (x ∷ xs) a = (rw (same_priority x) a.0, AtLeast-agree p xs a.1)

  pub Sorted-agree : (xs : List ℕ) → Sorted e xs → Sorted e' xs
  Sorted-agree [] a = tt
  Sorted-agree (x ∷ xs) a =
      rw (same_id x, same_priority x) (a.0, AtLeast-agree _ xs a.1, Sorted-agree xs a.2)

pub Sorted-same :
    {e e' : ℕ → Entry} (same : SameTasks e e') (xs : List ℕ) → Sorted e xs → Sorted e' xs
Sorted-same {e} {e'} same xs a = Sorted-agree e e' same.same_id same.same_priority xs a

AtLeast-trans : (e : ℕ → Entry) (p q : ℕ) (xs : List ℕ) → p ≤ q → AtLeast e q xs → AtLeast e p xs
AtLeast-trans e p q [] le a = tt
AtLeast-trans e p q (x ∷ xs) le a = (omega (arith, le, a.0), AtLeast-trans e p q xs le a.1)

-- Where `id` goes: behind every entry of a smaller priority.
abbrev pub place : (ℕ → Entry) → ℕ → ℕ → List ℕ → List ℕ
place e p id ids =
    before (λ i. ltb (e i).priority p) ids ++ id ∷ from (λ i. ltb (e i).priority p) ids

pub Fresh-place :
    (e : ℕ → Entry) (p id i : ℕ) (ids : List ℕ)
    → Fresh i (place e p id ids)
    → (i ≢ id) × Fresh i ids
Fresh-place e p id i ids f =
    let test : ℕ → Bool = λ j. ltb (e j).priority p in
    let r = Fresh-append i (before test ids) (id ∷ from test ids) f in
    (
      r.1.0,
      rw (← before-from test ids) (append-Fresh i (before test ids) (from test ids) r.0 r.1.1),
    )

pub place-Fresh :
    (e : ℕ → Entry) (p id i : ℕ) (ids : List ℕ) → i ≢ id → Fresh i ids → Fresh i (place e p id ids)
place-Fresh e p id i ids ne f =
    let test : ℕ → Bool = λ j. ltb (e j).priority p in
    let r = Fresh-append i (before test ids) (from test ids) (rw (before-from test ids) f) in
    append-Fresh i (before test ids) (id ∷ from test ids) r.0 (ne, r.1)

module _ (e : ℕ → Entry) (p id : ℕ) where
  pub Distinct-place :
      (ids : List ℕ)
      → id ≢ sched_id_invalid
      → Fresh id ids
      → Distinct ids
      → Distinct (place e p id ids)
  Distinct-place [] ne f d = (ne, tt, tt)
  Distinct-place (x ∷ xs) ne f d = elim (Bool-cases (ltb (e x).priority p)) [
    | inl t ↦
        rw t (d.0, place-Fresh e p id x xs (λ q. f.0 (sym q)) d.1, Distinct-place xs ne f.1 d.2)
    | inr t ↦ rw t (ne, f, d)
  ]

  AtLeast-place :
      (q : ℕ) (ids : List ℕ)
      → (e id).priority ≡ p
      → q ≤ p
      → AtLeast e q ids
      → AtLeast e q (place e p id ids)
  AtLeast-place q [] here le a = (omega (arith, here, le), tt)
  AtLeast-place q (x ∷ xs) here le a = elim (Bool-cases (ltb (e x).priority p)) [
    | inl t ↦ rw t (a.0, AtLeast-place q xs here le a.1)
    | inr t ↦ rw t (omega (arith, here, le), a)
  ]

  pub Sorted-place :
      (ids : List ℕ)
      → (e id).id ≡ id
      → (e id).priority ≡ p
      → Sorted e ids
      → Sorted e (place e p id ids)
  Sorted-place [] own here a = (own, tt, tt)
  Sorted-place (x ∷ xs) own here a = elim (Bool-cases (ltb (e x).priority p)) [
    | inl t ↦
        rw t (
          a.0,
          AtLeast-place (e x).priority xs here (ground arith) a.1,
          Sorted-place xs own here a.2,
        )
    | inr t ↦ rw t (
      own,
      (ground arith, AtLeast-trans e (e id).priority (e x).priority xs (ground arith) a.1),
      a,
    )
  ]

-- Nothing waits at first.
pub sched_init-IsSched : IsSched sched_init []
unfolding sched_init
sched_init-IsSched = record {
  links = refl;
  distinct = tt;
  sorted = tt;
  idle = λ i f. refl;
  tail = refl;
}
