-- ===== src/Sched/Lists.antt =====
-- Lists of ids: without repetition, split at the first one that fails a test.
use chamelio.Common.{refl, List, [], ◌∷◌, ℕ, Bool, ◌++◌, ◌≢◌, if◌then◌else◌, ◌≡◌, Bool-cases, inl}
use chamelio.Common.{ap, inr}
use chamelio.Sched.Defs.{sched_id_invalid}

abbrev pub Fresh : ℕ → List ℕ → Type 0
Fresh i [] = Unit
Fresh i (x ∷ xs) = (i ≢ x) × Fresh i xs

-- No id occurs twice, and none is the mark of the end.
abbrev pub Distinct : List ℕ → Type 0
Distinct [] = Unit
Distinct (x ∷ xs) = (x ≢ sched_id_invalid) × Fresh x xs × Distinct xs

abbrev pub last_of : ℕ → List ℕ → ℕ
last_of d [] = d
last_of d (x ∷ xs) = last_of x xs

abbrev pub front_of : List ℕ → ℕ
front_of [] = sched_id_invalid
front_of (x ∷ xs) = x

abbrev pub before : (ℕ → Bool) → List ℕ → List ℕ
before test [] = []
before test (x ∷ xs) = if test x then x ∷ before test xs else []

abbrev pub from : (ℕ → Bool) → List ℕ → List ℕ
from test [] = []
from test (x ∷ xs) = if test x then from test xs else x ∷ xs

pub before-from : (test : ℕ → Bool) (ids : List ℕ) → before test ids ++ from test ids ≡ ids
before-from test [] = refl
before-from test (x ∷ xs) = elim (Bool-cases (test x)) [
  | inl e ↦ rw e (ap (λ r. x ∷ r) (before-from test xs))
  | inr e ↦ rw e
]

pub Fresh-last_of : (i x : ℕ) (xs : List ℕ) → Fresh i (x ∷ xs) → i ≢ last_of x xs
Fresh-last_of i x [] f = f.0
Fresh-last_of i x (y ∷ ys) f = Fresh-last_of i y ys f.1

pub Fresh-append : (i : ℕ) (xs ys : List ℕ) → Fresh i (xs ++ ys) → Fresh i xs × Fresh i ys
Fresh-append i [] ys f = (tt, f)
Fresh-append i (x ∷ xs) ys f = let r = Fresh-append i xs ys f.1 in ((f.0, r.0), r.1)

pub append-Fresh : (i : ℕ) (xs ys : List ℕ) → Fresh i xs → Fresh i ys → Fresh i (xs ++ ys)
append-Fresh i [] ys f g = g
append-Fresh i (x ∷ xs) ys f g = (f.0, append-Fresh i xs ys f.1 g)

-- The last of the first part is not in the second.
pub Distinct-last_of :
    (x : ℕ) (xs ys : List ℕ) → Distinct ((x ∷ xs) ++ ys) → Fresh (last_of x xs) ys
Distinct-last_of x [] ys d = d.1
Distinct-last_of x (y ∷ zs) ys d = Distinct-last_of y zs ys d.2

pub Distinct-append : (xs ys : List ℕ) → Distinct (xs ++ ys) → Distinct xs × Distinct ys
Distinct-append [] ys d = (tt, d)
Distinct-append (x ∷ xs) ys d =
    let r = Distinct-append xs ys d.2 in ((d.0, (Fresh-append x xs ys d.1).0, r.0), r.1)

pub last_of-valid : (x : ℕ) (xs : List ℕ) → Distinct (x ∷ xs) → last_of x xs ≢ sched_id_invalid
last_of-valid x [] d = d.0
last_of-valid x (y ∷ ys) d = last_of-valid y ys d.2

pub last_of-append : (d y : ℕ) (xs ys : List ℕ) → last_of d (xs ++ y ∷ ys) ≡ last_of y ys
last_of-append d y [] ys = refl
last_of-append d y (x ∷ xs) ys = last_of-append x y xs ys
