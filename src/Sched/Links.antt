-- ===== src/Sched/Links.antt =====
-- The linked list of the scheduler's entries.
use chamelio.Common.{refl, List, [], ◌∷◌, zero, suc, ℕ, Bool, ◌≡◌, ◌++◌, length, update, ◌<◌}
use chamelio.Common.{update_ne, update_self, sym, arith, ◌==◌, false, ne→==, Bool-cases, inl, inr}
use chamelio.Common.{◌≢◌}
use chamelio.Sched.Defs.{set_next, walk, Entry, sched_id_invalid}
use chamelio.Sched.Lists.{Fresh, Distinct, last_of, before, Fresh-last_of, from, front_of}

-- From `h` on the entries of `xs` follow one another, and the last one leads to `end`.
abbrev pub Seg : (ℕ → Entry) → ℕ → List ℕ → ℕ → Type 0
Seg e h [] end = h ≡ end
Seg e h (x ∷ xs) end = (h ≡ x) × Seg e (e x).next_entry xs end

pub Seg-append :
    (e : ℕ → Entry) (h : ℕ) (xs ys : List ℕ) (end : ℕ)
    → Seg e h (xs ++ ys) end
    → (m : ℕ) × Seg e h xs m × Seg e m ys end
Seg-append e h [] ys end s = (h, refl, s)
Seg-append e h (x ∷ xs) ys end s =
    let (m, a, b) = Seg-append e (e x).next_entry xs ys end s.1 in (m, (s.0, a), b)

pub append-Seg :
    (e : ℕ → Entry) (h : ℕ) (xs ys : List ℕ) (m end : ℕ)
    → Seg e h xs m
    → Seg e m ys end
    → Seg e h (xs ++ ys) end
append-Seg e h [] ys m end a b = rw a b
append-Seg e h (x ∷ xs) ys m end a b = (a.0, append-Seg e (e x).next_entry xs ys m end a.1 b)

-- An entry outside the list does not matter.
pub Seg-update :
    (e : ℕ → Entry) (i : ℕ) (v : Entry) (h : ℕ) (xs : List ℕ) (end : ℕ)
    → Fresh i xs
    → Seg e h xs end
    → Seg (update e i v) h xs end
Seg-update e i v h [] end f s = s
Seg-update e i v h (x ∷ xs) end f s =
    (s.0, rw (update_ne e i v x (λ p. f.0 (sym p))) (Seg-update e i v _ xs end f.1 s.1))

pub set_next_self : (e : ℕ → Entry) (i n : ℕ) → (set_next e i n i).next_entry ≡ n
unfolding set_next
set_next_self e i n = rw (update_self e i (record (e i) { next_entry = n }))

pub set_next_ne : (e : ℕ → Entry) (i n j : ℕ) → j ≢ i → set_next e i n j ≡ e j
unfolding set_next
set_next_ne e i n j ne = update_ne e i (record (e i) { next_entry = n }) j ne

pub Seg-set_next :
    (e : ℕ → Entry) (i n h : ℕ) (xs : List ℕ) (end : ℕ)
    → Fresh i xs
    → Seg e h xs end
    → Seg (set_next e i n) h xs end
unfolding set_next
Seg-set_next e i n h xs end f s = Seg-update e i (record (e i) { next_entry = n }) h xs end f s

-- Only the links matter.
pub Seg-agree :
    (e e' : ℕ → Entry)
    → ((j : ℕ) → (e' j).next_entry ≡ (e j).next_entry)
    → (h : ℕ) (xs : List ℕ) (end : ℕ) → Seg e h xs end
    → Seg e' h xs end
Seg-agree e e' same h [] end s = s
Seg-agree e e' same h (x ∷ xs) end s =
    (s.0, rw (same x) (Seg-agree e e' same (e x).next_entry xs end s.1))

-- Another end.
pub Seg-relink :
    (e : ℕ → Entry) (h x : ℕ) (xs : List ℕ) (end end' : ℕ)
    → Distinct (x ∷ xs)
    → Seg e h (x ∷ xs) end
    → Seg (set_next e (last_of x xs) end') h (x ∷ xs) end'
unfolding set_next
Seg-relink e h x [] end end' d s = (s.0, rw (update_self e x (record (e x) { next_entry = end' })))
Seg-relink e h x (y ∷ ys) end end' d s = (
  s.0,
  rw
      (update_ne e (last_of y ys) (record (e (last_of y ys)) { next_entry = end' }) x
        (Fresh-last_of x y ys d.1))
      (Seg-relink e (e x).next_entry y ys end end' d.2 s.1),
)

pub Seg-last_of :
    (e : ℕ → Entry) (h x : ℕ) (xs : List ℕ) (end : ℕ)
    → Seg e h (x ∷ xs) end
    → (e (last_of x xs)).next_entry ≡ end
Seg-last_of e h x [] end s = s.1
Seg-last_of e h x (y ∷ ys) end s = Seg-last_of e (e x).next_entry y ys end s.1

pub Seg-front_of :
    (e : ℕ → Entry) (h : ℕ) (xs : List ℕ) → Seg e h xs sched_id_invalid → h ≡ front_of xs
Seg-front_of e h [] s = s
Seg-front_of e h (x ∷ xs) s = s.0

-- The walk stops at the first entry that fails the test.
pub walk_lem :
    (fuel : ℕ) (e : ℕ → Entry) (test : ℕ → Bool) (prev h : ℕ) (ids : List ℕ)
    → length ids < fuel
    → Distinct ids
    → Seg e h ids sched_id_invalid
    → walk fuel e test prev h ≡ (last_of prev (before test ids), front_of (from test ids))
unfolding walk
walk_lem zero e test prev h ids lt d s = absurd (omega (arith, lt))
walk_lem (suc fuel) e test prev h [] lt d s = rw s
walk_lem (suc fuel) e test prev h (x ∷ xs) lt d s =
    let ne : (x == sched_id_invalid) ≡ false = ne→== x sched_id_invalid d.0 in
    elim (Bool-cases (test x)) [
      | inl p ↦ rw (s.0, ne, p) (walk_lem fuel e test x (e x).next_entry xs (omega arith) d.2 s.1)
      | inr p ↦ rw (s.0, ne, p)
    ]
