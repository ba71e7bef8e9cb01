-- ===== src/Probe/Defs.antt =====
-- The loops with open addressing that chamelio/netvirt/netvirt_table.c and
use chamelio.Common.{zero, suc, none, some, true, false, ℕ, Bool, if◌then◌else◌, Option, ◌<◌, ◌≡◌}
use chamelio.Common.{◌+◌, ◌||◌, ◌==◌}

-- chamelio/arp/arp.c share, over the keys of the places.

-- What a table has to say about its keys. A key that is not free can be entered.
pub record Keyed (K : Type 0) : Type 0 where
  pub size : ℕ
  pub is_same : K → K → Bool
  pub is_free : K → Bool
  pub hash : K → ℕ
  pub hash_lt : (k : K) → hash k < size
  pub same_eq : (a b : K) → is_same a b ≡ true → a ≡ b
  pub same_refl : (a : K) → is_same a a ≡ true

module _ {K : Type 0} (t : Keyed K) where
  abbrev pub next_place : ℕ → ℕ
  next_place h = if h + 1 == t.size then 0 else h + 1

  -- The lookup: the key, or a free place.
  unfoldable pub find : (keys : ℕ → K) (k : K) (n h : ℕ) → Option ℕ
  find keys k zero h = none
  find keys k (suc n) h =
      let rest = find keys k n (next_place h) in
      if t.is_same (keys h) k then some h else if t.is_free (keys h) then none else rest

  -- The place where the key is entered: a free one, or its own.
  unfoldable pub place : (keys : ℕ → K) (k : K) (n h : ℕ) → Option ℕ
  place keys k zero h = none
  place keys k (suc n) h =
      let rest = place keys k n (next_place h) in
      if t.is_free (keys h) || t.is_same (keys h) k then some h else rest

  abbrev pub lookup : (keys : ℕ → K) (k : K) → Option ℕ
  lookup keys k = find keys k t.size (t.hash k)

  abbrev pub entry_place : (keys : ℕ → K) (k : K) → Option ℕ
  entry_place keys k = place keys k t.size (t.hash k)

  -- Every key that is in the table is found where it is.
  abbrev pub IsProbed : (ℕ → K) → Type 0
  IsProbed keys = (i : ℕ) → i < t.size → t.is_free (keys i) ≡ false → lookup keys (keys i) ≡ some i
