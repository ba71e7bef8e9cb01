-- ===== src/Common/Arrays.antt =====
-- C arrays as functions of the index, bytes of memory as functions of the address.
use Prim.Native.Nat.{ℕ, suc, ◌+◌, ◌-◌, ◌≤◌, ◌<◌}
use chamelio.Common.Tests.{ltb, leb, ◌==◌, if◌then◌else◌}
use mathlib.Core.Bool.{◌&&◌}
use mathlib.Core.List.{List, [], ◌∷◌, ◌++◌}
use mathlib.Core.Logic.{◌≢◌, ◌⊎◌}
use mathlib.Core.Path.{◌≡◌}
use native.Mathlib.Omega.{arith}

module _ {ℓ} {A : Type ℓ} where
  -- `a[i] = v`
  abbrev pub update : (ℕ → A) → ℕ → A → ℕ → A
  update a i v j = if j == i then v else a j

  pub update_self : (a : ℕ → A) (i : ℕ) (v : A) → update a i v i ≡ v
  update_self a i v = ground arith

  pub update_ne : (a : ℕ → A) (i : ℕ) (v : A) (j : ℕ) → j ≢ i → update a i v j ≡ a j
  update_ne a i v j h = ground arith

  abbrev pub length : List A → ℕ
  length [] = 0
  length (x ∷ xs) = suc (length xs)

-- The bytes of a memory region, by their offset.
abbrev pub Bytes : Type 0
Bytes = ℕ → ℕ

-- `memcpy(dst + doff, src + soff, n)`
abbrev pub copy : Bytes → ℕ → Bytes → ℕ → ℕ → Bytes
copy dst doff src soff n j =
    if leb doff j && ltb j (doff + n) then src (soff + (j - doff)) else dst j

pub copy_inside :
    (dst : Bytes) (doff : ℕ) (src : Bytes) (soff n k : ℕ)
    → k < n
    → copy dst doff src soff n (doff + k) ≡ src (soff + k)
copy_inside dst doff src soff n k h = ground arith

pub copy_outside :
    (dst : Bytes) (doff : ℕ) (src : Bytes) (soff n j : ℕ)
    → (j < doff) ⊎ (doff + n ≤ j)
    → copy dst doff src soff n j ≡ dst j
copy_outside dst doff src soff n j h = ground arith

pub length-snoc {ℓ} : {A : Type ℓ} (xs : List A) (x : A) → length (xs ++ x ∷ []) ≡ length xs + 1
length-snoc [] x = omega arith
length-snoc (y ∷ xs) x = omega (arith, length-snoc xs x)
