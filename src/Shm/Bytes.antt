-- ===== src/Shm/Bytes.antt =====
-- Which bytes a list of blocks holds.
use chamelio.Common.{[], ◌∷◌, List, ℕ, if◌then◌else◌, ◌+◌, leb, ◌≤◌, ◌&&◌, ◌^◌, ltb}
use chamelio.Shm.Defs.{Block, shmalloc_align}

abbrev pub inside : Block → ℕ → ℕ
inside b x = if leb b.off x && ltb x (b.off + b.len) then 1 else 0

-- How many of the blocks hold the byte.
unfoldable pub covers : List Block → ℕ → ℕ
covers [] x = 0
covers (b ∷ bs) x = inside b x + covers bs x

abbrev pub Within : ℕ → List Block → Type 0
Within size [] = Unit {0}
Within size (b ∷ bs) = (b.off + b.len ≤ size) × Within size bs

-- The region is so small that no offset in it wraps when it is aligned.
abbrev pub IsSmall : ℕ → Type 0
IsSmall size = size + shmalloc_align ≤ 2 ^ 64
