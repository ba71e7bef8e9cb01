-- ===== src/Shm/Free.antt =====
-- What shmalloc_free and merge_items put into the free list.
use chamelio.Common.{refl, [], inl, inr, ◌∷◌, ℕ, List, ◌+◌, ◌≤◌, ◌≡◌, Bool-cases, u64, ltb, ◌==◌}
use chamelio.Common.{arith}
use chamelio.Shm.Bytes.{IsSmall, Within, covers, inside}
use chamelio.Shm.Defs.{Block, merge_next, merge_items, free_after, free_into, block}

-- The free list holds the bytes of `bs` and those of the handle.
pub record Freed (size : ℕ) (handle : Block) (bs bs' : List Block) : Type 0 where
  pub within : Within size bs'
  pub bytes : (x : ℕ) → covers bs' x ≡ inside handle x + covers bs x

module _ (size : ℕ) (small : IsSmall size) where
  merge_next-Freed :
      (sh : Block) (bs : List Block)
      → sh.off + sh.len ≤ size
      → Within size bs
      → Freed size sh bs (merge_next sh bs)
  unfolding merge_next covers
  merge_next-Freed sh [] le w = record { within = (le, tt); bytes = λ x. refl }
  merge_next-Freed sh (b ∷ bs) le (fits, w) = elim (Bool-cases (u64 (sh.off + sh.len) == b.off)) [
    | inl joined ↦ rw joined (record { within = (ground arith, w); bytes = λ x. ground arith })
    | inr apart ↦ rw apart (record { within = (le, (fits, w)); bytes = λ x. refl })
  ]

  merge_items-Freed :
      (sh_prev sh : Block) (bs : List Block)
      → sh_prev.off + sh_prev.len ≤ size
      → sh.off + sh.len ≤ size
      → Within size bs
      → Freed size sh (sh_prev ∷ bs) (merge_items sh_prev sh bs)
  unfolding merge_items covers
  merge_items-Freed sh_prev sh bs p q w =
      elim (Bool-cases (u64 (sh_prev.off + sh_prev.len) == sh.off)) [
        | inl joined ↦
            let both = block sh_prev.off (u64 (sh_prev.len + sh.len)) in
            let m = merge_next-Freed both bs (ground arith) w in
            rw joined (record { within = m.within; bytes = λ x. ground (arith, m.bytes x) })
        | inr apart ↦
            let m = merge_next-Freed sh bs q w in
            rw apart (record { within = (p, m.within); bytes = λ x. ground (arith, m.bytes x) })
      ]

  module _ (handle : Block) (inner : handle.off + handle.len ≤ size) where
    free_after-Freed :
        (sh_prev : Block) (bs : List Block)
        → sh_prev.off + sh_prev.len ≤ size
        → Within size bs
        → Freed size handle (sh_prev ∷ bs) (free_after sh_prev handle bs)
    unfolding free_after covers
    free_after-Freed sh_prev [] p w = merge_items-Freed sh_prev handle [] p inner w
    free_after-Freed sh_prev (sh ∷ []) p w = merge_items-Freed sh_prev handle (sh ∷ []) p inner w
    free_after-Freed sh_prev (sh ∷ b ∷ bs) p (q, w) = elim (Bool-cases (ltb b.off handle.off)) [
      | inl before ↦
          let m = free_after-Freed sh (b ∷ bs) q w in
          rw before (record { within = (p, m.within); bytes = λ x. ground (arith, m.bytes x) })
      | inr there ↦ rw there (merge_items-Freed sh_prev handle (sh ∷ b ∷ bs) p inner (q, w))
    ]

    pub free_into-Freed :
        (bs : List Block) → Within size bs → Freed size handle bs (free_into handle bs)
    unfolding free_into
    free_into-Freed [] w = merge_next-Freed handle [] inner w
    free_into-Freed (sh ∷ []) w = merge_next-Freed handle (sh ∷ []) inner w
    free_into-Freed (sh ∷ b ∷ bs) (q, w) = elim (Bool-cases (ltb b.off handle.off)) [
      | inl before ↦ rw before (free_after-Freed sh (b ∷ bs) q w)
      | inr there ↦ rw there (merge_next-Freed handle (sh ∷ b ∷ bs) inner (q, w))
    ]
