-- ===== src/Shm/Defs.antt =====
-- shmalloc.c: first fit in a list of free blocks, with 64-byte alignment.
use chamelio.Common.{[], none, some, ◌∷◌, ℕ, List, Bool, u64, Option, if◌then◌else◌, ◌+◌, ◌&&◌}
use chamelio.Common.{◌-◌, ltb, ◌/◌, leb, ◌==◌, ◌*◌, not}

--
-- A handle is its offset and length; its address is the base plus the offset. The free list holds the
-- handles themselves, so that a handle is in the list or with its owner, and a handle that is merged
-- is gone. Whether `malloc` succeeds is a sequence of answers in the state.

-- `struct shm_handle`
pub record Block : Type 0 where
  pub off : ℕ
  pub len : ℕ

abbrev pub block : ℕ → ℕ → Block
block off len = record { off = off; len = len }

-- `struct shm_allocator`
pub record Allocator : Type 0 where
  pub freelist : List Block
  pub mallocs : ℕ → Bool
  pub n_mallocs : ℕ

-- SHMALLOC_ALIGN and ALIGN_UP
abbrev pub shmalloc_align : ℕ
shmalloc_align = 64

abbrev pub align_up : ℕ → ℕ
align_up x = u64 (x + (shmalloc_align - 1)) / shmalloc_align * shmalloc_align

-- Both calls of `malloc` have to succeed.
unfoldable pub shmalloc_init : (mallocs : ℕ → Bool) (len : ℕ) → Option Allocator
shmalloc_init mallocs len =
    if mallocs 0 && mallocs 1
    then some (record { freelist = block 0 len ∷ []; mallocs = mallocs; n_mallocs = 2 })
    else none

-- The block has room behind its aligned start.
unfoldable pub is_fit : (length : ℕ) → Block → Bool
is_fit length b =
    let prefix_len = align_up b.off - b.off in
    leb b.off (align_up b.off) && leb prefix_len b.len && leb (u64 (prefix_len + length)) b.len

-- The fitting block is taken whole or split; `n` calls of `malloc` were made before.
unfoldable pub split_block :
    (mallocs : ℕ → Bool) (n length : ℕ) → Block → List Block → ℕ × Option (Block × List Block)
split_block mallocs n length b bs =
    let aligned_off = align_up b.off in
    let prefix_len = aligned_off - b.off in
    let suffix_len = b.len - prefix_len - length in
    let taken = block aligned_off length in
    let suffix = block (aligned_off + length) suffix_len in
    if prefix_len == 0 && suffix_len == 0
    then (n, some (b, bs))
    else if not (mallocs n)
    then (n + 1, none)
    else if prefix_len == 0
    then (n + 1, some (taken, suffix ∷ bs))
    else if suffix_len == 0
    then (n + 1, some (taken, block b.off prefix_len ∷ bs))
    else if mallocs (n + 1)
    then (n + 2, some (taken, block b.off prefix_len ∷ suffix ∷ bs))
    else (n + 2, none)

-- The block and the free list before the place where the loop stands.
unfoldable pub behind : Block → ℕ × Option (Block × List Block) → ℕ × Option (Block × List Block)
behind b (n, none) = (n, none)
behind b (n, some (taken, bs)) = (n, some (taken, b ∷ bs))

-- The loop of shmalloc_alloc.
unfoldable pub first_fit :
    (mallocs : ℕ → Bool) (n length : ℕ) → List Block → ℕ × Option (Block × List Block)
unfolding is_fit split_block behind
first_fit mallocs n length [] = (n, none)
first_fit mallocs n length (b ∷ bs) =
    let rest = first_fit mallocs n length bs in
    if is_fit length b then split_block mallocs n length b bs else behind b rest

unfoldable pub shmalloc_alloc : Allocator → (length : ℕ) → Allocator × Option Block
unfolding first_fit
shmalloc_alloc a length =
    let (n, r) = first_fit a.mallocs a.n_mallocs (align_up length) a.freelist in
    elim r [
      | none ↦ (record a { n_mallocs = n }, none)
      | some (taken, bs) ↦ (record a { freelist = bs; n_mallocs = n }, some taken)
    ]

-- The second half of merge_items: the successor of `sh` is merged into it.
unfoldable pub merge_next : (sh : Block) → List Block → List Block
merge_next sh [] = sh ∷ []
merge_next sh (b ∷ bs) =
    if u64 (sh.off + sh.len) == b.off then block sh.off (u64 (sh.len + b.len)) ∷ bs else sh ∷ b ∷ bs

-- merge_items with a predecessor.
unfoldable pub merge_items : (sh_prev sh : Block) → List Block → List Block
unfolding merge_next
merge_items sh_prev sh bs =
    if u64 (sh_prev.off + sh_prev.len) == sh.off
    then merge_next (block sh_prev.off (u64 (sh_prev.len + sh.len))) bs
    else sh_prev ∷ merge_next sh bs

-- The search of shmalloc_free once there is a predecessor.
unfoldable pub free_after : (sh_prev handle : Block) → List Block → List Block
unfolding merge_items
free_after sh_prev handle [] = merge_items sh_prev handle []
free_after sh_prev handle (sh ∷ []) = merge_items sh_prev handle (sh ∷ [])
free_after sh_prev handle (sh ∷ b ∷ bs) =
    let rest = free_after sh handle (b ∷ bs) in
    if ltb b.off handle.off then sh_prev ∷ rest else merge_items sh_prev handle (sh ∷ b ∷ bs)

-- shmalloc_free from the start of the list, with no predecessor.
unfoldable pub free_into : (handle : Block) → List Block → List Block
unfolding merge_next free_after
free_into handle [] = merge_next handle []
free_into handle (sh ∷ []) = merge_next handle (sh ∷ [])
free_into handle (sh ∷ b ∷ bs) =
    if ltb b.off handle.off then free_after sh handle (b ∷ bs) else merge_next handle (sh ∷ b ∷ bs)

unfoldable pub shmalloc_free : Allocator → (handle : Block) → Allocator
unfolding free_into
shmalloc_free a handle = record a { freelist = free_into handle a.freelist }
