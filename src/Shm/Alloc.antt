-- ===== src/Shm/Alloc.antt =====
-- What shmalloc_alloc takes out of the free list.
use chamelio.Common.{[], none, some, true, ◌∷◌, ℕ, List, Bool, ◌%◌, ◌+◌, Option, ◌<◌, ◌≡◌, ◌^◌}
use chamelio.Common.{◌≤◌, ◌⊎◌, not, ◌||◌, refl, false, inl, inr, ◌-◌, Bool-cases, arith, ◌==◌}
use chamelio.Common.{◌&&◌}
use chamelio.Shm.Bytes.{IsSmall, Within, covers, inside}
use chamelio.Shm.Defs.{Block, shmalloc_align, align_up, split_block, is_fit, behind, first_fit}
use chamelio.Shm.Defs.{Allocator, shmalloc_alloc}

-- The block is aligned and as long as asked for, and with the blocks that stay free it holds the
-- bytes that were free.
pub record Taken (size length : ℕ) (bs : List Block) (b : Block) (bs' : List Block) : Type 0 where
  pub aligned : b.off % shmalloc_align ≡ 0
  pub len : b.len ≡ length
  pub fits : b.off + b.len ≤ size
  pub within : Within size bs'
  pub bytes : (x : ℕ) → covers bs x ≡ inside b x + covers bs' x

-- No block has room for the length behind its aligned start.
abbrev pub NoFit : ℕ → List Block → Type 0
NoFit length [] = Unit {0}
NoFit length (b ∷ bs) = (b.off + b.len < align_up b.off + length) × NoFit length bs

abbrev pub Answers :
    (size length : ℕ) (bs : List Block) → Option (Block × List Block) → Bool → Type 0
Answers size length bs none full = (full ≡ true) ⊎ NoFit length bs
Answers size length bs (some (b, bs')) full = Taken size length bs b bs'

-- One of two calls of `malloc` fails.
abbrev pub no_memory : (mallocs : ℕ → Bool) (n : ℕ) → Bool
no_memory mallocs n = not (mallocs n) || not (mallocs (n + 1))

module _ (mallocs : ℕ → Bool) (size n length : ℕ) (small : IsSmall size) (short : length < 2 ^ 64)
    (whole : length % shmalloc_align ≡ 0) where
  split_block-Answers :
      (b : Block) (bs : List Block)
      → b.off + b.len ≤ size
      → Within size bs
      → is_fit length b ≡ true
      → Answers size length (b ∷ bs) (split_block mallocs n length b bs).1 (no_memory mallocs n)
  unfolding split_block is_fit covers
  split_block-Answers b bs le w fit =
      let prefix_len = align_up b.off - b.off in
      let suffix_len = b.len - prefix_len - length in
      elim (Bool-cases (prefix_len == 0 && suffix_len == 0)) [
        | inl exact ↦ rw exact (record {
          aligned = ground arith;
          len = ground arith;
          fits = le;
          within = w;
          bytes = λ x. refl;
        })
        | inr over ↦ elim (Bool-cases (not (mallocs n))) [
          | inl failed ↦ rw (over, failed) (inl refl)
          | inr one ↦ elim (Bool-cases (prefix_len == 0)) [
            | inl start ↦
                rw (over, one, start)
                  (record {
                    aligned = ground arith;
                    len = refl;
                    fits = ground arith;
                    within = (ground arith, w);
                    bytes = λ x. ground arith;
                  })
            | inr inner ↦ elim (Bool-cases (suffix_len == 0)) [
              | inl end ↦
                  rw (over, one, inner, end)
                    (record {
                      aligned = ground arith;
                      len = refl;
                      fits = ground arith;
                      within = (ground arith, w);
                      bytes = λ x. ground arith;
                    })
              | inr middle ↦ elim (Bool-cases (mallocs (n + 1))) [
                | inr failed ↦ rw (over, one, inner, middle, failed) (inl refl)
                | inl two ↦
                    rw (over, one, inner, middle, two)
                      (record {
                        aligned = ground arith;
                        len = refl;
                        fits = ground arith;
                        within = (ground arith, (ground arith, w));
                        bytes = λ x. ground arith;
                      })
              ]
            ]
          ]
        ]
      ]

  behind-Answers :
      (b : Block) (bs : List Block) (r : ℕ × Option (Block × List Block))
      → b.off + b.len ≤ size
      → is_fit length b ≡ false
      → Answers size length bs r.1 (no_memory mallocs n)
      → Answers size length (b ∷ bs) (behind b r).1 (no_memory mallocs n)
  unfolding behind is_fit covers
  behind-Answers b bs (k, none) le over (inl failed) = inl failed
  behind-Answers b bs (k, none) le over (inr no_fit) = inr (ground arith, no_fit)
  behind-Answers b bs (k, some (taken, rest)) le over t = record {
    aligned = t.aligned;
    len = t.len;
    fits = t.fits;
    within = (le, t.within);
    bytes = λ x. ground (arith, t.bytes x);
  }

  first_fit-Answers :
      (bs : List Block)
      → Within size bs
      → Answers size length bs (first_fit mallocs n length bs).1 (no_memory mallocs n)
  unfolding first_fit
  first_fit-Answers [] w = inr tt
  first_fit-Answers (b ∷ bs) (le, w) = elim (Bool-cases (is_fit length b)) [
    | inl fit ↦ rw fit (split_block-Answers b bs le w fit)
    | inr over ↦
        rw over
          (behind-Answers b bs (first_fit mallocs n length bs) le over (first_fit-Answers bs w))
  ]

abbrev pub Given : (size length : ℕ) → Allocator → Allocator → Option Block → Type 0
Given size length a a' none =
    (a'.freelist ≡ a.freelist)
    × ((a.mallocs a.n_mallocs ≡ false)
        ⊎ (a.mallocs (a.n_mallocs + 1) ≡ false)
        ⊎ NoFit (align_up length) a.freelist)
Given size length a a' (some b) =
    (a'.mallocs ≡ a.mallocs) × Taken size (align_up length) a.freelist b a'.freelist

given :
    (size length : ℕ) (a : Allocator) (n : ℕ) (r : Option (Block × List Block))
    → Answers size (align_up length) a.freelist r (no_memory a.mallocs a.n_mallocs)
    → let (a', b) = elim r as (λ r. Allocator × Option Block) [
      | none ↦ (record a { n_mallocs = n }, none)
      | some (taken, bs) ↦ (record a { freelist = bs; n_mallocs = n }, some taken)
    ] in
      Given size length a a' b
given size length a n none (inl failed) = (refl, ground arith)
given size length a n none (inr no_fit) = (refl, inr (inr no_fit))
given size length a n (some (taken, bs)) t = (refl, t)

-- From a free list within a small region, an allocation either fails, with the free list unchanged,
-- and then `malloc` fails or no free block has room for the aligned length behind its aligned start;
-- or it returns an aligned block of the region, as long as the aligned length, which holds, together
-- with the blocks that stay free, exactly the bytes that were free.
pub shmalloc_alloc_lem :
    (size length : ℕ) (a : Allocator)
    → IsSmall size
    → Within size a.freelist
    → Given size length a (shmalloc_alloc a length).0 (shmalloc_alloc a length).1
unfolding shmalloc_alloc
shmalloc_alloc_lem size length a small w =
    given size length a (first_fit a.mallocs a.n_mallocs (align_up length) a.freelist).0
      (first_fit a.mallocs a.n_mallocs (align_up length) a.freelist).1
      (first_fit-Answers a.mallocs size a.n_mallocs (align_up length) small (omega arith)
        (omega arith) a.freelist w)
