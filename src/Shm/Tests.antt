-- ===== src/Shm/Tests.antt =====
-- A region of 1024 bytes, and the theorems about the allocator at it.
use chamelio.Common.{refl, [], some, true, ◌∷◌, ℕ, List, Bool, ◌≡◌, arith}
use chamelio.Shm.Alloc.{Given, shmalloc_alloc_lem}
use chamelio.Shm.Arena.{IsPartition, serve_all, Request, serve_all-IsPartition, take, give}
use chamelio.Shm.Defs.{Allocator, shmalloc_init, block, shmalloc_alloc}

abbrev malloc_succeeds : ℕ → Bool
malloc_succeeds n = true

abbrev region : Allocator
region = record { freelist = block 0 1024 ∷ []; mallocs = malloc_succeeds; n_mallocs = 2 }

region_new : shmalloc_init malloc_succeeds 1024 ≡ some region
unfolding shmalloc_init
region_new = refl

shmalloc_alloc_lem_example :
    Given 1024 100 region (shmalloc_alloc region 100).0 (shmalloc_alloc region 100).1
shmalloc_alloc_lem_example = shmalloc_alloc_lem 1024 100 region (omega arith) (omega arith)

-- Two blocks are taken and given back, the older one first.
abbrev requests : List Request
requests = take 100 ∷ take 1 ∷ give 1 ∷ give 0 ∷ []

serve_all-IsPartition_example :
    IsPartition 1024 (serve_all (record { alloc = region; used = [] }) requests)
serve_all-IsPartition_example =
    serve_all-IsPartition malloc_succeeds 1024 region requests (omega arith) region_new

-- The blocks are not merged, since the second one is put before its predecessor.
left_apart :
    (serve_all (record { alloc = region; used = [] }) requests).alloc.freelist
    ≡ block 128 64 ∷ block 0 128 ∷ block 192 832 ∷ []
unfolding serve_all
left_apart = refl
