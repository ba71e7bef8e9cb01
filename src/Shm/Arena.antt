-- ===== src/Shm/Arena.antt =====
-- The region under any sequence of requests.
use chamelio.Common.{zero, suc, refl, [], none, some, ◌∷◌, ℕ, List, Option, ◌%◌, ◌+◌, ◌≡◌, ◌≤◌}
use chamelio.Common.{if◌then◌else◌, arith, ltb, Bool}
use chamelio.Shm.Alloc.{Given, shmalloc_alloc_lem}
use chamelio.Shm.Bytes.{covers, Within, inside, IsSmall}
use chamelio.Shm.Defs.{Allocator, shmalloc_alloc, Block, shmalloc_free, shmalloc_align}
use chamelio.Shm.Defs.{shmalloc_init, block}
use chamelio.Shm.Free.{free_into-Freed}

-- A request, with the number of the block to give back counted from the newest one.
pub data Request : Type 0 where
  take : (length : ℕ) → Request
  give : (k : ℕ) → Request

-- The allocator and the blocks that its callers own, the newest one first.
pub record Arena : Type 0 where
  pub alloc : Allocator
  pub used : List Block

abbrev pub pick : ℕ → List Block → Option (Block × List Block)
pick k [] = none
pick zero (b ∷ bs) = some (b, bs)
pick (suc k) (b ∷ bs) = elim (pick k bs) [ none ↦ none | some (c, rest) ↦ some (c, b ∷ rest) ]

unfoldable pub serve : Arena → Request → Arena
unfolding shmalloc_alloc shmalloc_free
serve s (take length) =
    let (a, r) = shmalloc_alloc s.alloc length in
    elim r [ none ↦ record s { alloc = a } | some b ↦ record { alloc = a; used = b ∷ s.used } ]
serve s (give k) = elim (pick k s.used) [
  | none ↦ s
  | some (b, rest) ↦ record { alloc = shmalloc_free s.alloc b; used = rest }
]

unfoldable pub serve_all : Arena → List Request → Arena
unfolding serve
serve_all s [] = s
serve_all s (q ∷ qs) = serve_all (serve s q) qs

abbrev pub AllAligned : List Block → Type 0
AllAligned [] = Unit {0}
AllAligned (b ∷ bs) = (b.off % shmalloc_align ≡ 0) × AllAligned bs

-- Every byte of the region belongs to exactly one block, free or owned; no other byte does; and
-- owned blocks are aligned.
pub record IsPartition (size : ℕ) (s : Arena) : Type 0 where
  pub free_in : Within size s.alloc.freelist
  pub used_in : Within size s.used
  pub aligned : AllAligned s.used
  pub once : (x : ℕ) → covers s.alloc.freelist x + covers s.used x ≡ (if ltb x size then 1 else 0)

pub record Picked (size : ℕ) (bs : List Block) (b : Block) (rest : List Block) : Type 0 where
  pub fits : b.off + b.len ≤ size
  pub rest_in : Within size rest
  pub aligned : AllAligned rest
  pub bytes : (x : ℕ) → covers bs x ≡ inside b x + covers rest x

PickedOr : ℕ → List Block → Option (Block × List Block) → Type 0
PickedOr size bs none = Unit {0}
PickedOr size bs (some (b, rest)) = Picked size bs b rest

pick_later :
    (size : ℕ) (b : Block) (bs : List Block) (r : Option (Block × List Block))
    → b.off + b.len ≤ size
    → b.off % shmalloc_align ≡ 0
    → PickedOr size bs r
    → PickedOr size (b ∷ bs) (elim r [ none ↦ none | some (c, rest) ↦ some (c, b ∷ rest) ])
unfolding PickedOr covers
pick_later size b bs none le al p = tt
pick_later size b bs (some (c, rest)) le al p = record {
  fits = p.fits;
  rest_in = (le, p.rest_in);
  aligned = (al, p.aligned);
  bytes = λ x. ground (arith, p.bytes x);
}

pick-PickedOr :
    (size k : ℕ) (bs : List Block) → Within size bs → AllAligned bs → PickedOr size bs (pick k bs)
unfolding PickedOr covers
pick-PickedOr size k [] w al = tt
pick-PickedOr size zero (b ∷ bs) (le, w) (ab, al) = record {
  fits = le;
  rest_in = w;
  aligned = al;
  bytes = λ x. refl;
}
pick-PickedOr size (suc k) (b ∷ bs) (le, w) (ab, al) =
    pick_later size b bs (pick k bs) le ab (pick-PickedOr size k bs w al)

serve_take :
    (size length : ℕ) (s : Arena) (a : Allocator) (r : Option Block)
    → IsPartition size s
    → Given size length s.alloc a r
    → IsPartition size (elim r [
      | none ↦ record s { alloc = a }
      | some b ↦ record { alloc = a; used = b ∷ s.used }
    ])
unfolding covers
serve_take size length s a none v (same, why) = record {
  free_in = rw same v.free_in;
  used_in = v.used_in;
  aligned = v.aligned;
  once = λ x. rw same (v.once x);
}
serve_take size length s a (some b) v (same, t) = record {
  free_in = t.within;
  used_in = (t.fits, v.used_in);
  aligned = (t.aligned, v.aligned);
  once = λ x. omega (arith, v.once x, t.bytes x);
}

serve_give :
    (size : ℕ) (s : Arena) (r : Option (Block × List Block))
    → IsSmall size
    → IsPartition size s
    → PickedOr size s.used r
    → IsPartition size (elim r [
      | none ↦ s
      | some (b, rest) ↦ record { alloc = shmalloc_free s.alloc b; used = rest }
    ])
unfolding PickedOr shmalloc_free
serve_give size s none small v p = v
serve_give size s (some (b, rest)) small v p =
    let f = free_into-Freed size small b p.fits s.alloc.freelist v.free_in in
    record {
      free_in = f.within;
      used_in = p.rest_in;
      aligned = p.aligned;
      once = λ x. omega (arith, v.once x, f.bytes x, p.bytes x);
    }

serve-IsPartition :
    (size : ℕ) (s : Arena) (q : Request)
    → IsSmall size
    → IsPartition size s
    → IsPartition size (serve s q)
unfolding serve
serve-IsPartition size s (take length) small v =
    serve_take size length s (shmalloc_alloc s.alloc length).0 (shmalloc_alloc s.alloc length).1 v
      (shmalloc_alloc_lem size length s.alloc small v.free_in)
serve-IsPartition size s (give k) small v =
    serve_give size s (pick k s.used) small v (pick-PickedOr size k s.used v.used_in v.aligned)

serve_all-kept :
    (size : ℕ) (s : Arena) (qs : List Request)
    → IsSmall size
    → IsPartition size s
    → IsPartition size (serve_all s qs)
unfolding serve_all
serve_all-kept size s [] small v = v
serve_all-kept size s (q ∷ qs) small v =
    serve_all-kept size (serve s q) qs small (serve-IsPartition size s q small v)

init-IsPartition :
    (mallocs : ℕ → Bool) (size : ℕ) (a : Allocator)
    → shmalloc_init mallocs size ≡ some a
    → IsPartition size (record { alloc = a; used = [] })
unfolding shmalloc_init covers
init-IsPartition mallocs size a e =
    let list : a.freelist ≡ block 0 size ∷ [] = ground arith in
    record {
      free_in = rw list (omega arith, tt);
      used_in = tt;
      aligned = tt;
      once = λ x. rw list (ground arith);
    }

-- After any requests for blocks and returns of blocks to a new allocator of a region that is not too
-- large, every byte of the region belongs to exactly one block, free or owned, no other byte belongs
-- to a block, and the owned blocks are aligned.
pub serve_all-IsPartition :
    (mallocs : ℕ → Bool) (size : ℕ) (a : Allocator) (qs : List Request)
    → IsSmall size
    → shmalloc_init mallocs size ≡ some a
    → IsPartition size (serve_all (record { alloc = a; used = [] }) qs)
serve_all-IsPartition mallocs size a qs small e =
    serve_all-kept size (record { alloc = a; used = [] }) qs small
      (init-IsPartition mallocs size a e)
