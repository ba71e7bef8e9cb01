-- ===== src/Tomgr/Up.antt =====
-- heapify_up of tomgr.c turns a heap with one entry too low in the tree into a heap.
use chamelio.Common.{ℕ, ◌<◌, ◌≡◌, ◌≢◌, arith, suc, ◌≤◌, ◌∙◌, Bool-cases, ltb, ◌&&◌, inl, inr}
use chamelio.Common.{zero, refl}
use chamelio.Tomgr.Defs.{swap, heapify_up, HeapEntry, Tomgr, parent}
use chamelio.Tomgr.Order.{IsHeap, SameEntries, swapped, swapped-SameEntries}

-- Only the edge above `i` may be out of order.
pub record UpInv (h : ℕ → HeapEntry) (n i : ℕ) : Type 0 where
  pub inside : i < n
  pub edges : (c : ℕ) → 0 < c → c < n → c ≢ i → (h (parent c)).to ≤ (h c).to
  pub bridged : (c : ℕ) → 0 < c → c < n → parent c ≡ i → 0 < i → (h (parent i)).to ≤ (h c).to

-- What a walk over the heap leaves: a heap of the same size with the same entries.
pub record Sifted (h : ℕ → HeapEntry) (n : ℕ) (m : Tomgr) : Type 0 where
  pub heap : IsHeap m.heap n
  pub same : SameEntries m.heap h n
  pub size : m.size ≡ n

pub Sifted-swap :
    (m : Tomgr) (a b : ℕ) (m' : Tomgr)
    → a < m.size
    → b < m.size
    → a ≢ b
    → Sifted (swap m a b).heap (swap m a b).size m'
    → Sifted m.heap m.size m'
unfolding swap
Sifted-swap m a b m' la lb ne s = record {
  heap = s.heap;
  same = λ w. s.same w ∙ swapped-SameEntries m.heap a b m.size la lb ne w;
  size = s.size;
}

swapped-UpInv :
    (h : ℕ → HeapEntry) (n i : ℕ)
    → UpInv h n i
    → 0 < i
    → (h i).to < (h (parent i)).to
    → UpInv (swapped h i (parent i)) n (parent i)
swapped-UpInv h n i v pos below = record {
  inside = let q = v.inside in omega (arith, q);
  edges = λ c p q ne. ground (arith, v.edges c, v.bridged c);
  bridged = λ c p q e up. ground (arith, v.edges c, v.edges (parent i), v.bridged c);
}

pub heapify_up-Sifted :
    (fuel : ℕ) (m : Tomgr) (i : ℕ)
    → i < fuel
    → UpInv m.heap m.size i
    → Sifted m.heap m.size (heapify_up fuel m i)
unfolding heapify_up swap
heapify_up-Sifted zero m i f v = absurd (omega arith)
heapify_up-Sifted (suc fuel) m i f v =
    elim (Bool-cases (ltb 0 i && ltb (m.heap i).to (m.heap (parent i)).to)) [
      | inl lower ↦
          let pos : 0 < i = ground arith in
          let below : (m.heap i).to < (m.heap (parent i)).to = ground arith in
          let inside = v.inside in
          let rest =
            heapify_up-Sifted fuel (swap m i (parent i)) (parent i) (omega arith)
              (swapped-UpInv m.heap m.size i v pos below) in
          rw lower (Sifted-swap m i (parent i) _ inside (omega arith) (λ e. omega (arith, e)) rest)
      | inr settled ↦
          rw settled (record {
            heap = λ c p q. ground (arith, v.edges c p q);
            same = λ w. refl;
            size = refl;
          })
    ]
