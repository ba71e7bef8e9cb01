-- ===== src/Tomgr/Down.antt =====
-- heapify_down of tomgr.c turns a heap with one entry too high in the tree into a heap.
use chamelio.Common.{ℕ, ◌<◌, ◌≡◌, ◌≤◌, arith, ◌-◌, inl, ◌≢◌, ◌⊎◌, inr, suc, Bool-cases, ◌==◌}
use chamelio.Common.{==→eq, ap, ==→ne, sym, zero, refl}
use chamelio.Tomgr.Defs.{smallest_of, heapify_down, HeapEntry, Tomgr, parent, left, right, swap}
use chamelio.Tomgr.Up.{Sifted, Sifted-swap}

-- Only the edges below `i` may be out of order.
pub record DownInv (h : ℕ → HeapEntry) (n i : ℕ) : Type 0 where
  pub edges : (c : ℕ) → 0 < c → c < n → parent c ≢ i → (h (parent c)).to ≤ (h c).to
  pub bridged : (c : ℕ) → 0 < c → c < n → parent c ≡ i → 0 < i → (h (parent i)).to ≤ (h c).to

-- What `smallest_of` finds: `i` itself, or the child with the earliest timeout, which is below it.
record IsSmallest (h : ℕ → HeapEntry) (n i s : ℕ) : Type 0 where
  place : (s ≡ i) ⊎ ((s < n) × (0 < s) × (parent s ≡ i) × ((h s).to < (h i).to))
  least : (c : ℕ) → 0 < c → c < n → parent c ≡ i → (h s).to ≤ (h c).to

child_cases : (c i : ℕ) → 0 < c → parent c ≡ i → (c ≡ left i) ⊎ (c ≡ right i)
child_cases c i p e = ground arith

least_at :
    (h : ℕ → HeapEntry) (k i c : ℕ)
    → (h k).to ≤ (h (left i)).to
    → (h k).to ≤ (h (right i)).to
    → 0 < c
    → parent c ≡ i
    → (h k).to ≤ (h c).to
least_at h k i c l r p e = elim (child_cases c i p e) [ inl a ↦ rw a l | inr b ↦ rw b r ]

smallest_of-IsSmallest : (m : Tomgr) (i : ℕ) → IsSmallest m.heap m.size i (smallest_of m i)
unfolding smallest_of
smallest_of-IsSmallest m i = record {
  place = ground arith;
  least = λ c p q e. elim (child_cases c i p e) [
    | inl a ↦ let q' = rw a at q in rw a (ground arith)
    | inr b ↦ let q' = rw b at q in rw b (ground arith)
  ];
}

swap-DownInv :
    (m : Tomgr) (i s : ℕ)
    → DownInv m.heap m.size i
    → (s < m.size) × (0 < s) × (parent s ≡ i) × ((m.heap s).to < (m.heap i).to)
    → ((c : ℕ) → 0 < c → c < m.size → parent c ≡ i → (m.heap s).to ≤ (m.heap c).to)
    → DownInv (swap m i s).heap (swap m i s).size s
unfolding swap
swap-DownInv m i s v child least = record {
  edges = λ c p q ne. ground (arith, v.edges c, v.bridged s, v.bridged c, least c);
  bridged = λ c p q e up. ground (arith, v.edges c, v.edges s);
}

pub size_of-swap : (m : Tomgr) (a b : ℕ) → (swap m a b).size ≡ m.size
unfolding swap
size_of-swap m a b = refl

pub heapify_down-Sifted :
    (fuel : ℕ) (m : Tomgr) (i : ℕ)
    → m.size - i < fuel
    → DownInv m.heap m.size i
    → Sifted m.heap m.size (heapify_down fuel m i)
unfolding heapify_down
heapify_down-Sifted zero m i f v = absurd (omega arith)
heapify_down-Sifted (suc fuel) m i f v =
    let s = smallest_of m i in
    let found = smallest_of-IsSmallest m i in
    elim (Bool-cases (s == i)) [
      | inl settled ↦
          let e = ==→eq s i settled in
          let least = found.least in
          rw settled (record {
            heap = λ c p q. ground (arith, v.edges c p q, least c p q, ap (λ k. (m.heap k).to) e);
            same = λ w. refl;
            size = refl;
          })
      | inr lower ↦ elim found.place [
        | inl e ↦ absurd (==→ne s i lower e)
        | inr (inside, pos, above, below) ↦
            let fewer : (swap m i s).size - s < fuel = omega (arith, size_of-swap m i s) in
            let v' = swap-DownInv m i s v (inside, pos, above, below) found.least in
            let rest = heapify_down-Sifted fuel (swap m i s) s fewer v' in
            rw lower (Sifted-swap m i s _ (omega arith) inside (λ e. ==→ne s i lower (sym e)) rest)
      ]
    ]
