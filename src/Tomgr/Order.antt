-- ===== src/Tomgr/Order.antt =====
-- The order of the heap of tomgr.c, and the entries that it holds, whatever their places.
use chamelio.Common.{ℕ, suc, ◌<◌, ◌≡◌, update, ◌+◌, arith, if◌then◌else◌, ◌≢◌, ◌≤◌, ap}
use chamelio.Common.{Bool-cases, ◌==◌, inl, update_ne, ==→eq, sym, ◌∙◌, update_self, inr, ==→ne}
use chamelio.Common.{zero, refl}
use chamelio.Tomgr.Defs.{HeapEntry, parent}

-- No timeout comes before the one of its parent.
abbrev pub IsHeap : (ℕ → HeapEntry) → ℕ → Type 0
IsHeap h n = (c : ℕ) → 0 < c → c < n → (h (parent c)).to ≤ (h c).to

-- The weights of the first `n` heap entries. Two heaps with the same tally under every weight hold
-- the same entries, as often.
pub tally : (HeapEntry → ℕ) → (ℕ → HeapEntry) → ℕ → ℕ
tally w h zero = 0
tally w h (suc n) = w (h n) + tally w h n

abbrev pub SameEntries : (ℕ → HeapEntry) → (ℕ → HeapEntry) → ℕ → Type 0
SameEntries h' h n = (w : HeapEntry → ℕ) → tally w h' n ≡ tally w h n

pub tally_zero : (w : HeapEntry → ℕ) (h : ℕ → HeapEntry) → tally w h 0 ≡ 0
unfolding tally
tally_zero w h = refl

pub tally-suc :
    (w : HeapEntry → ℕ) (h : ℕ → HeapEntry) (n : ℕ) → tally w h (suc n) ≡ w (h n) + tally w h n
unfolding tally
tally-suc w h n = refl

pub tally_ext :
    (w : HeapEntry → ℕ) (h h' : ℕ → HeapEntry) (n : ℕ)
    → ((k : ℕ) → k < n → h' k ≡ h k)
    → tally w h' n ≡ tally w h n
unfolding tally
tally_ext w h h' zero e = refl
tally_ext w h h' (suc n) e =
    let rest = tally_ext w h h' n (λ k lt. e k (omega arith)) in
    let top = ap w (e n (omega arith)) in omega (arith, rest, top)

pub tally-update :
    (w : HeapEntry → ℕ) (h : ℕ → HeapEntry) (i : ℕ) (x : HeapEntry) (n : ℕ)
    → i < n
    → tally w (update h i x) n + w (h i) ≡ tally w h n + w x
unfolding tally
tally-update w h i x zero lt = elim lt [ ]
tally-update w h i x (suc n) lt = elim (Bool-cases (n == i)) [
  | inl here ↦
      let e = ==→eq n i here in
      let below =
        tally_ext w h (update h i x) n (λ k b. update_ne h i x k (λ q. omega (arith, q, e, b))) in
      let top = ap w (ap (update h i x) e ∙ update_self h i x) in
      let old = ap (λ k. w (h k)) e in omega (arith, below, top, old)
  | inr past ↦
      let ne = ==→ne n i past in
      let below = tally-update w h i x n (ground (arith, ne)) in
      let top = ap w (update_ne h i x n ne) in omega (arith, below, top)
]

-- Two entries that change places.
abbrev pub swapped : (ℕ → HeapEntry) → ℕ → ℕ → ℕ → HeapEntry
swapped h a b = update (update h a (h b)) b (h a)

pub swapped_lem :
    (h : ℕ → HeapEntry) (a b k : ℕ)
    → swapped h a b k ≡ (if k == b then h a else if k == a then h b else h k)
swapped_lem h a b k = refl

pub swapped-SameEntries :
    (h : ℕ → HeapEntry) (a b n : ℕ) → a < n → b < n → a ≢ b → SameEntries (swapped h a b) h n
swapped-SameEntries h a b n la lb ne w =
    let one = tally-update w h a (h b) n la in
    let two = tally-update w (update h a (h b)) b (h a) n lb in
    let kept = ap w (update_ne h a (h b) b (λ e. ne (sym e))) in omega (arith, one, two, kept)

-- The root of a heap has the earliest timeout.
root_least_below :
    (fuel : ℕ) (h : ℕ → HeapEntry) (n i : ℕ) → IsHeap h n → i < fuel → i < n → (h 0).to ≤ (h i).to
root_least_below zero h n i heap f p = absurd (omega arith)
root_least_below (suc fuel) h n i heap f p =
    ground (arith, heap i, root_least_below fuel h n (parent i) heap)

pub root_least : (h : ℕ → HeapEntry) (n i : ℕ) → IsHeap h n → i < n → (h 0).to ≤ (h i).to
root_least h n i heap p = root_least_below (suc i) h n i heap (omega arith) p
