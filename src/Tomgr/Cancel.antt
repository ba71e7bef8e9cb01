-- ===== src/Tomgr/Cancel.antt =====
-- tomgr_cancel of tomgr.c: the last heap entry takes the place of the cancelled one and goes up or
-- down from there.
use chamelio.Common.{suc, inl, inr, refl, true, false, ℕ, update, ◌<◌, ◌+◌, ◌-◌, ◌≡◌, arith}
use chamelio.Common.{lt→ltb, le→ltb, ◌≤◌, ap, Bool-cases, ◌⊎◌, ltb, ◌≢◌, ◌&&◌, leb, ◌||◌, not}
use chamelio.Common.{◌==◌, ==→eq, ltb→lt, ltb→le}
use chamelio.Tomgr.Defs.{Tomgr, cancel_at, tomgr_cancel, HeapEntry, set_heap_idx, to_invalid}
use chamelio.Tomgr.Defs.{parent}
use chamelio.Tomgr.Down.{DownInv, heapify_down-Sifted}
use chamelio.Tomgr.Ops.{shrink_tally}
use chamelio.Tomgr.Order.{IsHeap, tally, tally-suc, tally_zero}
use chamelio.Tomgr.Up.{Sifted, UpInv, heapify_up-Sifted}

-- The heap entry at place `i` is gone.
pub record Cancelled (m : Tomgr) (i : ℕ) (m' : Tomgr) : Type 0 where
  pub heap : IsHeap m'.heap m'.size
  pub fewer : m'.size + 1 ≡ m.size
  pub holds : (w : HeapEntry → ℕ) → tally w m'.heap m'.size + w (m.heap i) ≡ tally w m.heap m.size

-- The heap once the last entry stands at place `i`.
abbrev replaced : Tomgr → ℕ → Tomgr
replaced m i = record m {
  heap = update m.heap i (m.heap (m.size - 1));
  entries = set_heap_idx m.entries (m.heap (m.size - 1)).idx i;
  size = m.size - 1;
}

tally-replaced :
    (m : Tomgr) (i : ℕ) (w : HeapEntry → ℕ)
    → i < m.size
    → tally w (replaced m i).heap (m.size - 1) + w (m.heap i) ≡ tally w m.heap m.size
tally-replaced m i w lt =
    let s = shrink_tally w m.heap i (m.size - 1) (omega arith) in
    let n : tally w m.heap (suc (m.size - 1)) ≡ tally w m.heap m.size =
      ap (tally w m.heap) (omega arith) in
    omega (arith, s, n)

Sifted-Cancelled :
    (m : Tomgr) (i : ℕ) (m' : Tomgr)
    → i < m.size
    → Sifted (replaced m i).heap (replaced m i).size m'
    → Cancelled m i m'
Sifted-Cancelled m i m' lt s =
    let size = s.size in
    record {
      heap = rw size s.heap;
      fewer = omega (arith, size);
      holds = λ w. rw size (let t = tally-replaced m i w lt in omega (arith, t, s.same w));
    }

module _ (m : Tomgr) (i : ℕ) (h : IsHeap m.heap m.size) (lt : i < m.size - 1) where
  replaced-UpInv :
      ((replaced m i).heap i).to < ((replaced m i).heap (parent i)).to
      → 0 < i
      → UpInv (replaced m i).heap (replaced m i).size i
  replaced-UpInv below pos = record {
    inside = lt;
    edges = λ c p q ne. ground (arith, h c, h i, below);
    bridged = λ c p q up z. ground (arith, h c, h i);
  }

  replaced-DownInv :
      (0 < i → ((replaced m i).heap (parent i)).to ≤ (m.heap (m.size - 1)).to)
      → DownInv (replaced m i).heap (replaced m i).size i
  replaced-DownInv above = record {
    edges = λ c p q ne. ground (arith, h c, above);
    bridged = λ c p q up z. ground (arith, h c, h i);
  }

  cancel_at-Cancelled : Cancelled m i (cancel_at m i)
  unfolding cancel_at
  cancel_at-Cancelled =
      let r = replaced m i in
      rw (lt→ltb i r.size lt)
        (elim (Bool-cases (ltb 0 i && ltb (r.heap i).to (r.heap (parent i)).to)) [
          | inl lower ↦ rw lower (
              Sifted-Cancelled m i _ (omega arith) (
                heapify_up-Sifted (i + 1) r i (omega arith)
                  (replaced-UpInv (ground arith) (ground arith))))
          | inr higher ↦ rw higher (
              Sifted-Cancelled m i _ (omega arith) (
                heapify_down-Sifted (r.size + 1) r i (omega arith)
                  (replaced-DownInv (λ p. ground arith))))
        ])

cancel_last :
    (m : Tomgr) (i : ℕ) → IsHeap m.heap m.size → i + 1 ≡ m.size → Cancelled m i (cancel_at m i)
unfolding cancel_at
cancel_last m i h e = rw (le→ltb i (m.size - 1) (omega arith)) (
    Sifted-Cancelled m i _ (omega arith)
      (record { heap = λ c p q. ground (arith, h c); same = λ w. refl; size = refl }))

-- The entry that `tomgr_cancel` cancels, at its place in the heap.
abbrev pub out_of_heap : Tomgr → ℕ → Tomgr
out_of_heap m e = record m { entries = set_heap_idx m.entries e to_invalid }

cancel_only : (m : Tomgr) (i : ℕ) → i < m.size → m.size ≡ 1 → Cancelled m i (record m { size = 0 })
cancel_only m i lt one = record {
  heap = λ c p q. absurd (omega arith);
  fewer = omega arith;
  holds = λ w.
      let top = tally-suc w m.heap 0 in
      let count : tally w m.heap m.size ≡ tally w m.heap (suc 0) =
        ap (tally w m.heap) (omega arith) in
      let at_i : w (m.heap i) ≡ w (m.heap 0) = ap (λ k. w (m.heap k)) (omega arith) in
      omega (arith, top, count, at_i, tally_zero w m.heap);
}

-- In a heap in order, an entry whose place is outside the heap or is another's is refused and
-- the state stays; otherwise the entry at its place leaves the heap, which holds the others, in
-- order.
pub tomgr_cancel_lem :
    (m : Tomgr) (e : ℕ)
    → IsHeap m.heap m.size
    → ((tomgr_cancel m e ≡ (m, false))
        × ((m.size ≤ (m.entries e).heap_idx) ⊎ ((m.heap (m.entries e).heap_idx).idx ≢ e)))
      ⊎ ((m' : Tomgr) × (tomgr_cancel m e ≡ (m', true))
          × ((m.heap (m.entries e).heap_idx).idx ≡ e)
          × Cancelled m (m.entries e).heap_idx m')
unfolding tomgr_cancel
tomgr_cancel_lem m e h =
    let i = (m.entries e).heap_idx in
    elim (Bool-cases (leb m.size i || not ((m.heap i).idx == e))) [
      | inl outside ↦ inl (rw outside, ground arith)
      | inr inside ↦
          let lt : i < m.size = ground arith in
          let own : (m.heap i).idx ≡ e = ground arith in
          inr (elim (Bool-cases (m.size == 1)) [
            | inl one ↦ (
              record (out_of_heap m e) { size = 0 },
              rw (inside, one),
              own,
              let c = cancel_only m i lt (==→eq _ _ one) in
                  record { heap = c.heap; fewer = c.fewer; holds = c.holds },
            )
            | inr more ↦ (
              cancel_at (out_of_heap m e) i,
              rw (inside, more),
              own,
              let c : Cancelled (out_of_heap m e) i (cancel_at (out_of_heap m e) i) =
                    elim (Bool-cases (ltb i (m.size - 1))) [
                      | inl before ↦ cancel_at-Cancelled (out_of_heap m e) i h (ltb→lt _ _ before)
                      | inr last ↦
                          cancel_last (out_of_heap m e) i h (let b = ltb→le _ _ last in omega arith)
                    ] in
                  record { heap = c.heap; fewer = c.fewer; holds = c.holds },
            )
          ])
    ]
