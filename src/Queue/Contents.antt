-- ===== src/Queue/Contents.antt =====
-- What the two sides and the slots hold, as a list, and the invariant that ties them.
use chamelio.Common.{ℕ, zero, suc, ◌*◌, ◌^◌, ◌≤◌, ◌<◌, ◌≡◌, ◌≢◌, refl, arith, Option, none, some}
use chamelio.Common.{List, [], ◌∷◌, ◌++◌, slot_at, slot_at-lt, slot_at-zero, slot_at-suc}
use chamelio.Queue.Defs.{equeue_init, dqueue_init, Equeue, Dqueue, Slots, queue_empty, queue_tail}
use chamelio.Queue.Defs.{queue_head, queue_enqueue, queue_dequeue, write_entry}

-- A chain of calls that each may return -1 or NULL.
infixl 5 ◌>>=◌
abbrev pub ◌>>=◌ : {A B : Type 0} → Option A → (A → Option B) → Option B
none >>= k = none
some a >>= k = k a

module _ {D : Type 0} where
  -- How every producer uses its side: find the slot, fill it, hand it over.
  unfoldable pub send : Equeue → Slots D → ℕ → D → Option (Equeue × Slots D)
  send q m type v = queue_tail q m >>= λ pos. queue_enqueue q (write_entry m pos v) type

  -- How every consumer uses its side: find the slot, read it, give it back.
  unfoldable pub recv : Dqueue → Slots D → Option ((ℕ × D) × Dqueue × Slots D)
  recv q m = queue_head q m >>= λ pos.
      queue_dequeue q m >>= λ r. some ((m.type pos, m.entry pos), r.0, r.1)

  -- The entries in the `c` slots from slot `h` on, oldest first.
  abbrev pub contents : Slots D → (n el h c : ℕ) → List (ℕ × D)
  contents m n el h zero = []
  contents m n el h (suc c) =
      (m.type (h * el), m.entry (h * el)) ∷ contents m n el (slot_at n h 1) c

  -- The two sides and the slots hold the `c` entries from slot `h` on.
  pub record IsQueue (p : Equeue) (q : Dqueue) (m : Slots D) (h c : ℕ) : Type 0 where
    pub same_nelems : q.nelems ≡ p.nelems
    pub same_elsize : q.elsize ≡ p.elsize
    pub elsize_pos : 0 < p.elsize
    pub fits : p.elsize * p.nelems < 2 ^ 32
    pub head_slot : h < p.nelems
    pub count : c ≤ p.nelems
    pub head_at : q.head ≡ h * p.elsize
    pub tail_at : p.tail ≡ slot_at p.nelems h c * p.elsize
    pub used : (k : ℕ) → k < c → m.type (slot_at p.nelems h k * p.elsize) ≢ queue_empty
    pub unused :
        (k : ℕ) → c ≤ k → k < p.nelems → m.type (slot_at p.nelems h k * p.elsize) ≡ queue_empty

  -- Slots that the window does not reach do not matter.
  pub contents_frame :
      (m m' : Slots D) (n el h c : ℕ)
      → h < n
      → c ≤ n
      → ((k : ℕ) → k < c → m'.type (slot_at n h k * el) ≡ m.type (slot_at n h k * el))
      → ((k : ℕ) → k < c → m'.entry (slot_at n h k * el) ≡ m.entry (slot_at n h k * el))
      → contents m' n el h c ≡ contents m n el h c
  contents_frame m m' n el h zero p q t e = refl
  contents_frame m m' n el h (suc c) p q t e =
      let rest =
        contents_frame m m' n el (slot_at n h 1) c (slot_at-lt n h 1 p (omega arith)) (omega arith)
          (λ k lt. rw (slot_at-suc n h k p (omega arith)) (t (suc k) (omega arith)))
          (λ k lt. rw (slot_at-suc n h k p (omega arith)) (e (suc k) (omega arith))) in
      let t0 = rw (slot_at-zero n h p) at (t 0 (omega arith)) in
      let e0 = rw (slot_at-zero n h p) at (e 0 (omega arith)) in cc (rest, t0, e0)

  pub contents-suc :
      (m : Slots D) (n el h c : ℕ)
      → h < n
      → c < n
      → contents m n el h (suc c)
        ≡ contents m n el h c ++ ((m.type (slot_at n h c * el), m.entry (slot_at n h c * el)) ∷ [])
  contents-suc m n el h zero p q = rw (slot_at-zero n h p)
  contents-suc m n el h (suc c) p q = rw (
    contents-suc m n el (slot_at n h 1) c (slot_at-lt n h 1 p (omega arith)) (omega arith),
    slot_at-suc n h c p (omega arith),
  )

-- Two new sides over at least one slot, all of them free, with slots of at least one byte and less
-- than 2 ^ 32 bytes in all, are the empty queue.
pub init-IsQueue :
    {D : Type 0} (m : Slots D) (n el off : ℕ)
    → 0 < el
    → 0 < n
    → el * n < 2 ^ 32
    → ((k : ℕ) → k < n → m.type (k * el) ≡ queue_empty)
    → IsQueue (equeue_init n el off) (dqueue_init n el off) m 0 0
unfolding equeue_init dqueue_init
init-IsQueue m n el off pos some_slots fits free = record {
  same_nelems = refl;
  same_elsize = refl;
  elsize_pos = pos;
  fits = fits;
  head_slot = some_slots;
  count = omega arith;
  head_at = omega arith;
  tail_at = rw (slot_at-zero n 0 some_slots) (omega arith);
  used = λ k lt. absurd (omega arith);
  unused = λ k le lt. rw (let e : slot_at n 0 k ≡ k = ground arith in e) (free k lt);
}
