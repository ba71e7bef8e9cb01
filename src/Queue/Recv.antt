-- ===== src/Queue/Recv.antt =====
-- Receiving: find the oldest slot, read it, give it back.
use chamelio.Common.{ℕ, suc, ◌*◌, ◌≤◌, ◌<◌, ◌≡◌, ◌≢◌, refl, ◌∙◌, arith, none, some, ◌∷◌, eq→==}
use chamelio.Common.{ne→==, update, update_ne, update_self, slot_at, slot_at-lt, slot_at-zero}
use chamelio.Common.{slot_at-full, slot_at-suc, slot_at-ne}
use chamelio.Queue.Contents.{recv, contents, IsQueue, contents_frame}
use chamelio.Queue.Defs.{Equeue, Dqueue, Slots, queue_empty, queue_head, queue_dequeue}
use chamelio.Queue.Positions.{offset-ne, advance-offset}
use native.Mathlib.Decide.{dec_lt}

module _ {D : Type 0} (p : Equeue) (q : Dqueue) (m : Slots D) (h c : ℕ)
    (inv : IsQueue p q m h c) where
  -- Giving the oldest slot back.
  received : Slots D
  received = record m { type = update m.type q.head queue_empty }

  recv-some :
      (lt : 0 < c)
      → recv q m
        ≡ some (
          (m.type (h * p.elsize), m.entry (h * p.elsize)),
          record q { head = slot_at p.nelems h 1 * p.elsize },
          received,
        )
  unfolding recv received queue_head queue_dequeue
  recv-some lt = rw (
    inv.same_nelems,
    inv.same_elsize,
    inv.head_at,
    ne→== (m.type (h * p.elsize)) 0 (rw (slot_at-zero p.nelems h inv.head_slot) at (inv.used 0 lt)),
    advance-offset p.nelems p.elsize h inv.elsize_pos inv.fits inv.head_slot,
  )

  recv-none : c ≡ 0 → recv q m ≡ none
  unfolding recv queue_head
  recv-none e = rw (
      eq→== (m.type q.head) queue_empty (
        rw (inv.head_at, ← slot_at-zero p.nelems h inv.head_slot)
          (inv.unused 0 (omega arith) (omega (arith, inv.head_slot)))))

  received_keeps :
      (k : ℕ)
      → k < p.nelems
      → 0 < k
      → received.type (slot_at p.nelems h k * p.elsize) ≡ m.type (slot_at p.nelems h k * p.elsize)
  unfolding received
  received_keeps k lt pos =
      let apart = slot_at-ne p.nelems h k 0 inv.head_slot lt (omega arith) (omega arith) in
      let other : slot_at p.nelems h k * p.elsize ≢ q.head = rw inv.head_at (
        offset-ne p.elsize _ _ inv.elsize_pos
          (rw (slot_at-zero p.nelems h inv.head_slot) at apart)) in
      update_ne m.type q.head queue_empty _ other

  entry-received : (j : ℕ) → received.entry j ≡ m.entry j
  unfolding received
  entry-received j = refl

  received_at : received.type (h * p.elsize) ≡ queue_empty
  unfolding received
  received_at = rw (← inv.head_at) (update_self m.type q.head queue_empty)

  module _ (b : ℕ) (some_left : c ≡ suc b) where
    received-IsQueue :
        IsQueue p
          (record q { head = slot_at p.nelems h 1 * p.elsize })
          received
          (slot_at p.nelems h 1)
          b
    received-IsQueue = record {
      same_nelems = inv.same_nelems;
      same_elsize = inv.same_elsize;
      elsize_pos = inv.elsize_pos;
      fits = inv.fits;
      head_slot = slot_at-lt p.nelems h 1 inv.head_slot (omega arith);
      count = let d : c ≤ p.nelems = inv.count in omega arith;
      head_at = refl;
      tail_at =
          inv.tail_at
          ∙ rw (some_left, slot_at-suc p.nelems h b inv.head_slot (omega (arith, inv.count)));
      used = λ k lt.
          rw
            (
              slot_at-suc p.nelems h k inv.head_slot (omega (arith, inv.count)),
              received_keeps (suc k) (omega (arith, inv.count)) (omega arith),
            )
            (inv.used (suc k) (omega arith));
      unused = λ k le lt. elim (dec_lt (suc k) p.nelems) [
        | yes lt' ↦
            rw (slot_at-suc p.nelems h k inv.head_slot lt, received_keeps (suc k) lt' (omega arith))
              (inv.unused (suc k) (omega arith) lt')
        | no e ↦ rw (slot_at-suc p.nelems h k inv.head_slot lt) (
            let e' : suc k ≡ p.nelems = omega arith in
            rw (e', slot_at-full p.nelems h inv.head_slot) received_at)
      ];
    }

    contents-received :
        contents m p.nelems p.elsize h c
        ≡ (m.type (h * p.elsize), m.entry (h * p.elsize))
          ∷ contents received p.nelems p.elsize (slot_at p.nelems h 1) b
    contents-received = rw (
      some_left,
      contents_frame m received p.nelems p.elsize (slot_at p.nelems h 1) b
          (slot_at-lt p.nelems h 1 inv.head_slot (omega (arith, inv.count)))
          (omega (arith, inv.count))
          (λ k lt.
            rw (slot_at-suc p.nelems h k inv.head_slot (omega (arith, inv.count)))
              (received_keeps (suc k) (omega (arith, inv.count)) (omega arith)))
          (λ k lt. entry-received _),
    )

  -- Of a queue that satisfies the invariant: receiving from the empty queue fails; from any other it
  -- succeeds and gives the oldest entry, keeps the invariant, and the queue then holds the other
  -- entries in their order.
  pub recv_refines :
      (c ≡ 0 → recv q m ≡ none)
      × ((b : ℕ)
          → c ≡ suc b
          → (x : ℕ × D) × (q' : Dqueue) × (m' : Slots D) × (recv q m ≡ some (x, q', m'))
            × IsQueue p q' m' (slot_at p.nelems h 1) b
            × (contents m p.nelems p.elsize h c
                ≡ x ∷ contents m' p.nelems p.elsize (slot_at p.nelems h 1) b))
  recv_refines = (
    recv-none,
    λ b e. (_, _, _, recv-some (omega arith), received-IsQueue b e, contents-received b e),
  )
