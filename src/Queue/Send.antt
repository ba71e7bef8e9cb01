-- ===== src/Queue/Send.antt =====
-- Sending: find the free slot, fill it, hand it over.
use chamelio.Common.{ℕ, suc, ◌*◌, ◌<◌, ◌≡◌, ◌≢◌, refl, ◌∙◌, arith, none, some, [], ◌∷◌, ◌++◌}
use chamelio.Common.{eq→==, ne→==, update, update_ne, update_self, slot_at, slot_at-lt}
use chamelio.Common.{slot_at-zero, slot_at-full, slot_at-add, slot_at-ne}
use chamelio.Queue.Contents.{send, contents, IsQueue, contents_frame, contents-suc}
use chamelio.Queue.Defs.{Equeue, Dqueue, Slots, queue_empty, queue_tail, queue_enqueue}
use chamelio.Queue.Defs.{write_entry}
use chamelio.Queue.Positions.{offset-ne, advance-offset}
use native.Mathlib.Decide.{ℕ_discrete}
use native.Mathlib.Numerals.{add-one}

module _ {D : Type 0} (p : Equeue) (q : Dqueue) (m : Slots D) (h c : ℕ)
    (inv : IsQueue p q m h c) where
  -- Filling a free slot and handing it over.
  sent : ℕ → D → Slots D
  sent ty v = record m { type = update m.type p.tail ty; entry = update m.entry p.tail v }

  send_room :
      (ty : ℕ) (v : D) (lt : c < p.nelems)
      → send p m ty v ≡ some (record p { tail = slot_at p.nelems h (suc c) * p.elsize }, sent ty v)
  unfolding send sent queue_tail queue_enqueue write_entry
  send_room ty v lt = rw (
    eq→== (m.type p.tail) 0 (rw inv.tail_at (inv.unused c (omega arith) lt)),
    inv.tail_at,
    advance-offset p.nelems p.elsize (slot_at p.nelems h c) inv.elsize_pos inv.fits
        (slot_at-lt p.nelems h c inv.head_slot inv.count),
    slot_at-add p.nelems h c 1 inv.head_slot (omega arith),
    add-one c,
  )

  -- The slots of the window keep what they hold.
  sent_keeps :
      (ty : ℕ) (v : D) (k : ℕ)
      → k < p.nelems
      → k ≢ c
      → c < p.nelems
      → ((sent ty v).type (slot_at p.nelems h k * p.elsize)
          ≡ m.type (slot_at p.nelems h k * p.elsize))
        × ((sent ty v).entry (slot_at p.nelems h k * p.elsize)
            ≡ m.entry (slot_at p.nelems h k * p.elsize))
  unfolding sent
  sent_keeps ty v k lt ne lt' =
      let other : slot_at p.nelems h k * p.elsize ≢ p.tail = rw inv.tail_at (
        offset-ne p.elsize _ _ inv.elsize_pos
          (slot_at-ne p.nelems h k c inv.head_slot lt lt' ne)) in
      (update_ne m.type p.tail ty _ other, update_ne m.entry p.tail v _ other)

  sent_at :
      (ty : ℕ) (v : D)
      → ((sent ty v).type (slot_at p.nelems h c * p.elsize) ≡ ty)
        × ((sent ty v).entry (slot_at p.nelems h c * p.elsize) ≡ v)
  unfolding sent
  sent_at ty v = rw (← inv.tail_at) (update_self m.type p.tail ty, update_self m.entry p.tail v)

  sent-IsQueue :
      (ty : ℕ) (v : D)
      → c < p.nelems
      → ty ≢ queue_empty
      → IsQueue (record p { tail = slot_at p.nelems h (suc c) * p.elsize }) q (sent ty v) h (suc c)
  sent-IsQueue ty v lt real = record {
    same_nelems = inv.same_nelems;
    same_elsize = inv.same_elsize;
    elsize_pos = inv.elsize_pos;
    fits = inv.fits;
    head_slot = inv.head_slot;
    count = lt;
    head_at = inv.head_at;
    tail_at = refl;
    used = λ k b. elim (ℕ_discrete k c) [
      | yes e ↦ rw (e, (sent_at ty v).0) real
      | no ne ↦ rw (sent_keeps ty v k (omega arith) ne lt).0 (inv.used k (omega arith))
    ];
    unused = λ k b b'. (sent_keeps ty v k b' (omega arith) lt).0 ∙ inv.unused k (omega arith) b';
  }

  contents-sent :
      (ty : ℕ) (v : D)
      → c < p.nelems
      → contents (sent ty v) p.nelems p.elsize h (suc c)
        ≡ contents m p.nelems p.elsize h c ++ ((ty, v) ∷ [])
  contents-sent ty v lt =
      contents-suc (sent ty v) p.nelems p.elsize h c inv.head_slot lt
      ∙ rw (
        (sent_at ty v).0,
        (sent_at ty v).1,
        contents_frame m (sent ty v) p.nelems p.elsize h c inv.head_slot inv.count
            (λ k b. (sent_keeps ty v k (omega arith) (omega arith) lt).0)
            (λ k b. (sent_keeps ty v k (omega arith) (omega arith) lt).1),
      )

  send_full : (ty : ℕ) (v : D) → c ≡ p.nelems → send p m ty v ≡ none
  unfolding send queue_tail
  send_full ty v full = rw (ne→== (m.type p.tail) queue_empty used_slot)
    where
      first_used : m.type (h * p.elsize) ≢ queue_empty
      first_used =
          rw (slot_at-zero p.nelems h inv.head_slot) at
            (inv.used 0 (let e : h < p.nelems = inv.head_slot in omega arith))

      used_slot : m.type p.tail ≢ queue_empty
      used_slot = rw (inv.tail_at, full, slot_at-full p.nelems h inv.head_slot) first_used

  -- For a type that is not the mark of a free slot: sending to a queue with a free slot succeeds,
  -- appends the entry to what the queue holds and keeps the queue's invariant; sending to a full
  -- queue fails.
  pub send_refines :
      (ty : ℕ) (v : D)
      → ty ≢ queue_empty
      → (c < p.nelems
          → (p' : Equeue) × (m' : Slots D) × (send p m ty v ≡ some (p', m'))
            × IsQueue p' q m' h (suc c)
            × (contents m' p.nelems p.elsize h (suc c)
                ≡ contents m p.nelems p.elsize h c ++ ((ty, v) ∷ [])))
        × (c ≡ p.nelems → send p m ty v ≡ none)
  send_refines ty v real = (
    λ lt. (_, _, send_room ty v lt, sent-IsQueue ty v lt real, contents-sent ty v lt),
    λ full. send_full ty v full,
  )
