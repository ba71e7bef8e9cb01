-- ===== src/Queue/Tests.antt =====
-- A two-slot queue of eight-byte slots, and the theorems at it.
use chamelio.Common.{ltb, if◌then◌else◌, ◌-◌, ◌≤◌, ◌≢◌, ℕ, zero, suc, ◌+◌, ◌*◌, ◌<◌, ◌≡◌, refl}
use chamelio.Common.{arith, none, some, ◌∷◌, [], ◌++◌}
use chamelio.Queue.Contents.{IsQueue, contents, send, recv, init-IsQueue}
use chamelio.Queue.Defs.{Equeue, Dqueue, Slots, equeue_init, dqueue_init, advance}
use chamelio.Queue.Recv.{recv_refines}
use chamelio.Queue.Send.{send_refines}

abbrev free_slots : Slots ℕ
free_slots = record { type = λ _. 0; entry = λ _. 0 }

abbrev producer : Equeue
producer = record { tail = 0; nelems = 2; elsize = 8; off = 64 }

abbrev consumer : Dqueue
consumer = record { head = 0; nelems = 2; elsize = 8; off = 64 }

-- The slot at offset 8 holds an entry of type 5.
abbrev one_slot : Slots ℕ
one_slot = record { type = elim [ zero ↦ 0 | suc n ↦ 5 ]; entry = λ _. 70 }

abbrev later_consumer : Dqueue
later_consumer = record { head = 8; nelems = 2; elsize = 8; off = 64 }

empty-IsQueue : IsQueue producer consumer free_slots 0 0
unfolding equeue_init dqueue_init
empty-IsQueue =
    init-IsQueue free_slots 2 8 64 (omega arith) (omega arith) (omega arith) (λ k lt. refl)

one-IsQueue : IsQueue producer later_consumer one_slot 1 1
one-IsQueue = record {
  same_nelems = refl;
  same_elsize = refl;
  elsize_pos = omega arith;
  fits = omega arith;
  head_slot = omega arith;
  count = omega arith;
  head_at = refl;
  tail_at = refl;
  used = used;
  unused = unused;
}
  where
    used : (k : ℕ) → k < 1 → one_slot.type ((if ltb (1 + k) 2 then 1 + k else 1 + k - 2) * 8) ≢ 0
    used zero lt e = omega arith
    used (suc k) lt e = absurd (omega arith)

    unused :
        (k : ℕ)
        → 1 ≤ k
        → k < 2
        → one_slot.type ((if ltb (1 + k) 2 then 1 + k else 1 + k - 2) * 8) ≡ 0
    unused zero le lt = absurd (omega arith)
    unused (suc zero) le lt = refl
    unused (suc (suc k)) le lt = absurd (omega arith)

advance_wraps : (advance 2 8 0 ≡ 8) × (advance 2 8 8 ≡ 0)
unfolding advance
advance_wraps = (refl, refl)

send_refines_example :
    (0 < 2
      → (p' : Equeue) × (m' : Slots ℕ) × (send producer free_slots 5 70 ≡ some (p', m'))
        × IsQueue p' consumer m' 0 1
        × (contents m' 2 8 0 1 ≡ [] ++ ((5, 70) ∷ [])))
    × (◌≡◌ {A = ℕ} 0 2 → send producer free_slots 5 70 ≡ none)
send_refines_example =
    send_refines producer consumer free_slots 0 0 empty-IsQueue 5 70 (omega arith)

recv_refines_example :
    (◌≡◌ {A = ℕ} 1 0 → recv later_consumer one_slot ≡ none)
    × ((b : ℕ)
        → ◌≡◌ {A = ℕ} 1 (suc b)
        → (x : ℕ × ℕ) × (q' : Dqueue) × (m' : Slots ℕ) × (recv later_consumer one_slot
            ≡ some (x, q', m'))
          × IsQueue producer q' m' 0 b
          × ((5, 70) ∷ [] ≡ x ∷ contents m' 2 8 0 b))
recv_refines_example = recv_refines producer later_consumer one_slot 1 1 one-IsQueue
