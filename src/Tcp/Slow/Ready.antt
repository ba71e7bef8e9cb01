-- ===== src/Tcp/Slow/Ready.antt =====
-- The ring of ready connections is a queue of socket numbers.
use chamelio.Common.{suc, [], none, some, true, inl, inr, ◌∷◌, ◌++◌, ℕ, List, update, ◌≡◌, ◌<◌}
use chamelio.Common.{◌+◌, length, slot_at, ◌≤◌, ◌⊎◌, arith, ◌^◌, ◌≢◌, slot_at-zero, length-snoc}
use chamelio.Common.{Bool-cases, if◌then◌else◌, update_ne, update_self, leb, ◌∙◌, slot_at-lt}
use chamelio.Common.{slot_at-suc}
use chamelio.Tcp.Lookup.{id_invalid}
use chamelio.Tcp.Slow.Listener.{ready_pos, ready_push, ready_drop}
use chamelio.Tcp.Slow.State.{Listener}
use mathlib.Core.Path.{subst}

-- The places from `h` on of a ring of `n` hold the numbers.
abbrev pub Holds : (ℕ → ℕ) → (n h : ℕ) → List ℕ → Type 0
Holds sids n h [] = Unit {0}
Holds sids n h (x ∷ xs) = (sids h ≡ x) × Holds sids n (slot_at n h 1) xs

-- The ring holds the numbers `xs`, the oldest first.
pub record IsReady (l : Listener) (xs : List ℕ) : Type 0 where
  pub active : l.active ≡ true
  pub used : l.ready_used ≡ length xs
  pub room : l.ready_used ≤ l.backlog_len
  pub head_in : l.ready_head < l.backlog_len
  pub small : l.backlog_len < 2 ^ 31
  pub contents : Holds l.ready_sids l.backlog_len l.ready_head xs

Holds-update :
    (sids : ℕ → ℕ) (n h p v : ℕ) (xs : List ℕ)
    → h < n
    → length xs ≤ n
    → ((k : ℕ) → k < length xs → slot_at n h k ≢ p)
    → Holds sids n h xs
    → Holds (update sids p v) n h xs
Holds-update sids n h p v [] lt le ne t = tt
Holds-update sids n h p v (x ∷ xs) lt le ne (e, t) = (
  update_ne sids p v h (rw (slot_at-zero n h lt) at (ne 0 (omega arith))) ∙ e,
  Holds-update sids n (slot_at n h 1) p v xs (slot_at-lt n h 1 lt (omega arith)) (omega arith)
      (λ k b. rw (slot_at-suc n h k lt (omega arith)) (ne (suc k) (omega arith))) t,
)

Holds-snoc :
    (sids : ℕ → ℕ) (n h v : ℕ) (xs : List ℕ)
    → h < n
    → length xs < n
    → Holds sids n h xs
    → Holds (update sids (slot_at n h (length xs)) v) n h (xs ++ v ∷ [])
Holds-snoc sids n h v [] lt le t = (rw (slot_at-zero n h lt) (update_self sids h v), tt)
Holds-snoc sids n h v (x ∷ xs) lt le (e, t) = (
  update_ne sids (slot_at n h (length (x ∷ xs))) v h (ground arith) ∙ e,
  subst (λ p. Holds (update sids p v) n (slot_at n h 1) (xs ++ v ∷ []))
      (slot_at-suc n h (length xs) lt (omega arith))
      (Holds-snoc sids n (slot_at n h 1) v xs (slot_at-lt n h 1 lt (omega arith)) (omega arith) t),
)

-- The ring after a push with room.
pushed : Listener → ℕ → Listener
unfolding ready_pos
pushed l sid = record l {
  ready_sids = update l.ready_sids (ready_pos l) sid;
  ready_used = l.ready_used + 1;
}

pushed-IsReady :
    (l : Listener) (xs : List ℕ) (sid : ℕ)
    → IsReady l xs
    → length xs < l.backlog_len
    → IsReady (pushed l sid) (xs ++ sid ∷ [])
unfolding pushed
pushed-IsReady l xs sid v lt =
    let at : ready_pos l ≡ slot_at l.backlog_len l.ready_head (length xs) =
      unfold ready_pos in ground (arith, v) in
    record {
      active = v.active;
      used = let n = length-snoc xs sid in let u = v.used in omega (arith, n, u);
      room = let u = v.used in omega (arith, u, lt);
      head_in = v.head_in;
      small = v.small;
      contents =
          rw at (Holds-snoc l.ready_sids l.backlog_len l.ready_head sid xs v.head_in lt v.contents);
    }

-- A push on a ring of ready connections with room appends the socket to the queue that the ring
-- holds; a full ring refuses it.
pub ready_push_refines :
    (l : Listener) (xs : List ℕ) (sid : ℕ)
    → IsReady l xs
    → ((l.backlog_len ≡ length xs) × (ready_push l sid ≡ none))
      ⊎ ((l' : Listener) × (length xs < l.backlog_len)
          × (ready_push l sid ≡ some l')
          × IsReady l' (xs ++ sid ∷ []))
unfolding ready_push pushed
ready_push_refines l xs sid v = elim (Bool-cases (leb l.backlog_len l.ready_used)) [
  | inl full ↦ let u = v.used in let r = v.room in inl (ground arith, ground (arith, v.active))
  | inr free ↦
      let u = v.used in
      let lt : length xs < l.backlog_len = ground arith in
      inr (pushed l sid, lt, ground (arith, v.active), pushed-IsReady l xs sid v lt)
]

-- A ring of ready connections that holds a number drops the oldest, which stands at its head,
-- and holds the others.
pub ready_drop_refines :
    (l : Listener) (x : ℕ) (xs : List ℕ)
    → IsReady l (x ∷ xs)
    → (l.ready_sids l.ready_head ≡ x) × IsReady (ready_drop l) xs
unfolding ready_drop
ready_drop_refines l x xs v =
    let u = v.used in
    let r = v.room in
    let n = l.backlog_len in
    let h = l.ready_head in
    (
      v.contents.0,
      record {
        active = v.active;
        used = omega arith;
        room = omega arith;
        head_in = ground (arith, v.head_in);
        small = v.small;
        contents =
            let moved : (if leb n (h + 1) then 0 else h + 1) ≡ slot_at n h 1 =
              let inside = v.head_in in ground arith in
            rw moved (
              Holds-update l.ready_sids n (slot_at n h 1) h id_invalid xs
                (slot_at-lt n h 1 v.head_in (omega arith)) (omega arith)
                (λ k b. let inside = v.head_in in ground arith) v.contents.1);
      },
    )
