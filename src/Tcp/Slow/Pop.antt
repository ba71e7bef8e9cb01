-- ===== src/Tcp/Slow/Pop.antt =====
-- The loop of tcp_listener_ready_pop of tcp_listener.c.
use chamelio.Common.{refl, [], none, some, false, inl, inr, ◌∷◌, ℕ, Bool, List, ◌≡◌, not, Option}
use chamelio.Common.{if◌then◌else◌, ◌≢◌, ◌==◌, update_self, ◌&&◌, Bool-cases, ==→eq, arith}
use chamelio.Common.{update_ne, zero, suc, true, length, ◌≤◌, ◌||◌}
use chamelio.Tcp.Lookup.{id_invalid}
use chamelio.Tcp.Slow.Listener.{listener_backlog_put, drop_child, ready_drop, is_accept_pending}
use chamelio.Tcp.Slow.Listener.{ready_pop_loop, tcp_listener_ready_pop}
use chamelio.Tcp.Slow.Ready.{IsReady, ready_drop_refines}
use chamelio.Tcp.Slow.State.{Slow, set_listener, Listener, tcp_sock_meta}
use chamelio.Tcp.Sock.{Sock}

-- The number is one of a connection of the listener that waits for `accept`.
abbrev pub is_waiting : Slow → (listener_id sid : ℕ) → Bool
is_waiting c listener_id sid =
    not (sid == id_invalid)
    && (tcp_sock_meta c sid).listener_id == listener_id
    && is_accept_pending (c.socks sid).state

-- The first of the numbers that is, and the numbers behind it.
abbrev pub first_waiting : Slow → (listener_id : ℕ) → List ℕ → Option ℕ
first_waiting c listener_id [] = none
first_waiting c listener_id (x ∷ xs) =
    if is_waiting c listener_id x then some x else first_waiting c listener_id xs

abbrev pub behind_first : Slow → (listener_id : ℕ) → List ℕ → List ℕ
behind_first c listener_id [] = []
behind_first c listener_id (x ∷ xs) =
    if is_waiting c listener_id x then xs else behind_first c listener_id xs

-- Every number in the list that is not the invalid one is the number of its socket.
abbrev pub AreNumbers : (ℕ → Sock) → List ℕ → Type 0
AreNumbers socks [] = Unit {0}
AreNumbers socks (x ∷ xs) = (x ≢ id_invalid → (socks x).id ≡ x) × AreNumbers socks xs

-- The first connection that waits is the result, the ring holds the numbers behind it, and no socket
-- changes.
abbrev pub HandsOut : Slow → (listener_id : ℕ) → List ℕ → Slow × Option ℕ → Type 0
HandsOut c listener_id xs (c', r) =
    (r ≡ first_waiting c listener_id xs)
    × IsReady (c'.listeners listener_id) (behind_first c listener_id xs)
    × (c'.socks ≡ c.socks)

-- The listener with its first place taken out, and without the child that stood there.
abbrev dropped : Slow → (listener_id : ℕ) → Slow
dropped c listener_id = set_listener c listener_id (ready_drop (c.listeners listener_id))

abbrev dropped_child : Slow → (sid listener_id : ℕ) → Slow
dropped_child c sid listener_id = drop_child (dropped c listener_id) sid listener_id

dropped-IsReady :
    (c : Slow) (listener_id x : ℕ) (xs : List ℕ)
    → IsReady (c.listeners listener_id) (x ∷ xs)
    → IsReady ((dropped c listener_id).listeners listener_id) xs
dropped-IsReady c listener_id x xs v =
    rw (update_self c.listeners listener_id (ready_drop (c.listeners listener_id)))
      (ready_drop_refines (c.listeners listener_id) x xs v).1

backlog_put-IsReady :
    (l : Listener) (xs : List ℕ) → IsReady l xs → IsReady (listener_backlog_put l) xs
unfolding listener_backlog_put
backlog_put-IsReady l xs v = record {
  active = v.active;
  used = v.used;
  room = v.room;
  head_in = v.head_in;
  small = v.small;
  contents = v.contents;
}

drop_child-IsReady :
    (c : Slow) (sid listener_id : ℕ) (xs : List ℕ)
    → IsReady (c.listeners listener_id) xs
    → IsReady ((drop_child c sid listener_id).listeners listener_id) xs
unfolding drop_child
drop_child-IsReady c sid listener_id xs v =
    rw (update_self c.listeners listener_id (listener_backlog_put (c.listeners listener_id)))
      (backlog_put-IsReady (c.listeners listener_id) xs v)

-- A child that does not wait is left out without a change for the others.
is_waiting-dropped_child :
    (c : Slow) (x listener_id y : ℕ)
    → (c.socks x).id ≡ x
    → is_accept_pending (c.socks x).state ≡ false
    → (y ≢ id_invalid → (c.socks y).id ≡ y)
    → is_waiting (dropped_child c x listener_id) listener_id y ≡ is_waiting c listener_id y
unfolding drop_child
is_waiting-dropped_child c x listener_id y own gone number = elim (Bool-cases (y == id_invalid)) [
  | inl invalid ↦ rw invalid refl
  | inr valid ↦ elim (Bool-cases (y == x)) [
    | inl same ↦ let e = ==→eq y x same in ground (arith, e, gone)
    | inr other ↦
        let e = number (λ i. absurd (ground (arith, i, valid))) in
        rw
          (update_ne c.sock_meta (c.socks x).id _ (c.socks y).id
            (λ i. absurd (ground (arith, i, own, e, other))))
          refl
  ]
]

module _ (c : Slow) (x listener_id : ℕ) (own : (c.socks x).id ≡ x)
    (gone : is_accept_pending (c.socks x).state ≡ false) where
  first_waiting-dropped_child :
      (ys : List ℕ)
      → AreNumbers c.socks ys
      → first_waiting (dropped_child c x listener_id) listener_id ys
        ≡ first_waiting c listener_id ys
  first_waiting-dropped_child [] n = refl
  first_waiting-dropped_child (y ∷ ys) (n, ns) =
      rw (is_waiting-dropped_child c x listener_id y own gone n, first_waiting-dropped_child ys ns)
        refl

  behind_first-dropped_child :
      (ys : List ℕ)
      → AreNumbers c.socks ys
      → behind_first (dropped_child c x listener_id) listener_id ys ≡ behind_first c listener_id ys
  behind_first-dropped_child [] n = refl
  behind_first-dropped_child (y ∷ ys) (n, ns) =
      rw (is_waiting-dropped_child c x listener_id y own gone n, behind_first-dropped_child ys ns)
        refl

ready_pop_loop-HandsOut :
    (fuel : ℕ) (c : Slow) (listener_id : ℕ) (xs : List ℕ)
    → length xs ≤ fuel
    → IsReady (c.listeners listener_id) xs
    → AreNumbers c.socks xs
    → HandsOut c listener_id xs (ready_pop_loop fuel c listener_id)
unfolding ready_pop_loop
ready_pop_loop-HandsOut zero c listener_id [] le v n = (refl, v, refl)
ready_pop_loop-HandsOut zero c listener_id (x ∷ xs) le v n = absurd (omega (arith, le))
ready_pop_loop-HandsOut (suc fuel) c listener_id [] le v n =
    let over : (c.listeners listener_id).active && not ((c.listeners listener_id).ready_used == 0)
        ≡ false =
      rw v.used (ground arith) in
    rw over (refl, v, refl)
ready_pop_loop-HandsOut (suc fuel) c listener_id (x ∷ xs) le v (number, ns) =
    let l = c.listeners listener_id in
    let c1 = dropped c listener_id in
    let r = dropped-IsReady c listener_id x xs v in
    let less : length xs ≤ fuel = omega (arith, le) in
    let more : l.active && not (l.ready_used == 0) ≡ true = rw (v.active, v.used) (ground arith) in
    let head : l.ready_sids l.ready_head ≡ x = v.contents.0 in
    elim (Bool-cases (x == id_invalid || not ((tcp_sock_meta c x).listener_id == listener_id))) [
      | inl foreign ↦
          let e : is_waiting c listener_id x ≡ false = ground (arith, foreign) in
          rw (more, head, foreign, e) (ready_pop_loop-HandsOut fuel c1 listener_id xs less r ns)
      | inr own ↦ elim (Bool-cases (is_accept_pending (c.socks x).state)) [
        | inl waits ↦
            let e : is_waiting c listener_id x ≡ true = ground (arith, own, waits) in
            rw (e, more, head, own, waits) (refl, r, refl)
        | inr gone ↦
            let e : is_waiting c listener_id x ≡ false = ground (arith, own, gone) in
            let id = number (λ i. absurd (ground (arith, i, own))) in
            let h =
              ready_pop_loop-HandsOut fuel (dropped_child c x listener_id) listener_id xs less
                (drop_child-IsReady c1 x listener_id xs r) (unfold drop_child in ns) in
            rw (e, more, head, own, gone)
              (rw
                (
                  ← first_waiting-dropped_child c x listener_id id gone xs ns,
                  ← behind_first-dropped_child c x listener_id id gone xs ns,
                )
                (unfold drop_child in h))
      ]
    ]

-- On a listener whose ring of ready connections holds the numbers of `xs`, the oldest first, and
-- where each of them that is not the invalid one is its socket's own number,
-- tcp_listener_ready_pop hands out the first that is of the listener and waits for accept, or none
-- if there is none; the ring then holds the numbers behind it, and no socket changes.
pub tcp_listener_ready_pop-HandsOut :
    (c : Slow) (listener_id : ℕ) (xs : List ℕ)
    → IsReady (c.listeners listener_id) xs
    → AreNumbers c.socks xs
    → HandsOut c listener_id xs (tcp_listener_ready_pop c listener_id)
unfolding tcp_listener_ready_pop
tcp_listener_ready_pop-HandsOut c listener_id xs v n =
    let used = v.used in
    ready_pop_loop-HandsOut (c.listeners listener_id).ready_used c listener_id xs (omega arith) v n
