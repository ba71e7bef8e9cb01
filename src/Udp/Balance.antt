-- ===== src/Udp/Balance.antt =====
-- How the cores share the sockets of a port.
use chamelio.Common.{refl, some, inl, inr, ℕ, ◌≤◌, update, update_self, ◌≡◌, Bool-cases, ◌<◌, leb}
use chamelio.Common.{◌+◌, u32, ◌*◌, ◌∙◌, arith, false, ltb, if◌then◌else◌, sym, ap, ◌≢◌}
use chamelio.Common.{update_ne}
use chamelio.Udp.Find.{next_idx, udp_sock_find}
use chamelio.Udp.State.{Port, Context, max_reusock_port, max_fp_cores, set_port}
use mathlib.Core.Path.{subst}
use native.Mathlib.Numerals.{unary_clauses}

-- It is the turn of a socket of the port whose place is the core's, or behind it by a multiple of
-- the number of cores.
pub record IsTurn (core ncores : ℕ) (p : Port) : Type 0 where
  pub few : p.nsocks ≤ max_reusock_port
  pub cores : ncores ≤ max_fp_cores
  pub own : core < p.nsocks
  pub bound : p.next_sock core < p.nsocks
  pub rounds : ℕ
  pub place : p.next_sock core ≡ core + rounds * ncores

-- The next turn.
turned : (core ncores : ℕ) → Port → Port
turned core ncores p = record p {
  next_sock = update p.next_sock core (next_idx core ncores p (p.next_sock core));
}

in_word :
    (core ncores : ℕ) (p : Port)
    → IsTurn core ncores p
    → leb p.nsocks (u32 (p.next_sock core + ncores)) ≡ false
    → u32 (p.next_sock core + ncores) ≡ p.next_sock core + ncores
in_word core ncores p v on = omega (arith, v.bound, v.few, v.cores)

more_rounds :
    (core ncores idx rounds : ℕ) {next : ℕ}
    → idx ≡ core + rounds * ncores
    → next ≡ idx + ncores
    → next ≡ core + (rounds + 1) * ncores
more_rounds core ncores idx rounds e w = simp unary_clauses (omega (arith, e, w))

turned-IsTurn :
    (core ncores : ℕ) (p : Port) → IsTurn core ncores p → IsTurn core ncores (turned core ncores p)
unfolding turned next_idx
turned-IsTurn core ncores p v =
    let idx = p.next_sock core in
    let next = next_idx core ncores p idx in
    let own = update_self p.next_sock core next in
    elim (Bool-cases (leb p.nsocks (u32 (idx + ncores)))) [
      | inl wraps ↦
          let to : next ≡ core = rw wraps refl in
          record {
            few = v.few;
            cores = v.cores;
            own = v.own;
            bound = rw (own ∙ to) v.own;
            rounds = 0;
            place = rw (own ∙ to) (omega arith);
          }
      | inr on ↦
          let to : next ≡ u32 (idx + ncores) = rw on refl in
          record {
            few = v.few;
            cores = v.cores;
            own = v.own;
            bound = rw (own ∙ to) (ground (arith, on));
            rounds = v.rounds + 1;
            place =
                rw (own ∙ to)
                  (more_rounds core ncores idx v.rounds v.place (in_word core ncores p v on));
          }
    ]

abbrev rotated : Context → (port : ℕ) → Context
rotated c port = set_port c port (turned c.core c.ncores (c.ports port))

find_result :
    (c : Context) (port sid : ℕ) (c1 : Context)
    → udp_sock_find c port ≡ some (sid, c1)
    → (sid ≡ (c.ports port).sids ((c.ports port).next_sock c.core))
      × (c1 ≡ (if ltb 1 (c.ports port).nsocks then rotated c port else c))
unfolding udp_sock_find turned
find_result c port sid c1 found = (ground (arith, found), ground (arith, found))

ports_of-find :
    (c : Context) (port sid : ℕ) (c1 : Context)
    → udp_sock_find c port ≡ some (sid, c1)
    → (sid ≡ (c.ports port).sids ((c.ports port).next_sock c.core))
      × (c1.ports port ≡ (
          if ltb 1 (c.ports port).nsocks
          then turned c.core c.ncores (c.ports port)
          else c.ports port))
ports_of-find c port sid c1 found =
    let (own, e) = find_result c port sid c1 found in
    (
      own,
      elim (Bool-cases (ltb 1 (c.ports port).nsocks)) [
        | inl many ↦
            let to : c1 ≡ rotated c port = e ∙ rw many refl in
            rw many (
              ap (λ (x : Context). x.ports port) to
              ∙ update_self c.ports port (turned c.core c.ncores (c.ports port)))
        | inr one ↦
            let to : c1 ≡ c = e ∙ rw one refl in rw one (ap (λ (x : Context). x.ports port) to)
      ],
    )

-- The turn of the core goes on by the number of cores, or back to the core's own place when that is
-- behind the sockets; the turns of other cores and the sockets of the port stay.
pub record Rotates (core ncores : ℕ) (p p' : Port) : Type 0 where
  pub next :
      p'.next_sock core
      ≡ (if ltb (p.next_sock core + ncores) p.nsocks then p.next_sock core + ncores else core)
  pub others : (j : ℕ) → j ≢ core → p'.next_sock j ≡ p.next_sock j
  pub same : (p'.nsocks ≡ p.nsocks) × (p'.sids ≡ p.sids)

turned-Rotates :
    (core ncores : ℕ) (p : Port)
    → IsTurn core ncores p
    → Rotates core ncores p (turned core ncores p)
unfolding turned next_idx
turned-Rotates core ncores p v =
    let next = next_idx core ncores p (p.next_sock core) in
    record {
      next = update_self p.next_sock core next ∙ ground (arith, v.bound, v.few, v.cores);
      others = λ j ne. update_ne p.next_sock core next j ne;
      same = (refl, refl);
    }

-- A single socket has the turn again.
kept-Rotates :
    (core ncores : ℕ) (p : Port)
    → IsTurn core ncores p
    → ltb 1 p.nsocks ≡ false
    → Rotates core ncores p p
kept-Rotates core ncores p v one = record {
  next = ground (arith, one, v.own, v.bound);
  others = λ j ne. refl;
  same = (refl, refl);
}

-- Where it is the turn of one of the port's sockets, a datagram is for this socket, and afterwards it
-- is the turn of the socket whose place is the number of cores behind it, or, when the port has no
-- such place, of the one at the core's own place; the turns of other cores and the sockets of the
-- port stay. So a core goes round the sockets whose places differ from its number by multiples of
-- the number of cores.
pub udp_sock_find-IsTurn :
    (c : Context) (port sid : ℕ) (c1 : Context)
    → IsTurn c.core c.ncores (c.ports port)
    → udp_sock_find c port ≡ some (sid, c1)
    → (sid ≡ (c.ports port).sids ((c.ports port).next_sock c.core))
      × ((c.ports port).next_sock c.core < (c.ports port).nsocks)
      × IsTurn c.core c.ncores (c1.ports port)
      × Rotates c.core c.ncores (c.ports port) (c1.ports port)
udp_sock_find-IsTurn c port sid c1 v found =
    let (own, after) = ports_of-find c port sid c1 found in
    (
      own,
      v.bound,
      elim (Bool-cases (ltb 1 (c.ports port).nsocks)) [
        | inl many ↦
            subst (IsTurn c.core c.ncores) (sym (after ∙ rw many refl))
              (turned-IsTurn c.core c.ncores (c.ports port) v)
        | inr one ↦ subst (IsTurn c.core c.ncores) (sym (after ∙ rw one refl)) v
      ],
      elim (Bool-cases (ltb 1 (c.ports port).nsocks)) [
        | inl many ↦
            subst (Rotates c.core c.ncores (c.ports port)) (sym (after ∙ rw many refl))
              (turned-Rotates c.core c.ncores (c.ports port) v)
        | inr one ↦
            subst (Rotates c.core c.ncores (c.ports port)) (sym (after ∙ rw one refl))
              (kept-Rotates c.core c.ncores (c.ports port) v one)
      ],
    )
