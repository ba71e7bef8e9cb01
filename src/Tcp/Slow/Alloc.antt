-- ===== src/Tcp/Slow/Alloc.antt =====
-- A new socket: it has both rings, or the map does not grow.
use chamelio.Common.{refl, none, some, inl, inr, ◌<◌, ℕ, ◌*◌, ◌≡◌, ◌^◌, ◌⊎◌, ◌+◌, arith, ◌≤◌, ◌≢◌}
use chamelio.Common.{Bool-cases, leb, Option-cases, false, update_self, sym, ap, ◌∙◌, update_ne}
use chamelio.Tcp.Inv.{IsValid}
use chamelio.Tcp.Lookup.{id_invalid}
use chamelio.Tcp.Slow.SockState.{tcp_sock_alloc, cham_new_queue, with_tx, with_rx, fresh_sock}
use chamelio.Tcp.Slow.SockState.{add_sock}
use chamelio.Tcp.Slow.State.{Region, Slow, max_sockets, tcp_sock_meta, set_sock, Meta}
use chamelio.Tcp.Sock.{Sock, init}
use mathlib.Core.Path.{subst}

-- The answer of the shared memory is large enough for the fast path and not too large.
abbrev pub IsRing : Region → Type 0
IsRing r = (0 < r.elsize * r.nelems) × (r.elsize * r.nelems < 2 ^ 31)

-- The socket is new and not connected, its rings empty.
pub record IsNew (c : Slow) (pointer : ℕ) (r t : Region) (s : Sock) : Type 0 where
  pub id : s.id ≡ c.n_socks
  pub opaque : s.opaque ≡ pointer
  pub state : s.state ≡ init
  pub rx_place : (s.rx_off ≡ r.off) × (s.rx_len ≡ r.elsize * r.nelems)
  pub tx_place : (s.tx_off ≡ t.off) × (s.tx_len ≡ t.elsize * t.nelems)
  pub valid : IsValid s

with_tx-IsNew :
    (c : Slow) (opaque app_id ctx_id qid : ℕ) (r t : Region)
    → IsRing r
    → IsRing t
    → IsNew c opaque r t (with_tx (with_rx (fresh_sock c opaque app_id ctx_id qid) r) t)
with_tx-IsNew c opaque app_id ctx_id qid r t rr tt' = record {
  id = refl;
  opaque = refl;
  state = refl;
  rx_place = (refl, omega arith);
  tx_place = (refl, omega arith);
  valid = ground arith;
}

-- When the rings that the shared memory gives are not empty and smaller than 2 ^ 31 bytes: exactly
-- when the map is full or the shared memory has no room for one of the two rings, no socket is added
-- and none is returned; otherwise a new one stands at the end of the map, with its rings where the
-- shared memory has put them, valid and with no listener, and the others are as before.
pub tcp_sock_alloc_lem :
    (c : Slow) (opaque app_id ctx_id qid : ℕ)
    → ((r : Region)
        → (c.regions c.n_regions ≡ some r) ⊎ (c.regions (c.n_regions + 1) ≡ some r)
        → IsRing r)
    → (((tcp_sock_alloc c opaque app_id ctx_id qid).1 ≡ none)
        × ((tcp_sock_alloc c opaque app_id ctx_id qid).0.n_socks ≡ c.n_socks)
        × ((max_sockets ≤ c.n_socks)
            ⊎ (c.regions c.n_regions ≡ none)
            ⊎ (c.regions (c.n_regions + 1) ≡ none)))
      ⊎ ((c' : Slow) × (r : Region) × (t : Region) × (tcp_sock_alloc c opaque app_id ctx_id qid
            ≡ (c', some c.n_socks))
          × (c.n_socks < max_sockets)
          × (c.regions c.n_regions ≡ some r)
          × (c.regions (c.n_regions + 1) ≡ some t)
          × (c'.n_socks ≡ c.n_socks + 1)
          × IsNew c opaque r t (c'.socks c.n_socks)
          × ((tcp_sock_meta c' c.n_socks).listener_id ≡ id_invalid)
          × ((j : ℕ) → j ≢ c.n_socks → c'.socks j ≡ c.socks j))
unfolding tcp_sock_alloc cham_new_queue add_sock
tcp_sock_alloc_lem c opaque app_id ctx_id qid rings =
    elim (Bool-cases (leb max_sockets c.n_socks)) [
      | inl full ↦ inl (rw full, rw full, inl (ground arith))
      | inr room ↦ elim (Option-cases (c.regions c.n_regions)) [
        | inl no_rx ↦ inl (rw (room, no_rx), rw (room, no_rx), inr (inl no_rx))
        | inr (r, rx) ↦ elim (Option-cases (c.regions (c.n_regions + 1))) [
          | inl no_tx ↦ inl (rw (room, rx, no_tx), rw (room, rx, no_tx), inr (inr no_tx))
          | inr (t, tx) ↦
              let s1 = fresh_sock c opaque app_id ctx_id qid in
              let s2 = with_tx (with_rx s1 r) t in
              let c2 = record (set_sock c c.n_socks s1) { n_regions = c.n_regions + 1 + 1 } in
              let own = update_self c2.socks c.n_socks s2 in
              let meta = update_self c2.sock_meta c.n_socks (record (c2.sock_meta c.n_socks) {
                listener_id = id_invalid;
                auto_bound = false;
              }) in
              inr (
                add_sock c2 s2,
                r,
                t,
                rw (room, rx, tx, tcp_sock_alloc),
                ground (arith, room),
                rx,
                tx,
                refl,
                subst (IsNew c opaque r t) (sym own) (
                    with_tx-IsNew c opaque app_id ctx_id qid r t (rings r (inl rx))
                      (rings t (inr tx))),
                ap (λ (k : Sock). ((add_sock c2 s2).sock_meta k.id).listener_id) own
                    ∙ ap (λ (m : Meta). m.listener_id) meta,
                λ j ne. update_ne c2.socks c.n_socks s2 j ne ∙ update_ne c.socks c.n_socks s1 j ne,
              )
        ]
      ]
    ]
