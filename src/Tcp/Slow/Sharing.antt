-- ===== src/Tcp/Slow/Sharing.antt =====
-- Who shares a port.
use chamelio.Common.{zero, suc, refl, true, inl, inr, ℕ, ◌≤◌, not, ◌≡◌, arith, update, ◌==◌, ◌<◌}
use chamelio.Common.{Bool-cases, ◌+◌, ==→eq, ◌-◌, ◌≢◌, ◌⊎◌, false, ◌&&◌, update_self, ==→ne}
use chamelio.Tcp.Slow.Ports.{all_reuport, port_insert, find_free_port, tcp_bound_find_free}
use chamelio.Tcp.Slow.State.{Port, Slow, min_port, max_reusock_port, max_port}
use chamelio.Tcp.Sock.{Sock}
use native.Mathlib.Numerals.{add-one}

-- At most MAX_REUSOCK_PORT sockets, and several only if each of them may share it.
pub record IsShared (socks : ℕ → Sock) (port : Port) : Type 0 where
  pub bound : port.nsocks ≤ max_reusock_port
  pub willing : 1 < port.nsocks → all_reuport socks port.sids port.nsocks ≡ true

all_reuport-update :
    (socks : ℕ → Sock) (sids : ℕ → ℕ) (n i v : ℕ)
    → n ≤ i
    → all_reuport socks (update sids i v) n ≡ all_reuport socks sids n
unfolding all_reuport
all_reuport-update socks sids zero i v le = refl
all_reuport-update socks sids (suc n) i v le =
    ground (arith, all_reuport-update socks sids n i v (omega arith))

all_reuport_suc :
    (socks : ℕ → Sock) (sids : ℕ → ℕ) (n : ℕ)
    → all_reuport socks sids (n + 1)
      ≡ (all_reuport socks sids n && not ((socks (sids n)).reuport == 0))
unfolding all_reuport
all_reuport_suc socks sids n = rw add-one

-- Whether the socket is put in or refused, a port that is used by at most MAX_REUSOCK_PORT
-- sockets, by several only if each of them may share it, stays such a port.
pub port_insert-IsShared :
    (socks : ℕ → Sock) (port : Port) (sid : ℕ)
    → IsShared socks port
    → IsShared socks (port_insert socks port sid (not ((socks sid).reuport == 0))).0
unfolding port_insert
port_insert-IsShared socks port sid v =
    let n = port.nsocks in
    let sids = update port.sids n sid in
    record {
      bound = ground arith;
      willing = λ many. ground (
        arith,
        v.willing,
        all_reuport_suc socks sids n,
        all_reuport-update socks port.sids n n sid,
        update_self port.sids n sid,
      );
    }

-- The first free port, if there is one.
abbrev pub FirstFree : (ℕ → Port) → (from n port : ℕ) → Type 0
FirstFree bound from n port =
    ((port ≡ 0) × ((p : ℕ) → from ≤ p → p < from + n → (bound p).nsocks ≢ 0))
    ⊎ ((from ≤ port)
        × (port < from + n)
        × ((bound port).nsocks ≡ 0)
        × ((p : ℕ) → from ≤ p → p < port → (bound p).nsocks ≢ 0))

other_port :
    (bound : ℕ → Port) (from : ℕ)
    → ((bound from).nsocks == 0) ≡ false
    → (p : ℕ) → (from + 1 ≤ p → (bound p).nsocks ≢ 0)
    → from ≤ p
    → (bound p).nsocks ≢ 0
other_port bound from used p later le = elim (Bool-cases (p == from)) [
  | inl here ↦ rw (==→eq p from here) (==→ne _ _ used)
  | inr past ↦ let ne = ==→ne p from past in later (ground arith)
]

find_free_port-FirstFree :
    (bound : ℕ → Port) (n from : ℕ) → FirstFree bound from n (find_free_port bound n from)
unfolding find_free_port
find_free_port-FirstFree bound zero from = inl (refl, λ p a b. absurd (omega (arith, a, b)))
find_free_port-FirstFree bound (suc n) from = elim (Bool-cases ((bound from).nsocks == 0)) [
  | inl free ↦
      rw free
        (inr (omega arith, omega arith, ==→eq _ _ free, λ p a b. absurd (omega (arith, a, b))))
  | inr used ↦ rw used (elim (find_free_port-FirstFree bound n (from + 1)) [
    | inl (zero_port, all) ↦
        inl (zero_port, λ p a b. other_port bound from used p (λ q. all p q (omega arith)) a)
    | inr (above, below, free, all) ↦
        inr
          (omega arith, omega arith, free, λ p a b. other_port bound from used p (λ q. all p q b) a)
  ])
]

pub tcp_bound_find_free_lem :
    (c : Slow) → FirstFree c.bound_ports min_port (max_port - min_port + 1) (tcp_bound_find_free c)
unfolding tcp_bound_find_free
tcp_bound_find_free_lem c =
    find_free_port-FirstFree c.bound_ports (max_port - min_port + 1) min_port
