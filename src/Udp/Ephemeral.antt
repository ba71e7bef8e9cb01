-- ===== src/Udp/Ephemeral.antt =====
-- The ports that `find_free_port` chooses.
use chamelio.Common.{zero, suc, refl, inl, inr, ℕ, ◌≤◌, ◌≡◌, ◌<◌, ◌+◌, ◌≢◌, ◌⊎◌, arith}
use chamelio.Common.{Bool-cases, ◌==◌, ==→eq, ==→ne, none, some, ◌^◌, ◌-◌}
use chamelio.Udp.Find.{candidate, scan_ports, start_port, port_after, find_free_port}
use chamelio.Udp.State.{min_port, Port, max_port, udp_port_scan_max, Context}

pub candidate_range :
    (next_port i : ℕ)
    → min_port ≤ next_port
    → next_port + udp_port_scan_max ≤ 2 ^ 16
    → i < udp_port_scan_max
    → (min_port ≤ candidate next_port i) × (candidate next_port i ≤ max_port)
unfolding candidate
candidate_range next_port i lo hi lt = (ground arith, ground arith)

start_port_min : (cfg : ℕ) → min_port ≤ start_port cfg
unfolding start_port
start_port_min cfg = ground arith

-- The scan finds a free candidate, or all are used.
scan_ports_cases :
    (ports : ℕ → Port) (next_port n i : ℕ)
    → ((scan_ports ports next_port n i ≡ none)
        × ((j : ℕ) → i ≤ j → j < i + n → (ports (candidate next_port j)).nsocks ≢ 0))
      ⊎ ((j : ℕ) × (j < i + n)
          × ((k : ℕ) → i ≤ k → k < j → (ports (candidate next_port k)).nsocks ≢ 0)
          × (scan_ports ports next_port n i ≡ some (candidate next_port j))
          × ((ports (candidate next_port j)).nsocks ≡ 0))
unfolding scan_ports
scan_ports_cases ports next_port zero i = inl (refl, λ j a b. absurd (omega (arith, a, b)))
scan_ports_cases ports next_port (suc n) i =
    elim (Bool-cases ((ports (candidate next_port i)).nsocks == 0)) [
      | inl free ↦ inr (i, omega arith, λ k a b. absurd (omega arith), rw free refl, ==→eq _ _ free)
      | inr used ↦ elim (scan_ports_cases ports next_port n (i + 1)) [
        | inr (j, lt, before, found, free) ↦ inr (
          j,
          omega arith,
          λ k a b. elim (Bool-cases (k == i)) [
            | inl here ↦ let at = ==→eq k i here in rw at (==→ne _ _ used)
            | inr past ↦ let ne = ==→ne k i past in before k (ground arith) b
          ],
          rw used found,
          free,
        )
        | inl (nothing, all) ↦ inl (
          rw used nothing,
          λ j a b. elim (Bool-cases (j == i)) [
            | inl here ↦ let at = ==→eq j i here in rw at (==→ne _ _ used)
            | inr past ↦ let ne = ==→ne j i past in all j (ground arith) (omega arith)
          ],
        )
      ]
    ]

-- The port is free and in the range, and the next search starts behind it.
pub record Chosen (c : Context) (nr : ℕ) (c' : Context) : Type 0 where
  pub range : (min_port ≤ nr) × (nr ≤ max_port)
  pub free : (c.ports nr).nsocks ≡ 0
  pub next : ℕ
  pub start : c'.next_port ≡ some next
  pub next_range : (min_port ≤ next) × (next ≤ max_port)
  pub rest : (c'.ports ≡ c.ports) × (c'.socks ≡ c.socks) × (c'.pkt ≡ c.pkt) × (c'.shm ≡ c.shm)

port_after_range :
    (nr : ℕ)
    → min_port ≤ nr
    → nr ≤ max_port
    → (min_port ≤ port_after nr) × (port_after nr ≤ max_port)
unfolding port_after
port_after_range nr lo hi = (ground arith, ground arith)

-- Where the configuration is there and the search starts far enough from the end of the words: the
-- search fails, with nothing changed, exactly when all eight candidates are used; otherwise it gives
-- the first candidate that is free, which is a port of the range, and the next search starts at a
-- port of the range.
pub find_free_port_lem :
    (c : Context) (cfg : ℕ)
    → c.next_port ≡ some cfg
    → start_port cfg + udp_port_scan_max ≤ 2 ^ 16
    → ((find_free_port c ≡ (0, c))
        × ((j : ℕ) → j < udp_port_scan_max → (c.ports (candidate (start_port cfg) j)).nsocks ≢ 0))
      ⊎ ((j : ℕ) × (j < udp_port_scan_max)
          × ((k : ℕ) → k < j → (c.ports (candidate (start_port cfg) k)).nsocks ≢ 0)
          × (c' : Context) × (find_free_port c ≡ (candidate (start_port cfg) j, c'))
          × Chosen c (candidate (start_port cfg) j) c')
unfolding find_free_port
find_free_port_lem c cfg conf room =
    let start = start_port cfg in
    elim (scan_ports_cases c.ports start udp_port_scan_max 0) [
      | inl (nothing, all) ↦
          inl (simp (conf, nothing, find_free_port) refl, λ j lt. all j (omega arith) (omega arith))
      | inr (j, lt, before, found, free) ↦
          let nr = candidate start j in
          let range = candidate_range start j (start_port_min cfg) room (omega arith) in
          inr (
            j,
            omega arith,
            λ k b. before k (omega arith) b,
            record c { next_port = some (port_after nr) },
            simp (conf, found, find_free_port) refl,
            record {
              range = range;
              free = free;
              next = port_after nr;
              start = refl;
              next_range = port_after_range nr range.0 range.1;
              rest = (refl, refl, refl, refl);
            },
          )
    ]

-- Near the end of the words a candidate goes round to port 0, below the range.
pub candidate_wraps :
    (next_port : ℕ)
    → 2 ^ 16 < next_port + udp_port_scan_max
    → next_port ≤ max_port
    → (i : ℕ) × (i < udp_port_scan_max) × (candidate next_port i ≡ 0)
unfolding candidate
candidate_wraps next_port late hi = (2 ^ 16 - next_port, omega arith, ground arith)
