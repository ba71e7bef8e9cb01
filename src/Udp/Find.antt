-- ===== src/Udp/Find.antt =====
-- `udp_sock_find` and `find_free_port`.
use chamelio.Common.{zero, suc, none, some, ℕ, Option, u16, if◌then◌else◌, u32, ◌+◌, ltb, leb}
use chamelio.Common.{update, ◌==◌, ◌||◌, ◌-◌}
use chamelio.Udp.State.{Context, Port, udp_port_scan_max, set_port, max_port, min_port}
use chamelio.Udp.State.{max_fp_cores, max_reusock_port}

-- The place of the port's sockets that the core takes next.
unfoldable pub next_idx : (core ncores : ℕ) → Port → (idx : ℕ) → ℕ
next_idx core ncores p idx =
    let next = u32 (idx + ncores) in if leb p.nsocks next then core else next

unfoldable pub udp_sock_find : Context → (dst_port : ℕ) → Option (ℕ × Context)
unfolding next_idx
udp_sock_find c dst_port =
    let p = c.ports dst_port in
    let idx = p.next_sock c.core in
    let sock_id = p.sids idx in
    let rotated =
      set_port c dst_port
        (record p { next_sock = update p.next_sock c.core (next_idx c.core c.ncores p idx) }) in
    if ltb dst_port min_port || ltb max_port dst_port
    then none
    else if leb max_fp_cores c.core || p.nsocks == 0 || leb max_reusock_port idx
    then none
    else if leb c.n_socks sock_id
    then none
    else some (sock_id, if ltb 1 p.nsocks then rotated else c)

-- The port that the scan of find_free_port tries at round `i`; the sum is a `__u16`.
unfoldable pub candidate : (next_port i : ℕ) → ℕ
candidate next_port i =
    let nr = u16 (next_port + i) in
    if ltb max_port nr then u16 (min_port + nr - max_port - 1) else nr

-- The loop over the `n` rounds from `i` on.
unfoldable pub scan_ports : (ℕ → Port) → (next_port n i : ℕ) → Option ℕ
unfolding candidate
scan_ports ports next_port zero i = none
scan_ports ports next_port (suc n) i =
    let rest = scan_ports ports next_port n (i + 1) in
    let nr = candidate next_port i in if (ports nr).nsocks == 0 then some nr else rest

unfoldable pub start_port : ℕ → ℕ
start_port next_port =
    if ltb next_port min_port || ltb max_port next_port then min_port else next_port

-- The port after the one that has been taken.
unfoldable pub port_after : ℕ → ℕ
port_after nr = let after = u16 (nr + 1) in if ltb max_port after then min_port else after

-- 0 is the failure.
unfoldable pub find_free_port : Context → ℕ × Context
unfolding start_port scan_ports port_after
find_free_port c = elim c.next_port [
  | none ↦ (0, c)
  | some cfg ↦ elim (scan_ports c.ports (start_port cfg) udp_port_scan_max 0) [
    | none ↦ (0, c)
    | some nr ↦ (nr, record c { next_port = some (port_after nr) })
  ]
]
