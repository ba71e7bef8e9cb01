-- ===== src/Udp/Slow/Requests.antt =====
-- The requests of applications: new sockets, options and binding.
use chamelio.Common.{none, some, true, false, ℕ, Bool, update, if◌then◌else◌, Option, u32, ◌==◌}
use chamelio.Common.{not, ◌+◌, ◌&&◌, ltb, leb, ◌%◌, ◌^◌, ◌-◌}
use chamelio.Queue.{send, Equeue, Slots, queue_tail}
use chamelio.Udp.App.State.{SlowRes, udp_queue_bind_res, udp_queue_setopt_res, bind_res}
use chamelio.Udp.App.State.{setopt_res, new_sock_res, udp_queue_new_sock_res}
use chamelio.Udp.Find.{start_port, scan_ports, port_after}
use chamelio.Udp.State.{Port, max_port, Sock, udp_port_scan_max, max_reusock_port}

-- What the requests use of `struct udp_slow_context` and of the application's context: the maps, the
-- numbers of the bump queues of the cores, and the queue for answers. What `cham_new_queue` answers
-- is a sequence: the length and the offset of a queue.
pub record UdpSlow : Type 0 where
  pub ports : ℕ → Port
  pub socks : ℕ → Sock
  pub n_socks : ℕ
  pub next_port : Option ℕ
  pub n_fp_cores : ℕ
  pub proto_ip : ℕ
  pub app_bump_qs : ℕ → ℕ
  pub slow_app_q : Equeue
  pub slow_app_slots : Slots SlowRes
  pub new_queues : ℕ → Option (ℕ × ℕ)
  pub asked : ℕ

-- MAX_SOCKETS of the maps, and SO_REUSEPORT of the system.
abbrev pub max_udp_sockets : ℕ
max_udp_sockets = max_port

abbrev pub so_reuseport : ℕ
so_reuseport = 15

-- An answer is put into the queue.
unfoldable pub udp_answer : UdpSlow → (type : ℕ) → SlowRes → UdpSlow × Bool
udp_answer c type res = elim (send c.slow_app_q c.slow_app_slots type res) [
  | none ↦ (c, false)
  | some r ↦ (record c { slow_app_q = r.0; slow_app_slots = r.1 }, true)
]

-- The search of find_free_port, which is the fast path's; 0 is the failure.
unfoldable pub slow_free_port : UdpSlow → ℕ × UdpSlow
unfolding start_port scan_ports port_after
slow_free_port c = elim c.next_port [
  | none ↦ (0, c)
  | some cfg ↦ elim (scan_ports c.ports (start_port cfg) udp_port_scan_max 0) [
    | none ↦ (0, c)
    | some nr ↦ (nr, record c { next_port = some (port_after nr) })
  ]
]

-- A refused bind.
unfoldable pub refuse_bind : UdpSlow → (opaque : ℕ) → UdpSlow × Bool
unfolding udp_answer
refuse_bind c opaque = ((udp_answer c udp_queue_bind_res (bind_res opaque false)).0, false)

-- The socket is entered at the port.
unfoldable pub bind_to : UdpSlow → (sock_id local_ip nr opaque : ℕ) → UdpSlow × Bool
unfolding udp_answer
bind_to c sock_id local_ip nr opaque =
    let p = c.ports nr in
    let c1 = record c {
      socks =
          update c.socks sock_id
            (record (c.socks sock_id) { local_ip = local_ip; local_port = nr });
      ports =
          update c.ports nr
            (record p { sids = update p.sids p.nsocks sock_id; nsocks = u32 (p.nsocks + 1) });
    } in
    udp_answer c1 udp_queue_bind_res (bind_res opaque true)

-- The port is known, or is 0 when none is free.
unfoldable pub bind_port : UdpSlow → (sock_id local_ip nr opaque : ℕ) → UdpSlow × Bool
unfolding refuse_bind bind_to
bind_port c sock_id local_ip nr opaque =
    if nr == 0
    then refuse_bind c opaque
    else if not ((c.ports nr).nsocks == 0) && (c.socks sock_id).reuport == 0
    then refuse_bind c opaque
    else if leb max_reusock_port (c.ports nr).nsocks
    then refuse_bind c opaque
    else bind_to c sock_id local_ip nr opaque

-- A socket of the map is bound, when there is room for the answer.
unfoldable pub bind_sock : UdpSlow → (sock_id local_ip local_port opaque : ℕ) → UdpSlow × Bool
unfolding slow_free_port bind_port
bind_sock c sock_id local_ip local_port opaque =
    let wanted =
      if not ((c.socks sock_id).local_port == 0)
      then (c.socks sock_id).local_port
      else local_port in
    let (nr, c1) = slow_free_port c in
    if ltb max_port wanted
    then refuse_bind c opaque
    else if wanted == 0
    then bind_port c1 sock_id local_ip nr opaque
    else bind_port c sock_id local_ip wanted opaque

-- The state, and whether it returns 0. The socket's number is not checked: `none` is the use of a
-- socket behind the map.
unfoldable pub handle_bind :
    UdpSlow → (sock_id local_ip local_port opaque : ℕ) → Option (UdpSlow × Bool)
unfolding bind_sock
handle_bind c sock_id local_ip local_port opaque =
    let bound = bind_sock c sock_id local_ip local_port opaque in
    elim (queue_tail c.slow_app_q c.slow_app_slots) [
      | none ↦ some (c, false)
      | some pos ↦ if leb max_udp_sockets sock_id then none else some bound
    ]

-- `none` is the case of a wrong number that has been answered, where the slot of that answer is then
-- written again, and the use of a socket behind the map, also for the number MAX_SOCKETS.
unfoldable pub handle_sock_setopt : UdpSlow → (sock_id opt opaque : ℕ) → Option (UdpSlow × Bool)
unfolding udp_answer
handle_sock_setopt c sock_id opt opaque =
    let (c1, told) = udp_answer c udp_queue_setopt_res (setopt_res opaque false) in
    let d =
      if opt == so_reuseport
      then record c { socks = update c.socks sock_id (record (c.socks sock_id) { reuport = 1 }) }
      else c in
    let handled : Option (UdpSlow × Bool) =
      if ltb max_udp_sockets sock_id
      then (if told then none else some (c1, false))
      else if sock_id == max_udp_sockets && opt == so_reuseport
      then none
      else some (udp_answer d udp_queue_setopt_res (setopt_res opaque true)) in
    elim (queue_tail c.slow_app_q c.slow_app_slots) [ none ↦ some (c, false) | some pos ↦ handled ]

-- The core that a new socket sends on.
abbrev pub new_sock_core : UdpSlow → ℕ
new_sock_core c = if c.n_fp_cores == 0 then 0 else c.n_socks % c.n_fp_cores

-- A new socket before it has rings.
unfoldable pub new_sock : UdpSlow → (opaque : ℕ) → Sock
new_sock c opaque =
    let s = c.socks c.n_socks in
    record s {
      id = c.n_socks;
      tx_core = new_sock_core c;
      rx_core = 2 ^ 32 - 1;
      local_ip = c.proto_ip;
      app_bump_qids = λ i. if ltb i c.n_fp_cores then c.app_bump_qs i else s.app_bump_qids i;
      opaque = opaque;
      local_port = 0;
      reuport = 0;
    }

unfoldable pub with_rx_ring : Sock → (len off : ℕ) → Sock
with_rx_ring s len off = record s { rx_len = len; rx_avail = 0; rx_head = 0; rx_off = off }

unfoldable pub with_tx_ring : Sock → (len off : ℕ) → Sock
with_tx_ring s len off = record s { tx_len = len; tx_avail = 0; tx_head = 0; tx_off = off }

-- `none` is the use of the NULL that cham_new_queue gives for the TX ring.
unfoldable pub handle_new_sock : UdpSlow → (opaque : ℕ) → Option (UdpSlow × Bool)
unfolding new_sock with_rx_ring with_tx_ring udp_answer
handle_new_sock c opaque =
    let sid = c.n_socks in
    let set = λ (s : Sock) (asked : ℕ). record c { socks = update c.socks sid s; asked = asked } in
    let told = λ (rx_len rx_off tx_len tx_off : ℕ).
      let s = with_tx_ring (with_rx_ring (new_sock c opaque) rx_len rx_off) tx_len tx_off in
      let res = new_sock_res opaque (new_sock_core c) sid rx_len rx_off tx_len tx_off in
      let (d, sent) = udp_answer (set s (c.asked + 2)) udp_queue_new_sock_res res in
      if sent then (record d { n_socks = d.n_socks + 1 }, true) else (d, false) in
    let made : Option (UdpSlow × Bool) = elim (c.new_queues c.asked) [
      | none ↦ some (set (new_sock c opaque) (c.asked + 1), false)
      | some rx ↦ elim (c.new_queues (c.asked + 1)) [
        | none ↦ none
        | some tx ↦ some (told rx.0 rx.1 tx.0 tx.1)
      ]
    ] in
    if leb max_udp_sockets c.n_socks
    then some (c, false)
    else elim (queue_tail c.slow_app_q c.slow_app_slots) [
      | none ↦ some (c, false)
      | some pos ↦ made
    ]
