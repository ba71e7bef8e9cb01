-- ===== src/Tcp/Slow/Ports.antt =====
-- The two tables of ports: the sockets that listen on a port (tcp_listener.c), which the fast path
use chamelio.Common.{zero, suc, none, some, true, false, ℕ, Bool, Option, update, ◌-◌}
use chamelio.Common.{if◌then◌else◌, ◌+◌, ◌&&◌, ◌==◌, ◌%◌, not, leb, ◌||◌, ltb}
use chamelio.Tcp.Lookup.{id_invalid}
use chamelio.Tcp.Slow.State.{Port, Slow, max_port, Status, min_port, success, max_reusock_port}
use chamelio.Tcp.Slow.State.{eaddrinuse}
use chamelio.Tcp.Sock.{listen, SockState, Sock}

-- shares, and the reservations of bind and connect (tcp_sock_state.c).

-- Every one of the first `n` sockets of the port may share it.
unfoldable pub all_reuport : (ℕ → Sock) → (ℕ → ℕ) → ℕ → Bool
all_reuport socks sids zero = true
all_reuport socks sids (suc n) = all_reuport socks sids n && not ((socks (sids n)).reuport == 0)

-- One more socket on a port, or the answer that the address is in use.
unfoldable pub port_insert : (ℕ → Sock) → Port → (sock_id : ℕ) (reuseport : Bool) → Port × Status
unfolding all_reuport
port_insert socks port sock_id reuseport =
    if port.nsocks == 0
    then (record { nsocks = 1; next_sock = 0; sids = update port.sids 0 sock_id }, success)
    else if not reuseport || leb max_reusock_port port.nsocks
    then (port, eaddrinuse)
    else if all_reuport socks port.sids port.nsocks
    then (
      record port { sids = update port.sids port.nsocks sock_id; nsocks = port.nsocks + 1 },
      success,
    )
    else (port, eaddrinuse)

-- The first place from `i` on that holds the socket, with `n` places left.
unfoldable pub find_sid : (ℕ → ℕ) → (sock_id n i : ℕ) → Option ℕ
find_sid sids sock_id zero i = none
find_sid sids sock_id (suc n) i =
    let rest = find_sid sids sock_id n (i + 1) in if sids i == sock_id then some i else rest

-- The places behind `i` move up by one, `n` of them.
unfoldable pub shift_sids : (ℕ → ℕ) → (n i : ℕ) → ℕ → ℕ
shift_sids sids zero i = sids
shift_sids sids (suc n) i = shift_sids (update sids i (sids (i + 1))) n (i + 1)

unfoldable pub port_remove : Port → (sock_id : ℕ) → Port
unfolding find_sid shift_sids
port_remove port sock_id = elim (find_sid port.sids sock_id port.nsocks 0) [
  | none ↦ port
  | some i ↦
      let n = port.nsocks - 1 in
      record {
        sids = update (shift_sids port.sids (n - i) i) n id_invalid;
        nsocks = n;
        next_sock = if leb n port.next_sock then 0 else port.next_sock;
      }
]

unfoldable pub tcp_listener_insert : Slow → (port sock_id : ℕ) (reuseport : Bool) → Slow × Status
unfolding port_insert
tcp_listener_insert c port sock_id reuseport =
    let (p, status) = port_insert c.socks (c.listener_map port) sock_id reuseport in
    (record c { listener_map = update c.listener_map port p }, status)

unfoldable pub tcp_listener_remove : Slow → (port sock_id : ℕ) → Slow
unfolding port_remove
tcp_listener_remove c port sock_id = if port == 0 || ltb max_port port then c else record c {
  listener_map = update c.listener_map port (port_remove (c.listener_map port) sock_id);
}

unfoldable pub tcp_bound_insert : Slow → (port sock_id : ℕ) (reuseport : Bool) → Slow × Status
unfolding port_insert
tcp_bound_insert c port sock_id reuseport =
    let (p, status) = port_insert c.socks (c.bound_ports port) sock_id reuseport in
    (record c { bound_ports = update c.bound_ports port p }, status)

unfoldable pub tcp_bound_remove : Slow → (port sock_id : ℕ) → Slow
unfolding port_remove
tcp_bound_remove c port sock_id = if port == 0 || ltb max_port port then c else record c {
  bound_ports = update c.bound_ports port (port_remove (c.bound_ports port) sock_id);
}

-- The first port from `port` on that no socket holds, with `n` ports left; 0 where there is none.
unfoldable pub find_free_port : (ℕ → Port) → (n port : ℕ) → ℕ
find_free_port bound zero port = 0
find_free_port bound (suc n) port =
    let rest = find_free_port bound n (port + 1) in if (bound port).nsocks == 0 then port else rest

unfoldable pub tcp_bound_find_free : Slow → ℕ
tcp_bound_find_free c = find_free_port c.bound_ports (max_port - min_port + 1) min_port

abbrev pub is_listen : SockState → Bool
is_listen listen = true
is_listen _ = false

-- The socket listens on the address.
unfoldable pub accepts_ip : Sock → ℕ → Bool
accepts_ip s local_ip = is_listen s.state && (s.local_ip == 0 || s.local_ip == local_ip)

-- The place, round the sockets of the port from the next one on, that takes the connection.
unfoldable pub next_listener : (ℕ → Sock) → Port → (local_ip n i : ℕ) → Option ℕ
unfolding accepts_ip
next_listener socks port local_ip zero i = none
next_listener socks port local_ip (suc n) i =
    let idx = (port.next_sock + i) % port.nsocks in
    let sid = port.sids idx in
    let rest = next_listener socks port local_ip n (i + 1) in
    if not (sid == id_invalid) && accepts_ip (socks sid) local_ip then some idx else rest

-- `none` is ID_INVALID.
unfoldable pub tcp_listener_lookup : Slow → (local_ip port : ℕ) → Slow × Option ℕ
unfolding next_listener
tcp_listener_lookup c local_ip port =
    let entry = c.listener_map port in
    if port == 0 || ltb max_port port
    then (c, none)
    else elim (next_listener c.socks entry local_ip entry.nsocks 0) [
      | none ↦ (c, none)
      | some idx ↦
          let turned = record entry { next_sock = (idx + 1) % entry.nsocks } in
          (record c { listener_map = update c.listener_map port turned }, some (entry.sids idx))
    ]
