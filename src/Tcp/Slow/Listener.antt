-- ===== src/Tcp/Slow/Listener.antt =====
-- tcp_listener.c: the ring of the connections that wait for `accept`.
use chamelio.Common.{zero, suc, none, some, true, false, ℕ, ◌-◌, ◌+◌, if◌then◌else◌, add32}
use chamelio.Common.{Option, Bool, update, ◌==◌, ◌&&◌, leb, not, ◌||◌}
use chamelio.Tcp.Lookup.{id_invalid}
use chamelio.Tcp.Slow.State.{Listener, Slow, set_listener, tcp_sock_meta, set_meta}
use chamelio.Tcp.Sock.{SockState, accept_pending}

unfoldable pub listener_backlog_put : Listener → Listener
listener_backlog_put l = record l { backlog_used = l.backlog_used - 1 }

-- `memset` to 0, the memory of the ring given back.
abbrev pub idle_listener : Listener
idle_listener = record {
  active = false;
  sock_id = 0;
  backlog_len = 0;
  backlog_used = 0;
  ready_head = 0;
  ready_used = 0;
  has_ready = false;
  ready_room = 0;
  ready_sids = λ i. 0;
}

unfoldable pub tcp_listener_reset : Slow → (listener_id : ℕ) → Slow
tcp_listener_reset c listener_id = set_listener c listener_id idle_listener

-- The first of the `n` places from `i` on that holds the socket is emptied.
unfoldable pub forget_ready : (ℕ → ℕ) → (sock_id n i : ℕ) → ℕ → ℕ
forget_ready sids sock_id zero i = sids
forget_ready sids sock_id (suc n) i =
    let rest = forget_ready sids sock_id n (i + 1) in
    if sids i == sock_id then update sids i id_invalid else rest

unfoldable pub detached : Listener → (sock_id : ℕ) → Listener
unfolding forget_ready listener_backlog_put
detached l sock_id = listener_backlog_put (
    if l.active && l.has_ready
    then record l { ready_sids = forget_ready l.ready_sids sock_id l.backlog_len 0 }
    else l)

unfoldable pub tcp_listener_detach_child : Slow → ℕ → Slow
unfolding detached
tcp_listener_detach_child c sid =
    let m = tcp_sock_meta c sid in
    let l = m.listener_id in
    if l == id_invalid
    then c
    else set_meta (set_listener c l (detached (c.listeners l) (c.socks sid).id)) sid
        (record m { listener_id = id_invalid })

-- The place of the ring behind the last one that is used.
unfoldable pub ready_pos : Listener → ℕ
ready_pos l =
    let pos = add32 l.ready_head l.ready_used in
    if leb l.backlog_len pos then pos - l.backlog_len else pos

unfoldable pub ready_push : Listener → (sock_id : ℕ) → Option Listener
unfolding ready_pos
ready_push l sock_id =
    if not l.active || leb l.backlog_len l.ready_used
    then none
    else some (record l {
      ready_sids = update l.ready_sids (ready_pos l) sock_id;
      ready_used = l.ready_used + 1;
    })

unfoldable pub tcp_listener_ready_push : Slow → (listener_id sock_id : ℕ) → Slow × Bool
unfolding ready_push
tcp_listener_ready_push c listener_id sock_id =
    elim (ready_push (c.listeners listener_id) sock_id) [
      | none ↦ (c, false)
      | some l ↦ (set_listener c listener_id l, true)
    ]

-- The first place of the ring is taken out.
unfoldable pub ready_drop : Listener → Listener
ready_drop l = record l {
  ready_sids = update l.ready_sids l.ready_head id_invalid;
  ready_head = if leb l.backlog_len (l.ready_head + 1) then 0 else l.ready_head + 1;
  ready_used = l.ready_used - 1;
}

abbrev pub is_accept_pending : SockState → Bool
is_accept_pending accept_pending = true
is_accept_pending _ = false

-- A child that is not waiting any more leaves the listener.
unfoldable pub drop_child : Slow → (sid listener_id : ℕ) → Slow
unfolding listener_backlog_put
drop_child c sid listener_id =
    let c1 = set_meta c sid (record (tcp_sock_meta c sid) { listener_id = id_invalid }) in
    set_listener c1 listener_id (listener_backlog_put (c1.listeners listener_id))

-- One round takes one place out of the ring, so that `ready_used` rounds are enough.
unfoldable pub ready_pop_loop : (fuel : ℕ) → Slow → (listener_id : ℕ) → Slow × Option ℕ
unfolding ready_drop drop_child
ready_pop_loop zero c listener_id = (c, none)
ready_pop_loop (suc fuel) c listener_id =
    let l = c.listeners listener_id in
    let sid = l.ready_sids l.ready_head in
    let c1 = set_listener c listener_id (ready_drop l) in
    let next = ready_pop_loop fuel c1 listener_id in
    let next_dropped = ready_pop_loop fuel (drop_child c1 sid listener_id) listener_id in
    if l.active && not (l.ready_used == 0)
    then (if sid == id_invalid || not ((tcp_sock_meta c1 sid).listener_id == listener_id)
        then next
        else if is_accept_pending (c1.socks sid).state
        then (c1, some sid)
        else next_dropped)
    else (c, none)

unfoldable pub tcp_listener_ready_pop : Slow → (listener_id : ℕ) → Slow × Option ℕ
unfolding ready_pop_loop
tcp_listener_ready_pop c listener_id =
    ready_pop_loop (c.listeners listener_id).ready_used c listener_id
