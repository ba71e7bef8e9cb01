-- ===== src/Udp/Tx.antt =====
-- `handle_bump_tx`: the application has put a datagram into the TX ring.
use chamelio.Common.{none, some, true, false, ℕ, Bytes, Bool, u16, if◌then◌else◌, add32, ltb, leb}
use chamelio.Common.{update, ◌+◌, copy, ◌-◌, u32, sub32, ◌||◌, not, ◌==◌, u64, ◌^◌}
use chamelio.Headers.{put8, put16, put32}
use chamelio.Udp.Find.{find_free_port}
use chamelio.Udp.State.{Sock, bump, Context, Outcome, set_sock, udp_max_payload}
use chamelio.Udp.State.{udp_pkt_inner_size, udp_queue_bump_app_tx, bump_app_tx, max_fp_cores}
use chamelio.Udp.State.{returns, overrun}

-- The socket's port, which is chosen now if it has none. `none` is the failure.
unfoldable pub local_port_for : Context → (sid : ℕ) → Context × Bool
unfolding find_free_port
local_port_for c sid =
    let s = c.socks sid in
    let (port, c1) = find_free_port c in
    let p = c1.ports port in
    let bound = record (set_sock c1 sid (record s { local_port = port })) {
      ports =
          update c1.ports port
            (record p { sids = update p.sids 0 s.id; nsocks = u32 (p.nsocks + 1) });
    } in
    if not (s.local_port == 0) then (c, true) else if port == 0 then (c1, false) else (bound, true)

-- How many bytes are sent: the count as a `__u16`, cut to the room for a packet.
unfoldable pub tx_payload_len : (tx_avail pkt_len : ℕ) → ℕ
tx_payload_len tx_avail pkt_len =
    let all = u16 tx_avail in
    let small = if ltb udp_max_payload all then udp_max_payload else all in
    if ltb (pkt_len - udp_pkt_inner_size) small then u16 (pkt_len - udp_pkt_inner_size) else small

unfoldable pub fill_hdrs : Bytes → Sock → (tx_ip tx_port n : ℕ) → Bytes
fill_hdrs p s tx_ip tx_port n =
    let p1 = put8 (put8 p 0 69) 1 0 in
    let p2 = put16 (put16 (put16 p1 2 (28 + n)) 4 3) 6 0 in
    let p3 = put8 (put8 p2 8 255) 9 17 in
    let p4 = put32 (put32 p3 12 s.local_ip) 16 tx_ip in
    let p5 = put8 (put8 p4 10 0) 11 0 in
    put16 (put16 (put16 p5 20 s.local_port) 22 tx_port) 24 (8 + n)

-- The copy out of the TX ring, in two parts where it goes round the end.
unfoldable pub tx_copy : Bytes → Sock → Bytes → (payload n : ℕ) → Bytes
tx_copy shm s pkt payload n =
    if leb (add32 s.tx_head n) s.tx_len
    then copy pkt payload shm (s.tx_off + s.tx_head) n
    else (let part = sub32 s.tx_len s.tx_head in
        copy (copy pkt payload shm (s.tx_off + s.tx_head) part) (payload + part) shm s.tx_off
          (u64 (n + 2 ^ 64 - part)))

unfoldable pub tx_sock : Sock → (tx_avail n : ℕ) → Sock
tx_sock s tx_avail n =
    let new_head = add32 s.tx_head n in
    record s {
      tx_head = if leb s.tx_len new_head then new_head - s.tx_len else new_head;
      tx_avail = sub32 (add32 s.tx_avail tx_avail) n;
    }

-- The datagram is built and the application told.
unfoldable pub tx_send : Context → (sid core tx_port tx_ip tx_avail : ℕ) → Outcome
unfolding tx_payload_len fill_hdrs tx_copy tx_sock bump
tx_send c sid core tx_port tx_ip tx_avail =
    let s = c.socks sid in
    let n = tx_payload_len tx_avail c.pkt_len in
    let s1 = tx_sock s tx_avail n in
    let c1 = record (set_sock c sid s1) {
      pkt = tx_copy c.shm s (fill_hdrs c.pkt s tx_ip tx_port n) udp_pkt_inner_size n;
    } in
    elim (bump c1 s1 core udp_queue_bump_app_tx (bump_app_tx s.opaque n)) [
      | none ↦ returns none c1
      | some c2 ↦ returns (some (udp_pkt_inner_size + n)) c2
    ]

-- The socket's number is not checked.
unfoldable pub handle_bump_tx : Context → (sock_id core tx_port tx_ip tx_avail : ℕ) → Outcome
unfolding local_port_for tx_send
handle_bump_tx c sock_id core tx_port tx_ip tx_avail =
    let (c1, bound) = local_port_for c sock_id in
    if ltb c.pkt_len udp_pkt_inner_size || leb max_fp_cores core
    then returns none c
    else if leb c.n_socks sock_id
    then overrun
    else if bound
    then tx_send c1 sock_id core tx_port tx_ip tx_avail
    else returns none c1
