-- ===== src/Udp/Rx.antt =====
-- `udp_event_rx`: a datagram has come in.
use chamelio.Common.{none, some, Bytes, ℕ, Bool, add32, if◌then◌else◌, ◌+◌, ◌*◌, leb, ◌&&◌, ◌-◌}
use chamelio.Common.{copy, sub32, ltb, ◌==◌, ◌%◌, ◌^◌}
use chamelio.Headers.{be16, iph_hl, iph_v, ip_src, ip_proto, ip_len}
use chamelio.Udp.Find.{udp_sock_find}
use chamelio.Udp.State.{Sock, bump, Context, Outcome, set_sock, returns, bump_app_rx}
use chamelio.Udp.State.{udp_queue_bump_app_rx}

-- `struct udp_hdr`, at the offset of the header.
abbrev pub udp_src : Bytes → ℕ → ℕ
udp_src p k = be16 p k

abbrev pub udp_dst : Bytes → ℕ → ℕ
udp_dst p k = be16 p (k + 2)

abbrev pub udp_len : Bytes → ℕ → ℕ
udp_len p k = be16 p (k + 4)

abbrev pub ip_hdrs_len : Bytes → ℕ
ip_hdrs_len p = iph_hl p * 4

-- The tests of the headers: IPv4 with UDP, no fragment, and lengths that agree with each other.
unfoldable pub is_datagram : Bytes → (pkt_len : ℕ) → Bool
is_datagram p pkt_len =
    leb 20 pkt_len
    && iph_v p == 4
    && leb 5 (iph_hl p)
    && ip_proto p == 17
    && be16 p 6 % 2 ^ 14 == 0
    && leb (ip_hdrs_len p + 8) (ip_len p)
    && leb (ip_hdrs_len p + 8) pkt_len
    && leb 8 (udp_len p (ip_hdrs_len p))
    && leb (ip_hdrs_len p + udp_len p (ip_hdrs_len p)) (ip_len p)

-- The place behind the unread bytes.
unfoldable pub rx_tail : Sock → ℕ
rx_tail s =
    let tail = add32 s.rx_head s.rx_avail in if leb s.rx_len tail then tail - s.rx_len else tail

-- The copy into the RX ring, in two parts where it goes round the end.
unfoldable pub rx_copy : Bytes → Sock → Bytes → (payload n : ℕ) → Bytes
unfolding rx_tail
rx_copy shm s pkt payload n =
    let tail = rx_tail s in
    if leb (add32 tail n) s.rx_len
    then copy shm (s.rx_off + tail) pkt payload n
    else (let part = sub32 s.rx_len tail in
        copy (copy shm (s.rx_off + tail) pkt payload part) s.rx_off pkt (payload + part)
          (sub32 n part))

unfoldable pub rx_sock : Sock → (core n : ℕ) → Sock
rx_sock s core n = record s { rx_avail = add32 s.rx_avail n; rx_core = core }

-- The payload is stored, and the application is told.
unfoldable pub rx_store : Context → (sid n : ℕ) → Outcome
unfolding rx_copy rx_sock bump
rx_store c sid n =
    let s = c.socks sid in
    let k = ip_hdrs_len c.pkt in
    let c1 = record (set_sock c sid (rx_sock s c.core n)) {
      shm = rx_copy c.shm s c.pkt (k + 8) n;
    } in
    let msg = bump_app_rx s.opaque c.core (udp_src c.pkt k) (ip_src c.pkt) n in
    elim (bump c1 (rx_sock s c.core n) c.core udp_queue_bump_app_rx msg) [
      | none ↦ returns none c1
      | some c2 ↦ returns (some 0) c2
    ]

unfoldable pub udp_event_rx : Context → Outcome
unfolding is_datagram udp_sock_find rx_store
udp_event_rx c =
    let k = ip_hdrs_len c.pkt in
    let found : Outcome = elim (udp_sock_find c (udp_dst c.pkt k)) [
      | none ↦ returns none c
      | some (sid, c1) ↦
          let s = c1.socks sid in
          let n = udp_len c.pkt k - 8 in
          if ltb (sub32 s.rx_len s.rx_avail) n then returns none c1 else rx_store c1 sid n
    ] in
    if is_datagram c.pkt c.pkt_len then found else returns none c
