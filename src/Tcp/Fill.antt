-- ===== src/Tcp/Fill.antt =====
-- Writing a packet for transmission: `tx_fill_hdr` and `tx_fill_ack`.
use chamelio.Common.{ℕ, ◌+◌, ◌-◌, ◌*◌, ◌/◌, ◌^◌, ◌&&◌, Option, none, some, Bytes, ltb}
use chamelio.Common.{if◌then◌else◌, u32, add32, sub32, has_bit, clear_bit}
use chamelio.Tcp.Context.{Context, tcp_now_us}
use chamelio.Tcp.Packet.{put8, put16, put32, is_pktlen_valid, is_paylen_valid}
use chamelio.Tcp.Sock.{Sock}

-- The bits of TCP_SOCK_FLAG_SEND_ECE (0x8) and TCP_SOCK_FLAG_ECN (0x10).
abbrev pub send_ece_bit : ℕ
send_ece_bit = 3

abbrev pub ecn_bit : ℕ
ecn_bit = 4

-- `sizeof(struct ip_hdr) + TCP_HLEN + TCP_TS_OPT_LEN`
abbrev pub tx_get_hdrlen : ℕ
tx_get_hdrlen = 52

-- ACK, with PSH (8) on data and ECE (64) where a congestion mark is to be echoed.
unfoldable pub tx_flags : Sock → ℕ → ℕ
tx_flags s paylen =
    16 + (if ltb 0 paylen then 8 else 0) + (if has_bit s.flags send_ece_bit then 64 else 0)

-- The IP header; the mark ECT(0) is put on data only.
unfoldable pub fill_ip : Bytes → Sock → (hdrlen paylen : ℕ) → Bytes
fill_ip p s hdrlen paylen =
    let p1 = put8 p 0 (4 * 2 ^ 4 + 5) in
    let p2 = put8 p1 1 (if has_bit s.flags ecn_bit && ltb 0 paylen then 2 else 0) in
    let p3 = put16 p2 2 (hdrlen + paylen) in
    let p4 = put16 p3 4 3 in
    let p5 = put16 p4 6 0 in
    let p6 = put8 (put8 p5 8 0xff) 9 6 in
    let p7 = put16 p6 10 0 in put32 (put32 p7 12 s.local_ip) 16 s.remote_ip

-- The fixed part of the TCP header.
unfoldable pub fill_tcp : Bytes → Sock → (hdrlen paylen : ℕ) → Bytes
unfolding tx_flags
fill_tcp p s hdrlen paylen =
    let p1 = put16 (put16 p 20 s.local_port) 22 s.remote_port in
    let p2 = put32 p1 24 (add32 s.tx_seq s.tx_pending) in
    let p3 = put32 p2 28 s.rx_seq in
    let p4 = put16 p3 32 ((hdrlen / 4 - 5) * 2 ^ 12 + tx_flags s paylen) in
    let p5 = put16 p4 34 (sub32 s.rx_len s.rx_avail) in put16 (put16 p5 36 0) 38 0

-- The timestamp option, twelve bytes with its padding.
unfoldable pub tx_write_tsopt : Bytes → Sock → ℕ → Bytes
tx_write_tsopt p s now_us =
    put16 (put32 (put32 (put8 (put8 p 40 8) 41 12) 42 now_us) 46 s.ts_recent) 50 0

-- Filling the header takes the mark to be echoed off the socket.
unfoldable pub tx_fill_hdr : Context → Sock → (hdrlen paylen : ℕ) → Context × Sock
unfolding fill_ip fill_tcp tx_write_tsopt tcp_now_us
tx_fill_hdr c s hdrlen paylen =
    let (now_us, c1) = tcp_now_us c in
    let s1 = record s { flags = clear_bit s.flags send_ece_bit } in
    let p = fill_tcp (fill_ip c.pkt s hdrlen paylen) s hdrlen paylen in
    (record c1 { pkt = tx_write_tsopt p s1 now_us }, s1)

-- A pure ACK in the packet buffer, and its length.
unfoldable pub tx_fill_ack : Context → Sock → Option ℕ × Context × Sock
unfolding tx_fill_hdr
tx_fill_ack c s =
    let filled = tx_fill_hdr c s tx_get_hdrlen 0 in
    if is_pktlen_valid c.pkt_len && is_paylen_valid c.pkt_len tx_get_hdrlen 0
    then (some tx_get_hdrlen, filled.0, filled.1)
    else (none, c, s)

unfoldable pub tx_get_max_paylen : ℕ → ℕ → ℕ
tx_get_max_paylen pkt_len hdrlen = u32 pkt_len - hdrlen
