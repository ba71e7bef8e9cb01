-- ===== src/Tcp/Packet.antt =====
-- The packet headers of ip_hdr.h and tcp_hdr.h, by their offset from the start of the IP header.
pub use chamelio.Headers.{be16, be32, put8, put16, put32, iph_v, iph_hl, iph_ecn, ip_len, ip_proto}
pub use chamelio.Headers.{ip_src, ip_dst}
use chamelio.Common.{ℕ, ◌+◌, ◌-◌, ◌*◌, ◌/◌, ◌%◌, ◌^◌, Bool, ◌&&◌, not, leb, ◌==◌, has_bit, u16}
use chamelio.Common.{Bytes}

-- `struct tcp_hdr`
abbrev pub tcp_src : Bytes → ℕ
tcp_src p = be16 p 20

abbrev pub tcp_dest : Bytes → ℕ
tcp_dest p = be16 p 22

abbrev pub tcp_seqno : Bytes → ℕ
tcp_seqno p = be32 p 24

abbrev pub tcp_ackno : Bytes → ℕ
tcp_ackno p = be32 p 28

abbrev pub tcph_hdrlen : Bytes → ℕ
tcph_hdrlen p = be16 p 32 / 2 ^ 12

abbrev pub tcph_flags : Bytes → ℕ
tcph_flags p = be16 p 32 % 2 ^ 9

abbrev pub tcp_wnd : Bytes → ℕ
tcp_wnd p = be16 p 34

-- `struct tcp_timestamp_opt`, behind the fixed part of the TCP header.
abbrev pub ts_kind : Bytes → ℕ
ts_kind p = p 40

abbrev pub ts_val : Bytes → ℕ
ts_val p = be32 p 42

abbrev pub ts_ecr : Bytes → ℕ
ts_ecr p = be32 p 46

-- `sizeof(struct tcp_pkt_inner)`, and TCP_HLEN + TCP_TS_OPT_LEN behind the IP header.
abbrev pub tcp_pkt_inner_size : ℕ
tcp_pkt_inner_size = 40

unfoldable pub is_pktlen_valid : ℕ → Bool
is_pktlen_valid pkt_len = leb tcp_pkt_inner_size pkt_len

-- Both lengths are `__u16` parameters.
unfoldable pub is_paylen_valid : ℕ → ℕ → ℕ → Bool
is_paylen_valid pkt_len hdrs_len paylen = leb (u16 hdrs_len + u16 paylen) pkt_len

unfoldable pub rx_get_hdrlen : Bytes → ℕ
rx_get_hdrlen p = iph_hl p * 4 + tcph_hdrlen p * 4

-- The difference is cut to a `__u16`.
unfoldable pub rx_get_paylen : Bytes → ℕ
rx_get_paylen p = u16 (ip_len p + 2 ^ 16 - iph_hl p * 4 - tcph_hdrlen p * 4)

unfoldable pub rx_is_ip : Bytes → Bool
rx_is_ip p = iph_v p == 4 && leb 5 (iph_hl p) && ip_proto p == 6

unfoldable pub rx_is_ce : Bytes → Bool
rx_is_ce p = iph_ecn p == 3

-- SYN, FIN or RST: one of the low three bits.
unfoldable pub rx_is_flags_ctl : Bytes → Bool
rx_is_flags_ctl p = not (tcph_flags p % 2 ^ 3 == 0)

unfoldable pub rx_is_ack : Bytes → Bool
rx_is_ack p = has_bit (tcph_flags p) 4

-- TAS_TCP_ECE
unfoldable pub rx_is_ece : Bytes → Bool
rx_is_ece p = has_bit (tcph_flags p) 6

unfoldable pub rx_is_ack_only : Bytes → Bool
rx_is_ack_only p = rx_get_paylen p == 0
