-- ===== src/Tcp/Header.antt =====
-- What a receiver reads in the header that `tx_fill_hdr` writes.
use chamelio.Common.{refl, ◌<◌, ℕ, ◌^◌, ◌≡◌, add32, arith, ◌-◌, true, false, u16, sub32, ◌+◌}
use chamelio.Common.{if◌then◌else◌, ltb, has_bit, ◌&&◌}
use chamelio.Headers.{iph_ecn}
use chamelio.Tcp.Context.{Context}
use chamelio.Tcp.Fill.{tx_fill_hdr, tx_get_hdrlen, send_ece_bit, ecn_bit}
use chamelio.Tcp.Packet.{rx_is_ip, rx_is_flags_ctl, tcp_seqno, rx_is_ack, rx_get_hdrlen}
use chamelio.Tcp.Packet.{rx_get_paylen, ip_src, ip_dst, tcp_src, tcp_dest, tcp_ackno, tcp_wnd}
use chamelio.Tcp.Packet.{tcph_flags}
use chamelio.Tcp.Sock.{Sock}

-- The header fields are words of their widths.
pub record IsHeader (s : Sock) : Type 0 where
  pub local_ip_word : s.local_ip < 2 ^ 32
  pub remote_ip_word : s.remote_ip < 2 ^ 32
  pub local_port_word : s.local_port < 2 ^ 16
  pub remote_port_word : s.remote_port < 2 ^ 16
  pub rx_seq_word : s.rx_seq < 2 ^ 32

pub tcp_seqno-tx_fill_hdr :
    (c : Context) (s : Sock) (h n : ℕ)
    → tcp_seqno (tx_fill_hdr c s h n).0.pkt ≡ add32 s.tx_seq s.tx_pending
unfolding tx_fill_hdr
tcp_seqno-tx_fill_hdr c s h n = omega arith

-- When the fields of the socket have the widths of the header's and the packet is shorter than
-- 2 ^ 16 bytes, a header that is written for a payload of `n` bytes is read back as a TCP packet
-- over IPv4 from the socket's address and port to its peer's, with the flags ACK, PSH exactly if
-- there is payload, ECE exactly if the socket owes its peer a congestion mark, and no other; with the
-- mark ECT(0) exactly if there is payload and the connection uses ECN; and with the number of the first unsent byte, an acknowledgment of what was received, the free
-- bytes of the RX ring cut to 16 bits as the window, and the lengths of the headers and of the
-- payload.
pub tx_fill_hdr_read :
    (c : Context) (s : Sock) (n : ℕ)
    → IsHeader s
    → n < 2 ^ 16 - 52
    → let p = (tx_fill_hdr c s tx_get_hdrlen n).0.pkt in
      (ip_src p ≡ s.local_ip)
      × (ip_dst p ≡ s.remote_ip)
      × (tcp_src p ≡ s.local_port)
      × (tcp_dest p ≡ s.remote_port)
      × (rx_is_ip p ≡ true)
      × (rx_is_flags_ctl p ≡ false)
      × (rx_is_ack p ≡ true)
      × (tcph_flags p
          ≡ 16 + (if ltb 0 n then 8 else 0) + (if has_bit s.flags send_ece_bit then 64 else 0))
      × (iph_ecn p ≡ (if has_bit s.flags ecn_bit && ltb 0 n then 2 else 0))
      × (tcp_seqno p ≡ add32 s.tx_seq s.tx_pending)
      × (tcp_ackno p ≡ s.rx_seq)
      × (tcp_wnd p ≡ u16 (sub32 s.rx_len s.rx_avail))
      × (rx_get_hdrlen p ≡ tx_get_hdrlen)
      × (rx_get_paylen p ≡ n)
unfolding tx_fill_hdr rx_is_ip rx_is_flags_ctl rx_is_ack rx_get_hdrlen rx_get_paylen
tx_fill_hdr_read c s n w small = (
  omega arith,
  omega arith,
  omega arith,
  omega arith,
  refl,
  ground arith,
  ground arith,
  ground arith,
  ground arith,
  omega arith,
  omega arith,
  omega arith,
  ground arith,
  ground arith,
)
