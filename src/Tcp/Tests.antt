-- ===== src/Tcp/Tests.antt =====
-- The theorems about the TCP fast path at a concrete connection.
use chamelio.Common.{refl, ◌<◌, false, arith, ◌≡◌, true, add32, sub32}
use chamelio.Common.{u16, ℕ, some, none, ◌≢◌, ◌+◌, if◌then◌else◌, ltb, has_bit, ◌&&◌}
use chamelio.Headers.{iph_ecn}
use chamelio.Tcp.Delivery.{fitting}
use chamelio.Tcp.Fill.{tx_fill_hdr, tx_get_max_paylen, tx_get_hdrlen, send_ece_bit, ecn_bit}
use chamelio.Tcp.Fixture.{context, segment, conn, context-IsSegment, conn-IsValid, conn-IsRxValid}
use chamelio.Tcp.Flow.{IsFlowOf, sock_find_lem}
use chamelio.Tcp.Header.{IsHeader, tx_fill_hdr_read}
use chamelio.Tcp.Keeps.{Keeps}
use chamelio.Tcp.Lookup.{flow_hash, sock_hash, sock_find, id_invalid}
use chamelio.Tcp.Packet.{rx_is_ip, rx_is_flags_ctl}
use chamelio.Tcp.Packet.{rx_get_hdrlen, rx_get_paylen, ip_src, ip_dst, tcp_src}
use chamelio.Tcp.Packet.{tcp_dest, rx_is_ack, tcp_seqno, tcp_ackno, tcp_wnd, tcph_flags}
use chamelio.Tcp.Rx.{tcp_event_rx}
use chamelio.Tcp.RxKeeps.{tcp_event_rx-Keeps}
use chamelio.Tcp.Sock.{rx_get_rx_bump, tx_get_tx_bump, rx_get_ack_bump}
use chamelio.Tcp.Sock.{rx_is_ack_valid, lock_sock, rx_get_payload_overlap}
use chamelio.Tcp.Sock.{tcp_sock_recovery_avail}
use chamelio.Tcp.Stream.{tcp_event_rx-Delivers}
use chamelio.Tcp.Takes.{Delivers, Accepts}

tcp_event_rx-Keeps_example : Keeps context 0 (tcp_event_rx context)
tcp_event_rx-Keeps_example = tcp_event_rx-Keeps context 0 context-IsSegment conn-IsValid

tcp_event_rx-Delivers_example :
    Delivers context 0 conn (rx_get_hdrlen segment) (tcp_event_rx context)
tcp_event_rx-Delivers_example = tcp_event_rx-Delivers context 0 context-IsSegment conn-IsRxValid

-- All four bytes fit.
fitting_four : fitting segment conn ≡ 4
unfolding rx_get_rx_bump rx_get_paylen rx_get_payload_overlap
fitting_four = refl

-- All three bytes that wait are sent.
sends_three : tx_get_tx_bump (lock_sock conn) (tx_get_max_paylen 200 tx_get_hdrlen) ≡ 3
unfolding tx_get_tx_bump tx_get_max_paylen tcp_sock_recovery_avail
sends_three = refl

-- The acknowledgment of 5 frees the two bytes in flight.
frees_two : rx_get_ack_bump segment conn ≡ 2
unfolding rx_get_ack_bump rx_is_ack_valid
frees_two = refl

conn-IsHeader : IsHeader conn
conn-IsHeader = record {
  local_ip_word = omega arith;
  remote_ip_word = omega arith;
  local_port_word = omega arith;
  remote_port_word = omega arith;
  rx_seq_word = omega arith;
}

tx_fill_hdr_read_example :
    let p = (tx_fill_hdr context conn tx_get_hdrlen 3).0.pkt in
    (ip_src p ≡ 167772161)
    × (ip_dst p ≡ 167772162)
    × (tcp_src p ≡ 90)
    × (tcp_dest p ≡ 80)
    × (rx_is_ip p ≡ true)
    × (rx_is_flags_ctl p ≡ false)
    × (rx_is_ack p ≡ true)
    × (tcph_flags p
        ≡ 16 + (if ltb 0 3 then 8 else 0) + (if has_bit conn.flags send_ece_bit then 64 else 0))
    × (iph_ecn p ≡ (if has_bit conn.flags ecn_bit && ltb 0 3 then 2 else 0))
    × (tcp_seqno p ≡ add32 3 2)
    × (tcp_ackno p ≡ 7)
    × (tcp_wnd p ≡ u16 (sub32 8 2))
    × (rx_get_hdrlen p ≡ tx_get_hdrlen)
    × (rx_get_paylen p ≡ 3)
tx_fill_hdr_read_example = tx_fill_hdr_read context conn 3 conn-IsHeader (omega arith)

hash_small : flow_hash segment < 4096
unfolding flow_hash sock_hash
hash_small = omega arith

sock_find_lem_example :
    ((sid : ℕ) → sock_find context ≡ some sid → IsFlowOf context sid)
    × (sock_find context ≡ none
        → (i : ℕ) → i < 4
        → context.buckets (flow_hash segment) i ≢ id_invalid
        → ¬ IsFlowOf context (context.buckets (flow_hash segment) i))
sock_find_lem_example = sock_find_lem context hash_small
