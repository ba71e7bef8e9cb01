-- ===== src/Tcp/Accepts.antt =====
-- `tcp_event_rx` on new data: it is taken as far as it fits.
use chamelio.Common.{◌≡◌, false, true}
use chamelio.Tcp.Context.{Context}
use chamelio.Tcp.Packet.{rx_is_ack_only, is_paylen_valid, rx_get_hdrlen, rx_get_paylen}
use chamelio.Tcp.Sock.{rx_is_payload_dup, Sock, rx_is_out_of_order}

-- The segment carries bytes that the socket has not got yet, the first of them in order, behind
-- headers that fit the buffer.
pub record IsNews (c : Context) (s : Sock) : Type 0 where
  pub carries : rx_is_ack_only c.pkt ≡ false
  pub fresh : rx_is_payload_dup c.pkt s ≡ false
  pub next : rx_is_out_of_order c.pkt s ≡ false
  pub headers : is_paylen_valid c.pkt_len (rx_get_hdrlen c.pkt) 0 ≡ true
  pub payload : is_paylen_valid c.pkt_len (rx_get_hdrlen c.pkt) (rx_get_paylen c.pkt) ≡ true
