-- ===== src/Udp/Tests.antt =====
-- A sender and a receiver on port 1500, and the theorems at them.
use chamelio.Common.{refl, none, some, true, ℕ, Bytes, Option, ◌≡◌, if◌then◌else◌, ◌≤◌, ◌+◌, ◌<◌}
use chamelio.Common.{arith, ◌==◌, ◌-◌, ◌^◌, ◌⊎◌, ◌≢◌}
use chamelio.Queue.{Slots, Equeue}
use chamelio.Udp.Balance.{IsTurn, udp_sock_find-IsTurn, Rotates}
use chamelio.Udp.Delivery.{SameData, Stores, udp_event_rx-Stores}
use chamelio.Udp.Ephemeral.{Chosen, find_free_port_lem}
use chamelio.Udp.Find.{start_port, find_free_port, udp_sock_find, candidate}
use chamelio.Udp.Ring.{IsRxRing}
use chamelio.Udp.Rx.{is_datagram, udp_len, udp_dst, ip_hdrs_len, udp_event_rx}
use chamelio.Udp.State.{Port, Context, Message, Sock, bump_app_tx, returns}
use chamelio.Udp.State.{udp_port_scan_max}
use chamelio.Udp.Tx.{local_port_for, fill_hdrs}

abbrev ring_of_four : ℕ → Equeue
ring_of_four q = record { tail = 0; nelems = 4; elsize = 64; off = 0 }

abbrev queue_free : Slots Message
queue_free = record { type = λ k. 0; entry = λ k. bump_app_tx 0 0 }

-- The TX ring is about to go round its end.
abbrev pub socket : (local_port : ℕ) → Sock
socket local_port = record {
  id = 0;
  opaque = 77;
  tx_core = 0;
  rx_core = 0;
  app_bump_qids = λ core. 2 + core;
  local_ip = 5;
  local_port = local_port;
  reuport = 0;
  rx_len = 16;
  rx_avail = 2;
  rx_head = 12;
  rx_off = 100;
  tx_len = 16;
  tx_avail = 0;
  tx_head = 14;
  tx_off = 200;
}

abbrev pub no_port : Port
no_port = record { nsocks = 0; next_sock = λ core. core; sids = λ i. 9 }

abbrev pub bound_port : Port
bound_port = record { nsocks = 1; next_sock = λ core. 0; sids = λ i. 0 }

abbrev busy_port : Port
busy_port = record { nsocks = 3; next_sock = λ core. core; sids = λ i. i }

abbrev pub context : Bytes → (local_port core : ℕ) → Context
context pkt local_port core = record {
  pkt = pkt;
  pkt_len = 60;
  shm = λ k. k;
  shm_len = 4096;
  core = core;
  ncores = 2;
  equeues = ring_of_four;
  slots = λ q. queue_free;
  ports = λ nr. if nr == 1500 then bound_port else if nr == 1600 then busy_port else no_port;
  socks = λ sid. socket local_port;
  n_socks = 8;
  next_port = some 1600;
}

abbrev sender : Context
sender = context (λ k. 0) 0 0

-- The socket of the sender gets a port.
abbrev sender_bound : Context
sender_bound = (local_port_for sender 0).0

sender_port : (sender_bound.socks 0).local_port ≡ 1601
unfolding local_port_for
sender_port = refl

start_early : start_port 1600 + udp_port_scan_max ≤ 2 ^ 16
unfolding start_port
start_early = omega arith

find_free_port_lem_example :
    ((find_free_port sender ≡ (0, sender))
      × ((j : ℕ)
          → j < udp_port_scan_max
          → (sender.ports (candidate (start_port 1600) j)).nsocks ≢ 0))
    ⊎ ((j : ℕ) × (j < udp_port_scan_max)
        × ((k : ℕ) → k < j → (sender.ports (candidate (start_port 1600) k)).nsocks ≢ 0)
        × (c' : Context) × (find_free_port sender ≡ (candidate (start_port 1600) j, c'))
        × Chosen sender (candidate (start_port 1600) j) c')
find_free_port_lem_example = find_free_port_lem sender 1600 refl start_early

-- Three sockets, two cores, and it is the turn of the core's first place.
busy-IsTurn : IsTurn 0 2 busy_port
busy-IsTurn = record {
  few = omega arith;
  cores = omega arith;
  own = omega arith;
  bound = omega arith;
  rounds = 0;
  place = refl;
}

abbrev found_context : Context → Option (ℕ × Context) → Context
found_context c none = c
found_context c (some r) = r.1

after_turn : Context
unfolding udp_sock_find
after_turn = found_context sender (udp_sock_find sender 1600)

found_turn : udp_sock_find sender 1600 ≡ some (0, after_turn)
unfolding udp_sock_find after_turn
found_turn = refl

udp_sock_find-IsTurn_example :
    (0 ≡ (sender.ports 1600).sids ((sender.ports 1600).next_sock sender.core))
    × ((sender.ports 1600).next_sock sender.core < (sender.ports 1600).nsocks)
    × IsTurn sender.core sender.ncores (after_turn.ports 1600)
    × Rotates 0 2 (sender.ports 1600) (after_turn.ports 1600)
udp_sock_find-IsTurn_example = udp_sock_find-IsTurn sender 1600 0 after_turn busy-IsTurn found_turn

-- A datagram of five bytes for the receiver, whose RX ring goes round its end with them.
receiver : Context
unfolding fill_hdrs
receiver = context (fill_hdrs (λ k. k) (socket 1400) 6 1500 5) 1500 1

receiver_found :
    udp_sock_find receiver (udp_dst receiver.pkt (ip_hdrs_len receiver.pkt)) ≡ some (0, receiver)
unfolding udp_sock_find receiver
receiver_found = refl

receiver-IsRxRing : IsRxRing (receiver.socks 0)
unfolding receiver
receiver-IsRxRing = record { small = omega arith; head_in = omega arith; fits = omega arith }

receiver_good : is_datagram receiver.pkt receiver.pkt_len ≡ true
unfolding is_datagram receiver
receiver_good = refl

udp_event_rx-Stores_example :
    let n = udp_len receiver.pkt (ip_hdrs_len receiver.pkt) - 8 in
    let s = receiver.socks 0 in
    SameData receiver receiver
    × (((s.rx_len < s.rx_avail + n) × (udp_event_rx receiver ≡ returns none receiver))
        ⊎ ((s.rx_avail + n ≤ s.rx_len) × Stores receiver 0 n (udp_event_rx receiver)))
udp_event_rx-Stores_example =
    udp_event_rx-Stores receiver 0 receiver receiver_good receiver_found receiver-IsRxRing
