-- ===== src/Tcp/Slow/Tests.antt =====
-- The theorems about the slow path at concrete connections.
use chamelio.Common.{refl, [], none, some, true, false, inl, inr, ◌∷◌, ◌≡◌, ℕ, Option, arith, ◌*◌}
use chamelio.Common.{◌⊎◌, ap, ◌≤◌, ◌≢◌, ◌<◌}
use chamelio.Tcp.Fixture.{context, segment}
use chamelio.Tcp.Lookup.{sock_find, id_invalid}
use chamelio.Tcp.Packet.{ip_dst, tcp_dest, ip_src, tcp_src}
use chamelio.Tcp.Slow.Alloc.{IsRing, IsNew, tcp_sock_alloc_lem}
use chamelio.Tcp.Slow.CtlTx.{CtlFields, ctl_pkt_fill}
use chamelio.Tcp.Slow.Dctcp.{dctcp_rate}
use chamelio.Tcp.Slow.Expiry.{sock_on_timeout-Becomes}
use chamelio.Tcp.Slow.Fixture.{slow, opening, two_ready, dctcp_config, syn_ack_seen, no_meta}
use chamelio.Tcp.Slow.Flow.{tcp_flow_lookup}
use chamelio.Tcp.Slow.Listener.{ready_drop, tcp_listener_ready_pop, ready_pop_loop}
use chamelio.Tcp.Slow.Machine.{conn_rx-Moves}
use chamelio.Tcp.Slow.Move.{Moves}
use chamelio.Tcp.Slow.Moves.{Becomes}
use chamelio.Tcp.Slow.Opened.{IsOpening, IsOpen, sock_active_established-IsOpen}
use chamelio.Tcp.Slow.Pop.{HandsOut, tcp_listener_ready_pop-HandsOut}
use chamelio.Tcp.Slow.Rate.{IsRate, dctcp_rate-IsRate}
use chamelio.Tcp.Slow.Ready.{IsReady}
use chamelio.Tcp.Slow.RxCtl.{ctl_rx_parse, conn_rx}
use chamelio.Tcp.Slow.RxOpen.{sock_ack_valid, sock_active_established}
use chamelio.Tcp.Slow.Sharing.{IsShared}
use chamelio.Tcp.Slow.SockState.{tcp_sock_alloc}
use chamelio.Tcp.Slow.State.{Slow, Port, Region, tsc_after_us, slow_rdtsc, max_sockets}
use chamelio.Tcp.Slow.State.{tcp_sock_meta}
use chamelio.Tcp.Slow.Table.{sock_find-tcp_flow_lookup}
use chamelio.Tcp.Slow.Timeout.{sock_on_timeout}
use chamelio.Tcp.Slow.Timer.{sock_retx_sched}
use chamelio.Tcp.Slow.Wire.{IsFields, ReadsBack, TsReads, ctl_rx_parse-ctl_pkt_fill}
use chamelio.Tcp.Sock.{Sock, init, accept_pending}
use chamelio.Tomgr.{tomgr_size, tomgr_insert}

conn_rx-Moves_example : Moves slow 0 syn_ack_seen (conn_rx slow 0 syn_ack_seen)
conn_rx-Moves_example = conn_rx-Moves slow 0 syn_ack_seen

opening-IsOpening : IsOpening opening
opening-IsOpening = record {
  rx_ring = (omega arith, omega arith, refl, refl);
  tx_ring = (omega arith, omega arith, refl, refl);
  syn = refl;
  word = omega arith;
}

covers_syn : sock_ack_valid opening 1 ≡ true
unfolding sock_ack_valid
covers_syn = refl

sock_active_established-IsOpen_example :
    IsOpen ((sock_active_established slow 0 syn_ack_seen).socks 0) 6 1 256
sock_active_established-IsOpen_example =
    sock_active_established-IsOpen slow 0 syn_ack_seen opening-IsOpening covers_syn

-- The slow path over the maps of the fast path.
abbrev same_maps : Slow
same_maps = record slow { socks = context.socks; buckets = context.buckets }

sock_find-tcp_flow_lookup_example :
    sock_find context
    ≡ tcp_flow_lookup same_maps
        (ip_dst segment)
        (tcp_dest segment)
        (ip_src segment)
        (tcp_src segment)
sock_find-tcp_flow_lookup_example =
    sock_find-tcp_flow_lookup context same_maps refl
      (inr (omega arith), (inl refl, (inl refl, (inl refl, tt)))) refl refl

two_ready-IsReady : IsReady two_ready (7 ∷ 9 ∷ [])
two_ready-IsReady = record {
  active = refl;
  used = refl;
  room = omega arith;
  head_in = omega arith;
  small = omega arith;
  contents = (refl, (refl, tt));
}

abbrev syn_fields : CtlFields
syn_fields = record {
  ts = some 9;
  local_ip = 167772161;
  local_port = 90;
  remote_ip = 167772162;
  remote_port = 80;
  seq = 0;
  ack = 0;
  flags = 2;
  wnd = 8;
}

syn_fields-IsFields : IsFields syn_fields
syn_fields-IsFields = record {
  local_ip_word = omega arith;
  remote_ip_word = omega arith;
  local_port_word = omega arith;
  remote_port_word = omega arith;
  seq_word = omega arith;
  ack_word = omega arith;
  wnd_word = omega arith;
  flags_word = omega arith;
}

ctl_rx_parse-ctl_pkt_fill_example :
    ReadsBack syn_fields (ctl_rx_parse (ctl_pkt_fill segment syn_fields) 0)
    × TsReads (some 9) (ctl_rx_parse (ctl_pkt_fill segment syn_fields) 0)
ctl_rx_parse-ctl_pkt_fill_example =
    ctl_rx_parse-ctl_pkt_fill segment syn_fields (some 9) 0 syn_fields-IsFields
      (inr (9, refl, omega arith))

dctcp_rate-IsRate_example :
    IsRate dctcp_config no_meta 20000 3 10 (dctcp_rate dctcp_config no_meta 20000 15000 3 10 40).0
dctcp_rate-IsRate_example =
    dctcp_rate-IsRate dctcp_config no_meta 20000 15000 3 10 40 (omega arith) (omega arith)

-- The port of a socket that may share it.
abbrev shared_port : Port
shared_port = record { nsocks = 1; next_sock = 0; sids = λ i. 0 }

abbrev sharing : ℕ → Sock
sharing i = record opening { reuport = 1 }

shared_port-IsShared : IsShared sharing shared_port
shared_port-IsShared = record {
  bound = omega arith;
  willing = λ many. absurd (omega (arith, many));
}

sock_on_timeout-Becomes_example : Becomes slow 0 init (sock_on_timeout slow 0).0
sock_on_timeout-Becomes_example = sock_on_timeout-Becomes slow 0 refl

-- No entry of the timer heap is free.
abbrev full_heap : Slow
full_heap = record slow { tomgr = record slow.tomgr { size = tomgr_size } }

sched_fails : (sock_retx_sched full_heap 0).1 ≡ false
unfolding sock_retx_sched tsc_after_us slow_rdtsc tomgr_insert
sched_fails = refl

abbrev size_of : Option Region → ℕ
size_of none = 1
size_of (some r) = r.elsize * r.nelems

given_size : (o : Option Region) (r : Region) → o ≡ some r → size_of o ≡ r.elsize * r.nelems
given_size o r e = ap size_of e

regions-IsRing : (r : Region) → (slow.regions 0 ≡ some r) ⊎ (slow.regions 1 ≡ some r) → IsRing r
regions-IsRing r (inl e) = omega (arith, given_size (slow.regions 0) r e)
regions-IsRing r (inr e) = omega (arith, given_size (slow.regions 1) r e)

tcp_sock_alloc_lem_example :
    (((tcp_sock_alloc slow 77 0 0 1).1 ≡ none)
      × ((tcp_sock_alloc slow 77 0 0 1).0.n_socks ≡ 1)
      × ((max_sockets ≤ 1) ⊎ (slow.regions 0 ≡ none) ⊎ (slow.regions 1 ≡ none)))
    ⊎ ((c' : Slow) × (r : Region) × (t : Region) × (tcp_sock_alloc slow 77 0 0 1 ≡ (c', some 1))
        × (1 < max_sockets)
        × (slow.regions 0 ≡ some r)
        × (slow.regions 1 ≡ some t)
        × (c'.n_socks ≡ 2)
        × IsNew slow 77 r t (c'.socks 1)
        × ((tcp_sock_meta c' 1).listener_id ≡ id_invalid)
        × ((j : ℕ) → j ≢ 1 → c'.socks j ≡ slow.socks j))
tcp_sock_alloc_lem_example = tcp_sock_alloc_lem slow 77 0 0 1 regions-IsRing

-- The listener 3 with the connections 7 and 9, which wait.
abbrev waiting : Slow
waiting = record slow {
  socks = λ i. record opening { id = i; state = accept_pending };
  sock_meta = λ i. record no_meta { listener_id = 3 };
}

tcp_listener_ready_pop-HandsOut_example :
    HandsOut waiting 3 (7 ∷ 9 ∷ []) (tcp_listener_ready_pop waiting 3)
tcp_listener_ready_pop-HandsOut_example =
    tcp_listener_ready_pop-HandsOut waiting 3 (7 ∷ 9 ∷ []) two_ready-IsReady
      (λ valid. refl, (λ valid. refl, tt))

oldest_first : (tcp_listener_ready_pop waiting 3).1 ≡ some 7
unfolding tcp_listener_ready_pop ready_pop_loop ready_drop
oldest_first = refl
