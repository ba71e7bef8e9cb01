-- ===== src/Tcp/Slow/Fixture.antt =====
-- A slow path with one connection that is being opened.
use chamelio.Common.{none, some, true, false, if◌then◌else◌, ◌==◌, ◌+◌, ◌*◌}
use chamelio.Tcp.Context.{ctl_sig}
use chamelio.Tcp.Deq.{unknown}
use chamelio.Tcp.Fixture.{conn}
use chamelio.Tcp.Lookup.{id_invalid}
use chamelio.Tcp.Slow.State.{Meta, Listener, Port, Config, Actx, Slow, RxCtl, cc_dctcp_rate_algo}
use chamelio.Tcp.Slow.State.{other_req, retx_syn, listen_newconn}
use chamelio.Tcp.Sock.{Sock, syn_sent}
use chamelio.Tomgr.{to_invalid}

abbrev pub no_meta : Meta
no_meta = record {
  listener_id = id_invalid;
  auto_bound = false;
  timer = none;
  retx_kind = retx_syn;
  retx_left = 0;
  cc_tsc = 0;
  cc_rtt = 50;
  cc_last_drops = 0;
  cc_last_acks = 0;
  cc_last_ackb = 0;
  cc_last_ecnb = 0;
  cc_rexmits = 0;
  cnt_tx_pending = 0;
  ts_tx_pending = 0;
  dctcp_unproc_acks = 0;
  dctcp_unproc_ackb = 0;
  dctcp_unproc_ecnb = 0;
  dctcp_unproc_drops = 0;
  dctcp_ecn_rate = 0;
  dctcp_act_rate = 0;
  dctcp_slowstart = true;
}

-- Room for four connections, of which two wait from the last place on.
abbrev pub two_ready : Listener
two_ready = record {
  active = true;
  sock_id = 0;
  backlog_len = 4;
  backlog_used = 2;
  ready_head = 3;
  ready_used = 2;
  has_ready = true;
  ready_room = 4;
  ready_sids = λ i. if i == 3 then 7 else if i == 0 then 9 else id_invalid;
}

abbrev pub free_port : Port
free_port = record { nsocks = 0; next_sock = 0; sids = λ i. id_invalid }

abbrev pub dctcp_config : Config
dctcp_config = record {
  rxbuf_sz = 4096;
  txbuf_sz = 4096;
  cc_algorithm = cc_dctcp_rate_algo;
  cc_control_granularity = 50;
  cc_control_interval = 2;
  cc_rtt_init = 50;
  cc_remit_ints = 4;
  cc_const_rate = 0;
  cc_dctcp_weight = 268435456;
  cc_dctcp_init = 10000;
  cc_dctcp_min = 100;
  cc_dctcp_step = 10;
  cc_dctcp_mimd = 0;
  cc_dctcp_minpkts = 1;
}

abbrev pub idle_actx : Actx
idle_actx = record {
  id = 0;
  app_id = 0;
  app_slow_q = record { head = 0; nelems = 4; elsize = 64; off = 0 };
  app_slow_slots = record { type = λ k. 0; entry = λ k. other_req };
  slow_app_q = record { tail = 0; nelems = 4; elsize = 64; off = 0 };
  slow_app_slots = record { type = λ k. 0; entry = λ k. listen_newconn 0 0 0 };
  app_bump_qids = λ core. core;
}

-- The SYN of the socket is on its way.
abbrev pub opening : Sock
opening = record conn {
  state = syn_sent;
  rx_head = 0;
  rx_avail = 0;
  tx_head = 0;
  tx_avail = 0;
  tx_seq = 0;
  tx_pending = 1;
}

-- The clock shows 100, 101, …; every request for memory is answered with 64 bytes.
abbrev pub slow : Slow
slow = record {
  config = dctcp_config;
  local_ip = 167772161;
  n_fp_cores = 1;
  n_socks = 1;
  n_apps = 1;
  next_app = 0;
  next_fast_slow_core = 0;
  apps = λ a. record { id = 0; n_ctxs = 1; next_ctx = 0; ctxs = λ k. idle_actx };
  fast_slow_sig_qs = λ core. record { head = 0; nelems = 4; elsize = 64; off = 0 };
  fast_slow_sig_slots = λ core. record { type = λ k. 0; entry = λ k. ctl_sig 0 };
  fast_slow_pkt_qs = λ core. record { head = 0; nelems = 4; elsize = 128; off = 0 };
  fast_slow_pkt_slots = λ core. record { type = λ k. 0; entry = λ k. ctl_sig 0 };
  slow_fast_sig_q = record { tail = 0; nelems = 4; elsize = 64; off = 0 };
  slow_fast_sig_slots = record { type = λ k. 0; entry = λ k. unknown };
  slow_fast_pkt_q = record { tail = 0; nelems = 4; elsize = 128; off = 0 };
  slow_fast_pkt_slots = record { type = λ k. 0; entry = λ k. ctl_sig 0 };
  tomgr = record {
    heap = λ i. record { idx = 0; to = 0 };
    entries = λ i. record { type = 0; to = 0; data_ptr = 0; heap_idx = to_invalid };
    size = 0;
  };
  socks = λ i. opening;
  listener_map = λ p. free_port;
  bound_ports = λ p. free_port;
  buckets = λ h i. id_invalid;
  listeners = λ i. two_ready;
  sock_meta = λ i. no_meta;
  cc_poll_tsc = 0;
  cc_next_sock = 0;
  stats_acks_rx = 0;
  stats_drops = 0;
  stats_retx = 0;
  clock = record {
    base = record { reading = λ n. 100 + n; tsc_to_us = λ t. t; cycles_per_us = 1 };
    tsc_after = λ now us. now + us;
  };
  ticks = 0;
  regions = λ n. some (record { elsize = 1; nelems = 64; off = 64 * n });
  n_regions = 0;
  callocs = λ n. true;
  n_callocs = 0;
}

-- The answer to the SYN, with the number 6 of the peer.
abbrev pub syn_ack_seen : RxCtl
syn_ack_seen = record {
  local_ip = 167772161;
  remote_ip = 167772162;
  seq = 6;
  ack = 1;
  ts_val = 0;
  ts_ecr = 0;
  local_port = 90;
  remote_port = 80;
  wnd = 256;
  flags = 18;
  core = 0;
  ts_valid = false;
}
