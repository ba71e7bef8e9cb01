-- ===== src/Udp/Slow/Tests.antt =====
-- One socket is bound, another asks for any port.
use chamelio.Common.{refl, none, some, true, if◌then◌else◌, arith, ◌≡◌, ◌==◌, Option, ◌≤◌, Bool}
use chamelio.Common.{◌⊎◌, ℕ}
use chamelio.Queue.{queue_tail, send, queue_enqueue, write_entry}
use chamelio.Udp.App.State.{bind_res}
use chamelio.Udp.Slow.Bound.{SlowBound, handle_bind-SlowBound}
use chamelio.Udp.Slow.Requests.{UdpSlow, handle_bind, max_udp_sockets}
use chamelio.Udp.Tests.{socket, bound_port, no_port}

abbrev slow : UdpSlow
slow = record {
  ports = λ nr. if nr == 1500 then bound_port else no_port;
  socks = λ sid. socket (if sid == 0 then 1500 else 0);
  n_socks = 5;
  next_port = some 1500;
  n_fp_cores = 2;
  proto_ip = 5;
  app_bump_qs = λ core. core;
  slow_app_q = record { tail = 0; nelems = 4; elsize = 512; off = 0 };
  slow_app_slots = record { type = λ k. 0; entry = λ k. bind_res 0 true };
  new_queues = λ k. none;
  asked = 0;
}

slow-SlowBound : SlowBound slow
slow-SlowBound = record {
  few = λ nr. ground arith;
  listed = λ nr k lt. (ground (arith, lt), ground (arith, lt));
}

handle_bind-SlowBound_example :
    ((max_udp_sockets ≤ 4) × (handle_bind slow 4 9 0 33 ≡ none))
    ⊎ ((c' : UdpSlow) × (done : Bool) × (handle_bind slow 4 9 0 33 ≡ some (c', done))
        × SlowBound c')
handle_bind-SlowBound_example = handle_bind-SlowBound slow 4 9 0 33 slow-SlowBound

abbrev port_in : Option (UdpSlow × Bool) → (sock_id : ℕ) → ℕ
port_in none sock_id = 0
port_in (some r) sock_id = (r.0.socks sock_id).local_port

-- It gets the port after the one that is used.
bound_next : port_in (handle_bind slow 4 9 0 33) 4 ≡ 1501
unfolding handle_bind queue_tail send queue_enqueue write_entry
bound_next = refl
