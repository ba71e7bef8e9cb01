-- ===== src/Udp/App/Tests.antt =====
-- An application with one socket, and the theorems at it.
use chamelio.Common.{refl, none, some, true, ℕ, Bytes, Option, ◌<◌, arith, ◌+◌, ◌≡◌}
use chamelio.Common.{if◌then◌else◌, ◌==◌, ◌⊎◌, ◌≢◌, ◌++◌, bytes_at, ◌≤◌}
use chamelio.Queue.{write_entry, Slots, Equeue, IsQueue, send, queue_tail, queue_enqueue}
use chamelio.Queue.{contents}
use chamelio.Udp.App.Arrival.{udp_sendto-udp_event_rx}
use chamelio.Udp.App.Data.{udp_sendto}
use chamelio.Udp.App.Poll.{poll_queue, polled}
use chamelio.Udp.App.Polling.{Drained, poll_queue-Drained}
use chamelio.Udp.App.Reading.{read_len}
use chamelio.Udp.App.Rings.{IsAppTx, Written, IsOurs, udp_sendto_lem}
use chamelio.Udp.App.State.{App, lookup_sock, AppSock, SlowRes, bind_res}
use chamelio.Udp.App.Wait.{Wait, udp_wait_del}
use chamelio.Udp.App.Waiting.{IsWaitSet, SameWish, udp_wait_del-IsWaitSet}
use chamelio.Udp.Find.{udp_sock_find}
use chamelio.Udp.Ring.{unread}
use chamelio.Udp.Rx.{udp_event_rx}
use chamelio.Udp.State.{Context, Command, Message, unknown, bump_cham_tx, bump_cham_rx, returns}
use chamelio.Udp.State.{bump_app_rx, bump_app_tx, Outcome, overrun}
use chamelio.Udp.Tests.{context}
use chamelio.Udp.Tx.{local_port_for, handle_bump_tx}

-- The TX ring is about to go round its end, and the RX ring holds six bytes round its end.
abbrev app_sock : (fd : ℕ) → AppSock
app_sock fd = record {
  fd = fd;
  sock_id = 0;
  ctx = 1;
  tx_core = 1;
  rx_core = 0;
  rx_port = 1700;
  rx_ip = 6;
  rx_len = 16;
  rx_avail = 6;
  rx_head = 12;
  rx_buf = 100;
  tx_port = 0;
  tx_ip = 0;
  tx_len = 16;
  tx_avail = 0;
  tx_head = 14;
  tx_buf = 200;
  bind_success = none;
  setopt_success = none;
}

abbrev empty_commands : Slots Command
empty_commands = record { type = λ k. 0; entry = λ k. unknown }

-- Two messages wait in the queue of core 0.
abbrev two_bumps : Slots Message
two_bumps = record {
  type = λ k. if k == 0 then 12 else if k == 64 then 11 else 0;
  entry = λ k. if k == 0 then bump_app_rx 3 1 1500 8 2 else bump_app_tx 3 0;
}

abbrev no_answers : Slots SlowRes
no_answers = record { type = λ k. 0; entry = λ k. bind_res 0 true }

abbrev app : App
app = record {
  socks = λ fd. app_sock fd;
  shm = λ k. k;
  id = 1;
  ncores = 2;
  app_fast_qs = λ q. record { tail = 0; nelems = 4; elsize = 64; off = 0 };
  app_fast_slots = λ q. empty_commands;
  fast_app_qs = λ q. record { head = 0; nelems = 4; elsize = 64; off = 0 };
  fast_app_slots = λ q. two_bumps;
  slow_app_q = record { head = 0; nelems = 4; elsize = 64; off = 0 };
  slow_app_slots = no_answers;
}

app-IsOurs : IsOurs app 3
unfolding lookup_sock
app-IsOurs = refl

app-IsAppTx : IsAppTx (app.socks 3)
app-IsAppTx = record { small = omega arith; head_in = omega arith; fits = omega arith }

abbrev text : Bytes
text k = 50 + k

abbrev sending : Option (Equeue × Slots Command)
sending = send (app.app_fast_qs 1) (app.app_fast_slots 1) 9 (bump_cham_tx 0 1 1500 6 5)

udp_sendto_lem_example :
    (((16 < 0 + 5) ⊎ (sending ≡ none)) × (udp_sendto app 3 text 5 6 1500 ≡ (none, app)))
    ⊎ ((a' : App) × (udp_sendto app 3 text 5 6 1500 ≡ (some 5, a'))
        × Written app 3 text 5 6 1500 a')
udp_sendto_lem_example = udp_sendto_lem app 3 text 5 6 1500 app-IsOurs app-IsAppTx (omega arith)

abbrev reading : Option (Equeue × Slots Command)
reading =
    send (app.app_fast_qs 0) (app.app_fast_slots 0) 10
      (bump_cham_rx 0 0 (read_len (app.socks 3) 10))

abbrev core_queue : Equeue
core_queue = record { tail = 128; nelems = 4; elsize = 64; off = 0 }

core_queue-IsQueue : IsQueue core_queue (app.fast_app_qs 0) (app.fast_app_slots 0) 0 2
core_queue-IsQueue = record {
  same_nelems = refl;
  same_elsize = refl;
  elsize_pos = omega arith;
  fits = omega arith;
  head_slot = omega arith;
  count = omega arith;
  head_at = refl;
  tail_at = refl;
  used = λ k lt. ground arith;
  unused = λ k ge lt. ground arith;
}

poll_queue-Drained_example :
    (a' : App) × (poll_queue 3 0 0 app ≡ polled (some (0 + 2)) a')
    × Drained core_queue app 0 (contents (app.fast_app_slots 0) 4 64 0 2) a'
poll_queue-Drained_example =
    poll_queue-Drained 3 0 0 app core_queue 0 2 core_queue-IsQueue (ground arith) (omega arith)

-- Sockets 3 and 5 are waited for.
abbrev two_socks : Wait
two_socks = record {
  nfds = 2;
  sockfds = λ i. if i == 0 then 3 else 5;
  entries = λ fd. record {
    events = 1;
    data_word = fd;
    index = if fd == 3 then some 0 else if fd == 5 then some 1 else none;
    sock = if fd == 3 then some 3 else if fd == 5 then some 5 else none;
  };
}

two_socks-IsWaitSet : IsWaitSet two_socks
two_socks-IsWaitSet = record {
  entered = λ i lt. ground arith;
  placed = λ fd i e. (ground (arith, e), ground (arith, e));
  has_sock = λ fd i e. ground (arith, e);
}

udp_wait_del-IsWaitSet_example :
    (w' : Wait) × (udp_wait_del two_socks 3 ≡ some w')
    × IsWaitSet w'
    × (w'.nfds + 1 ≡ two_socks.nfds)
    × ((w'.entries 3).index ≡ none)
    × ((fd : ℕ) → fd ≢ 3 → SameWish (two_socks.entries fd) (w'.entries fd))
udp_wait_del-IsWaitSet_example =
    udp_wait_del-IsWaitSet two_socks 3 0 two_socks-IsWaitSet (omega arith) refl

-- The datagram goes from this application to a peer.
after_sendto : App
unfolding udp_sendto
after_sendto = (udp_sendto app 3 text 5 6 1500).1

app_sends : udp_sendto app 3 text 5 6 1500 ≡ (some 5, after_sendto)
unfolding udp_sendto after_sendto send queue_tail queue_enqueue write_entry
app_sends = refl

abbrev fast_path : Context
fast_path = record (context (λ k. 0) 1700 0) { shm = after_sendto.shm }

has_port : local_port_for fast_path 0 ≡ (fast_path, true)
unfolding local_port_for
has_port = refl

abbrev left_by : Outcome → Context
left_by (returns r c) = c
left_by overrun = fast_path

after_bump : Context
unfolding handle_bump_tx
after_bump = left_by (handle_bump_tx fast_path 0 1 1500 6 5)

bump_returns : handle_bump_tx fast_path 0 1 1500 6 5 ≡ returns (some 33) after_bump
unfolding handle_bump_tx after_bump send queue_tail queue_enqueue write_entry
bump_returns = refl

abbrev peer : Context
peer = context after_bump.pkt 1500 1

peer_found : udp_sock_find peer 1500 ≡ some (0, peer)
unfolding udp_sock_find
peer_found = refl

udp_sendto-udp_event_rx_example :
    (((peer.socks 0).rx_len < (peer.socks 0).rx_avail + 5)
      × (udp_event_rx peer ≡ returns none peer))
    ⊎ ((r' : Option ℕ) × (d' : Context) × (udp_event_rx peer ≡ returns r' d')
        × ((peer.socks 0).rx_avail + 5 ≤ (peer.socks 0).rx_len)
        × (unread d'.shm (d'.socks 0) ≡ unread peer.shm (peer.socks 0) ++ bytes_at text 0 5))
udp_sendto-udp_event_rx_example =
    udp_sendto-udp_event_rx app 3 text 5 6 1500 after_sendto app-IsOurs app-IsAppTx (omega arith)
      (omega arith) app_sends fast_path 0 1 fast_path refl (omega arith) (omega arith) (omega arith)
      has_port (record { small = omega arith; head_in = omega arith })
      (record {
        ip_word = omega arith;
        port_word = omega arith;
        tx_ip_word = omega arith;
        tx_port_word = omega arith;
      })
      (record { tx_off = refl; tx_len = refl; tx_head = refl }) 33 after_bump bump_returns peer 0
      peer refl (omega arith) peer_found
      (record { small = omega arith; head_in = omega arith; fits = omega arith })
