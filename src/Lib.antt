-- ===== src/Lib.antt =====
-- Chamelio: a network stack whose fast path runs the event handlers of transport protocols over
-- queues and rings in shared memory.
--
-- The parts that are modelled, and how they interact:
--
-- Queue.antt (lib/utils/queue): the queues between applications, the slow path and the fast path.
-- A producer owns an `equeue`, a consumer a `dqueue`, and the type byte of a slot says whose turn
-- it is. The functions are `equeue_init`, `dqueue_init`, `queue_tail`, `queue_enqueue`,
-- `queue_head` and `queue_dequeue`; `send` and `recv` are the way all callers combine them.
-- Sched.antt (lib/utils/scheduler): the transmit scheduler, a list sorted by the time at which a
-- socket may send. The functions are `sched_init`, `sched_head`, `sched_pop`, `sched_add`,
-- `sched_remove` and the internal `sched_insert`. The loops that walk the list are `walk`, with
-- fuel for one entry more than the array has; a list in which no id occurs twice and that is no
-- longer than the array is walked to its end.
-- Tcp.antt (chamelio/protos/tcp_fast.c, protos/tcp/include/tcp.h): the TCP fast path. Its events
-- are `tcp_event_rx` (a packet has come in), `tcp_event_sched` (a socket's turn to send) and
-- `tcp_event_deq` (a command of the application or of the slow path). The files follow the source:
-- Packet (headers), Sock (`struct tcp_sock` and what reads or changes one socket), Context
-- (`struct cham_ebpf_ctx`), Fill (headers of a packet to send), Punt (`rx_punt_ctl`), Lookup
-- (`sock_find`), and Rx, Tx, Deq for the three events, split where the source has early returns.
-- The other files of the folder are proofs, named for what they prove.
-- Tomgr.antt (lib/utils/tomgr): the heap of timeouts, `tomgr_init`, `tomgr_insert`, `tomgr_cancel`,
-- `tomgr_peek`, `tomgr_pop` over the two arrays of the source. `heapify_up` and `heapify_down`
-- recurse on fuel, one more than the place to go up from and one more than the heap's size, which
-- the sift reaches its end with. A pointer to an entry is its place in the array.
-- Tcp/Slow.antt (protos/tcp/slow): the TCP slow path, which opens and closes connections, times out
-- and sets rates. State holds `struct tcp_slow_context` with its maps; Flow, Ports, Listener,
-- SockState and CtlTx are state/, AppRes, AppReq, Requests and Poll are app/, RxOpen, RxClose and
-- RxCtl are rx/, Timer and Timeout are tcp_timeout.c, CcInit, Dctcp and CcPoll are tcp_cc.c. The
-- fast path and the slow path meet in the maps of sockets and flow buckets and in the queues for
-- signals and packets. A return value is `true` for 0 and `false` for an error. Whether `calloc`
-- succeeds and what `cham_new_queue` answers are sequences in the state, as are the readings of the
-- clock. `ready_pop_loop` has the used places of the ring as fuel, of which each round takes one.
-- `app_rounds` has fuel for the 16 messages of a poll, the 255 contexts that an application has at
-- most and the applications, since each round counts one of these up; it returns `none` when the
-- fuel runs out.
-- Headers.antt (lib/utils/include/utils.h, lib/utils/pkt_hdrs/include/ip_hdr.h): numbers in network
-- byte order and the fields of the IP header, which both protocols read and write.
-- Udp.antt (chamelio/protos/udp_fast.c, protos/udp/include): the UDP fast path, with the events
-- `udp_event_rx`, `udp_event_deq` and `udp_event_sched`. Find has `udp_sock_find` and
-- `find_free_port`, Rx and Tx the two directions, Deq the commands of an application. The functions
-- that look a port up return the context with the port's turn moved on. `overrun` is a command for
-- a socket behind the end of the map. The size of a bump entry and of the headers are numbers.
-- Udp/App.antt (protos/udp/lib/udp_lib.c): the application's side of the UDP rings. Data has
-- `udp_sendto` and `udp_recvfrom`, Wait the sets of sockets to wait for, Poll the messages of the
-- fast and of the slow path. The opaque pointer of a socket is its descriptor. The loop of
-- `udp_poll_fast` over a queue has fuel, of which each message takes one.
-- Udp/Slow.antt (protos/udp/slow/udp_slow.c): the requests of applications to the poll of the slow path of UDP,
-- over the maps of the fast path. What `cham_new_queue` answers is a sequence; `none` is the use of a
-- NULL pointer, of a slot that has been handed over or of a socket behind the end of the map.
-- Arp.antt (chamelio/arp/arp.c, chamelio/control/control_arp.c): the table of resolved and pending
-- addresses, the buffer of packets that wait, the requests and replies, and the handlers of the
-- control plane, which arm the timeouts of Tomgr.antt and write to the queues of Queue.antt. `none`
-- as the result of a handler is the use of a NULL pointer. A pointer to a packet is a number.
-- Netvirt.antt (chamelio/netvirt/netvirt_table.c): the tables of virtual networks.
-- Probe.antt: the search that netvirt_table.c and arp.c share, over any type of keys. It starts at
-- the hash and goes round the table once; the number of places is the number of rounds of the loops.
-- Shm.antt (lib/utils/shm/shmalloc.c): the allocator of shared memory. The free list is a list of
-- blocks, an offset and a length each, and the answers of `malloc` for handles are a sequence. Sizes
-- are 64-bit numbers that go round; the theorems are about memory well below that.
-- Common.antt: Boolean tests, machine words with their wrap-around, memory as a function of the
-- address, and the bytes of a ring.
--
-- An event is a function from the context to an `Outcome`: the value returned, with `none` for -1,
-- and the context afterwards, or `overrun` where the source writes behind the end of a queue entry,
-- which C leaves undefined. A socket in the map is its number, a queue slot its offset. The queues'
-- slots and the maps are regions of their own beside the rings of the sockets. Sockets are used
-- under their spin lock, so an event is one step; the lock is a field, and its release is part of
-- what is proved.
--
-- The time stamp counter is a parameter, the sequence of its readings, and so is the conversion of
-- its ticks to microseconds, which lib/utils/clock/clock.c computes in floating point.
--
-- Not modelled: what starts the slow path of TCP (tcp_init.c) and accepts applications over Unix
-- sockets (tcp_appif.c), parsing of settings and of the file of virtual networks, the application
-- library of TCP and the requests of that of UDP, the poll of the slow path of UDP, the eBPF
-- variants of the fast paths (the same events, restated for the verifier), the control plane
-- besides ARP and its budgets, the core loop with the NIC and its DPDK calls, vfio, sockets,
-- logging, and the state tools.
pub mod Common
pub mod Headers
pub mod Queue
pub mod Sched
pub mod Tomgr
pub mod Shm
pub mod Probe
pub mod Netvirt
pub mod Arp
pub mod Udp
pub mod Tcp
