-- ===== src/Udp/App/Wait.antt =====
-- The sets of sockets that an application waits for: `struct udp_wait` and its operations.
use chamelio.Common.{zero, suc, [], none, some, ◌∷◌, ℕ, Option, ◌-◌, if◌then◌else◌, ◌%◌, List}
use chamelio.Common.{◌+◌, update, leb, ◌==◌, ◌*◌, ◌/◌, not, ltb, ◌&&◌}
use chamelio.Udp.App.State.{lookup_sock, AppSock, App, max_sockets, sock_inactive}

-- The flags of events.
abbrev pub udp_wait_in : ℕ
udp_wait_in = 1

abbrev pub udp_wait_out : ℕ
udp_wait_out = 2

abbrev pub udp_wait_socket : ℕ
udp_wait_socket = 4

abbrev pub udp_wait_bind : ℕ
udp_wait_bind = 8

abbrev pub udp_wait_setopt : ℕ
udp_wait_setopt = 16

-- `struct udp_wait_entry`; the index -1 is `none`, a pointer to a socket its descriptor.
pub record WaitEntry : Type 0 where
  pub events : ℕ
  pub data_word : ℕ
  pub index : Option ℕ
  pub sock : Option ℕ

-- `struct udp_wait`, of the application's context.
pub record Wait : Type 0 where
  pub nfds : ℕ
  pub sockfds : ℕ → ℕ
  pub entries : ℕ → WaitEntry

pub record WaitEvent : Type 0 where
  pub sockfd : ℕ
  pub events : ℕ
  pub data_word : ℕ

-- `udp_wait_new`, when there is memory; the places are not initialised.
unfoldable pub udp_wait_new : (garbage : ℕ → ℕ) → Wait
udp_wait_new garbage = record {
  nfds = 0;
  sockfds = garbage;
  entries = λ fd. record { events = 0; data_word = 0; index = none; sock = none };
}

unfoldable pub udp_wait_add : App → Wait → (sockfd events data_word : ℕ) → Option Wait
unfolding lookup_sock
udp_wait_add a w sockfd events data_word = elim (lookup_sock a sockfd) [
  | none ↦ none
  | some s ↦ elim (w.entries sockfd).index [
    | some i ↦ none
    | none ↦ some (record {
      nfds = w.nfds + 1;
      sockfds = update w.sockfds w.nfds sockfd;
      entries = update w.entries sockfd (record {
        events = events;
        data_word = data_word;
        index = some w.nfds;
        sock = some sockfd;
      });
    })
  ]
]

unfoldable pub udp_wait_mod : App → Wait → (sockfd events data_word : ℕ) → Option Wait
unfolding lookup_sock
udp_wait_mod a w sockfd events data_word = elim (lookup_sock a sockfd) [
  | none ↦ none
  | some s ↦ elim (w.entries sockfd).index [
    | none ↦ none
    | some i ↦ some (record w {
      entries =
          update w.entries sockfd
            (record { events = events; data_word = data_word; index = some i; sock = some sockfd });
    })
  ]
]

-- The last socket takes the place of the one that goes.
unfoldable pub taken_out : Wait → (sockfd i : ℕ) → Wait
taken_out w sockfd i =
    let last_fd = w.sockfds (w.nfds - 1) in
    let moved = update w.entries last_fd (record (w.entries last_fd) { index = some i }) in
    record {
      nfds = w.nfds - 1;
      sockfds = update w.sockfds i last_fd;
      entries =
          update moved sockfd (record { events = 0; data_word = 0; index = none; sock = none });
    }

unfoldable pub udp_wait_del : Wait → (sockfd : ℕ) → Option Wait
unfolding taken_out
udp_wait_del w sockfd =
    if leb max_sockets sockfd
    then none
    else elim (w.entries sockfd).index [ none ↦ none | some i ↦ some (taken_out w sockfd i) ]

unfoldable pub udp_sock_wait_events : AppSock → ℕ
udp_sock_wait_events s =
    if s.fd == sock_inactive
    then 0
    else (if not (s.rx_len == 0) then udp_wait_socket else 0)
      + (if ltb 0 s.rx_avail then udp_wait_in else 0)
      + (if not (s.tx_len == 0) && ltb s.tx_avail s.tx_len then udp_wait_out else 0)
      + elim s.bind_success [ none ↦ 0 | some b ↦ udp_wait_bind ]
      + elim s.setopt_success [ none ↦ 0 | some b ↦ udp_wait_setopt ]

-- The bits that two numbers below 2 ^ `k` share.
unfoldable pub and_bits : (k a b : ℕ) → ℕ
and_bits zero a b = 0
and_bits (suc k) a b = a % 2 * (b % 2) + 2 * and_bits k (a / 2) (b / 2)

-- What is ready among the events that the entry asks for.
unfoldable pub ready_events : App → WaitEntry → ℕ
unfolding udp_sock_wait_events and_bits
ready_events a e = elim e.sock [
  | none ↦ 0
  | some fd ↦
      let s = a.socks fd in
      if s.fd == sock_inactive then 0 else and_bits 5 (udp_sock_wait_events s) e.events
]

-- The loop over the `n` places from `i` on, with room for `room` events.
unfoldable pub collect_from : App → Wait → (n i room : ℕ) → List WaitEvent
unfolding ready_events
collect_from a w zero i room = []
collect_from a w (suc n) i zero = []
collect_from a w (suc n) i (suc room) =
    let skipped = collect_from a w n (i + 1) (suc room) in
    let taken = collect_from a w n (i + 1) room in
    let fd = w.sockfds i in
    let e = w.entries fd in
    let ready = ready_events a e in
    if ready == 0
    then skipped
    else record { sockfd = fd; events = ready; data_word = e.data_word } ∷ taken

unfoldable pub udp_wait_collect : App → Wait → (maxevents : ℕ) → List WaitEvent
unfolding collect_from
udp_wait_collect a w maxevents = collect_from a w w.nfds 0 maxevents
