-- ===== src/Udp/Deq.antt =====
-- `udp_event_deq`, `udp_event_sched` and `handle_bump_rx`.
use chamelio.Common.{none, some, ℕ, add32, if◌then◌else◌, leb, ◌-◌, ltb, sub32, ◌+◌}
use chamelio.Udp.State.{Sock, Context, Outcome, Command, bump_cham_tx, returns, bump_cham_rx}
use chamelio.Udp.State.{max_fp_cores, overrun, set_sock, unknown}
use chamelio.Udp.Tx.{handle_bump_tx}

-- The application has read `n` bytes.
unfoldable pub deq_sock : Sock → (n : ℕ) → Sock
deq_sock s n =
    let new_head = add32 s.rx_head n in
    record s {
      rx_head = if leb s.rx_len new_head then new_head - s.rx_len else new_head;
      rx_avail = sub32 s.rx_avail n;
    }

-- The socket's number is not checked.
unfoldable pub handle_bump_rx : Context → (sock_id core rx_head : ℕ) → Outcome
unfolding deq_sock
handle_bump_rx c sock_id core rx_head =
    if leb max_fp_cores core
    then returns none c
    else if leb c.n_socks sock_id
    then overrun
    else returns (some 0) (set_sock c sock_id (deq_sock (c.socks sock_id) rx_head))

-- `sizeof` of a queue entry and of a bump entry.
abbrev pub queue_entry_size : ℕ
queue_entry_size = 64

abbrev pub bump_entry_size : ℕ
bump_entry_size = 32

unfoldable pub udp_event_deq : Context → (qe : ℕ) → Command → Outcome
unfolding handle_bump_tx handle_bump_rx
udp_event_deq c qe command =
    let handled : Outcome = elim command [
      | bump_cham_tx sock_id core tx_port tx_ip tx_avail ↦
          handle_bump_tx c sock_id core tx_port tx_ip tx_avail
      | bump_cham_rx sock_id core rx_head ↦
          if ltb c.shm_len (qe + bump_entry_size)
          then returns none c
          else handle_bump_rx c sock_id core rx_head
      | unknown ↦ returns none c
    ] in
    if ltb c.shm_len (qe + queue_entry_size) then returns none c else handled

unfoldable pub udp_event_sched : Context → Outcome
udp_event_sched c = returns none c
