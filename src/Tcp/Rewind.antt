-- ===== src/Tcp/Rewind.antt =====
-- What going back to the oldest unacknowledged byte leaves as it is.
use chamelio.Common.{refl, Bytes, ◌+◌, ◌≡◌, arith}
use chamelio.Tcp.Inv.{IsValid}
use chamelio.Tcp.Rx.{rewind_sock}
use chamelio.Tcp.Sock.{Sock, tcp_sock_recovery_enter}
use chamelio.Tcp.TxRing.{unacked}

rewind_sock_marks :
    (s : Sock)
    → IsValid s
    → ((rewind_sock s).tx_pending + (rewind_sock s).tx_avail ≡ s.tx_pending + s.tx_avail)
      × ((rewind_sock s).tx_off ≡ s.tx_off)
      × ((rewind_sock s).tx_len ≡ s.tx_len)
      × ((rewind_sock s).tx_head ≡ s.tx_head)
unfolding rewind_sock tcp_sock_recovery_enter
rewind_sock_marks s v = ground arith

-- For a valid socket, going back to the oldest unacknowledged byte keeps what the peer has not
-- acknowledged, byte for byte.
pub unacked-rewind_sock :
    (shm : Bytes) (s : Sock) → IsValid s → unacked shm (rewind_sock s) ≡ unacked shm s
unacked-rewind_sock shm s v =
    let (total, off, len, head) = rewind_sock_marks s v in rw (total, off, len, head)

pub rewind_sock-pending : (s : Sock) → (rewind_sock s).tx_pending ≡ 0
unfolding rewind_sock
rewind_sock-pending s = refl
