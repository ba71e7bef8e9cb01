-- ===== src/Tcp/Steps.antt =====
-- The steps of the events keep the invariant of a socket.
use chamelio.Common.{◌≡◌, arith, ℕ, ◌<◌, ◌^◌, Bool-cases, inl, inr, true, u8, ◌+◌, add32, leb}
use chamelio.Tcp.Context.{Context}
use chamelio.Tcp.Fill.{tx_fill_ack, tx_fill_hdr}
use chamelio.Tcp.Inv.{IsValid, rx_sock_bump_ack-IsValid}
use chamelio.Tcp.Packet.{tcp_ackno, rx_is_ack}
use chamelio.Tcp.Rx.{rx_mark_ce, sock_ts_rx, rewind_sock, rx_dupack, rx_take_ack, remit}
use chamelio.Tcp.Rx.{is_dupack, rx_count_dup, fast_remit_thresh}
use chamelio.Tcp.Sock.{Sock, tcp_sock_recovery_enter}

-- The marks that the invariant speaks of.
pub record SameMarks (s s' : Sock) : Type 0 where
  pub rx_len_same : s'.rx_len ≡ s.rx_len
  pub rx_avail_same : s'.rx_avail ≡ s.rx_avail
  pub rx_head_same : s'.rx_head ≡ s.rx_head
  pub rx_seq_same : s'.rx_seq ≡ s.rx_seq
  pub tx_len_same : s'.tx_len ≡ s.tx_len
  pub tx_avail_same : s'.tx_avail ≡ s.tx_avail
  pub tx_head_same : s'.tx_head ≡ s.tx_head
  pub tx_pending_same : s'.tx_pending ≡ s.tx_pending
  pub tx_seq_same : s'.tx_seq ≡ s.tx_seq
  pub active_same : s'.recovery_active ≡ s.recovery_active
  pub end_same : s'.recovery_end_seq ≡ s.recovery_end_seq

pub SameMarks-IsValid : (s s' : Sock) → SameMarks s s' → IsValid s → IsValid s'
SameMarks-IsValid s s' same v = record {
  rx_small = omega arith;
  rx_head_in = omega arith;
  rx_fits = omega arith;
  tx_small = omega arith;
  tx_head_in = omega arith;
  tx_fits = omega arith;
  tx_word = omega arith;
  rx_word = omega arith;
  flight =
      rw
        (
          same.active_same, same.end_same, same.tx_seq_same, same.tx_pending_same,
          same.tx_avail_same,
        )
        v.flight;
}

pub tx_fill_ack-SameMarks : (c : Context) (s : Sock) → SameMarks s (tx_fill_ack c s).2
unfolding tx_fill_ack tx_fill_hdr
tx_fill_ack-SameMarks c s = ground arith

pub tx_fill_hdr-SameMarks : (c : Context) (s : Sock) (h n : ℕ) → SameMarks s (tx_fill_hdr c s h n).1
unfolding tx_fill_hdr
tx_fill_hdr-SameMarks c s h n = ground arith

pub rx_mark_ce-SameMarks : (c : Context) (s : Sock) → SameMarks s (rx_mark_ce c s)
unfolding rx_mark_ce
rx_mark_ce-SameMarks c s = ground arith

pub sock_ts_rx-SameMarks : (c : Context) (s : Sock) → SameMarks s (sock_ts_rx c s).1
unfolding sock_ts_rx
sock_ts_rx-SameMarks c s = ground arith

pub rewind_sock-IsValid : (s : Sock) → 0 < s.tx_pending → IsValid s → IsValid (rewind_sock s)
unfolding rewind_sock tcp_sock_recovery_enter
rewind_sock-IsValid s pos v = ground arith

is_dupack-pending : (c : Context) (s : Sock) (n : ℕ) → is_dupack c s n ≡ true → 0 < s.tx_pending
unfolding is_dupack
is_dupack-pending c s n h = ground arith

rx_count_dup-IsValid :
    (c : Context) (s : Sock) → 0 < s.tx_pending → IsValid s → IsValid (rx_count_dup c s).1
unfolding rx_count_dup remit
rx_count_dup-IsValid c s pos v =
    elim (Bool-cases (leb fast_remit_thresh (u8 (s.rx_dupack_cnt + 1)))) [
      | inl e ↦ rw e (
          SameMarks-IsValid (rewind_sock counted) _ (ground arith)
            (rewind_sock-IsValid counted pos (SameMarks-IsValid s counted (ground arith) v)))
      | inr e ↦ rw e (SameMarks-IsValid s _ (ground arith) v)
    ]
  where
    counted : Sock
    counted = record s { rx_dupack_cnt = u8 (s.rx_dupack_cnt + 1); cc_drops = add32 s.cc_drops 1 }

pub rx_dupack-IsValid : (c : Context) (s : Sock) (n : ℕ) → IsValid s → IsValid (rx_dupack c s n).1
unfolding rx_dupack
rx_dupack-IsValid c s n v = elim (Bool-cases (is_dupack c s n)) [
  | inl e ↦ rw e (rx_count_dup-IsValid c s (is_dupack-pending c s n e) v)
  | inr e ↦ rw e v
]

pub rx_take_ack-IsValid :
    (c : Context) (s : Sock) → tcp_ackno c.pkt < 2 ^ 32 → IsValid s → IsValid (rx_take_ack c s).1
unfolding rx_take_ack
rx_take_ack-IsValid c s word v = elim (Bool-cases (rx_is_ack c.pkt)) [
  | inl e ↦ rw e (
      rx_sock_bump_ack-IsValid c.pkt _ word
        (SameMarks-IsValid _ _ (sock_ts_rx-SameMarks c _) (SameMarks-IsValid s _ (ground arith) v)))
  | inr e ↦
      rw e
        (SameMarks-IsValid _ _ (sock_ts_rx-SameMarks c _) (SameMarks-IsValid s _ (ground arith) v))
]
