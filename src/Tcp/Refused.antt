-- ===== src/Tcp/Refused.antt =====
-- The queue to the application in `tcp_event_rx`: when the message of an acknowledgment is refused.
use chamelio.Common.{refl, none, inl, inr, Bytes, ◌≢◌, ◌≡◌, ℕ, Bool-cases, arith, ltb, ◌==◌}
use chamelio.Common.{add32, ◌∙◌}
use chamelio.Queue.{queue_tail, queue_enqueue, write_entry, queue_empty}
use chamelio.Tcp.Context.{Context, enqueue_bump, tcp_now_us, clock_rdtsc, Message}
use chamelio.Tcp.Context.{tcp_queue_bump_app_tx, bump_app_tx}
use chamelio.Tcp.Frames.{rx_take_ack-SameBuffers}
use chamelio.Tcp.Packet.{tcp_ackno, rx_is_ack, tcp_wnd}
use chamelio.Tcp.Rx.{sock_ts_rx, rx_take_ack, rx_bump_app}
use chamelio.Tcp.Sock.{tcp_sock_recovery_ack, rx_sock_bump_ack, Sock, tcp_sock_recovery_reset}

-- The acknowledgment number is not the old one, and the slot at the tail of the queue to the
-- application, in which it is told, is still taken.
pub record IsRefused (c : Context) (s : Sock) : Type 0 where
  pub acked : s.tx_seq ≢ tcp_ackno c.pkt
  pub full : (c.slots s.app_bump_qid).type (c.equeues s.app_bump_qid).tail ≢ queue_empty

-- What decides about the message.
pub record SameQueue (c c' : Context) (s s' : Sock) : Type 0 where
  pub equeues_same : c'.equeues ≡ c.equeues
  pub slots_same : c'.slots ≡ c.slots
  pub qid_same : s'.app_bump_qid ≡ s.app_bump_qid

recovery_ack-qid : (s : Sock) → (tcp_sock_recovery_ack s).app_bump_qid ≡ s.app_bump_qid
unfolding tcp_sock_recovery_ack tcp_sock_recovery_reset
recovery_ack-qid s = ground arith

rx_sock_bump_ack-qid :
    (p : Bytes) (s : Sock) (n : ℕ) → (rx_sock_bump_ack p s n).app_bump_qid ≡ s.app_bump_qid
unfolding rx_sock_bump_ack
rx_sock_bump_ack-qid p s n = elim (Bool-cases (ltb 0 n)) [
  | inl e ↦ rw e (recovery_ack-qid _)
  | inr e ↦ rw e refl
]

sock_ts_rx-SameQueue :
    (c : Context) (s : Sock) → SameQueue c (sock_ts_rx c s).0 s (sock_ts_rx c s).1
unfolding sock_ts_rx tcp_now_us clock_rdtsc
sock_ts_rx-SameQueue c s = ground arith

rx_take_ack-SameQueue :
    (c : Context) (s : Sock) → SameQueue c (rx_take_ack c s).0 s (rx_take_ack c s).1
unfolding rx_take_ack
rx_take_ack-SameQueue c s = elim (Bool-cases (rx_is_ack c.pkt)) [
  | inl e ↦ rw e (
      let t =
        sock_ts_rx-SameQueue c
          (record s { tx_remote_avail = tcp_wnd c.pkt; cc_acks = add32 s.cc_acks 1 }) in
      record {
        equeues_same = t.equeues_same;
        slots_same = t.slots_same;
        qid_same = rx_sock_bump_ack-qid c.pkt _ _ ∙ t.qid_same;
      })
  | inr e ↦ rw e (
      let t = sock_ts_rx-SameQueue c (record s { tx_remote_avail = tcp_wnd c.pkt }) in
      record { equeues_same = t.equeues_same; slots_same = t.slots_same; qid_same = t.qid_same })
]

enqueue_bump-full :
    (c : Context) (qid type : ℕ) (message : Message)
    → enqueue_bump c qid type message ≡ none
    → (c.slots qid).type (c.equeues qid).tail ≢ queue_empty
unfolding enqueue_bump queue_tail queue_enqueue write_entry
enqueue_bump-full c qid type message e empty = ground (arith, e, empty)

-- If the message of an acknowledgment is refused, then so because the queue was full before.
pub rx_bump_app-IsRefused :
    (c : Context) (s : Sock) (n : ℕ)
    → rx_bump_app (rx_take_ack c s).0 s (rx_take_ack c s).1 n ≡ none
    → IsRefused c s
unfolding rx_bump_app
rx_bump_app-IsRefused c s n e =
    let t = rx_take_ack-SameQueue c s in
    let pkt = (rx_take_ack-SameBuffers c s).pkt_same in
    elim (Bool-cases (s.tx_seq == tcp_ackno (rx_take_ack c s).0.pkt)) [
      | inl old ↦ ground arith
      | inr new ↦
          let refused : enqueue_bump (rx_take_ack c s).0 (rx_take_ack c s).1.app_bump_qid
                tcp_queue_bump_app_tx (bump_app_tx (rx_take_ack c s).1.opaque n)
              ≡ none =
            ground (arith, e, new) in
          let full = enqueue_bump-full _ _ _ _ refused in
          record {
            acked = λ eq. absurd (ground (arith, new, eq, pkt));
            full = λ empty. full (rw (t.equeues_same, t.slots_same, t.qid_same) empty);
          }
    ]
