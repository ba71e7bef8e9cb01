-- ===== src/Tcp/Slow/Wire.antt =====
-- What a slow path reads in the control packets that another one fills.
use chamelio.Common.{none, ◌<◌, ◌^◌, ◌≡◌, Bytes, ℕ, some, true, false, Option, arith, inl, inr}
use chamelio.Common.{◌⊎◌}
use chamelio.Tcp.Slow.CtlTx.{CtlFields, ctl_pkt_fill}
use chamelio.Tcp.Slow.RxCtl.{ctl_rx_parse}
use chamelio.Tcp.Slow.State.{RxCtl}

-- The fields have the widths of the header's.
pub record IsFields (f : CtlFields) : Type 0 where
  pub local_ip_word : f.local_ip < 2 ^ 32
  pub remote_ip_word : f.remote_ip < 2 ^ 32
  pub local_port_word : f.local_port < 2 ^ 16
  pub remote_port_word : f.remote_port < 2 ^ 16
  pub seq_word : f.seq < 2 ^ 32
  pub ack_word : f.ack < 2 ^ 32
  pub wnd_word : f.wnd < 2 ^ 16
  pub flags_word : f.flags < 2 ^ 9

-- The fields from the other side.
abbrev pub ReadsBack : CtlFields → RxCtl → Type 0
ReadsBack f rx =
    (rx.local_ip ≡ f.remote_ip)
    × (rx.remote_ip ≡ f.local_ip)
    × (rx.local_port ≡ f.remote_port)
    × (rx.remote_port ≡ f.local_port)
    × (rx.seq ≡ f.seq)
    × (rx.ack ≡ f.ack)
    × (rx.wnd ≡ f.wnd)
    × (rx.flags ≡ f.flags)

-- The option is there where the packet was filled from a socket, and echoes its `ts_recent`.
abbrev pub TsReads : Option ℕ → RxCtl → Type 0
TsReads none rx = rx.ts_valid ≡ false
TsReads (some ts) rx = (rx.ts_valid ≡ true) × (rx.ts_val ≡ 0) × (rx.ts_ecr ≡ ts)

-- A record with the fields but the timestamp.
abbrev pub with_ts : CtlFields → Option ℕ → CtlFields
with_ts f ts = record f { ts = ts }

plain_reads :
    (p : Bytes) (f : CtlFields) (core : ℕ)
    → IsFields f
    → let rx = ctl_rx_parse (ctl_pkt_fill p (with_ts f none)) core in
      ReadsBack f rx × TsReads none rx
unfolding ctl_pkt_fill ctl_rx_parse
plain_reads p f core w = (
  (
    omega arith,
    omega arith,
    omega arith,
    omega arith,
    omega arith,
    omega arith,
    omega arith,
    omega arith,
  ),
  ground arith,
)

option_reads :
    (p : Bytes) (f : CtlFields) (core ts : ℕ)
    → IsFields f
    → ts < 2 ^ 32
    → let rx = ctl_rx_parse (ctl_pkt_fill p (with_ts f (some ts))) core in
      ReadsBack f rx × TsReads (some ts) rx
unfolding ctl_pkt_fill ctl_rx_parse
option_reads p f core ts w word = (
  (
    omega arith,
    omega arith,
    omega arith,
    omega arith,
    omega arith,
    omega arith,
    omega arith,
    omega arith,
  ),
  (ground arith, ground arith, ground arith),
)

-- When the fields have the widths of the header's, what a slow path writes into a control packet
-- is what the slow path of the peer reads: the connection from the other side, the sequence and
-- acknowledgment numbers, the flags and the window; the timestamp option is there exactly if the
-- packet was filled from a socket, and then echoes the socket's last timestamp.
pub ctl_rx_parse-ctl_pkt_fill :
    (p : Bytes) (f : CtlFields) (ts : Option ℕ) (core : ℕ)
    → IsFields f
    → (ts ≡ none) ⊎ ((t : ℕ) × (ts ≡ some t) × (t < 2 ^ 32))
    → let rx = ctl_rx_parse (ctl_pkt_fill p (with_ts f ts)) core in ReadsBack f rx × TsReads ts rx
ctl_rx_parse-ctl_pkt_fill p f ts core w (inl e) = rw e (plain_reads p f core w)
ctl_rx_parse-ctl_pkt_fill p f ts core w (inr (t, e, word)) = rw e (option_reads p f core t w word)
