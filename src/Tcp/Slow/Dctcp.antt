-- ===== src/Tcp/Slow/Dctcp.antt =====
-- tcp_cc.c: the rate of one interval of congestion control. Rates are in kbps, fractions count in
use chamelio.Common.{ℕ, ◌^◌, Bool, if◌then◌else◌, ◌*◌, ◌-◌, sub32, ◌==◌, ◌/◌, leb, ltb, add32}
use chamelio.Common.{not, u32, ◌+◌, ◌&&◌, u64, ◌||◌}
use chamelio.Tcp.Slow.State.{Config, Meta, cc_const_rate_algo, cc_dctcp_rate_algo, cc_other}
use chamelio.Tcp.Sock.{Sock}

-- units of UINT_MAX.

abbrev pub uint_max : ℕ
uint_max = 2 ^ 32 - 1

-- `struct tcp_cc_stats`
pub record CcStats : Type 0 where
  pub drops : ℕ
  pub acks : ℕ
  pub ackb : ℕ
  pub ecnb : ℕ
  pub rtt : ℕ
  pub tx_pending : Bool

unfoldable pub cc_stats_read : Config → Sock → Meta → CcStats
cc_stats_read config s m = record {
  drops = sub32 s.cc_drops m.cc_last_drops;
  acks = sub32 s.cc_acks m.cc_last_acks;
  ackb = sub32 s.cc_ackb m.cc_last_ackb;
  ecnb = sub32 s.cc_ecnb m.cc_last_ecnb;
  rtt =
      if not (s.rtt_est == 0)
      then s.rtt_est
      else if m.cc_rtt == 0
      then config.cc_rtt_init
      else m.cc_rtt;
  tx_pending = not (s.tx_pending == 0);
}

unfoldable pub cc_rtt_of : Config → CcStats → ℕ
cc_rtt_of config stats = if stats.rtt == 0 then config.cc_rtt_init else stats.rtt

unfoldable pub dctcp_act_rate_of : (ackb elapsed_us : ℕ) → ℕ
dctcp_act_rate_of ackb elapsed_us =
    if elapsed_us == 0 then 0 else u32 (ackb * 8 * 1000 / elapsed_us)

unfoldable pub dctcp_ecn_rate_of : (weight prev ecnb ackb : ℕ) → ℕ
dctcp_ecn_rate_of weight prev ecnb ackb =
    let rate = ecnb * uint_max / ackb in
    u32 (u64 (u64 (rate * weight) + prev * (uint_max - weight)) / uint_max)

-- The rate is at most 1.2 times what was acknowledged.
unfoldable pub clamp_rate : (rate act_rate : ℕ) → ℕ
clamp_rate rate act_rate = let top = act_rate * 12 / 10 in if ltb top rate then u32 top else rate

unfoldable pub double_rate : ℕ → ℕ
double_rate rate = if leb (rate * 2) uint_max then rate * 2 else uint_max

-- The increase of an interval without a mark.
unfoldable pub increase_rate : Config → ℕ → ℕ
increase_rate config rate =
    let step = rate * config.cc_dctcp_mimd / uint_max in
    if config.cc_dctcp_mimd == 0
    then (if ltb (uint_max - rate) config.cc_dctcp_step
        then uint_max
        else rate + config.cc_dctcp_step)
    else if ltb (uint_max - rate) step
    then uint_max
    else rate + step

-- Outside slow start: halved on a loss, cut by half of the marked share on marks, else increased.
-- The parts are the rate and the smoothed share of marks.
unfoldable pub avoid_rate : Config → (lost : Bool) → (rate ecn_rate ecnb ackb : ℕ) → ℕ × ℕ
unfolding dctcp_ecn_rate_of increase_rate
avoid_rate config lost rate ecn_rate ecnb ackb =
    let marked = if ltb 0 ackb && ltb ackb ecnb then ackb else ecnb in
    let share =
      if ltb 0 ackb
      then dctcp_ecn_rate_of config.cc_dctcp_weight ecn_rate marked ackb
      else ecn_rate in
    if lost
    then (rate / 2, ecn_rate)
    else if ltb 0 marked
    then (rate * (uint_max - share / 2) / uint_max, share)
    else (increase_rate config rate, share)

-- The next rate, the smoothed share of marks and whether slow start goes on.
unfoldable pub dctcp_rate : Config → Meta → (rate act_rate drops ecnb ackb : ℕ) → ℕ × ℕ × Bool
unfolding clamp_rate double_rate avoid_rate
dctcp_rate config m rate act_rate drops ecnb ackb =
    let clamped = clamp_rate rate act_rate in
    let clean = drops == 0 && ecnb == 0 && m.cc_rexmits == 0 in
    let starting = m.dctcp_slowstart && clean in
    let lost = ltb 0 drops || ltb 0 m.cc_rexmits in
    let (avoided, share) = avoid_rate config lost clamped m.dctcp_ecn_rate ecnb ackb in
    let next = if starting then double_rate clamped else avoided in
    (
      if ltb next config.cc_dctcp_min then config.cc_dctcp_min else next,
      if starting then m.dctcp_ecn_rate else share,
      starting,
    )

-- Too few ACKs: the interval is counted to the next one.
abbrev pub carry_over : Meta → (ecnb acks ackb drops : ℕ) → Meta
carry_over m ecnb acks ackb drops = record m {
  dctcp_unproc_ecnb = ecnb;
  dctcp_unproc_acks = acks;
  dctcp_unproc_ackb = ackb;
  dctcp_unproc_drops = drops;
}

unfoldable pub sock_on_dctcp_tick : Config → Sock → Meta → CcStats → (elapsed_us : ℕ) → Sock × Meta
unfolding cc_rtt_of dctcp_act_rate_of dctcp_rate
sock_on_dctcp_tick config s m stats elapsed_us =
    let ecnb = add32 m.dctcp_unproc_ecnb stats.ecnb in
    let acks = add32 m.dctcp_unproc_acks stats.acks in
    let ackb = add32 m.dctcp_unproc_ackb stats.ackb in
    let drops = add32 m.dctcp_unproc_drops stats.drops in
    let m1 = record m { cc_rtt = cc_rtt_of config stats } in
    let measured = dctcp_act_rate_of ackb elapsed_us in
    let smoothed = u32 (u32 (7 * m.dctcp_act_rate) + measured) / 8 in
    let act_rate = if leb smoothed measured then measured else smoothed in
    let (rate, share, slowstart) = dctcp_rate config m s.cc_rate act_rate drops ecnb ackb in
    if ltb acks config.cc_dctcp_minpkts then (s, carry_over m1 ecnb acks ackb drops) else (
      record s { cc_rate = rate },
      record (carry_over m1 0 0 0 0) {
        dctcp_act_rate = smoothed;
        dctcp_ecn_rate = share;
        dctcp_slowstart = slowstart;
        cc_rexmits = 0;
      },
    )

unfoldable pub sock_on_cc_tick : Config → Sock → Meta → CcStats → (elapsed_us : ℕ) → Sock × Meta
unfolding cc_rtt_of sock_on_dctcp_tick
sock_on_cc_tick config s m stats elapsed_us = elim config.cc_algorithm [
  | cc_const_rate_algo ↦ (
    record s { cc_rate = config.cc_const_rate },
    record m { cc_rtt = cc_rtt_of config stats; cc_rexmits = 0 },
  )
  | cc_dctcp_rate_algo ↦ sock_on_dctcp_tick config s m stats elapsed_us
  | cc_other ↦ (record s { cc_rate = 0 }, record m { cc_rexmits = 0; cc_rtt = config.cc_rtt_init })
]
