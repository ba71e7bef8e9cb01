-- ===== src/Tcp/Slow/Rate.antt =====
-- The bounds of the rate that an interval of DCTCP sets.
use chamelio.Common.{refl, true, ℕ, ◌≤◌, ◌*◌, Bool, ◌≡◌, ◌/◌, ◌+◌, arith, ◌-◌, false, inl, inr}
use chamelio.Common.{sym, Bool-cases, ◌∙◌, ltb, ◌<◌, min, ap, if◌then◌else◌, ◌⊎◌, ◌||◌, ◌&&◌}
use chamelio.Common.{◌==◌}
use chamelio.Tcp.Slow.Dctcp.{clamp_rate, avoid_rate, increase_rate, uint_max, dctcp_rate}
use chamelio.Tcp.Slow.Dctcp.{dctcp_ecn_rate_of, double_rate}
use chamelio.Tcp.Slow.State.{Config, Meta}
use native.Mathlib.Nat.{div-le_of_le-mul, mul-le-mul_right, mul-le-mul_left, mul-add, le_trans}

share_le : (ecnb ackb : ℕ) → ecnb ≤ ackb → ecnb * uint_max / ackb ≤ uint_max
share_le ecnb ackb le = div-le_of_le-mul ackb (omega arith)

-- The two parts of a weighted mean fill the whole.
whole : (top w : ℕ) → w ≤ uint_max → top * w + top * (uint_max - w) ≡ top * uint_max
whole top w le = sym (mul-add top w (uint_max - w)) ∙ ap (λ k. top * k) (omega arith)

weighted_le :
    (a b w top : ℕ) → w ≤ uint_max → a ≤ top → b ≤ top → a * w + b * (uint_max - w) ≤ top * uint_max
weighted_le a b w top le p q =
    omega (arith, mul-le-mul_right w p, mul-le-mul_right (uint_max - w) q, whole top w le)

le_weighted :
    (a b w low : ℕ) → w ≤ uint_max → low ≤ a → low ≤ b → low * uint_max ≤ a * w + b * (uint_max - w)
le_weighted a b w low le p q =
    omega (arith, mul-le-mul_right w p, mul-le-mul_right (uint_max - w) q, whole low w le)

pub clamp_rate-le : (rate act_rate : ℕ) → rate ≤ uint_max → clamp_rate rate act_rate ≤ rate
unfolding clamp_rate
clamp_rate-le rate act_rate le = ground arith

cut_le : (rate x : ℕ) → rate * (uint_max - x) / uint_max ≤ rate
cut_le rate x =
    let le : uint_max - x ≤ uint_max = omega arith in
    div-le_of_le-mul uint_max (omega (arith, mul-le-mul_left rate le))

increase_rate-le :
    (config : Config) (rate : ℕ) → rate ≤ uint_max → increase_rate config rate ≤ uint_max
unfolding increase_rate
increase_rate-le config rate le = ground arith

avoid_rate-le :
    (config : Config) (lost : Bool) (rate ecn_rate ecnb ackb : ℕ)
    → rate ≤ uint_max
    → (avoid_rate config lost rate ecn_rate ecnb ackb).0 ≤ uint_max
unfolding avoid_rate
avoid_rate-le config true rate ecn_rate ecnb ackb le = omega arith
avoid_rate-le config false rate ecn_rate ecnb ackb le =
    elim (Bool-cases (ltb 0 (if ltb 0 ackb && ltb ackb ecnb then ackb else ecnb))) [
      | inl some_marked ↦ rw some_marked (le_trans (cut_le rate _) le)
      | inr clean ↦ rw clean (increase_rate-le config rate le)
    ]

double_rate-le : (rate : ℕ) → double_rate rate ≤ uint_max
unfolding double_rate
double_rate-le rate = ground arith

avoid_rate-lost :
    (config : Config) (rate ecn_rate ecnb ackb : ℕ)
    → (avoid_rate config true rate ecn_rate ecnb ackb).0 ≡ rate / 2
unfolding avoid_rate
avoid_rate-lost config rate ecn_rate ecnb ackb = refl

-- The minimum, or the rate itself.
at_least :
    (config : Config) (rate top : ℕ)
    → rate ≤ top
    → let next = if ltb rate config.cc_dctcp_min then config.cc_dctcp_min else rate in
      (next ≡ config.cc_dctcp_min) ⊎ (next ≤ top)
at_least config rate top le = elim (Bool-cases (ltb rate config.cc_dctcp_min)) [
  | inl low ↦ inl (rw low)
  | inr high ↦ inr (rw high le)
]

-- What the next rate of a socket obeys: it is not below the configured minimum and stays a word;
-- after a loss it is at most the half of the old one, unless the minimum is larger; and it is at
-- most the double of the old one, unless the minimum is larger or slow start is over.
pub record IsRate (config : Config) (m : Meta) (rate drops ecnb next : ℕ) : Type 0 where
  pub least : config.cc_dctcp_min ≤ next
  pub word : next ≤ uint_max
  pub halved : (0 < drops) ⊎ (0 < m.cc_rexmits) → (next ≡ config.cc_dctcp_min) ⊎ (next ≤ rate / 2)
  pub doubled :
      m.dctcp_slowstart ≡ true
      → drops ≡ 0
      → ecnb ≡ 0
      → m.cc_rexmits ≡ 0
      → (next ≡ config.cc_dctcp_min) ⊎ (next ≤ 2 * rate)

-- For a rate and a configured minimum that are words, the next rate of DCTCP is not below the
-- minimum and is a word; after a loss or a retransmission it is at most half of the old rate,
-- unless it is the minimum; and in slow start with neither loss nor mark nor retransmission it
-- is at most the double, unless it is the minimum.
pub dctcp_rate-IsRate :
    (config : Config) (m : Meta) (rate act_rate drops ecnb ackb : ℕ)
    → rate ≤ uint_max
    → config.cc_dctcp_min ≤ uint_max
    → IsRate config m rate drops ecnb (dctcp_rate config m rate act_rate drops ecnb ackb).0
unfolding dctcp_rate
dctcp_rate-IsRate config m rate act_rate drops ecnb ackb r min =
    let k = clamp_rate-le rate act_rate r in
    let a =
      avoid_rate-le config (ltb 0 drops || ltb 0 m.cc_rexmits) (clamp_rate rate act_rate)
        m.dctcp_ecn_rate ecnb ackb (omega arith) in
    record {
      least = ground arith;
      word = let d = double_rate-le (clamp_rate rate act_rate) in ground arith;
      halved = λ lost.
          let some_lost : (ltb 0 drops || ltb 0 m.cc_rexmits) ≡ true = ground arith in
          let over : (m.dctcp_slowstart && (drops == 0 && ecnb == 0 && m.cc_rexmits == 0)) ≡ false =
            ground arith in
          rw (some_lost, over) (at_least config _ _ (omega arith));
      doubled = λ start d e x.
          let more : double_rate (clamp_rate rate act_rate) ≤ 2 * rate =
            unfold double_rate in ground arith in
          let starting : (m.dctcp_slowstart && (drops == 0 && ecnb == 0 && m.cc_rexmits == 0))
              ≡ true =
            ground arith in
          rw starting (at_least config _ _ more);
    }

-- When the weight and the old share are words and no more bytes are marked than acknowledged,
-- the new share of marks lies between the smaller and the larger of the old share and the
-- interval's, and is a word.
pub ecn_rate_bounds :
    (weight prev ecnb ackb : ℕ)
    → weight ≤ uint_max
    → prev ≤ uint_max
    → ecnb ≤ ackb
    → let share = ecnb * uint_max / ackb in
      (min prev share ≤ dctcp_ecn_rate_of weight prev ecnb ackb)
      × (dctcp_ecn_rate_of weight prev ecnb ackb ≤ uint_max)
      × ((top : ℕ) → prev ≤ top → share ≤ top → dctcp_ecn_rate_of weight prev ecnb ackb ≤ top)
unfolding dctcp_ecn_rate_of
ecn_rate_bounds weight prev ecnb ackb w p le =
    let share = ecnb * uint_max / ackb in
    let word = share_le ecnb ackb le in
    let up = weighted_le share prev weight uint_max w word p in
    let down = le_weighted share prev weight (min prev share) w (omega arith) (omega arith) in
    (
      omega arith,
      omega arith,
      λ top q r. let most = weighted_le share prev weight top w r q in omega arith,
    )
