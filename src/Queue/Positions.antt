-- ===== src/Queue/Positions.antt =====
-- Positions in a ring of `n` slots of `el` bytes, by the slot's number.
use chamelio.Common.{slot_at, ℕ, ◌+◌, ◌-◌, ◌*◌, ◌^◌, ◌≤◌, ◌<◌, ◌≡◌, ◌≢◌, arith, lt→ltb, le→ltb}
use chamelio.Common.{u32, u64}
use chamelio.Queue.Defs.{advance}
use native.Mathlib.Decide.{dec_lt}

mul-le : (el a b : ℕ) → a ≤ b → a * el ≤ b * el
mul-le el a b h = grind arith

-- Different slots begin at different offsets.
pub offset-ne : (el i j : ℕ) → 0 < el → i ≢ j → i * el ≢ j * el
offset-ne el i j p ne e = elim (dec_lt i j) [
  | yes h ↦ omega (arith, mul-le el (i + 1) j (omega arith))
  | no h ↦ omega (arith, mul-le el (j + 1) i (omega arith))
]

-- The ring fits the 32-bit offsets, so moving on by one slot does not wrap.
pub advance-offset :
    (n el h : ℕ) → 0 < el → el * n < 2 ^ 32 → h < n → advance n el (h * el) ≡ slot_at n h 1 * el
unfolding advance
advance-offset n el h pos fits p = elim (dec_lt (h + 1) n) [
  | yes q ↦
      rw
        (
          lt→ltb _ _ q,
          lt→ltb (u32 (u64 (h * el + el))) (u64 (el * n))
              (omega (arith, mul-le el (h + 2) n (omega arith))),
        )
        (omega (arith, mul-le el (h + 2) n (omega arith)))
  | no q ↦
      rw
        (
          le→ltb (h + 1) n (omega arith),
          le→ltb (u32 (u64 (h * el + el))) (u64 (el * n))
              (omega (arith, mul-le el (h + 1) n (omega arith), mul-le el n (h + 1) (omega arith))),
        )
        (let z : h + 1 - n ≡ 0 = omega arith in rw z (omega arith))
]
