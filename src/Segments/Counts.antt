-- ===== src/Segments/Counts.antt =====
-- The number of passes.
use native.Mathlib.Nat.{
  lt-div-mul-add, div-lt_iff_lt-mul, lt_of_mul-lt-mul_right, mul-le-mul_right, mul_assoc, mul-pos,
  add-mul,
}
use zolexai.Prelude.{ℕ, suc, ◌+◌, ◌-◌, ◌*◌, ◌≤◌, ◌<◌, arith}
use zolexai.Segments.{pass_count, per_tolerance}

-- The passes hold the whole length, when a pass has less than 1e9 ticks.
pub pass_count-enough :
    (total longest : ℕ)
    → 0 < longest
    → longest < per_tolerance
    → total ≤ pass_count total longest * longest
unfolding pass_count
pass_count-enough total longest pos small =
    let divisor = longest * per_tolerance in
    let rounded =
      lt-div-mul-add {a = total * per_tolerance - longest + (divisor - 1)} {b = divisor}
        (mul-pos pos (omega arith)) in
    let count = pass_count total longest in
    let below : total * per_tolerance < (count * longest + 1) * per_tolerance =
      omega (arith, rounded, small, mul_assoc count longest per_tolerance) in
    omega (arith, lt_of_mul-lt-mul_right per_tolerance below)

-- No fewer passes hold it.
pub pass_count-least :
    (total longest k : ℕ) → 0 < longest → total ≤ k * longest → pass_count total longest ≤ k
unfolding pass_count
pass_count-least total longest k pos enough =
    let divisor = longest * per_tolerance in
    let dividend = total * per_tolerance - longest + (divisor - 1) in
    let scaled = mul-le-mul_right per_tolerance enough in
    let below : dividend < suc k * divisor =
      omega (arith, scaled, pos, mul_assoc k longest per_tolerance, add-mul k 1 divisor) in
    omega (
      arith,
      (div-lt_iff_lt-mul {k = divisor} {x = dividend} {y = suc k} (mul-pos pos (omega arith))).1
          below,
    )
