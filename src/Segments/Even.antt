-- ===== src/Segments/Even.antt =====
-- The even windows of a length.
use mathlib.Core.Path.{subst}
use native.Mathlib.Nat.{
  le-div_iff_mul-le, div-lt_iff_lt-mul, div-mul-le_self, lt-div-mul-add, div-le_of_le-mul,
  mul-div_cancel, add-mul, mul_comm, mul-sub, div-le_self, zero-div, mul-zero,
}
use zolexai.Prelude.{
  inl, inr, ℕ, zero, suc, ◌+◌, ◌-◌, ◌*◌, ◌/◌, ◌≤◌, ◌<◌, ◌≡◌, refl, sym, ap, true, false, Bool-cases,
  ◌==◌, ==_iff, ◌||◌, leb, leb→le, List, [], ◌∷◌, some, arith, length, min,
}
use zolexai.Segments.{Segment, window, windows, whole, plan_segments, pass_count, per_tolerance}
use zolexai.Segments.Counts.{pass_count-enough, pass_count-least}

-- Segments that follow one another from a point to the end, each beginning where the one before
-- ends or a tick after that, and none longer or shorter than the bounds.
abbrev pub Covers : ℕ → ℕ → ℕ → ℕ → List Segment → Type 0
Covers shortest longest from total [] = from ≡ total
Covers shortest longest from total (s ∷ rest) =
    (from ≤ s.start)
    × (s.start ≤ from + 1)
    × (shortest ≤ s.duration)
    × (s.duration ≤ longest)
    × Covers shortest longest (s.start + s.duration) total rest

-- A sum of quotients against the quotient of the sum.
pub div-add :
    (a b n : ℕ) → 0 < n → (a / n + b / n ≤ (a + b) / n) × ((a + b) / n ≤ a / n + b / n + 1)
div-add a b n pos =
    let qa = a / n in
    let qb = b / n in
    let low : (qa + qb) * n ≤ a + b =
      omega (arith, add-mul qa qb n, div-mul-le_self a n, div-mul-le_self b n) in
    let high : a + b < (qa + qb + 2) * n = omega (
      arith,
      add-mul (qa + qb) 2 n,
      add-mul qa qb n,
      lt-div-mul-add {a = a} {b = n} pos,
      lt-div-mul-add {a = b} {b = n} pos,
    ) in
    (
      (le-div_iff_mul-le {k = n} {x = qa + qb} {y = a + b} pos).1 low,
      omega (arith, (div-lt_iff_lt-mul {k = n} {x = a + b} {y = qa + qb + 2} pos).1 high),
    )

module _ (total longest count overlap : ℕ) (pos : 0 < count)
    (enough : total ≤ count * longest) where
  abbrev start : ℕ → ℕ
  start index = total * index / count

  start-suc :
      (index : ℕ)
      → (start index + total / count ≤ start (suc index))
        × (start (suc index) ≤ start index + total / count + 1)
  start-suc index =
      let grows : total * index + total ≡ total * suc index = omega arith in
      subst
        (λ x.
          (start index + total / count ≤ x / count) × (x / count ≤ start index + total / count + 1))
        grows (div-add (total * index) total count pos)

  start-last : (index : ℕ) → suc index ≡ count → total - start index ≤ longest
  start-last index e =
      let low : (total - longest) * count ≤ total * index = omega (
        arith,
        mul_comm (total - longest) count,
        mul-sub count total longest,
        mul_comm count total,
        ap (λ x. total * x) e,
        enough,
      ) in
      omega
        (arith, (le-div_iff_mul-le {k = count} {x = total - longest} {y = total * index} pos).1 low)

  start-count : start count ≡ total
  start-count = mul-div_cancel total pos

  windows-Covers :
      (left index from : ℕ)
      → index + left ≡ count
      → from ≤ start index
      → start index ≤ from + 1
      → 0 < left
      → Covers (total / count) longest from total (windows total count overlap left index)
  unfolding windows window
  windows-Covers zero index from e low high some_left = absurd (omega (arith, some_left))
  windows-Covers (suc zero) index from e low high some_left =
      let last : (index == count - 1) ≡ true = ground (arith, e) in
      let next = start-suc index in
      let full : suc index ≡ count = omega (arith, e) in
      let end : start (suc index) ≡ total = subst (λ x. start x ≡ total) (sym full) start-count in
      rw last
        (low, high, omega (arith, next.0, end), start-last index full, omega (arith, next.0, end))
  windows-Covers (suc (suc left)) index from e low high some_left =
      let inner : (index == count - 1) ≡ false = ground (arith, e) in
      let next = start-suc index in
      rw inner (
        low,
        high,
        omega arith,
        div-le_of_le-mul count enough,
        windows-Covers (suc left) (suc index) (start index + total / count) (omega (arith, e))
            next.0 (omega (arith, next.1)) (omega arith),
      )

length-windows :
    (total count overlap left index : ℕ) → length (windows total count overlap left index) ≡ left
unfolding windows
length-windows total count overlap zero index = refl
length-windows total count overlap (suc left) index =
    omega (arith, length-windows total count overlap left (suc index))

-- What a plan is: segments from 0 to the end, the shortest within a tick of the even share, as few
-- as the ceiling allows.
abbrev pub IsPlan : ℕ → ℕ → List Segment → Type 0
IsPlan total longest segments =
    Covers (total / length segments) longest 0 total segments
    × ((k : ℕ) → total ≤ k * longest → length segments ≤ k)

whole-IsPlan :
    (total longest : ℕ) → 0 < total → total ≤ longest → IsPlan total longest (whole total ∷ [])
whole-IsPlan total longest pos fits = (
  (omega arith, omega arith, div-le_self total 1, fits, omega arith),
  λ k enough. elim (Bool-cases (k == 0)) [
    | inl e ↦
        absurd (omega (arith, pos, subst (λ x. total ≤ x * longest) ((==_iff k 0).0 e) enough))
    | inr e ↦ ground (arith, e)
  ],
)

windows-IsPlan :
    (total longest overlap : ℕ)
    → 0 < total
    → 0 < longest
    → longest < per_tolerance
    → IsPlan total longest
        (windows total (pass_count total longest) overlap (pass_count total longest) 0)
windows-IsPlan total longest overlap pos some_pass small =
    let count = pass_count total longest in
    let enough = pass_count-enough total longest some_pass small in
    let passes : 0 < count = elim (Bool-cases (count == 0)) [
      | inl e ↦
          absurd
            (omega (arith, pos, subst (λ x. total ≤ x * longest) ((==_iff count 0).0 e) enough))
      | inr e ↦ ground (arith, e)
    ] in
    let same = sym (length-windows total count overlap count 0) in
    (
      subst (λ x. Covers (total / x) longest 0 total (windows total count overlap count 0)) same
          (windows-Covers total longest count overlap passes enough count 0 0 (omega arith)
            (omega arith) (omega (arith, zero-div count, ap (λ x. x / count) (mul-zero total)))
            passes),
      λ k h. subst (λ x. x ≤ k) same (pass_count-least total longest k some_pass h),
    )

-- A positive length with a positive ceiling below 1e9 ticks is planned, and the segments tile it:
-- each begins where the one before ends or one tick after that, the first at 0, and the last ends
-- at the total; none is longer than the ceiling or shorter than the even share of their number, in
-- ticks rounded down; and no fewer segments could stay under the ceiling.
pub plan_segments-IsPlan :
    (total longest overlap : ℕ)
    → 0 < total
    → 0 < longest
    → longest < per_tolerance
    → (segments : List Segment) × (plan_segments total longest overlap ≡ some segments)
      × IsPlan total longest segments
unfolding plan_segments
plan_segments-IsPlan total longest overlap pos some_pass small =
    let given : ((total == 0) || (longest == 0)) ≡ false = ground (arith, pos, some_pass) in
    elim (Bool-cases (leb total longest)) [
      | inl fits ↦
          rw (given, fits)
            (whole total ∷ [], refl, whole-IsPlan total longest pos (leb→le total longest fits))
      | inr long ↦
          rw (given, long)
            (
              windows total (pass_count total longest) (min overlap (longest / 2))
                  (pass_count total longest) 0,
              refl,
              windows-IsPlan total longest (min overlap (longest / 2)) pos some_pass small,
            )
    ]
