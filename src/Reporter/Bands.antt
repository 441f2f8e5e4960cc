-- ===== src/Reporter/Bands.antt =====
-- The slices of the generating band.
use native.Mathlib.Nat.{le-div_iff_mul-le, div-mul-le_self, zero-div, mul-div_cancel}
use zolexai.Prelude.{ℕ, ◌+◌, ◌-◌, ◌*◌, ◌/◌, ◌≤◌, ◌<◌, ◌≡◌, refl, arith}
use zolexai.Reporter.{band_for}

div_mono : (a b total : ℕ) → 0 < total → a ≤ b → a / total ≤ b / total
div_mono a b total some h = (le-div_iff_mul-le some).1 (omega (arith, div-mul-le_self a total, h))

full_band : (total : ℕ) → 0 < total → 70 * (total - 1 + 1) / total ≡ 70
full_band total some =
    let whole : total - 1 + 1 ≡ total = omega (arith, some) in rw whole (mul-div_cancel 70 some)

-- For an index below `total`: the slices of a job of `total` segments follow each other without a
-- gap, the first begins at 15, the last ends at 85, and each is in order and within these bounds.
band_for-tiles :
    (index total : ℕ)
    → index < total
    → ((band_for (index + 1) total).0 ≡ (band_for index total).1)
      × ((band_for 0 total).0 ≡ 15)
      × ((band_for (total - 1) total).1 ≡ 85)
      × (15 ≤ (band_for index total).0)
      × ((band_for index total).0 ≤ (band_for index total).1)
      × ((band_for index total).1 ≤ 85)
unfolding band_for
band_for-tiles index total h =
    let some : 0 < total = omega (arith, h) in
    let end : 70 * total / total ≡ 70 = mul-div_cancel 70 some in
    let low = div_mono (70 * index) (70 * (index + 1)) total some (omega arith) in
    let high = div_mono (70 * (index + 1)) (70 * total) total some (omega (arith, h)) in
    (
      refl,
      omega (arith, zero-div total),
      omega (arith, full_band total some),
      omega arith,
      omega (arith, low),
      omega (arith, high, end),
    )
