-- ===== src/Segments/Boundaries.antt =====
-- The cuts of a music video.
use mathlib.Core.Path.{subst}
use native.Mathlib.Nat.{
  le-div_iff_mul-le, mul-div_cancel, mul_comm, mul-sub, mul-add, mul_assoc, mul-le-mul_right,
}
use zolexai.Prelude.{
  inl, inr, ℕ, zero, suc, ◌+◌, ◌-◌, ◌*◌, ◌/◌, ◌≤◌, ◌<◌, ◌≡◌, sym, ap, Bool-cases, leb, leb→le, List,
  [], ◌∷◌, Option, none, some, arith,
}
use zolexai.Segments.{
  later, Track, count_of, latest_of, earliest_of, last_onset, or_latest, boundary, boundaries_from,
}
use zolexai.Segments.Even.{div-add}

-- An option's number, if there is one, lies between two.
abbrev Between : ℕ → ℕ → Option ℕ → Type 0
Between low high none = Unit
Between low high (some time) = (low ≤ time) × (time ≤ high)

later-Between :
    (low high time : ℕ) (others : Option ℕ)
    → low ≤ time
    → time ≤ high
    → Between low high others
    → Between low high (later time others)
later-Between low high time none a b h = (a, b)
later-Between low high time (some other) a b h = (omega (arith, a), omega (arith, b, h.1))

last_onset-Between :
    (low high : ℕ) (onsets : List ℕ) → Between low high (last_onset low high onsets)
unfolding last_onset
last_onset-Between low high [] = tt
last_onset-Between low high (time ∷ onsets) =
    let others = last_onset low high onsets in
    let between = last_onset-Between low high onsets in
    elim (Bool-cases (leb low time)) [
      | inl a ↦ elim (Bool-cases (leb time high)) [
        | inl b ↦
            rw (a, b)
              (later-Between low high time others (leb→le low time a) (leb→le time high b) between)
        | inr b ↦ rw (a, b) between
      ]
      | inr a ↦ rw a between
    ]

or_latest-Between :
    (low high : ℕ) (o : Option ℕ)
    → low ≤ high
    → Between low high o
    → (low ≤ or_latest high o) × (or_latest high o ≤ high)
or_latest-Between low high none h b = (h, omega arith)
or_latest-Between low high (some time) h b = b

-- A cut lies between its earliest and its latest place.
boundary-between :
    (t : Track) (index position : ℕ)
    → (earliest_of t index position ≤ boundary t index position)
      × (boundary t index position ≤ latest_of t index position)
unfolding boundary
boundary-between t index position =
    let low = earliest_of t index position in
    let high = latest_of t index position in
    or_latest-Between low high (last_onset low high t.onsets) (omega arith)
      (last_onset-Between low high t.onsets)

-- Cuts in order, with no window longer than a pass between them or after the last.
abbrev pub Paced : ℕ → ℕ → ℕ → List ℕ → Type 0
Paced per_pass from total [] = (from ≤ total) × (total ≤ from + per_pass)
Paced per_pass from total (c ∷ cuts) =
    (from ≤ c) × (c ≤ from + per_pass) × Paced per_pass c total cuts

-- An even cut leaves no more than the passes that remain can hold.
even-left :
    (total count per_pass index left : ℕ)
    → 0 < count
    → total ≤ count * per_pass
    → index + left ≡ count
    → total ≤ total * index / count + per_pass * left
even-left total count per_pass index left pos enough e =
    let low : (total - per_pass * left) * count ≤ total * index = omega (
      arith,
      mul_comm (total - per_pass * left) count,
      mul-sub count total (per_pass * left),
      mul_comm count total,
      ap (λ x. total * x) (sym e),
      mul-add total index left,
      mul_assoc count per_pass left,
      mul-le-mul_right left enough,
    ) in
    omega (
      arith,
      (le-div_iff_mul-le {k = count} {x = total - per_pass * left} {y = total * index} pos).1 low,
    )

even-grows : (total count index : ℕ) → 0 < count → total * index / count ≤ total * suc index / count
even-grows total count index pos =
    let grows : total * index + total ≡ total * suc index = omega arith in
    omega (
      arith,
      subst (λ x. total * index / count + total / count ≤ x / count) grows
          (div-add (total * index) total count pos).0,
    )

module _ (t : Track) (pos : 0 < count_of t) (enough : t.total ≤ count_of t * t.per_pass) where
  boundary-kept :
      (index left position : ℕ)
      → suc index + left ≡ count_of t
      → position ≤ t.total * index / count_of t
      → t.total ≤ position + t.per_pass * suc left
      → (position ≤ boundary t (suc index) position)
        × (boundary t (suc index) position ≤ position + t.per_pass)
        × (boundary t (suc index) position ≤ t.total * suc index / count_of t)
        × (t.total ≤ boundary t (suc index) position + t.per_pass * left)
  boundary-kept index left position e before holds =
      let between = boundary-between t (suc index) position in
      let remaining : count_of t - suc index ≡ left = omega (arith, e) in
      let same = ap (λ x. t.per_pass * x) remaining in
      let even = even-left t.total (count_of t) t.per_pass (suc index) left pos enough e in
      let grows = even-grows t.total (count_of t) index pos in
      (
        omega (arith, between.0, before, grows),
        omega (arith, between.1),
        omega (arith, between.1),
        omega (arith, between.0, same, even, holds, before, grows),
      )

  pub boundaries_from-Paced :
      (left index position : ℕ)
      → suc index + left ≡ count_of t
      → position ≤ t.total * index / count_of t
      → t.total ≤ position + t.per_pass * suc left
      → Paced t.per_pass position t.total (boundaries_from t left (suc index) position)
  unfolding boundaries_from
  boundaries_from-Paced zero index position e before holds =
      let grows = even-grows t.total (count_of t) index pos in
      let full : suc index ≡ count_of t = omega (arith, e) in
      let end =
        subst (λ x. t.total * x / count_of t ≡ t.total) (sym full) (mul-div_cancel t.total pos) in
      (omega (arith, before, grows, end), omega (arith, holds))
  boundaries_from-Paced (suc left) index position e before holds =
      let kept = boundary-kept index (suc left) position (omega (arith, e)) before holds in
      (
        kept.0,
        kept.1,
        boundaries_from-Paced left (suc index) (boundary t (suc index) position) (omega (arith, e))
            kept.2 kept.3,
      )
