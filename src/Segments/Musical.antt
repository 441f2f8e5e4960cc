-- ===== src/Segments/Musical.antt =====
-- A music video's plan: the boundaries that the music gives, cut into segments.
use mathlib.Core.Path.{subst}
use native.Mathlib.Nat.{div-eq_of_lt, mul_comm}
use zolexai.Prelude.{
  ◌==◌, ==_iff, inl, inr, ℕ, zero, suc, ◌+◌, ◌-◌, ◌*◌, ◌/◌, ◌≤◌, ◌<◌, ◌≡◌, refl, sym, ap, ◌∙◌, true,
  false, Bool-cases, leb, ltb, leb→le, List, [], ◌∷◌, ◌++◌, Option, none, some, arith, length,
}
use zolexai.Segments.{
  Track, count_of, Segment, sorted, insert, cut, cons_segment, grain, or_even, plan_chain_segments,
  plan_musical_boundaries, boundaries_from, per_tolerance,
}
use zolexai.Segments.Counts.{pass_count-enough}
use zolexai.Segments.Even.{Covers, plan_segments-IsPlan}
use zolexai.Segments.Boundaries.{Paced, boundaries_from-Paced}

insert-Paced :
    (per_pass total a : ℕ) (cuts : List ℕ) → Paced per_pass a total cuts → insert a cuts ≡ a ∷ cuts
insert-Paced per_pass total a [] paced = refl
insert-Paced per_pass total a (b ∷ cuts) paced =
    let before : leb a b ≡ true = ground (arith, paced.0) in rw before refl

sorted-Paced :
    (per_pass from total : ℕ) (cuts : List ℕ) → Paced per_pass from total cuts → sorted cuts ≡ cuts
unfolding sorted
sorted-Paced per_pass from total [] paced = refl
sorted-Paced per_pass from total (c ∷ cuts) paced =
    ap (insert c) (sorted-Paced per_pass c total cuts paced.2)
    ∙ insert-Paced per_pass total c cuts paced.2

-- What the loop over the cuts gives: segments up to the end, no more than there are windows.
abbrev Cut : ℕ → ℕ → ℕ → ℕ → Option (List Segment) → Type 0
Cut per_pass from total windows none = ⊥
Cut per_pass from total windows (some segments) =
    Covers 0 per_pass from total segments × (length segments ≤ windows)

cons-Cut :
    (per_pass total windows : ℕ) (s : Segment) (rest : Option (List Segment))
    → s.duration ≤ per_pass
    → Cut per_pass (s.start + s.duration) total windows rest
    → Cut per_pass s.start total (suc windows) (cons_segment s rest)
cons-Cut per_pass total windows s none fits h = absurd h
cons-Cut per_pass total windows s (some rest) fits h =
    ((omega arith, omega arith, omega arith, fits, h.0), omega (arith, h.1))

longer-Cut :
    (per_pass from total windows : ℕ) (o : Option (List Segment))
    → Cut per_pass from total windows o
    → Cut per_pass from total (suc windows) o
longer-Cut per_pass from total windows none h = absurd h
longer-Cut per_pass from total windows (some segments) h = (h.0, omega (arith, h.1))

module _ (second per_pass total : ℕ) (fine : grain second ≡ 0) where
  -- One window of the loop.
  window-Cut :
      (from end count windows : ℕ) (cuts : List ℕ)
      → from ≤ end
      → end ≤ from + per_pass
      → ((n : ℕ) → Cut per_pass end total windows (cut second per_pass cuts end n))
      → Cut per_pass from total (suc windows) (cut second per_pass (end ∷ cuts) from count)
  unfolding cut
  window-Cut from end count windows cuts low high later =
      elim (Bool-cases (leb (end - from) (grain second))) [
        | inl empty ↦
            let same : from ≡ end = omega (arith, leb→le _ _ empty, fine, low) in
            rw empty (
              subst (λ x. Cut per_pass x total (suc windows) (cut second per_pass cuts end count))
                (sym same)
                (longer-Cut per_pass end total windows (cut second per_pass cuts end count)
                  (later count)))
        | inr wide ↦
            let within : ltb (per_pass + grain second) (end - from) ≡ false =
              ground (arith, high) in
            let split : end ≡ from + (end - from) = omega (arith, low) in
            rw (wide, within)
              (cons-Cut per_pass total windows
                (record { index = count; start = from; duration = end - from; overlap = 0 })
                (cut second per_pass cuts end (suc count)) (omega (arith, high))
                (subst
                  (λ x. Cut per_pass x total windows (cut second per_pass cuts end (suc count)))
                  split (later (suc count))))
      ]

  cut-Cut :
      (cuts : List ℕ) (from count : ℕ)
      → Paced per_pass from total cuts
      → Cut per_pass from total
          (suc (length cuts))
          (cut second per_pass (cuts ++ (total ∷ [])) from count)
  unfolding cut
  cut-Cut [] from count paced =
      window-Cut from total count 0 [] paced.0 paced.1 (λ n. (refl, omega arith))
  cut-Cut (c ∷ cuts) from count paced =
      window-Cut from c count (suc (length cuts)) (cuts ++ (total ∷ [])) paced.0 paced.1
        (λ n. cut-Cut cuts c n paced.2)

-- A plan with its segments, their tiling and their number.
abbrev Planned : ℕ → ℕ → ℕ → Option (List Segment) → Type 0
Planned per_pass total count plan =
    (segments : List Segment) × (plan ≡ some segments)
    × Covers 0 per_pass 0 total segments
    × (length segments ≤ count)

Covers-weaken :
    (shortest longest from total : ℕ) (segments : List Segment)
    → Covers shortest longest from total segments
    → Covers 0 longest from total segments
Covers-weaken shortest longest from total [] h = h
Covers-weaken shortest longest from total (s ∷ rest) h = (
  h.0,
  h.1,
  omega arith,
  h.3,
  Covers-weaken shortest longest (s.start + s.duration) total rest h.4,
)

or_even-Planned :
    (per_pass total count : ℕ) (o : Option (List Segment))
    → 0 < total
    → Cut per_pass 0 total count o
    → Planned per_pass total count (or_even total per_pass o)
or_even-Planned per_pass total count none pos h = absurd h
or_even-Planned per_pass total count (some []) pos h = absurd (omega (arith, pos, h.0))
or_even-Planned per_pass total count (some (s ∷ rest)) pos h = (s ∷ rest, refl, h.0, h.1)

Cut-fewer :
    (per_pass total windows count : ℕ) (o : Option (List Segment))
    → windows ≤ count
    → Cut per_pass 0 total windows o
    → Cut per_pass 0 total count o
Cut-fewer per_pass total windows count none le h = absurd h
Cut-fewer per_pass total windows count (some segments) le h = (h.0, omega (arith, h.1, le))

module _ (t : Track) (pos : 0 < t.total) (some_pass : 0 < t.per_pass)
    (small : t.per_pass < per_tolerance) (fine : grain t.second ≡ 0) where
  chain-Planned :
      (boundaries : List ℕ)
      → Paced t.per_pass 0 t.total boundaries
      → suc (length boundaries) ≤ count_of t
      → Planned t.per_pass t.total
          (count_of t)
          (plan_chain_segments t.second t.total t.per_pass boundaries)
  unfolding plan_chain_segments
  chain-Planned [] paced fewer =
      let even = plan_segments-IsPlan t.total t.per_pass 0 pos some_pass small in
      let plan = even.2 in
      (
        even.0,
        even.1,
        Covers-weaken (t.total / length even.0) t.per_pass 0 t.total even.0 plan.0,
        plan.1 (count_of t) (pass_count-enough t.total t.per_pass some_pass small),
      )
  chain-Planned (b ∷ boundaries) paced fewer =
      rw (sorted-Paced t.per_pass 0 t.total (b ∷ boundaries) paced) (
        or_even-Planned t.per_pass t.total (count_of t)
          (cut t.second t.per_pass ((b ∷ boundaries) ++ (t.total ∷ [])) 0 0) pos
          (Cut-fewer t.per_pass t.total (suc (length (b ∷ boundaries))) (count_of t) _ fewer
            (cut-Cut t.second t.per_pass t.total fine (b ∷ boundaries) 0 0 paced)))

length-boundaries_from :
    (t : Track) (left index position : ℕ) → length (boundaries_from t left index position) ≡ left
unfolding boundaries_from
length-boundaries_from t zero index position = refl
length-boundaries_from t (suc left) index position =
    ap suc (length-boundaries_from t left (suc index) _)

-- The cuts that the music gives a track are always accepted by the plan of its passes, whatever the
-- onsets and the pull: the segments follow one another from 0 to the end, none is longer than a
-- pass, and there are no more of them than the even plan's number of passes. The track and the
-- pass have a length, a pass has less than 1e9 ticks, and a second less than 1e6.
pub musical_segments-Covers :
    (t : Track)
    → 0 < t.total
    → 0 < t.per_pass
    → t.per_pass < per_tolerance
    → t.second < 1000000
    → (segments : List Segment) × (plan_chain_segments t.second t.total t.per_pass
          (plan_musical_boundaries t)
        ≡ some segments)
      × Covers 0 t.per_pass 0 t.total segments
      × (length segments ≤ count_of t)
unfolding plan_musical_boundaries
musical_segments-Covers t pos some_pass small coarse =
    let enough = pass_count-enough t.total t.per_pass some_pass small in
    let passes : 0 < count_of t = elim (Bool-cases (count_of t == 0)) [
      | inl e ↦ absurd (
          omega (
            arith,
            pos,
            subst (λ x. t.total ≤ x * t.per_pass) ((==_iff (count_of t) 0).0 e) enough,
          ))
      | inr e ↦ ground (arith, e)
    ] in
    let fine : grain t.second ≡ 0 = div-eq_of_lt coarse in
    elim (Bool-cases (leb t.total t.per_pass)) [
      | inl fits ↦ rw fits (
          chain-Planned t pos some_pass small fine []
            (omega arith, omega (arith, leb→le t.total t.per_pass fits)) (omega (arith, passes)))
      | inr long ↦
          let again : suc (count_of t - 1) ≡ count_of t = omega (arith, passes) in
          let full = ap (λ x. t.per_pass * x) again in
          let boundaries = boundaries_from t (count_of t - 1) 1 0 in
          rw long (
            chain-Planned t pos some_pass small fine boundaries
              (boundaries_from-Paced t passes enough (count_of t - 1) 0 0 (omega (arith, passes))
                (omega arith) (omega (arith, enough, full, mul_comm (count_of t) t.per_pass)))
              (omega (arith, passes, length-boundaries_from t (count_of t - 1) 1 0)))
    ]
