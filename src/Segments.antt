-- ===== src/Segments.antt =====
-- apps/worker/worker/media/segments.py, longform/timing.py and `plan_chain_segments` of
-- longform/chain.py: how a length is split into the passes that generate it. Times are whole ticks;
-- a quotient is rounded down to a tick as floating point rounds it to its own grain.
pub mod Counts
pub mod Even
pub mod Boundaries
pub mod Musical
use zolexai.Prelude.{
  ℕ, zero, suc, ◌+◌, ◌-◌, ◌*◌, ◌/◌, Bool, true, false, ◌&&◌, ◌||◌, ◌==◌, leb, ltb, min, max, Option,
  none, some, List, [], ◌∷◌, ◌++◌, if◌then◌else◌,
}

pub record Segment : Type 0 where
  pub index : ℕ
  pub start : ℕ
  pub duration : ℕ
  pub overlap : ℕ

abbrev pub source_start : Segment → ℕ
source_start s = s.start - s.overlap

abbrev pub trim_start : Segment → ℕ
trim_start s = s.start - source_start s

abbrev pub generate_length : Segment → ℕ
generate_length s = s.duration + (s.start - source_start s)

-- The quotient rounded up.
abbrev pub ceil_div : ℕ → ℕ → ℕ
ceil_div a b = (a + (b - 1)) / b

-- 1 / 1e-9
abbrev pub per_tolerance : ℕ
per_tolerance = 1000000000

-- `math.ceil(total / max - 1e-9)`
unfoldable pub pass_count : ℕ → ℕ → ℕ
pass_count total longest = ceil_div (total * per_tolerance - longest) (longest * per_tolerance)

unfoldable pub window : ℕ → ℕ → ℕ → ℕ → Segment
window total count overlap index = record {
  index = index;
  start = total * index / count;
  duration = if index == count - 1 then total - total * index / count else total / count;
  overlap = if index == 0 then 0 else overlap;
}

-- The windows from an index on, by how many are left.
unfoldable pub windows : ℕ → ℕ → ℕ → ℕ → ℕ → List Segment
unfolding window
windows total count overlap zero index = []
windows total count overlap (suc left) index =
    window total count overlap index ∷ windows total count overlap left (suc index)

abbrev pub whole : ℕ → Segment
whole total = record { index = 0; start = 0; duration = total; overlap = 0 }

-- `none` is the `ValueError`.
unfoldable pub plan_segments : ℕ → ℕ → ℕ → Option (List Segment)
unfolding windows pass_count
plan_segments total longest overlap =
    if (total == 0) || (longest == 0)
    then none
    else if leb total longest
    then some (whole total ∷ [])
    else (let count = pass_count total longest in
        some (windows total count (min overlap (longest / 2)) count 0))

-- `sorted`
abbrev pub insert : ℕ → List ℕ → List ℕ
insert a [] = a ∷ []
insert a (b ∷ l) = if leb a b then a ∷ b ∷ l else b ∷ insert a l

unfoldable pub sorted : List ℕ → List ℕ
sorted [] = []
sorted (a ∷ l) = insert a (sorted l)

-- 1e-6 seconds, by the ticks of a second.
abbrev pub grain : ℕ → ℕ
grain second = second / 1000000

abbrev pub cons_segment : Segment → Option (List Segment) → Option (List Segment)
cons_segment s none = none
cons_segment s (some rest) = some (s ∷ rest)

-- The loop of `plan_chain_segments`: the cuts still to come, the one before and the segments so far.
unfoldable pub cut : ℕ → ℕ → List ℕ → ℕ → ℕ → Option (List Segment)
cut second per_pass [] start count = some []
cut second per_pass (end ∷ cuts) start count =
    let duration = end - start in
    let skipped = cut second per_pass cuts end count in
    let rest = cut second per_pass cuts end (suc count) in
    if leb duration (grain second)
    then skipped
    else if ltb (per_pass + grain second) duration
    then none
    else cons_segment (record { index = count; start = start; duration = duration; overlap = 0 })
        rest

abbrev pub or_even : ℕ → ℕ → Option (List Segment) → Option (List Segment)
or_even total per_pass none = none
or_even total per_pass (some []) = plan_segments total per_pass 0
or_even total per_pass (some (s ∷ rest)) = some (s ∷ rest)

unfoldable pub plan_chain_segments : ℕ → ℕ → ℕ → List ℕ → Option (List Segment)
unfolding cut sorted
plan_chain_segments second total per_pass [] = plan_segments total per_pass 0
plan_chain_segments second total per_pass (b ∷ boundaries) =
    or_even total per_pass (cut second per_pass (sorted (b ∷ boundaries) ++ (total ∷ [])) 0 0)

-- `_minimum_window`
abbrev pub minimum_window : ℕ → ℕ → ℕ
minimum_window second per_pass = min (2 * second) (per_pass / 2)

abbrev pub later : ℕ → Option ℕ → Option ℕ
later time none = some time
later time (some other) = some (max time other)

-- The last onset of a window, if one lies in it.
unfoldable pub last_onset : ℕ → ℕ → List ℕ → Option ℕ
last_onset earliest latest [] = none
last_onset earliest latest (time ∷ onsets) =
    let others = last_onset earliest latest onsets in
    if leb earliest time && leb time latest then later time others else others

abbrev pub or_latest : ℕ → Option ℕ → ℕ
or_latest latest none = latest
or_latest latest (some time) = time

-- What the loop of `plan_musical_boundaries` reads: the pull is in percent of a window.
pub record Track : Type 0 where
  pub second : ℕ
  pub total : ℕ
  pub per_pass : ℕ
  pub onsets : List ℕ
  pub pull_percent : ℕ

abbrev pub count_of : Track → ℕ
count_of t = pass_count t.total t.per_pass

abbrev pub pull_of : Track → ℕ
pull_of t = min t.pull_percent 50 * (t.total / count_of t) / 100

abbrev pub latest_of : Track → ℕ → ℕ → ℕ
latest_of t index position = min (t.total * index / count_of t) (position + t.per_pass)

abbrev pub earliest_of : Track → ℕ → ℕ → ℕ
earliest_of t index position =
    let latest = latest_of t index position in
    min latest (
      max (position + minimum_window t.second t.per_pass)
        (max (latest - pull_of t) (t.total - t.per_pass * (count_of t - index))))

unfoldable pub boundary : Track → ℕ → ℕ → ℕ
unfolding last_onset pass_count
boundary t index position =
    let latest = latest_of t index position in
    or_latest latest (last_onset (earliest_of t index position) latest t.onsets)

-- The boundaries from an index on, by how many are left.
unfoldable pub boundaries_from : Track → ℕ → ℕ → ℕ → List ℕ
unfolding boundary
boundaries_from t zero index position = []
boundaries_from t (suc left) index position =
    let next = boundary t index position in next ∷ boundaries_from t left (suc index) next

unfoldable pub plan_musical_boundaries : Track → List ℕ
unfolding boundaries_from pass_count
plan_musical_boundaries t =
    if leb t.total t.per_pass then [] else boundaries_from t (count_of t - 1) 1 0
