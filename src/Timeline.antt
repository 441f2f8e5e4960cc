-- ===== src/Timeline.antt =====
-- apps/worker/worker/director/plan.py: the timeline of a directed scene, with times in microseconds,
-- who is in the scene when, and the check of its departures.
pub mod Presence
use zolexai.Prelude.{
  ℕ, suc, ◌+◌, String, Bool, true, false, ◌||◌, Option, none, some, List, [], ◌∷◌, ◌++◌, ◌==◌, ltb,
  leb, is_some, select, if◌then◌else◌,
}

pub record DirectorEvent : Type 0 where
  pub start : ℕ
  pub end : ℕ
  pub action : String
  pub camera : String
  pub speaker : Option ℕ
  pub dialogue : Option String
  pub delivery : Option String
  pub exits : List ℕ

abbrev pub among : ℕ → List ℕ → Bool
among identifier [] = false
among identifier (i ∷ ids) = (i == identifier) || among identifier ids

-- `exit_time`
unfoldable pub exit_time : List DirectorEvent → ℕ → Option ℕ
exit_time [] identifier = none
exit_time (e ∷ events) identifier =
    let rest = exit_time events identifier in if among identifier e.exits then some e.end else rest

-- Whether who leaves then, or never, is in the scene at a moment.
abbrev pub stays : Option ℕ → ℕ → Bool
stays none moment = true
stays (some leaves) moment = ltb (moment + 1) leaves

-- `present_ids`, of a cast given by its ids.
unfoldable pub present_ids : List DirectorEvent → List ℕ → ℕ → List ℕ
unfolding exit_time
present_ids events cast moment =
    select (λ identifier. stays (exit_time events identifier) moment) cast

-- `departed`: who has left, and when.
abbrev pub Departed : Type 0
Departed = List (ℕ × ℕ)

abbrev pub left_at : Departed → ℕ → Option ℕ
left_at [] identifier = none
left_at ((i, t) ∷ departed) identifier =
    let rest = left_at departed identifier in if i == identifier then some t else rest

abbrev pub set_default : ℕ → ℕ → Departed → Departed
set_default identifier t departed =
    if is_some (left_at departed identifier) then departed else (identifier, t) ∷ departed

abbrev pub depart : List ℕ → ℕ → Departed → Departed
depart [] t departed = departed
depart (i ∷ ids) t departed = depart ids t (set_default i t departed)

-- Leaving twice, and speaking (in which event) after having left.
pub data Problem : Type 0 where
  exits_twice : ℕ → Problem
  speaks_after : ℕ → ℕ → Problem

abbrev pub exits_again : Departed → List ℕ → List Problem
exits_again departed [] = []
exits_again departed (i ∷ ids) =
    let rest = exits_again departed ids in
    if is_some (left_at departed i) then exits_twice i ∷ rest else rest

abbrev pub late_for : ℕ → ℕ → ℕ → Option ℕ → List Problem
late_for index start speaker none = []
late_for index start speaker (some left) =
    if leb left (start + 1) then speaks_after index speaker ∷ [] else []

abbrev pub speaks_late : Departed → ℕ → DirectorEvent → List Problem
speaks_late departed index e = elim e.speaker [
  | none ↦ []
  | some speaker ↦ late_for index e.start speaker (left_at departed speaker)
]

-- The loop over the events, with the number of the next one.
unfoldable pub check_from : Departed → ℕ → List DirectorEvent → List Problem
check_from departed index [] = []
check_from departed index (e ∷ events) =
    exits_again departed e.exits
    ++ speaks_late departed index e
    ++ check_from (depart e.exits e.end departed) (suc index) events

unfoldable pub check_exit_consistency : List DirectorEvent → List Problem
unfolding check_from
check_exit_consistency events = check_from [] 1 events
