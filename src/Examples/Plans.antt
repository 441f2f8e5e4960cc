-- ===== src/Examples/Plans.antt =====
-- A planner's timeline, as written and as read.
use zolexai.Prelude.{◌≡◌, ◌≤◌, refl, Option, none, some, List, [], ◌∷◌, All, length}
use zolexai.Text.{is_space, strip}
use zolexai.Timeline.{check_exit_consistency}
use zolexai.Planner.{
  RawEvent, at, negative, absent, names, starts_beyond, no_speaker, invalid_range, unknown_exit,
  parse_timeline,
}
use zolexai.Planner.Sorting.{Sorted}
use zolexai.Planner.Accepted.{IsEvent, parse_timeline-Sorted}

abbrev walk : RawEvent
walk = record {
  start = at 4000000;
  end = at 6000000;
  action = " walks away ";
  camera = "";
  speaker = none;
  dialogue = "";
  delivery = "";
  exits = names (some 1 ∷ none ∷ some 1 ∷ []);
}

abbrev talk : RawEvent
talk = record {
  start = at 0;
  end = at 3000000;
  action = "";
  camera = "";
  speaker = some 1;
  dialogue = "\"I have to go.\"";
  delivery = "";
  exits = absent;
}

abbrev written : List (Option RawEvent)
written = some walk ∷ some talk ∷ []

refused_events :
    (parse_timeline (1 ∷ []) 6000000 (
      some (record walk { start = at 6500000; end = at 7000000 })
      ∷ some (record talk { speaker = none })
      ∷ some (record talk { start = negative })
      ∷ some (record walk { exits = names (some 2 ∷ []) })
      ∷ [])).0
    ≡ starts_beyond 1 ∷ no_speaker 2 ∷ invalid_range 3 ∷ unknown_exit 4 2 ∷ []
unfolding parse_timeline is_space strip
refused_events = refl

parse_timeline-Sorted_example :
    All (IsEvent (1 ∷ []) 6000000) (parse_timeline (1 ∷ []) 6000000 written).1
    × Sorted (parse_timeline (1 ∷ []) 6000000 written).1
    × (length (parse_timeline (1 ∷ []) 6000000 written).1 ≡ length written)
    × (1 ≤ length written)
    × (length written ≤ 24)
    × (check_exit_consistency (parse_timeline (1 ∷ []) 6000000 written).1 ≡ [])
unfolding parse_timeline is_space strip
parse_timeline-Sorted_example = parse_timeline-Sorted (1 ∷ []) 6000000 written refl
