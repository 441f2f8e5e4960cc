-- ===== src/Planner.antt =====
-- apps/worker/worker/director/plan.py: the reading of a plan's timeline from what the planner wrote,
-- with times in microseconds.
pub mod Sorting
pub mod Accepted
use Prim.Native.Char.{code}
use zolexai.Prelude.{
  ℕ, suc, ◌+◌, ◌≤◌, String, Bool, true, false, not, ◌&&◌, ◌||◌, Option, none, some, List, [], ◌∷◌,
  ◌++◌, ◌==◌, ◌≈◌, ltb, leb, max, min, length, if◌then◌else◌,
}
use zolexai.Text.{strip}
use zolexai.Timeline.{DirectorEvent, among, check_exit_consistency}
use zolexai.Timeline

-- What `float` makes of a time; `negative` is also the infinite one below zero. An integer that is
-- too large for a float, which raises, is left out.
pub data Timing : Type 0 where
  at : ℕ → Timing
  infinite negative nan unreadable : Timing

-- The `exits` field: missing or empty, not a list, or the names read, with none for "null".
pub data RawExits : Type 0 where
  absent not_a_list : RawExits
  names : List (Option ℕ) → RawExits

-- An event as the planner wrote it, its texts by `str(... or "")` and its speaker's name read.
pub record RawEvent : Type 0 where
  pub start : Timing
  pub end : Timing
  pub action : String
  pub camera : String
  pub speaker : Option ℕ
  pub dialogue : String
  pub delivery : String
  pub exits : RawExits

-- What is wrong with the timeline, with the number of the event.
pub data Problem : Type 0 where
  no_timeline too_many_events : Problem
  not_an_object non_numeric invalid_range starts_beyond no_speaker : ℕ → Problem
  unknown_speaker unknown_exit : ℕ → ℕ → Problem
  exits_not_a_list nothing_happens : ℕ → Problem
  inconsistent : Timeline.Problem → Problem

abbrev pub max_events : ℕ
max_events = 24

abbrev is_quote : ℕ → Bool
is_quote c = (c == 34) || (c == 8220) || (c == 8221)

abbrev unquote_left : String → String
unquote_left String.[] = ""
unquote_left (String.◌∷◌ c s) =
    let rest = unquote_left s in if is_quote (code c) then rest else String.◌∷◌ c s

abbrev unquote_right : String → String
unquote_right String.[] = ""
unquote_right (String.◌∷◌ c s) =
    let rest = unquote_right s in if is_quote (code c) && (rest ≈ "") then "" else String.◌∷◌ c rest

abbrev or_none : String → Option String
or_none s = if s ≈ "" then none else some s

-- The names of a list of exits, each once, after those seen.
unfoldable pub exits_from : List ℕ → ℕ → List ℕ → List (Option ℕ) → List Problem × List ℕ
exits_from cast index seen [] = ([], seen)
exits_from cast index seen (none ∷ raw) = exits_from cast index seen raw
exits_from cast index seen (some i ∷ raw) =
    let rest =
      exits_from cast index (if among i cast && not (among i seen) then seen ++ (i ∷ []) else seen)
        raw in
    if among i cast then rest else (unknown_exit index i ∷ rest.0, rest.1)

unfoldable pub parse_exits : List ℕ → ℕ → RawExits → List Problem × List ℕ
unfolding exits_from
parse_exits cast index absent = ([], [])
parse_exits cast index not_a_list = (exits_not_a_list index ∷ [], [])
parse_exits cast index (names raw) = exits_from cast index [] raw

abbrev pub is_known : List ℕ → Option ℕ → Bool
is_known cast none = true
is_known cast (some speaker) = among speaker cast

abbrev unknown : ℕ → Option ℕ → Problem
unknown index none = no_speaker index
unknown index (some speaker) = unknown_speaker index speaker

abbrev pub says : Option String → Bool
says none = false
says (some dialogue) = true

abbrev pub names_someone : Option ℕ → Bool
names_someone none = false
names_someone (some speaker) = true

-- The guards on an event that has been read, after the problems of its exits.
unfoldable pub guarded :
    List ℕ → ℕ → List Problem → DirectorEvent → List Problem × List DirectorEvent
guarded cast index problems e =
    if says e.dialogue && not (names_someone e.speaker)
    then (problems ++ (no_speaker index ∷ []), [])
    else if not (is_known cast e.speaker)
    then (problems ++ (unknown index e.speaker ∷ []), [])
    else if (e.action ≈ "") && not (says e.dialogue)
    then (problems ++ (nothing_happens index ∷ []), [])
    else (problems, e ∷ [])

abbrev pub event_of : ℕ → RawEvent → ℕ → ℕ → List ℕ → DirectorEvent
event_of duration raw start end exits = record {
  start = start;
  end = min end duration;
  action = strip raw.action;
  camera = strip raw.camera;
  speaker = raw.speaker;
  dialogue = or_none (unquote_right (unquote_left (strip raw.dialogue)));
  delivery = or_none (strip raw.delivery);
  exits = exits;
}

-- An event whose times are numbers.
unfoldable pub timed : List ℕ → ℕ → ℕ → RawEvent → ℕ → ℕ → List Problem × List DirectorEvent
unfolding parse_exits guarded
timed cast duration index raw start end =
    let exits = parse_exits cast index raw.exits in
    if leb end start
    then (invalid_range index ∷ [], [])
    else if leb (duration + 500000) start
    then (starts_beyond index ∷ [], [])
    else guarded cast index exits.0 (event_of duration raw start end exits.1)

-- An end at infinity is cut like any other beyond the length.
abbrev pub with_times :
    List ℕ → ℕ → ℕ → RawEvent → Timing → Timing → List Problem × List DirectorEvent
with_times cast duration index raw unreadable end = (non_numeric index ∷ [], [])
with_times cast duration index raw (at start) unreadable = (non_numeric index ∷ [], [])
with_times cast duration index raw infinite unreadable = (non_numeric index ∷ [], [])
with_times cast duration index raw negative unreadable = (non_numeric index ∷ [], [])
with_times cast duration index raw nan unreadable = (non_numeric index ∷ [], [])
with_times cast duration index raw (at start) (at end) = timed cast duration index raw start end
with_times cast duration index raw (at start) infinite =
    timed cast duration index raw start (max (suc start) duration)
with_times cast duration index raw _ _ = (invalid_range index ∷ [], [])

abbrev pub entry : List ℕ → ℕ → ℕ → Option RawEvent → List Problem × List DirectorEvent
entry cast duration index none = (not_an_object index ∷ [], [])
entry cast duration index (some raw) = with_times cast duration index raw raw.start raw.end

unfoldable pub entries : List ℕ → ℕ → ℕ → List (Option RawEvent) → List Problem × List DirectorEvent
unfolding timed
entries cast duration index [] = ([], [])
entries cast duration index (r ∷ raw) =
    let first = entry cast duration index r in
    let rest = entries cast duration (suc index) raw in (first.0 ++ rest.0, first.1 ++ rest.1)

-- The order of the sort.
abbrev pub before : DirectorEvent → DirectorEvent → Bool
before e f = ltb e.start f.start || ((e.start == f.start) && leb e.end f.end)

unfoldable pub put : DirectorEvent → List DirectorEvent → List DirectorEvent
put e [] = e ∷ []
put e (f ∷ events) = let rest = put e events in if before e f then e ∷ f ∷ events else f ∷ rest

unfoldable pub sort : List DirectorEvent → List DirectorEvent
unfolding put
sort [] = []
sort (e ∷ events) = put e (sort events)

abbrev pub inconsistencies : List Timeline.Problem → List Problem
inconsistencies [] = []
inconsistencies (p ∷ problems) = inconsistent p ∷ inconsistencies problems

-- `_parse_timeline`, of a list; anything else is read as an empty one.
unfoldable pub parse_timeline :
    List ℕ → ℕ → List (Option RawEvent) → List Problem × List DirectorEvent
unfolding entries sort check_exit_consistency
parse_timeline cast duration [] = (no_timeline ∷ [], [])
parse_timeline cast duration (r ∷ raw) =
    let read = entries cast duration 1 (r ∷ raw) in
    let events = sort read.1 in
    if leb (length (r ∷ raw)) max_events
    then (read.0 ++ inconsistencies (check_exit_consistency events), events)
    else (too_many_events ∷ [], [])
