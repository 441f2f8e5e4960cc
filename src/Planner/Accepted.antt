-- ===== src/Planner/Accepted.antt =====
-- The events that the planner's reader lets through.
use zolexai.Prelude.{
  ◌⊎◌, inl, inr, ℕ, suc, ◌+◌, ◌≤◌, ◌<◌, max, ◌≡◌, refl, sym, ap, ◌∙◌, true, false, not, ◌&&◌,
  Bool-cases, Option, none, some, List, [], ◌∷◌, ◌++◌, ◌≈◌, arith, leb, leb→le, All, All-append,
  length, length-append, if_true, if_false,
}
use zolexai.Timeline.{DirectorEvent, among, check_exit_consistency}
use zolexai.Timeline
use zolexai.Planner.Sorting.{Sorted, sort-All, length-sort, sort-Sorted}
use zolexai.Planner.{
  Timing, at, infinite, negative, nan, unreadable, RawExits, absent, not_a_list, names, RawEvent,
  Problem, max_events, too_many_events, exits_from, parse_exits, is_known, says, names_someone,
  guarded, timed, event_of, with_times, entry, entries, sort, inconsistencies, parse_timeline,
}

-- Which events are let through.
pub record IsEvent (cast : List ℕ) (duration : ℕ) (e : DirectorEvent) : Type 0 where
  pub starts : e.start < duration + 500000
  pub ends : e.end ≤ duration
  pub lasts : (e.start < e.end) ⊎ (duration ≤ e.start)
  pub speaks : (says e.dialogue && not (names_someone e.speaker)) ≡ false
  pub knows : is_known cast e.speaker ≡ true
  pub acts : ((e.action ≈ "") && not (says e.dialogue)) ≡ false
  pub leaves : All (λ i. among i cast ≡ true) e.exits

abbrev Read : List ℕ → ℕ → ℕ → List Problem × List DirectorEvent → Type 0
Read cast duration n x = All (IsEvent cast duration) x.1 × ((length x.1 ≡ n) ⊎ (1 ≤ length x.0))

exits_from-known :
    (cast : List ℕ) (index : ℕ) (seen : List ℕ) (raw : List (Option ℕ))
    → All (λ i. among i cast ≡ true) seen
    → All (λ i. among i cast ≡ true) (exits_from cast index seen raw).1
unfolding exits_from
exits_from-known cast index seen [] h = h
exits_from-known cast index seen (none ∷ raw) h = exits_from-known cast index seen raw h
exits_from-known cast index seen (some i ∷ raw) h = elim (Bool-cases (among i cast)) [
  | inl k ↦ elim (Bool-cases (among i seen)) [
    | inl s ↦ rw (k, s, exits_from) (exits_from-known cast index seen raw h)
    | inr s ↦
        rw (k, s, exits_from)
          (exits_from-known cast index (seen ++ (i ∷ [])) raw
            (All-append (λ j. among j cast ≡ true) seen (i ∷ []) h (k, tt)))
  ]
  | inr k ↦ rw (k, exits_from) (exits_from-known cast index seen raw h)
]

parse_exits-known :
    (cast : List ℕ) (index : ℕ) (raw : RawExits)
    → All (λ i. among i cast ≡ true) (parse_exits cast index raw).1
unfolding parse_exits
parse_exits-known cast index absent = tt
parse_exits-known cast index not_a_list = tt
parse_exits-known cast index (names raw) = exits_from-known cast index [] raw tt

reported : (problems : List Problem) (p : Problem) → 1 ≤ length (problems ++ (p ∷ []))
reported problems p = let n = length-append problems (p ∷ []) in omega (arith, n)

guarded-Read :
    (cast : List ℕ) (duration index : ℕ) (problems : List Problem) (e : DirectorEvent)
    → e.start < duration + 500000
    → e.end ≤ duration
    → (e.start < e.end) ⊎ (duration ≤ e.start)
    → All (λ i. among i cast ≡ true) e.exits
    → Read cast duration 1 (guarded cast index problems e)
unfolding guarded
guarded-Read cast duration index problems e starts ends lasts leaves =
    elim (Bool-cases (says e.dialogue && not (names_someone e.speaker))) [
      | inl a ↦ rw (a, guarded) (tt, inr (reported problems _))
      | inr a ↦ elim (Bool-cases (is_known cast e.speaker)) [
        | inr k ↦ rw (a, k, guarded) (tt, inr (reported problems _))
        | inl k ↦ elim (Bool-cases ((e.action ≈ "") && not (says e.dialogue))) [
          | inl n ↦ rw (a, k, n, guarded) (tt, inr (reported problems _))
          | inr n ↦
              let event : IsEvent cast duration e = record {
                starts = starts;
                ends = ends;
                lasts = lasts;
                speaks = a;
                knows = k;
                acts = n;
                leaves = leaves;
              } in
              rw (a, k, n, guarded) ((event, tt), inl refl)
        ]
      ]
    ]

timed-Read :
    (cast : List ℕ) (duration index : ℕ) (raw : RawEvent) (start end : ℕ)
    → Read cast duration 1 (timed cast duration index raw start end)
unfolding timed
timed-Read cast duration index raw start end = elim (Bool-cases (leb end start)) [
  | inl a ↦ rw (a, timed) (tt, inr (omega arith))
  | inr a ↦ elim (Bool-cases (leb (duration + 500000) start)) [
    | inl b ↦ rw (a, b, timed) (tt, inr (omega arith))
    | inr b ↦
        rw (a, b, timed)
          (guarded-Read cast duration index (parse_exits cast index raw.exits).0
            (event_of duration raw start end (parse_exits cast index raw.exits).1)
            (ground (arith, b)) (omega arith) (ground (arith, a))
            (parse_exits-known cast index raw.exits))
  ]
]

entry-Read :
    (cast : List ℕ) (duration index : ℕ) (r : Option RawEvent)
    → Read cast duration 1 (entry cast duration index r)
entry-Read cast duration index none = (tt, inr (omega arith))
entry-Read cast duration index (some raw) = times raw.start raw.end
  where
    times :
        (start end : Timing) → Read cast duration 1 (with_times cast duration index raw start end)
    times (at start) (at end) = timed-Read cast duration index raw start end
    times (at start) infinite = timed-Read cast duration index raw start (max (suc start) duration)
    times (at start) negative = (tt, inr (omega arith))
    times (at start) nan = (tt, inr (omega arith))
    times (at start) unreadable = (tt, inr (omega arith))
    times infinite (at end) = (tt, inr (omega arith))
    times infinite infinite = (tt, inr (omega arith))
    times infinite negative = (tt, inr (omega arith))
    times infinite nan = (tt, inr (omega arith))
    times infinite unreadable = (tt, inr (omega arith))
    times negative (at end) = (tt, inr (omega arith))
    times negative infinite = (tt, inr (omega arith))
    times negative negative = (tt, inr (omega arith))
    times negative nan = (tt, inr (omega arith))
    times negative unreadable = (tt, inr (omega arith))
    times nan (at end) = (tt, inr (omega arith))
    times nan infinite = (tt, inr (omega arith))
    times nan negative = (tt, inr (omega arith))
    times nan nan = (tt, inr (omega arith))
    times nan unreadable = (tt, inr (omega arith))
    times unreadable end = (tt, inr (omega arith))

entries-Read :
    (cast : List ℕ) (duration index : ℕ) (raw : List (Option RawEvent))
    → Read cast duration (length raw) (entries cast duration index raw)
unfolding entries
entries-Read cast duration index [] = (tt, inl refl)
entries-Read cast duration index (r ∷ raw) =
    let first = entry-Read cast duration index r in
    let rest = entries-Read cast duration (suc index) raw in
    let problems =
      length-append (entry cast duration index r).0 (entries cast duration (suc index) raw).0 in
    let events =
      length-append (entry cast duration index r).1 (entries cast duration (suc index) raw).1 in
    (
      All-append (IsEvent cast duration) (entry cast duration index r).1
          (entries cast duration (suc index) raw).1 first.0 rest.0,
      ground (arith, first.1, rest.1, problems, events),
    )

no_inconsistencies :
    (problems : List Timeline.Problem) → length (inconsistencies problems) ≡ 0 → problems ≡ []
no_inconsistencies [] h = refl
no_inconsistencies (p ∷ problems) h = ground (arith, h)

-- A timeline that is read without a problem has one event for each that the planner wrote, of which
-- there are from 1 to 24, sorted by start and then by end, with departures that are consistent; each
-- event starts less than half a second after the length of the video and ends within it, after its
-- start if that is within the video; who speaks and who leaves is of the cast; a line has a speaker,
-- and an event without a line has an action.
pub parse_timeline-Sorted :
    (cast : List ℕ) (duration : ℕ) (raw : List (Option RawEvent))
    → (parse_timeline cast duration raw).0 ≡ []
    → All (IsEvent cast duration) (parse_timeline cast duration raw).1
      × Sorted (parse_timeline cast duration raw).1
      × (length (parse_timeline cast duration raw).1 ≡ length raw)
      × (1 ≤ length raw)
      × (length raw ≤ 24)
      × (check_exit_consistency (parse_timeline cast duration raw).1 ≡ [])
unfolding parse_timeline
parse_timeline-Sorted cast duration [] accepted = cc accepted
parse_timeline-Sorted cast duration (r ∷ raw) accepted =
    elim (Bool-cases (leb (length (r ∷ raw)) max_events)) [
      | inr many ↦ cc (
          sym (
            ap (λ (x : List Problem × List DirectorEvent). x.0)
              (if_false (leb (length (r ∷ raw)) max_events) _ _ many))
          ∙ accepted)
      | inl few ↦
          let events = (entries cast duration 1 (r ∷ raw)).1 in
          let problems = (entries cast duration 1 (r ∷ raw)).0 in
          let found = inconsistencies (check_exit_consistency (sort events)) in
          let none_found : problems ++ found ≡ [] =
            sym (
              ap (λ (x : List Problem × List DirectorEvent). x.0)
                (if_true (leb (length (r ∷ raw)) max_events) (problems ++ found, sort events)
                  (too_many_events ∷ [], []) few))
            ∙ accepted in
          let total : length problems + length found ≡ 0 =
            sym (length-append problems found) ∙ ap length none_found in
          let read = entries-Read cast duration 1 (r ∷ raw) in
          let same = length-sort events in
          let le = leb→le (length (r ∷ raw)) max_events few in
          let complete : length (sort events) ≡ length (r ∷ raw) =
            ground (arith, same, read.1, total) in
          rw (few, parse_timeline)
            (
              sort-All (IsEvent cast duration) events read.0,
              sort-Sorted events,
              complete,
              omega arith,
              le,
              no_inconsistencies (check_exit_consistency (sort events)) (omega (arith, total)),
            )
    ]
