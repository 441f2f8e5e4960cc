-- ===== src/Examples/Scenes.antt =====
-- A scene of two characters, of whom one leaves.
use zolexai.Prelude.{
  ℕ, ◌*◌, String, ◌≡◌, refl, true, inl, inr, none, some, List, [], ◌∷◌, map, arith,
}
use zolexai.Text.{codes, same_codes}
use zolexai.Timeline.{
  DirectorEvent, among, present_ids, check_exit_consistency, speaks_after, exits_twice,
}
use zolexai.Timeline.Presence.{speaker-IsPresent}
use zolexai.Speech.{enforce_speech_budget, trim_budget, required_quotes, words_of, silenced, spoken}
use zolexai.Speech.Trimming.{Trims, Fits, enforce_speech_budget-Trims}

abbrev seconds : ℕ → ℕ
seconds n = n * 1000000

abbrev line : ℕ → ℕ → ℕ → String → DirectorEvent
line from to who text = record {
  start = seconds from;
  end = seconds to;
  action = "turns";
  camera = "";
  speaker = some who;
  dialogue = some text;
  delivery = none;
  exits = [];
}

abbrev leaving : DirectorEvent
leaving = record (line 4 6 1 "Goodbye") { dialogue = none; speaker = none; exits = 1 ∷ [] }

abbrev scene : List DirectorEvent
scene =
    line 0 2 1 "I will go"
    ∷ line 2 4 2 "Please don't leave me"
    ∷ leaving
    ∷ line 6 8 2 "So he is gone"
    ∷ []

speaker-IsPresent_example : among 2 (present_ids scene (1 ∷ 2 ∷ []) (seconds 6)) ≡ true
unfolding check_exit_consistency
speaker-IsPresent_example =
    speaker-IsPresent scene (1 ∷ 2 ∷ []) (line 6 8 2 "So he is gone") 2
      (
        omega arith,
        omega arith,
        (omega arith, omega arith, (omega arith, omega arith, (omega arith, omega arith, tt))),
      )
      refl (inr (inr (inr (inl refl)))) refl refl

gone : present_ids scene (1 ∷ 2 ∷ []) (seconds 6) ≡ 2 ∷ []
unfolding present_ids
gone = refl

ghost :
    check_exit_consistency (leaving ∷ line 6 8 1 "I am back" ∷ leaving ∷ [])
    ≡ speaks_after 2 1 ∷ exits_twice 1 ∷ []
unfolding check_exit_consistency
ghost = refl

abbrev idea : List ℕ
idea = codes "He goes. She says \"please don't leave me\"."

trimmed :
    enforce_speech_budget (seconds 5) idea scene
    ≡ silenced (line 0 2 1 "I will go")
      ∷ line 2 4 2 "Please don't leave me"
      ∷ leaving
      ∷ silenced (line 6 8 2 "So he is gone")
      ∷ []
unfolding enforce_speech_budget spoken same_codes
trimmed = refl

enforce_speech_budget-Trims_example :
    Trims
      (map words_of (required_quotes idea))
      (trim_budget (seconds 5))
      0
      scene
      (enforce_speech_budget (seconds 5) idea scene)
    × Fits
        (map words_of (required_quotes idea))
        (trim_budget (seconds 5))
        0
        (enforce_speech_budget (seconds 5) idea scene)
enforce_speech_budget-Trims_example = enforce_speech_budget-Trims (seconds 5) idea scene
