-- ===== src/Speech/Trimming.antt =====
-- Which lines the speech budget takes out.
use zolexai.Prelude.{
  ◌⊎◌, inl, inr, ℕ, ◌+◌, ◌≤◌, ◌<◌, ◌≡◌, refl, ap, ◌∙◌, true, false, Bool-cases, List, [], ◌∷◌, map,
  arith, leb, leb→le, All, if_true, if_false,
}
use zolexai.Timeline.{DirectorEvent}
use zolexai.Speech.{
  spoken, spoken_words, is_cuttable, silenced, silence, trim, trim_budget, enforce_speech_budget,
  required_quotes, words_of,
}

abbrev pub Quotes : Type 0
Quotes = List (List (List ℕ))

-- No line of the event could be taken out.
abbrev pub IsBare : Quotes → DirectorEvent → Type 0
IsBare quotes e = is_cuttable quotes e.dialogue ≡ false

-- Every event is as it was, or its line was taken out, which was not the user's, when none was left
-- to take out later on and the plan was still above the budget.
abbrev pub Trims : Quotes → ℕ → ℕ → List DirectorEvent → List DirectorEvent → Type 0
Trims quotes budget before [] [] = Unit
Trims quotes budget before [] (f ∷ fs) = ⊥
Trims quotes budget before (e ∷ es) [] = ⊥
Trims quotes budget before (e ∷ es) (f ∷ fs) =
    ((f ≡ e)
      ⊎ ((f ≡ silenced e)
          × (is_cuttable quotes e.dialogue ≡ true)
          × All (IsBare quotes) fs
          × (budget < before + spoken e.dialogue + spoken_words fs)))
    × Trims quotes budget (before + spoken e.dialogue) es fs

abbrev pub Fits : Quotes → ℕ → ℕ → List DirectorEvent → Type 0
Fits quotes budget before fs = (before + spoken_words fs ≤ budget) ⊎ All (IsBare quotes) fs

cut :
    (quotes : Quotes) (e : DirectorEvent)
    → is_cuttable quotes e.dialogue ≡ true
    → silence quotes e ≡ silenced e
cut quotes e c = if_true (is_cuttable quotes e.dialogue) (silenced e) e c

uncut :
    (quotes : Quotes) (e : DirectorEvent)
    → is_cuttable quotes e.dialogue ≡ false
    → silence quotes e ≡ e
uncut quotes e c = if_false (is_cuttable quotes e.dialogue) (silenced e) e c

silence-IsBare : (quotes : Quotes) (e : DirectorEvent) → IsBare quotes (silence quotes e)
unfolding is_cuttable
silence-IsBare quotes e = elim (Bool-cases (is_cuttable quotes e.dialogue)) [
  | inl c ↦ ap (λ (f : DirectorEvent). is_cuttable quotes f.dialogue) (cut quotes e c)
  | inr c ↦ ap (λ (f : DirectorEvent). is_cuttable quotes f.dialogue) (uncut quotes e c) ∙ c
]

remaining-IsBare :
    (quotes : Quotes) (budget before : ℕ) (fs : List DirectorEvent)
    → leb (before + spoken_words fs) budget ≡ false
    → Fits quotes budget before fs
    → All (IsBare quotes) fs
remaining-IsBare quotes budget before fs over (inl fits) = ground (arith, over, fits)
remaining-IsBare quotes budget before fs over (inr bare) = bare

module _ (quotes : Quotes) (budget : ℕ) where
  trim-Fits :
      (before : ℕ) (es : List DirectorEvent)
      → Fits quotes budget before (trim quotes budget before es)
  unfolding trim
  trim-Fits before [] = inr tt
  trim-Fits before (e ∷ es) =
      let words = before + spoken e.dialogue in
      let later = trim quotes budget words es in
      let ih = trim-Fits words es in
      elim (Bool-cases (leb (words + spoken_words later) budget)) [
        | inl fits ↦
            let le = leb→le (words + spoken_words later) budget fits in
            rw (fits, trim) (inl (omega (arith, le)))
        | inr over ↦
            rw (over, trim)
              (inr (silence-IsBare quotes e, remaining-IsBare quotes budget words later over ih))
      ]

  trim-Trims :
      (before : ℕ) (es : List DirectorEvent)
      → Trims quotes budget before es (trim quotes budget before es)
  unfolding trim
  trim-Trims before [] = tt
  trim-Trims before (e ∷ es) =
      let words = before + spoken e.dialogue in
      let later = trim quotes budget words es in
      let ih = trim-Trims words es in
      elim (Bool-cases (leb (words + spoken_words later) budget)) [
        | inl fits ↦ rw (fits, trim) (inl refl, ih)
        | inr over ↦
            let bare = remaining-IsBare quotes budget words later over (trim-Fits words es) in
            elim (Bool-cases (is_cuttable quotes e.dialogue)) [
              | inl c ↦ rw (over, trim) (inr (cut quotes e c, c, bare, ground (arith, over)), ih)
              | inr c ↦ rw (over, trim) (inl (uncut quotes e c), ih)
            ]
      ]

Trims-same :
    (quotes : Quotes) (budget before : ℕ) (es : List DirectorEvent)
    → Trims quotes budget before es es
Trims-same quotes budget before [] = tt
Trims-same quotes budget before (e ∷ es) =
    (inl refl, Trims-same quotes budget (before + spoken e.dialogue) es)

-- The speech budget takes lines out of a timeline from its end: every event is as it was, or it lost
-- a line that is not the user's when no such line was left after it and the plan was still above
-- its budget. The result has at most the budgeted words, or only lines of the user.
pub enforce_speech_budget-Trims :
    (duration : ℕ) (idea : List ℕ) (timeline : List DirectorEvent)
    → Trims
        (map words_of (required_quotes idea))
        (trim_budget duration)
        0
        timeline
        (enforce_speech_budget duration idea timeline)
      × Fits
          (map words_of (required_quotes idea))
          (trim_budget duration)
          0
          (enforce_speech_budget duration idea timeline)
unfolding enforce_speech_budget
enforce_speech_budget-Trims duration idea timeline =
    let quotes = map words_of (required_quotes idea) in
    let budget = trim_budget duration in
    elim (Bool-cases (leb (spoken_words timeline) budget)) [
      | inl fits ↦
          let le : 0 + spoken_words timeline ≤ trim_budget duration =
            let le = leb→le (spoken_words timeline) budget fits in omega (arith, le) in
          rw (fits, enforce_speech_budget) (Trims-same quotes budget 0 timeline, inl le)
      | inr over ↦
          rw (over, enforce_speech_budget)
            (trim-Trims quotes budget 0 timeline, trim-Fits quotes budget 0 timeline)
    ]
