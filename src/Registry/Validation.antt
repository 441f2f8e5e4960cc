-- ===== src/Registry/Validation.antt =====
-- `validate_request` accepts exactly the requests that satisfy the definition.
use zolexai.Prelude.{
  String, ◌≡◌, sym, ap, ◌↔◌, ◌≢◌, ◌≤◌, Bool, true, false, Option, none, some, List, [], ◌∷◌, ◌++◌,
  arith, select, All, Some, ≈_iff, not,
}
use mathlib.Core.Path.{subst}
use zolexai.Text.{strip, text_length}
use zolexai.Job.{Params}
use zolexai.Workflow.{
  WorkflowDefinition, DurationMode, source, mentions, roles, required_roles, is_empty,
}
use zolexai.Registry.{
  Registry, Problem, Verdict, valid, get, problems, validate_request, verdict, unsupported_workflow,
  aspect_ratio_unsupported, aspect_ratio_not_taken, quality_unsupported, quality_not_taken,
  prompt_problems, report, prompt_mode_unsupported, duration_problems, choice_problems,
  lyrics_problems, mode_problems, dialogue_problems, input_problems, unknown_mode, prompt_modes,
  dialogue_languages,
}

-- The text is one of the list.
abbrev pub OneOf : String → List String → Type 0
OneOf t ts = Some (λ s. s ≡ t) ts

abbrev pub Offered : List String → Option String → Type 0
Offered [] chosen = chosen ≡ none
Offered ts none = ⊥
Offered ts (some t) = OneOf t ts

abbrev pub DurationFits : DurationMode → List String → Option String → Type 0
DurationFits source supported chosen = chosen ≡ none
DurationFits mode supported none = ⊥
DurationFits mode supported (some t) = OneOf t supported

abbrev pub LanguageFits : Option String → Option String → Type 0
LanguageFits mode none = Unit
LanguageFits mode (some l) = (mode ≡ some "director") × OneOf l dialogue_languages

abbrev pub ModeFits : Option String → Type 0
ModeFits none = Unit
ModeFits (some m) = OneOf m prompt_modes

-- What a definition asks of the prompt, the parameters and the roles of a request.
pub record Satisfies (d : WorkflowDefinition) (prompt : String) (params : Params)
    (given : List String) : Type 0 where
  pub prompt_given : d.prompt.required ≡ true → strip prompt ≢ ""
  pub prompt_short : text_length (strip prompt) ≤ d.prompt.max_length
  pub duration : DurationFits d.duration_mode d.supported_durations params.duration
  pub aspect_ratio : Offered d.supported_aspect_ratios params.aspect_ratio
  pub quality : Offered d.supported_quality_levels params.quality
  pub lyrics : d.settings.lyrics ≡ false → (params.lyrics ≡ none) × (params.lyrics_language ≡ none)
  pub modes :
      d.settings.prompt_modes ≡ false
      → (params.prompt_mode ≡ none) × (params.dialogue_language ≡ none)
  pub mode : d.settings.prompt_modes ≡ true → ModeFits params.prompt_mode
  pub language :
      d.settings.prompt_modes ≡ true → LanguageFits params.prompt_mode params.dialogue_language
  pub required_given : All (λ r. OneOf r given) (required_roles d)
  pub given_known : All (λ r. OneOf r (roles d.inputs)) given

mentions-OneOf : (s : String) (ts : List String) → (mentions s ts ≡ true) ↔ OneOf s ts
mentions-OneOf s [] = ground arith
mentions-OneOf s (t ∷ ts) = ground (arith, mentions-OneOf s ts, ≈_iff t s)

select-nil :
    (ts us : List String)
    → (is_empty (select (λ r. not (mentions r us)) ts) ≡ true) ↔ All (λ r. OneOf r us) ts
select-nil [] us = ground arith
select-nil (t ∷ ts) us = ground (arith, select-nil ts us, mentions-OneOf t us)

prompt_problems-nil :
    (d : WorkflowDefinition) (prompt : String)
    → (prompt_problems d prompt ≡ []) ↔ (
        (d.prompt.required ≡ true → strip prompt ≢ "")
        × (text_length (strip prompt) ≤ d.prompt.max_length))
unfolding prompt_problems
prompt_problems-nil d prompt = ground (arith, ≈_iff (strip prompt) "")

duration_problems-nil :
    (mode : DurationMode) (supported : List String) (chosen : Option String)
    → (duration_problems mode supported chosen ≡ []) ↔ DurationFits mode supported chosen
unfolding duration_problems
duration_problems-nil source supported none = ground arith
duration_problems-nil source supported (some t) = ground arith
duration_problems-nil mode supported none = ground arith
duration_problems-nil mode supported (some t) = ground (arith, mentions-OneOf t supported)

choice_problems-nil :
    (p q : Problem) (offered : List String) (chosen : Option String)
    → (choice_problems p q offered chosen ≡ []) ↔ Offered offered chosen
unfolding choice_problems
choice_problems-nil p q [] chosen = ground arith
choice_problems-nil p q (s ∷ ss) none = ground arith
choice_problems-nil p q (s ∷ ss) (some t) = ground (arith, mentions-OneOf t (s ∷ ss))

lyrics_problems-nil :
    (taken : Bool) (lyrics language : Option String)
    → (lyrics_problems taken lyrics language ≡ [])
      ↔ (taken ≡ false → (lyrics ≡ none) × (language ≡ none))
unfolding lyrics_problems
lyrics_problems-nil taken lyrics language = ground arith

unknown_mode-ModeFits : (mode : Option String) → (unknown_mode mode ≡ false) ↔ ModeFits mode
unfolding unknown_mode
unknown_mode-ModeFits none = ground arith
unknown_mode-ModeFits (some m) = ground (arith, mentions-OneOf m prompt_modes)

dialogue_problems-nil :
    (mode language : Option String)
    → (dialogue_problems mode language ≡ []) ↔ LanguageFits mode language
unfolding dialogue_problems
dialogue_problems-nil mode none = ground arith
dialogue_problems-nil none (some l) = ground arith
dialogue_problems-nil (some m) (some l) =
    ground (arith, mentions-OneOf l dialogue_languages, ≈_iff m "director")

append-eq-nil : (ps qs : List Problem) → (ps ++ qs ≡ []) ↔ ((ps ≡ []) × (qs ≡ []))
append-eq-nil [] qs = ground arith
append-eq-nil (p ∷ ps) qs = ground arith

mode_problems-nil :
    (offered : Bool) (mode language : Option String)
    → (mode_problems offered mode language ≡ []) ↔ (
        (offered ≡ false → (mode ≡ none) × (language ≡ none))
        × (offered ≡ true → ModeFits mode)
        × (offered ≡ true → LanguageFits mode language))
unfolding mode_problems
mode_problems-nil true mode language = ground (
  arith,
  append-eq-nil (report (unknown_mode mode) prompt_mode_unsupported)
      (dialogue_problems mode language),
  unknown_mode-ModeFits mode,
  dialogue_problems-nil mode language,
)
mode_problems-nil false mode language = ground arith

input_problems-nil :
    (d : WorkflowDefinition) (given : List String)
    → (input_problems d given ≡ [])
      ↔ (All (λ r. OneOf r given) (required_roles d) × All (λ r. OneOf r (roles d.inputs)) given)
unfolding input_problems
input_problems-nil d given =
    ground (arith, select-nil (required_roles d) given, select-nil given (roles d.inputs))

-- Nothing is reported exactly when the request satisfies the definition.
problems-nil :
    (d : WorkflowDefinition) (prompt : String) (params : Params) (given : List String)
    → (problems d prompt params given ≡ []) ↔ Satisfies d prompt params given
unfolding problems
problems-nil d prompt params given = ground (
  arith,
  append-eq-nil (prompt_problems d prompt) (rest₁),
  append-eq-nil (duration_problems d.duration_mode d.supported_durations params.duration) rest₂,
  append-eq-nil
      (choice_problems aspect_ratio_unsupported aspect_ratio_not_taken d.supported_aspect_ratios
        params.aspect_ratio)
      rest₃,
  append-eq-nil
      (choice_problems quality_unsupported quality_not_taken d.supported_quality_levels
        params.quality)
      rest₄,
  append-eq-nil (lyrics_problems d.settings.lyrics params.lyrics params.lyrics_language) rest₅,
  append-eq-nil (mode_problems d.settings.prompt_modes params.prompt_mode params.dialogue_language)
      (input_problems d given),
  prompt_problems-nil d prompt,
  duration_problems-nil d.duration_mode d.supported_durations params.duration,
  choice_problems-nil aspect_ratio_unsupported aspect_ratio_not_taken d.supported_aspect_ratios
      params.aspect_ratio,
  choice_problems-nil quality_unsupported quality_not_taken d.supported_quality_levels
      params.quality,
  lyrics_problems-nil d.settings.lyrics params.lyrics params.lyrics_language,
  mode_problems-nil d.settings.prompt_modes params.prompt_mode params.dialogue_language,
  input_problems-nil d given,
)
  where
    rest₅ : List Problem
    rest₅ =
        mode_problems d.settings.prompt_modes params.prompt_mode params.dialogue_language
        ++ input_problems d given

    rest₄ : List Problem
    rest₄ = lyrics_problems d.settings.lyrics params.lyrics params.lyrics_language ++ rest₅

    rest₃ : List Problem
    rest₃ =
        choice_problems quality_unsupported quality_not_taken d.supported_quality_levels
          params.quality
        ++ rest₄

    rest₂ : List Problem
    rest₂ =
        choice_problems aspect_ratio_unsupported aspect_ratio_not_taken d.supported_aspect_ratios
          params.aspect_ratio
        ++ rest₃

    rest₁ : List Problem
    rest₁ = duration_problems d.duration_mode d.supported_durations params.duration ++ rest₂

verdict-valid :
    (e d : WorkflowDefinition) (ps : List Problem)
    → (verdict e ps ≡ valid d) ↔ ((e ≡ d) × (ps ≡ []))
verdict-valid e d [] = ground arith
verdict-valid e d (p ∷ ps) = ground arith

module _ (prompt : String) (params : Params) (given : List String) (d : WorkflowDefinition) where
  abbrev judge : Option WorkflowDefinition → Verdict
  judge none = unsupported_workflow
  judge (some e) = verdict e (problems e prompt params given)

  abbrev Meets : WorkflowDefinition → Type 0
  Meets e = Satisfies e prompt params given

  judge_iff :
      (found : Option WorkflowDefinition) → (judge found ≡ valid d) ↔ ((found ≡ some d) × Meets d)
  judge_iff none = ground arith
  judge_iff (some e) = (
    λ h.
        let (same, nothing) = (verdict-valid e d _).0 h in
        (ap some same, subst Meets same ((problems-nil e prompt params given).0 nothing)),
    λ h.
        let same : e ≡ d = cc (h.0) in
        (verdict-valid e d _).1
          (same, (problems-nil e prompt params given).1 (subst Meets (sym same) h.1)),
  )

-- A request is accepted, with a definition, exactly when the registry has that definition under the
-- workflow id and the request satisfies it: prompt, duration, aspect ratio, quality, lyrics, prompt
-- mode, dialogue language and input roles.
pub validate_request_iff :
    (r : Registry) (id prompt : String) (params : Params) (given : List String)
    (d : WorkflowDefinition)
    → (validate_request r id prompt params given ≡ valid d)
      ↔ ((get r id ≡ some d) × Satisfies d prompt params given)
unfolding validate_request
validate_request_iff r id prompt params given d = judge_iff prompt params given d (get r id)
