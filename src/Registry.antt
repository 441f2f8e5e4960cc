-- ===== src/Registry.antt =====
-- apps/api/app/services/workflow_registry.py: the loaded definitions and the validation of a
-- request. What YAML and pydantic make of a file is an argument of `load_registry`.
pub mod Validation
pub mod Loading
use Prim.Native.Nat.{Ordering}
use Prim.Native.String.{compare as compare_text}
use zolexai.Prelude.{
  ℕ, String, Bool, true, false, not, ◌&&◌, Option, none, some, List, [], ◌∷◌, ◌++◌, map, ◌≈◌,
  if◌then◌else◌, any, every, select, ltb, is_some,
}
use zolexai.Text.{strip, text_length}
use zolexai.Job.{Params, ErrorCode, unsupported_parameter, missing_required_input}
use zolexai.Workflow.{
  WorkflowDefinition, DurationMode, source, is_source, is_empty, mentions, roles, required_roles,
  check_internal_consistency,
}

pub record Registry : Type 0 where
  pub definitions : List WorkflowDefinition

unfoldable pub lookup : String → List WorkflowDefinition → Option WorkflowDefinition
lookup id [] = none
lookup id (d ∷ ds) = if d.id ≈ id then some d else lookup id ds

insert_text : String → List String → List String
insert_text s [] = s ∷ []
insert_text s (t ∷ ts) =
    let rest = insert_text s ts in
    elim (compare_text s t) [ Ordering.gt ↦ t ∷ rest | _ ↦ s ∷ t ∷ ts ]

-- `sorted`
unfoldable pub sort_texts : List String → List String
unfolding insert_text
sort_texts [] = []
sort_texts (t ∷ ts) = insert_text t (sort_texts ts)

abbrev pub display_order : List String
display_order =
    "text-to-video" ∷ "image-to-video" ∷ "video-to-video" ∷ "extend-video" ∷ "music" ∷ "music-video"
    ∷ []

abbrev pub keys : List WorkflowDefinition → List String
keys ds = map (λ d. d.id) ds

-- The ids in display order, then the others sorted.
unfoldable pub ids : Registry → List String
unfolding sort_texts
ids r =
    let shown = select (λ w. mentions w (keys r.definitions)) display_order in
    shown ++ sort_texts (select (λ w. not (mentions w shown)) (keys r.definitions))

unfoldable pub get : Registry → String → Option WorkflowDefinition
unfolding lookup
get r id = lookup id r.definitions

unfoldable pub contains : Registry → String → Bool
unfolding get
contains r id = is_some (get r id)

runs_on : Registry → List String → String → Bool
unfolding get
runs_on r wanted id = elim (get r id) [
  | none ↦ false
  | some d ↦ mentions d.execution.runtime wanted
]

unfoldable pub ids_for_runtimes : Registry → List String → List String
unfolding runs_on ids
ids_for_runtimes r wanted = select (runs_on r wanted) (ids r)

-- One entry of the list that a rejection carries; what names a field of `inputs` is told apart.
pub data Problem : Type 0 where
  prompt_required prompt_too_long : Problem
  duration_not_taken duration_required duration_unsupported : Problem
  aspect_ratio_unsupported aspect_ratio_not_taken : Problem
  quality_unsupported quality_not_taken : Problem
  lyrics_not_taken lyrics_language_not_taken : Problem
  prompt_mode_not_offered dialogue_language_not_taken prompt_mode_unsupported : Problem
  dialogue_language_without_director dialogue_language_unsupported : Problem
  inputs_missing inputs_unknown : List String → Problem

abbrev pub is_inputs : Problem → Bool
is_inputs (inputs_missing ids) = true
is_inputs (inputs_unknown ids) = true
is_inputs _ = false

-- `if test: problems.append(p)`
abbrev pub report : Bool → Problem → List Problem
report test p = if test then p ∷ [] else []

unfoldable pub prompt_problems : WorkflowDefinition → String → List Problem
prompt_problems d prompt =
    let cleaned = strip prompt in
    if d.prompt.required && (cleaned ≈ "")
    then prompt_required ∷ []
    else report (ltb d.prompt.max_length (text_length cleaned)) prompt_too_long

unfoldable pub duration_problems : DurationMode → List String → Option String → List Problem
duration_problems mode supported none = report (not (is_source mode)) duration_required
duration_problems mode supported (some t) =
    if is_source mode
    then duration_not_taken ∷ []
    else report (not (mentions t supported)) duration_unsupported

-- A choice from a list of the definition: required if the list offers any, refused if not.
unfoldable pub choice_problems : Problem → Problem → List String → Option String → List Problem
choice_problems unsupported not_taken [] chosen = report (is_some chosen) not_taken
choice_problems unsupported not_taken (s ∷ ss) none = unsupported ∷ []
choice_problems unsupported not_taken (s ∷ ss) (some t) =
    report (not (mentions t (s ∷ ss))) unsupported

unfoldable pub lyrics_problems : Bool → Option String → Option String → List Problem
lyrics_problems taken lyrics language =
    if taken
    then []
    else report (is_some lyrics) lyrics_not_taken
      ++ report (is_some language) lyrics_language_not_taken

abbrev pub prompt_modes : List String
prompt_modes = "standard" ∷ "director" ∷ []

abbrev pub dialogue_languages : List String
dialogue_languages = "auto" ∷ "english" ∷ "spanish" ∷ "french" ∷ "german" ∷ "russian" ∷ []

abbrev pub is_director : Option String → Bool
is_director none = false
is_director (some m) = m ≈ "director"

unknown_mode : Option String → Bool
unknown_mode none = false
unknown_mode (some m) = not (mentions m prompt_modes)

dialogue_problems : Option String → Option String → List Problem
dialogue_problems mode none = []
dialogue_problems mode (some l) =
    if not (is_director mode)
    then dialogue_language_without_director ∷ []
    else report (not (mentions l dialogue_languages)) dialogue_language_unsupported

unfoldable pub mode_problems : Bool → Option String → Option String → List Problem
unfolding unknown_mode dialogue_problems
mode_problems offered mode language =
    if offered
    then report (unknown_mode mode) prompt_mode_unsupported ++ dialogue_problems mode language
    else report (is_some mode) prompt_mode_not_offered
      ++ report (is_some language) dialogue_language_not_taken

abbrev pub missing_roles : WorkflowDefinition → List String → List String
missing_roles d given = select (λ r. not (mentions r given)) (required_roles d)

abbrev pub unknown_roles : WorkflowDefinition → List String → List String
unknown_roles d given = select (λ r. not (mentions r (roles d.inputs))) given

unfoldable pub input_problems : WorkflowDefinition → List String → List Problem
unfolding sort_texts
input_problems d given =
    report (not (is_empty (missing_roles d given))) (inputs_missing (missing_roles d given))
    ++ report (not (is_empty (unknown_roles d given)))
        (inputs_unknown (sort_texts (unknown_roles d given)))

pub data Verdict : Type 0 where
  valid : WorkflowDefinition → Verdict
  unsupported_workflow : Verdict
  invalid : ErrorCode → List Problem → Verdict

unfoldable pub problems : WorkflowDefinition → String → Params → List String → List Problem
problems d prompt params given =
    prompt_problems d prompt
    ++ (duration_problems d.duration_mode d.supported_durations params.duration
        ++ (choice_problems aspect_ratio_unsupported aspect_ratio_not_taken
              d.supported_aspect_ratios params.aspect_ratio
            ++ (choice_problems quality_unsupported quality_not_taken d.supported_quality_levels
                  params.quality
                ++ (lyrics_problems d.settings.lyrics params.lyrics params.lyrics_language
                    ++ (mode_problems d.settings.prompt_modes params.prompt_mode
                          params.dialogue_language
                        ++ input_problems d given)))))

abbrev pub verdict : WorkflowDefinition → List Problem → Verdict
verdict d [] = valid d
verdict d (p ∷ ps) =
    invalid
      (if every (λ q. not (is_inputs q)) (p ∷ ps)
        then unsupported_parameter
        else missing_required_input)
      (p ∷ ps)

unfoldable pub validate_request : Registry → String → String → Params → List String → Verdict
validate_request r id prompt params given = elim (get r id) [
  | none ↦ unsupported_workflow
  | some d ↦ verdict d (problems d prompt params given)
]

pub data LoadError : Type 0 where
  no_definitions : LoadError
  not_readable inconsistent id_differs duplicate : String → LoadError

pub data Loaded : Type 0 where
  loaded : Registry → Loaded
  failed_to_load : LoadError → Loaded

-- A file by its stem, and what parsing makes of it: nothing, or a definition still to be checked.
load_each : List WorkflowDefinition → List (String × Option WorkflowDefinition) → Loaded
load_each done [] = loaded (record { definitions = done })
load_each done ((stem, none) ∷ files) = failed_to_load (not_readable stem)
load_each done ((stem, some d) ∷ files) =
    let rest = load_each (done ++ d ∷ []) files in
    if is_some (check_internal_consistency d)
    then failed_to_load (inconsistent stem)
    else if not (d.id ≈ stem)
    then failed_to_load (id_differs stem)
    else if mentions d.id (keys done)
    then failed_to_load (duplicate d.id)
    else rest

unfoldable pub load_registry : List (String × Option WorkflowDefinition) → Loaded
unfolding load_each
load_registry [] = failed_to_load no_definitions
load_registry (f ∷ files) = load_each [] (f ∷ files)
