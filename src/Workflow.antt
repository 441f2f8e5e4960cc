-- ===== src/Workflow.antt =====
-- apps/api/app/schemas/workflow.py: what a workflow definition declares, and when it is coherent.
pub mod Coherence
use zolexai.Prelude.{
  ℕ, String, Bool, true, false, not, ◌&&◌, ◌||◌, Option, none, some, List, [], ◌∷◌, map, ◌≈◌,
  if◌then◌else◌, any, every, select, ltb,
}
use zolexai.Text.{codes, without_suffix, all_digits, digits_value}
use zolexai.Job.{AssetKind, video, image, audio}

pub data DurationMode : Type 0 where
  fixed source minutes : DurationMode

pub record PromptSpec : Type 0 where
  pub required : Bool
  pub placeholder : String
  pub max_length : ℕ

pub record InputSpec : Type 0 where
  pub role : String
  pub kind : AssetKind
  pub required : Bool
  pub label : String
  pub drop_hint : String
  pub help : String
  pub accept : List String
  pub max_size_mb : ℕ

pub record SettingsSpec : Type 0 where
  pub quality : Bool
  pub motion_strength : Bool
  pub prompt_adherence : Bool
  pub seed : Bool
  pub lyrics : Bool
  pub prompt_modes : Bool

pub record CapabilitiesSpec : Type 0 where
  pub download : Bool
  pub extend : Bool
  pub reuse_settings : Bool
  pub variation : Bool

pub record UiSpec : Type 0 where
  pub icon : String
  pub thumb : String

-- Private to the backend and the workers.
pub record ExecutionSpec : Type 0 where
  pub runtime : String
  pub output_content_type : Option String
  pub output_kind : Option AssetKind
  pub timeout_seconds : Option ℕ

-- The customer-facing shape.
pub record WorkflowPublic : Type 0 where
  pub id : String
  pub version : String
  pub name : String
  pub category : AssetKind
  pub output_type : AssetKind
  pub description : String
  pub short_description : String
  pub marketing_description : String
  pub prompt : PromptSpec
  pub inputs : List InputSpec
  pub duration_mode : DurationMode
  pub supported_durations : List String
  pub supported_aspect_ratios : List String
  pub supported_quality_levels : List String
  pub settings : SettingsSpec
  pub capabilities : CapabilitiesSpec
  pub ui : UiSpec

pub record WorkflowDefinition : Type 0 where
  pub public : WorkflowPublic
  pub open public use *
  pub execution : ExecutionSpec

-- `to_public` projects the fields of the public shape, which the definition holds as one part.
unfoldable pub to_public : WorkflowDefinition → WorkflowPublic
to_public d = d.public

abbrev pub is_empty {ℓ} : {A : Type ℓ} → List A → Bool
is_empty [] = true
is_empty (x ∷ xs) = false

abbrev pub mentions : String → List String → Bool
mentions s texts = any (λ t. t ≈ s) texts

abbrev pub roles : List InputSpec → List String
roles specs = map (λ s. s.role) specs

-- `len(roles) == len(set(roles))`
unfoldable pub all_distinct : List String → Bool
all_distinct [] = true
all_distinct (r ∷ rs) = not (mentions r rs) && all_distinct rs

unfoldable pub is_duration : ℕ → String → Bool
is_duration suffix value = elim (without_suffix suffix (codes value)) [
  | none ↦ false
  | some body ↦ all_digits body && ltb 0 (digits_value 0 body)
]

abbrev pub is_audio : AssetKind → Bool
is_audio audio = true
is_audio _ = false

-- `spec.kind in ("video", "audio")`
abbrev pub has_length : AssetKind → Bool
has_length image = false
has_length _ = true

abbrev pub is_source : DurationMode → Bool
is_source source = true
is_source _ = false

-- The suffixes of a mode: minutes only, or seconds and minutes.
abbrev pub fits_mode : DurationMode → String → Bool
fits_mode minutes value = is_duration b'm' value
fits_mode _ value = is_duration b's' value || is_duration b'm' value

pub data Incoherence : Type 0 where
  roles_repeated quality_without_levels levels_without_quality : Incoherence
  audio_with_aspect_ratios audio_with_extend nothing_required : Incoherence
  source_with_durations source_without_media durations_missing : Incoherence
  bad_durations : List String → Incoherence

pub check_durations : DurationMode → List String → List InputSpec → Option Incoherence
check_durations mode durations inputs =
    if is_source mode
    then (if not (is_empty durations)
        then some source_with_durations
        else if not (any (λ s. s.required && has_length s.kind) inputs)
        then some source_without_media
        else none)
    else (if is_empty durations
        then some durations_missing
        else if not (every (fits_mode mode) durations)
        then some (bad_durations (select (λ v. not (fits_mode mode v)) durations))
        else none)

-- The model validator; `none` is a definition that loads.
unfoldable pub check_internal_consistency : WorkflowDefinition → Option Incoherence
unfolding check_durations
check_internal_consistency d =
    if not (all_distinct (roles d.inputs))
    then some roles_repeated
    else if d.settings.quality && is_empty d.supported_quality_levels
    then some quality_without_levels
    else if not d.settings.quality && not (is_empty d.supported_quality_levels)
    then some levels_without_quality
    else if is_audio d.output_type && not (is_empty d.supported_aspect_ratios)
    then some audio_with_aspect_ratios
    else if is_audio d.output_type && d.capabilities.extend
    then some audio_with_extend
    else if not d.prompt.required && is_empty d.inputs
    then some nothing_required
    else check_durations d.duration_mode d.supported_durations d.inputs

unfoldable pub input_for : String → List InputSpec → Option InputSpec
input_for role [] = none
input_for role (s ∷ ss) = if s.role ≈ role then some s else input_for role ss

abbrev pub required_roles : WorkflowDefinition → List String
required_roles d = roles (select (λ s. s.required) d.inputs)
