-- ===== src/Workflow/Coherence.antt =====
-- `check_internal_consistency` passes exactly the definitions that satisfy a list of conditions.
use zolexai.Prelude.{
  ◌≡◌, ◌↔◌, Bool, true, false, none, List, [], ◌∷◌, arith, any, every, All, ◌&&◌, String, Some, ◌≢◌,
  ≈_iff,
}
use zolexai.Job.{image, audio}
use zolexai.Workflow.{
  WorkflowDefinition, InputSpec, DurationMode, source, roles, all_distinct, check_durations,
  fits_mode, check_internal_consistency, has_length, mentions,
}

-- No text occurs twice.
abbrev pub Distinct : List String → Type 0
Distinct [] = Unit
Distinct (r ∷ rs) = (¬ Some (λ t. t ≡ r) rs) × Distinct rs

abbrev pub IsMedia : InputSpec → Type 0
IsMedia s = (s.required ≡ true) × (s.kind ≢ image)

-- What the lengths of a workflow have to be in its duration mode.
abbrev pub DurationsFit : DurationMode → List String → List InputSpec → Type 0
DurationsFit source durations inputs = (durations ≡ []) × Some IsMedia inputs
DurationsFit mode durations inputs = (durations ≢ []) × All (λ v. fits_mode mode v ≡ true) durations

pub record IsCoherent (d : WorkflowDefinition) : Type 0 where
  pub distinct : Distinct (roles d.inputs)
  pub levels_offered : d.settings.quality ≡ true → d.supported_quality_levels ≢ []
  pub levels_unoffered : d.settings.quality ≡ false → d.supported_quality_levels ≡ []
  pub no_audio_frame : d.output_type ≡ audio → d.supported_aspect_ratios ≡ []
  pub no_audio_extend : d.output_type ≡ audio → d.capabilities.extend ≡ false
  pub something_required : d.prompt.required ≡ false → d.inputs ≢ []
  pub durations : DurationsFit d.duration_mode d.supported_durations d.inputs

mentions-Some : (s : String) (ts : List String) → (mentions s ts ≡ true) ↔ Some (λ t. t ≡ s) ts
mentions-Some s [] = ground arith
mentions-Some s (t ∷ ts) = ground (arith, mentions-Some s ts, ≈_iff t s)

all_distinct-Distinct : (rs : List String) → (all_distinct rs ≡ true) ↔ Distinct rs
unfolding all_distinct
all_distinct-Distinct [] = ground arith
all_distinct-Distinct (r ∷ rs) = ground (arith, all_distinct-Distinct rs, mentions-Some r rs)

IsMedia-Some :
    (ss : List InputSpec) → (any (λ s. s.required && has_length s.kind) ss ≡ true) ↔ Some IsMedia ss
IsMedia-Some [] = ground arith
IsMedia-Some (s ∷ ss) = ground (arith, IsMedia-Some ss)

every-All : (p : String → Bool) (ts : List String) → (every p ts ≡ true) ↔ All (λ t. p t ≡ true) ts
every-All p [] = ground arith
every-All p (t ∷ ts) = ground (arith, every-All p ts)

check_durations-DurationsFit :
    (mode : DurationMode) (ds : List String) (ss : List InputSpec)
    → (check_durations mode ds ss ≡ none) ↔ DurationsFit mode ds ss
unfolding check_durations
check_durations-DurationsFit source [] ss = ground (arith, IsMedia-Some ss)
check_durations-DurationsFit source (d ∷ ds) ss = ground arith
check_durations-DurationsFit mode [] ss = ground arith
check_durations-DurationsFit mode (d ∷ ds) ss = ground (arith, every-All (fits_mode mode) (d ∷ ds))

-- A definition loads exactly when its roles are distinct, quality levels are declared just when
-- the quality control is, audio declares neither aspect ratios nor the extend capability, a prompt
-- or an input is required, and its durations fit its duration mode.
pub check_internal_consistency_iff :
    (d : WorkflowDefinition) → (check_internal_consistency d ≡ none) ↔ IsCoherent d
unfolding check_internal_consistency
check_internal_consistency_iff d = ground (
  arith,
  all_distinct-Distinct (roles d.inputs),
  check_durations-DurationsFit d.duration_mode d.supported_durations d.inputs,
)
