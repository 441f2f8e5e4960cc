-- ===== src/Reporter.antt =====
-- apps/worker/worker/longform/progress.py: the reporter that a worker's stages share.
pub mod Legal
pub mod Bands
use zolexai.Prelude.{
  ℕ, ◌+◌, ◌-◌, ◌*◌, ◌/◌, Bool, true, false, List, [], ◌∷◌, ltb, if◌then◌else◌, max, min,
}
use zolexai.Job.{JobStatus, preparing, generating, post_processing, uploading}

-- `_RANK.get(status, len(_RANK))`
abbrev pub stage_rank : JobStatus → ℕ
stage_rank preparing = 0
stage_rank generating = 1
stage_rank post_processing = 2
stage_rank uploading = 3
stage_rank _ = 4

abbrev pub generate_from : ℕ
generate_from = 15

abbrev pub generate_to : ℕ
generate_to = 85

pub record StageReporter : Type 0 where
  pub status : JobStatus
  pub progress : ℕ

abbrev pub new_reporter : StageReporter
new_reporter = record { status = preparing; progress = 0 }

-- What is forwarded is the status and the progress of the reporter after the call.
unfoldable pub report : JobStatus → ℕ → StageReporter → StageReporter
report status progress r = record {
  status = if ltb (stage_rank status) (stage_rank r.status) then r.status else status;
  progress = max r.progress (min 100 progress);
}

-- The named stages; a section is a `generating` of its own message.
pub data Stage : Type 0 where
  preparing_stage probing_stage stitching muxing finalizing uploading_stage : Stage
  generating_stage : ℕ → Stage
  section : ℕ → ℕ → ℕ → Stage

unfoldable pub enter : Stage → StageReporter → StageReporter
unfolding report
enter preparing_stage r = report preparing 8 r
enter probing_stage r = report preparing 12 r
enter (generating_stage progress) r = report generating progress r
enter (section index total progress) r = report generating progress r
enter stitching r = report post_processing 88 r
enter muxing r = report post_processing 92 r
enter finalizing r = report post_processing 94 r
enter uploading_stage r = report uploading 96 r

-- The reports that a sequence of stages forwards.
unfoldable pub reports : List Stage → StageReporter → List StageReporter
unfolding enter
reports [] r = []
reports (s ∷ stages) r = enter s r ∷ reports stages (enter s r)

unfoldable pub band_for : ℕ → ℕ → ℕ × ℕ
band_for index total =
    let span = generate_to - generate_from in
    (generate_from + span * index / total, generate_from + span * (index + 1) / total)
