-- ===== src/Job.antt =====
-- The lifecycle vocabulary of apps/api/app/core/enums.py and the rows of
-- apps/api/app/models/generation.py. Ids and lease tokens are numbers, times are seconds.
pub mod Status
use zolexai.Prelude.{
  ℕ, ◌+◌, String, ◌≡◌, Bool, true, false, Option, none, some, List, if◌then◌else◌, ltb, is_some,
  or_text,
}

pub data JobStatus : Type 0 where
  queued assigned preparing generating post_processing uploading completed failed cancelled :
      JobStatus

pub JobStatus-discrete : Discrete JobStatus
JobStatus-discrete = hlevel

unfoldable pub is_terminal : JobStatus → Bool
is_terminal completed = true
is_terminal failed = true
is_terminal cancelled = true
is_terminal _ = false

-- `_RANK.get(status, -1)`, one higher: a status outside `_PROGRESSION` has rank 0.
unfoldable pub rank : JobStatus → ℕ
rank queued = 1
rank assigned = 2
rank preparing = 3
rank generating = 4
rank post_processing = 5
rank uploading = 6
rank _ = 0

-- A number for each status, in the order in which the enumeration declares them.
abbrev pub position : JobStatus → ℕ
position queued = 0
position assigned = 1
position preparing = 2
position generating = 3
position post_processing = 4
position uploading = 5
position completed = 6
position failed = 7
position cancelled = 8

-- `a is b`
abbrev pub same_status : JobStatus → JobStatus → Bool
same_status a b = zolexai.Prelude.◌==◌ (position a) (position b)

unfoldable pub can_transition : JobStatus → JobStatus → Bool
unfolding is_terminal rank
can_transition current target =
    if same_status current target
    then true
    else if is_terminal current
    then false
    else if is_terminal target
    then true
    else ltb (rank current) (rank target)

-- `STATUS_LABELS`
unfoldable pub stage_label : JobStatus → String
stage_label queued = "Queued"
stage_label assigned = "Queued"
stage_label preparing = "Preparing"
stage_label generating = "Generating"
stage_label post_processing = "Finalizing"
stage_label uploading = "Finalizing"
stage_label completed = "Completed"
stage_label failed = "Failed"
stage_label cancelled = "Cancelled"

pub data EventType : Type 0 where
  status progress completed failed cancelled : EventType

pub data ErrorCode : Type 0 where
  validation_failed not_found conflict unauthorized forbidden rate_limited : ErrorCode
  concurrency_limit_reached idempotency_key_reused unsupported_workflow : ErrorCode
  unsupported_parameter missing_required_input asset_not_ready unsupported_media_type : ErrorCode
  file_too_large lease_lost max_attempts_exceeded generation_failed storage_unavailable : ErrorCode
  internal_error : ErrorCode

pub data AssetKind : Type 0 where
  video image audio : AssetKind

pub data AssetSource : Type 0 where
  upload generated : AssetSource

pub data AssetStatus : Type 0 where
  pending ready failed : AssetStatus

-- The Director ancestry that an extension stores under `director_lineage`.
pub record Lineage : Type 0 where
  pub dialogue_language : String
  pub idea : String
  pub prior_seconds : ℕ
  pub source_workflow : String
  pub parent_job_id : ℕ
  pub identity_image_asset_id : Option ℕ

-- `GenerationParameters`, with the lineage that `create` may add to the stored dictionary.
pub record Params : Type 0 where
  pub duration : Option String
  pub aspect_ratio : Option String
  pub quality : Option String
  pub motion_strength : ℕ
  pub prompt_adherence : ℕ
  pub seed : Option ℕ
  pub lyrics : Option String
  pub lyrics_language : Option String
  pub prompt_mode : Option String
  pub dialogue_language : Option String
  pub director_lineage : Option Lineage

pub record Job : Type 0 where
  pub id : ℕ
  pub user_id : ℕ
  pub workflow_id : String
  pub workflow_version : String
  pub status : JobStatus
  pub progress : ℕ
  pub stage_hint : String
  pub prompt : String
  pub request_params : Params
  pub error_code : Option ErrorCode
  pub error_message : Option String
  pub worker_id : Option ℕ
  pub lease_token : Option ℕ
  pub lease_expires_at : Option ℕ
  pub attempt_count : ℕ
  pub max_attempts : ℕ
  pub idempotency_key : Option String
  pub last_event_seq : ℕ
  pub created_at : ℕ
  pub started_at : Option ℕ
  pub completed_at : Option ℕ

pub record JobInput : Type 0 where
  pub job_id : ℕ
  pub asset_id : ℕ
  pub role : String

pub record JobOutput : Type 0 where
  pub job_id : ℕ
  pub asset_id : ℕ
  pub kind : AssetKind
  pub is_primary : Bool

-- The `payload` of an event: empty, the produced asset, or the details of a progress report.
pub data Payload : Type 0 where
  empty : Payload
  asset : ℕ → Payload
  details : List (String × String) → Payload

pub record Event : Type 0 where
  pub job_id : ℕ
  pub seq : ℕ
  pub event_type : EventType
  pub status : JobStatus
  pub progress : ℕ
  pub message : String
  pub payload : Payload
  pub created_at : ℕ

pub record Asset : Type 0 where
  pub id : ℕ
  pub user_id : ℕ
  pub kind : AssetKind
  pub source : AssetSource
  pub status : AssetStatus
  pub storage_key : String
  pub content_type : String
  pub size_bytes : Option ℕ
  pub original_filename : String
  pub duration_seconds : Option ℕ
  pub width : Option ℕ
  pub height : Option ℕ
  pub created_at : ℕ
