-- ===== src/Service.antt =====
-- apps/api/app/services/generation.py: worker reports and cancellation. Every operation commits
-- its tables and then publishes, so it takes the committed world and returns the next one; a
-- refused or raising operation rolls back.
pub mod Messages
pub mod Creation
pub mod Invariant
pub mod Leases
pub mod Finality
use zolexai.Prelude.{
  ℕ, ◌+◌, String, Bool, true, false, not, ◌&&◌, ◌||◌, Option, none, some, List, [], ◌∷◌, ◌++◌, ◌≈◌,
  ltb, if◌then◌else◌, same_option, or_text, or_default, max, is_some,
}
use zolexai.Text.{take_text}
use zolexai.Job.{
  JobStatus, queued, completed, failed, cancelled, is_terminal, can_transition, EventType,
  ErrorCode, AssetKind, video, image, audio, Job, Payload, empty, asset, details, Event, Asset,
}
use zolexai.Database.{Db, find_job, put_job, append_event, extend_lease, attach_output}
use zolexai.Queue.{Hint, notify_job_available}
use zolexai.Limits.{Counter}
use zolexai.Storage.{insert_asset, generated_row}
use Messages.{safe_failure_message}

-- What Redis holds: the events published so far, the doorbell, and the request counters by user.
pub record Redis : Type 0 where
  pub channel : List Event
  pub wake : List Hint
  pub counters : ℕ → Option Counter

pub record World : Type 0 where
  pub db : Db
  pub redis : Redis

-- The clock, whether Redis answers, the settings, how ids are written, and the order in which
-- PostgreSQL yields the rows of a query that asks for none.
pub record Env : Type 0 where
  pub now : ℕ
  pub redis_up : Bool
  pub lease_seconds : ℕ
  pub max_attempts : ℕ
  pub default_concurrency_limit : ℕ
  pub text_of : ℕ → String
  pub row_order : List Job → List Job

pub data Refusal : Type 0 where
  unknown_job lease_not_held : Refusal
  already : JobStatus → Refusal
  illegal_transition : JobStatus → JobStatus → Refusal

pub data Authorized : Type 0 where
  granted : Job → Authorized
  refused : Refusal → Authorized

unfoldable pub lock_and_authorize : Db → ℕ → ℕ → ℕ → Authorized
unfolding find_job is_terminal
lock_and_authorize db job_id worker token = elim (find_job job_id db.jobs) [
  | none ↦ refused unknown_job
  | some job ↦
      if is_terminal job.status
      then refused (already job.status)
      else if not (same_option job.worker_id (some worker))
          || not (same_option job.lease_token (some token))
      then refused lease_not_held
      else granted job
]

-- A report is accepted with the new row, refused with a reason, or raises.
pub data Report : Type 0 where
  accepted : Job → Report
  rejected : Refusal → Report
  raised : Report

unfoldable pub publish_event : Bool → Event → List Event → List Event
publish_event up event channel = if up then channel ++ event ∷ [] else channel

-- `append_event`, `commit`, `publish_event`: the end of every operation on a job.
unfoldable pub record_event : Env → World → Db → Job → EventType → String → Payload → Job × World
unfolding append_event publish_event
record_event env world db job event_type message payload =
    let (db', job', event) = append_event db job event_type message payload env.now in
    (
      job',
      record world {
        db = db';
        redis = record world.redis {
          channel = publish_event env.redis_up event world.redis.channel;
        };
      },
    )

abbrev pub accept : Job × World → Report × World
accept (job, world) = (accepted job, world)

unfoldable pub progress_row : Env → JobStatus → ℕ → String → Job → Job
unfolding extend_lease
progress_row env status progress message job = extend_lease env.now env.lease_seconds (record job {
  status = status;
  progress = max job.progress progress;
  stage_hint = or_text message job.stage_hint;
  started_at = some (or_default job.started_at env.now);
})

unfoldable pub report_progress :
    Env → World → ℕ → ℕ → ℕ → JobStatus → ℕ → String → Payload → Report × World
report_progress env world job_id worker token status progress message payload =
    elim (lock_and_authorize world.db job_id worker token) [
      | refused reason ↦ (rejected reason, world)
      | granted job ↦
          if not (can_transition job.status status)
          then (rejected (illegal_transition job.status status), world)
          else let row = progress_row env status progress message job in
            accept (record_event env world world.db row EventType.progress row.stage_hint payload)
    ]

unfoldable pub complete_row : ℕ → Job → Job
complete_row now job = record job {
  status = completed;
  progress = 100;
  stage_hint = "";
  completed_at = some now;
  lease_token = none;
  lease_expires_at = none;
}

-- `AssetKind(output_kind)`; another text raises.
unfoldable pub parse_kind : String → Option AssetKind
parse_kind kind =
    if kind ≈ "video"
    then some video
    else if kind ≈ "image"
    then some image
    else if kind ≈ "audio"
    then some audio
    else none

-- What a worker says of its output.
pub record Output : Type 0 where
  pub key : String
  pub kind : String
  pub content_type : String
  pub size_bytes : Option ℕ
  pub duration_seconds : Option ℕ
  pub width : Option ℕ
  pub height : Option ℕ

unfoldable pub output_row : Env → Job → ℕ → AssetKind → Output → Asset
unfolding generated_row
output_row env job asset_id kind output =
    generated_row env.now asset_id job.user_id kind output.key output.content_type
      (Prim.Native.String.◌++◌ job.workflow_id
        (Prim.Native.String.◌++◌ "-" (take_text 8 (env.text_of job.id))))
      output.size_bytes output.duration_seconds output.width output.height

unfoldable pub complete : Env → World → ℕ → ℕ → ℕ → ℕ → Output → Report × World
complete env world job_id worker token asset_id output =
    elim (lock_and_authorize world.db job_id worker token) [
      | refused reason ↦ (rejected reason, world)
      | granted job ↦ elim (parse_kind output.kind) [
        | none ↦ (raised, world)
        | some kind ↦
            let file = output_row env job asset_id kind output in
            elim (insert_asset file world.db.assets) [
              | none ↦ (raised, world)
              | some assets ↦
                  let db = attach_output (record world.db { assets = assets }) job file in
                  accept (
                    record_event env world db (complete_row env.now job) EventType.completed ""
                      (asset asset_id))
            ]
      ]
    ]

unfoldable pub should_retry : Bool → Job → Bool
should_retry retriable job = retriable && ltb job.attempt_count job.max_attempts

unfoldable pub retry_row : Job → Job
retry_row job = record job {
  status = queued;
  progress = 0;
  worker_id = none;
  lease_token = none;
  lease_expires_at = none;
  stage_hint = "Retrying…";
}

unfoldable pub fail_row : ℕ → ErrorCode → String → Job → Job
fail_row now code user_message job = record job {
  status = failed;
  completed_at = some now;
  lease_token = none;
  lease_expires_at = none;
  error_code = some code;
  error_message = some (safe_failure_message user_message);
  stage_hint = "";
}

abbrev pub ring : Env → ℕ → Report × World → Report × World
ring env job_id (report, world) = (
  report,
  record world {
    redis = record world.redis { wake = notify_job_available env.redis_up job_id world.redis.wake };
  },
)

unfoldable pub fail : Env → World → ℕ → ℕ → ℕ → ErrorCode → String → Bool → Report × World
fail env world job_id worker token code user_message retriable =
    elim (lock_and_authorize world.db job_id worker token) [
      | refused reason ↦ (rejected reason, world)
      | granted job ↦
          if should_retry retriable job
          then ring env job_id (
              accept (
                record_event env world world.db (retry_row job) EventType.status "Retrying…" empty))
          else accept (
              record_event env world world.db (fail_row env.now code user_message job)
                EventType.failed (safe_failure_message user_message) empty)
    ]

unfoldable pub cancel_row : ℕ → Job → Job
cancel_row now job = record job {
  status = cancelled;
  completed_at = some now;
  stage_hint = "Cancelled.";
  lease_token = none;
  lease_expires_at = none;
}

pub data Cancelled : Type 0 where
  done : Job → Cancelled
  already_finished not_found : Cancelled

pub cancel_locked : Env → World → Option Job → Cancelled × World
cancel_locked env world none = (not_found, world)
cancel_locked env world (some locked) =
    if is_terminal locked.status
    then (already_finished, world)
    else let (row, world') =
        record_event env world world.db (cancel_row env.now locked) EventType.cancelled "Cancelled."
          empty in
      (done row, world')

-- `job` is the row as the caller loaded it, before the lock.
unfoldable pub cancel : Env → World → Job → Cancelled × World
cancel env world job =
    if is_terminal job.status
    then (already_finished, world)
    else cancel_locked env world (find_job job.id world.db.jobs)
