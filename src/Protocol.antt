-- ===== src/Protocol.antt =====
-- apps/api/app/api/v1/internal.py: the worker protocol. Workers pull; the API answers.
pub mod Claims
pub mod Recovery
pub mod Runs
pub mod Histories
pub mod Handover
use zolexai.Prelude.{
  ℕ, ◌+◌, ◌*◌, String, Bool, true, false, not, Option, none, some, List, [], ◌∷◌, ◌≈◌, ltb,
  if◌then◌else◌, or_default, or_text, max, select, is_some,
}
use zolexai.Job.{AssetKind, video, image, audio, Job, JobInput, JobStatus, cancelled, Asset}
use zolexai.Workflow.{ExecutionSpec, WorkflowDefinition, mentions, is_empty}
use zolexai.Registry.{Registry, ids, ids_for_runtimes, get, contains}
use zolexai.Workers.{
  WorkerNode, WorkerStatus, Registration, find_worker, register, heartbeat, mark_stale_offline,
}
use zolexai.Database.{Db, claim_next, requeue_expired_leases}
use zolexai.Queue.{wake_workers}
use zolexai.Storage.{find_asset, is_ready, output_key}
use zolexai.Service.{World, Env, Report, accepted, rejected, raised, Refusal}

abbrev heartbeat_interval : ℕ
heartbeat_interval = 30

-- The settings that the claim reads.
pub record UploadSettings : Type 0 where
  pub storage_presign_expiry_seconds : ℕ
  pub job_default_timeout_seconds : ℕ
  pub worker_upload_grace_seconds : ℕ

-- `timeout_seconds or default`: a timeout of 0 is no timeout.
abbrev or_nonzero : Option ℕ → ℕ → ℕ
or_nonzero none d = d
or_nonzero (some t) d = if ltb 0 t then t else d

unfoldable pub output_upload_ttl : UploadSettings → ExecutionSpec → ℕ
output_upload_ttl s execution = max s.storage_presign_expiry_seconds (
    or_nonzero execution.timeout_seconds s.job_default_timeout_seconds
    + s.worker_upload_grace_seconds)

-- The rejected ids, or the new tables with the node.
pub data Registered : Type 0 where
  unknown_workflows : List String → Registered
  registered : WorkerNode → Registered

abbrev or_all : List String → List String → List String
or_all [] all = all
or_all (w ∷ ws) all = w ∷ ws

unfoldable pub register_worker : ℕ → World → Registry → ℕ → Registration → Registered × World
unfolding register ids contains
register_worker now world registry id r =
    let requested = or_all r.workflows (ids registry) in
    let unknown = select (λ w. not (contains registry w)) requested in
    let full : Registration = record r {
      workflows = requested;
      runtimes = or_all r.runtimes (r.runtime ∷ []);
    } in
    let (node, workers) = register now id full world.db.workers in
    if not (is_empty unknown)
    then (unknown_workflows unknown, world)
    else (registered node, record world { db = record world.db { workers = workers } })

unfoldable pub worker_heartbeat : ℕ → World → ℕ → Option WorkerStatus → Bool × World
unfolding heartbeat
worker_heartbeat now world id status =
    let (found, workers) = heartbeat now id status world.db.workers in
    (is_some found, record world { db = record world.db { workers = workers } })

pub record ClaimedInput : Type 0 where
  pub role : String
  pub asset_id : ℕ
  pub kind : AssetKind
  pub content_type : String
  pub storage_key : String

-- What a worker receives; the URLs stand for the keys and lifetimes that are signed.
pub record ClaimedJob : Type 0 where
  pub job : Job
  pub inputs : List ClaimedInput
  pub execution : ExecutionSpec
  pub output_upload_key : String
  pub output_content_type : String
  pub output_upload_ttl : ℕ

pub data Claim : Type 0 where
  unknown_worker nothing tool_unavailable : Claim
  claimed : ClaimedJob → Claim

claimed_input : JobInput → Option Asset → List ClaimedInput
claimed_input link none = []
claimed_input link (some file) =
    if is_ready file.status
    then record {
      role = link.role;
      asset_id = file.id;
      kind = file.kind;
      content_type = file.content_type;
      storage_key = file.storage_key;
    }
      ∷ []
    else []

-- The job's inputs whose assets are ready.
unfoldable pub claimed_inputs : ℕ → List JobInput → List Asset → List ClaimedInput
unfolding claimed_input find_asset
claimed_inputs job [] assets = []
claimed_inputs job (i ∷ rest) assets =
    let others = claimed_inputs job rest assets in
    if zolexai.Prelude.◌==◌ i.job_id job
    then zolexai.Prelude.◌++◌ (claimed_input i (find_asset i.asset_id assets)) others
    else others

default_content_type : AssetKind → String
default_content_type video = "video/mp4"
default_content_type audio = "audio/mpeg"
default_content_type image = "image/png"

unfoldable pub content_type_of : WorkflowDefinition → String
unfolding default_content_type
content_type_of d =
    or_text (or_default d.execution.output_content_type "") (default_content_type d.output_type)

-- The workflows that the node may claim now: those that it asks for among the registered ones, and
-- of these, if it names its runtimes, the ones that run there.
unfoldable pub wanted_workflows : Registry → WorkerNode → List String → List String → List String
unfolding ids ids_for_runtimes
wanted_workflows registry node workflows runtimes =
    let registered = or_all node.workflows (ids registry) in
    let wanted = select (λ w. mentions w registered) (or_all workflows registered) in
    if is_empty runtimes
    then wanted
    else select (λ w. mentions w (ids_for_runtimes registry runtimes)) wanted

unfoldable pub claimed_job : Env → UploadSettings → Db → Job → WorkflowDefinition → ClaimedJob
unfolding claimed_inputs content_type_of output_upload_ttl output_key
claimed_job env settings db job d = record {
  job = job;
  inputs = claimed_inputs job.id db.inputs db.assets;
  execution = d.execution;
  output_upload_key = output_key (env.text_of job.user_id) (env.text_of job.id) (content_type_of d);
  output_content_type = content_type_of d;
  output_upload_ttl = output_upload_ttl settings d.execution;
}

-- The answer for a locked row. A job whose definition is gone raises, which rolls the claim back.
unfoldable pub answer_with :
    Env → UploadSettings → World → Job → Db → Option WorkflowDefinition → Claim × World
answer_with env settings world job db none = (tool_unavailable, world)
answer_with env settings world job db (some d) =
    (claimed (claimed_job env settings db job d), record world { db = db })

unfoldable pub answer : Env → UploadSettings → World → Registry → Option (Job × Db) → Claim × World
answer env settings world registry none = (nothing, world)
answer env settings world registry (some (job, db)) =
    answer_with env settings world job db (get registry job.workflow_id)

-- What a claim asks: the node, what narrows it, the fresh token, and the rows that others hold.
pub record ClaimRequest : Type 0 where
  pub worker_id : ℕ
  pub workflows : List String
  pub runtimes : List String
  pub token : ℕ
  pub locked : ℕ → Bool

unfoldable pub claim_as :
    Env → UploadSettings → World → Registry → ClaimRequest → WorkerNode → Claim × World
claim_as env settings world registry r node =
    let wanted = wanted_workflows registry node r.workflows r.runtimes in
    if is_empty wanted
    then (nothing, world)
    else answer env settings world registry
        (claim_next world.db node.id wanted r.locked r.token env.now env.lease_seconds)

unfoldable pub claim_job : Env → UploadSettings → World → Registry → ClaimRequest → Claim × World
claim_job env settings world registry r = elim (find_worker r.worker_id world.db.workers) [
  | none ↦ (unknown_worker, world)
  | some node ↦ claim_as env settings world registry r node
]

-- The acknowledgement of a report: whether it was accepted, and the status that is answered.
-- A report that raises is answered by an error instead.
unfoldable pub acknowledge : Report → Option (Bool × JobStatus)
acknowledge (accepted job) = some (true, job.status)
acknowledge (rejected reason) = some (false, cancelled)
acknowledge raised = none

-- How many jobs were requeued and failed, and how many nodes went offline.
unfoldable pub reap_leases : Env → World → ℕ → (ℕ × ℕ × ℕ) × World
reap_leases env world limit =
    let (db, requeued, exhausted) = requeue_expired_leases env.row_order world.db env.now limit in
    let (stale, workers) = mark_stale_offline env.now (heartbeat_interval * 4) db.workers in
    let woken =
      if ltb 0 requeued
      then wake_workers env.redis_up requeued world.redis.wake
      else world.redis.wake in
    (
      (requeued, exhausted, stale),
      record world {
        db = record db { workers = workers };
        redis = record world.redis { wake = woken };
      },
    )
