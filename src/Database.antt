-- ===== src/Database.antt =====
-- The tables as lists of rows, and the queries of apps/api/app/repositories/generation.py.
-- A transaction works on a `Db` value: what is returned is committed, what is dropped rolls back.
pub mod Rows
pub mod Log
pub mod Validity
use zolexai.Prelude.{
  ℕ, ◌+◌, String, Bool, true, false, not, ◌&&◌, Option, none, some, List, [], ◌∷◌, ◌++◌, map, ◌==◌,
  ◌≈◌, ltb, leb, if◌then◌else◌, is_some, or_text, or_default, length, take, select, count_if, any,
}
use zolexai.Workers.{WorkerNode}
use zolexai.Job.{
  JobStatus, queued, assigned, failed, completed, is_terminal, same_status, EventType, ErrorCode,
  max_attempts_exceeded, Params, Job, JobInput, JobOutput, Payload, Event, Asset, same_status,
}

pub record Db : Type 0 where
  pub jobs : List Job
  pub events : List Event
  pub inputs : List JobInput
  pub outputs : List JobOutput
  pub assets : List Asset
  pub workers : List WorkerNode

-- `WHERE id = ?`
unfoldable pub find_job : ℕ → List Job → Option Job
find_job id [] = none
find_job id (j ∷ js) = if j.id == id then some j else find_job id js

-- The row of a loaded object, written back.
unfoldable pub put_job : Job → List Job → List Job
put_job row [] = []
put_job row (j ∷ js) = if j.id == row.id then row ∷ js else j ∷ put_job row js

unfoldable pub find_job_for_user : ℕ → ℕ → List Job → Option Job
find_job_for_user id user [] = none
find_job_for_user id user (j ∷ js) =
    if (j.id == id) && (j.user_id == user) then some j else find_job_for_user id user js

unfoldable pub is_active : JobStatus → Bool
unfolding is_terminal
is_active s = not (is_terminal s)

unfoldable pub count_active_for_user : ℕ → List Job → ℕ
unfolding is_active
count_active_for_user user jobs = count_if (λ j. (j.user_id == user) && is_active j.status) jobs

abbrev same_key : String → Option String → Bool
same_key key none = false
same_key key (some k) = k ≈ key

unfoldable pub find_by_idempotency_key : ℕ → String → List Job → Option Job
find_by_idempotency_key user key [] = none
find_by_idempotency_key user key (j ∷ js) =
    if (j.user_id == user) && same_key key j.idempotency_key
    then some j
    else find_by_idempotency_key user key js

-- Allocates the next sequence number of the job and appends the event: the job, and the tables.
unfoldable pub append_row : Job → EventType → String → Payload → ℕ → Event
append_row job event_type message payload now = record {
  job_id = job.id;
  seq = job.last_event_seq + 1;
  event_type = event_type;
  status = job.status;
  progress = job.progress;
  message = or_text message job.stage_hint;
  payload = payload;
  created_at = now;
}

unfoldable pub next_seq : Job → Job
next_seq job = record job { last_event_seq = job.last_event_seq + 1 }

unfoldable pub append_event : Db → Job → EventType → String → Payload → ℕ → Db × Job × Event
unfolding append_row next_seq put_job
append_event db job event_type message payload now = (
  record db {
    jobs = put_job (next_seq job) db.jobs;
    events = db.events ++ append_row job event_type message payload now ∷ [];
  },
  next_seq job,
  append_row job event_type message payload now,
)

-- `WHERE job_id = ? AND seq > ? ORDER BY seq`: the log holds each job's events in this order.
unfoldable pub list_events : ℕ → ℕ → List Event → List Event
list_events job after events = select (λ e. (e.job_id == job) && ltb after e.seq) events

-- What a claim asks of a row: `locked` are the rows that another open transaction holds
-- (`SKIP LOCKED`).
unfoldable pub is_claimable : List String → (ℕ → Bool) → Job → Bool
is_claimable workflow_ids locked j =
    same_status j.status queued && any (λ w. w ≈ j.workflow_id) workflow_ids && not (locked j.id)

-- The earlier of a row and the oldest of the rest, the first one where they are equal.
pub older : Job → Option Job → Job
older j none = j
older j (some k) = if ltb k.created_at j.created_at then k else j

-- `ORDER BY created_at LIMIT 1`
unfoldable pub oldest : (Job → Bool) → List Job → Option Job
unfolding older
oldest test [] = none
oldest test (j ∷ js) = let rest = oldest test js in if test j then some (older j rest) else rest

unfoldable pub claim_row : ℕ → ℕ → ℕ → ℕ → Job → Job
claim_row worker token now lease_seconds job = record job {
  status = assigned;
  worker_id = some worker;
  lease_token = some token;
  lease_expires_at = some (now + lease_seconds);
  attempt_count = job.attempt_count + 1;
  started_at = some (or_default job.started_at now);
  stage_hint = "Waiting for an available slot…";
}

unfoldable pub claim_found : Db → ℕ → ℕ → ℕ → ℕ → Option Job → Option (Job × Db)
claim_found db worker token now lease_seconds none = none
claim_found db worker token now lease_seconds (some job) =
    let row = claim_row worker token now lease_seconds job in
    some (row, record db { jobs = put_job row db.jobs })

unfoldable pub claim_next : Db → ℕ → List String → (ℕ → Bool) → ℕ → ℕ → ℕ → Option (Job × Db)
unfolding claim_found
claim_next db worker workflow_ids locked token now lease_seconds =
    claim_found db worker token now lease_seconds
      (oldest (is_claimable workflow_ids locked) db.jobs)

unfoldable pub extend_lease : ℕ → ℕ → Job → Job
extend_lease now lease_seconds job = record job { lease_expires_at = some (now + lease_seconds) }

-- `expired_filter`
unfoldable pub lease_expired : ℕ → Job → Bool
unfolding is_terminal
lease_expired now j = elim j.lease_expires_at [
  | none ↦ false
  | some t ↦ ltb t now && not (is_terminal j.status)
]

unfoldable pub requeue_row : Job → Job
requeue_row j = record j {
  status = queued;
  worker_id = none;
  lease_token = none;
  lease_expires_at = none;
  progress = 0;
  stage_hint = "Waiting for an available slot…";
}

unfoldable pub exhaust_row : ℕ → Job → Job
exhaust_row now j = record j {
  status = failed;
  lease_token = none;
  lease_expires_at = none;
  completed_at = some now;
  error_code = some max_attempts_exceeded;
  error_message =
      some "This generation could not be completed after several attempts. Please try again.";
}

-- `id IN (SELECT id … LIMIT ?)`
abbrev pub has_id : ℕ → List Job → Bool
has_id id rows = any (λ k. k.id == id) rows

unfoldable pub requeues : ℕ → List Job → Job → Bool
unfolding lease_expired
requeues now chosen j =
    lease_expired now j && ltb j.attempt_count j.max_attempts && has_id j.id chosen

unfoldable pub exhausts : ℕ → Job → Bool
unfolding lease_expired
exhausts now j = lease_expired now j && leb j.max_attempts j.attempt_count

-- `UPDATE … WHERE test`
unfoldable pub update_where : (Job → Bool) → (Job → Job) → List Job → List Job
update_where test f [] = []
update_where test f (j ∷ js) = (if test j then f j else j) ∷ update_where test f js

-- The tables after the reaper, and how many jobs it requeued and failed. The subquery takes its
-- rows in the order that the database yields them in.
unfoldable pub requeue_expired_leases : (List Job → List Job) → Db → ℕ → ℕ → Db × ℕ × ℕ
requeue_expired_leases row_order db now limit =
    let chosen = take limit (row_order (select (lease_expired now) db.jobs)) in
    let requeued = update_where (requeues now chosen) requeue_row db.jobs in
    (
      record db { jobs = update_where (exhausts now) (exhaust_row now) requeued },
      count_if (requeues now chosen) db.jobs,
      count_if (exhausts now) requeued,
    )

unfoldable pub attach_output : Db → Job → Asset → Db
attach_output db job asset = record db {
  outputs =
      db.outputs
      ++ (record { job_id = job.id; asset_id = asset.id; kind = asset.kind; is_primary = true })
        ∷ [];
}

unfoldable pub has_output : ℕ → ℕ → List JobOutput → Bool
has_output job asset outputs = any (λ o. (o.job_id == job) && (o.asset_id == asset)) outputs

-- The user's own completed job whose output the asset is.
first_producer : List JobOutput → ℕ → ℕ → List Job → Option Job
unfolding has_output
first_producer outputs asset user [] = none
first_producer outputs asset user (j ∷ js) =
    if has_output j.id asset outputs && (j.user_id == user) && same_status j.status completed
    then some j
    else first_producer outputs asset user js

unfoldable pub producing_job_for_asset : Db → ℕ → ℕ → Option Job
unfolding first_producer
producing_job_for_asset db asset user = first_producer db.outputs asset user db.jobs
