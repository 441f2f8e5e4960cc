-- ===== src/Protocol/Runs.antt =====
-- The transactions of all API processes in the order in which they commit, as a step relation on
-- worlds, and what holds of every history. Row locks make each of them one step.
use mathlib.Core.Path.{subst}
use zolexai.Prelude.{
  ℕ, String, ◌≤◌, ◌≡◌, sym, ap, ◌∙◌, Bool, Option, List, arith, Bool-cases, Option-cases, inl, inr,
}
use zolexai.Job.{JobStatus, queued, is_terminal, ErrorCode, Job, Payload}
use zolexai.Workflow.{is_empty}
use zolexai.Registry.{Registry, get}
use zolexai.Workers.{WorkerNode, WorkerStatus, Registration, find_worker}
use zolexai.Limits.{User}
use zolexai.Database.{
  claim_row, claim_next, requeue_row, exhaust_row, requeues, exhausts, lease_expired,
}
use zolexai.Service.{World, Env, Output, report_progress, complete, fail, cancel}
use zolexai.Service.Invariant.{
  WorldIsValid, report_progress-WorldIsValid, fail-WorldIsValid, complete-WorldIsValid,
  cancel-WorldIsValid,
}
use zolexai.Service.Finality.{
  RowEvolves, Evolves, Evolves-refl, Evolves-trans, put_job-Evolves, report_progress-Evolves,
  fail-Evolves, complete-Evolves, cancel-Evolves,
}
use zolexai.Service.Creation.{Request, create}
use zolexai.Service.Creation.Validity.{create-WorldIsValid}
use zolexai.Service.Creation.Effects.{create-Evolves}
use zolexai.Protocol.{
  UploadSettings, ClaimRequest, claim_job, claim_as, answer, answer_with, wanted_workflows,
  reap_leases, register_worker, worker_heartbeat,
}
use zolexai.Protocol.Claims.{claim_next-cases, claim_job-WorldIsValid, is_claimable-queued}
use zolexai.Protocol.Recovery.{
  reaped, reap_leases-find_job, reap_leases-WorldIsValid, map_row, expired_rows,
}

claim_row-RowEvolves :
    (worker token now lease_seconds : ℕ) (j : Job)
    → j.status ≡ queued
    → RowEvolves j (claim_row worker token now lease_seconds j)
unfolding claim_row is_terminal
claim_row-RowEvolves worker token now lease_seconds j q = ground arith

reaped-RowEvolves : (now : ℕ) (chosen : List Job) (j : Job) → RowEvolves j (reaped now chosen j)
unfolding requeues exhausts lease_expired requeue_row exhaust_row
reaped-RowEvolves now chosen j = ground arith

reap_leases-Evolves :
    (env : Env) (world : World) (limit : ℕ)
    → Evolves world.db.jobs (reap_leases env world limit).1.db.jobs
unfolding map_row
reap_leases-Evolves env world limit id j e =
    let chosen = expired_rows env.row_order env.now limit world.db.jobs in
    (
      reaped env.now chosen j,
      reap_leases-find_job env world limit id ∙ ap (map_row (reaped env.now chosen)) e,
      reaped-RowEvolves env.now chosen j,
    )

module _ (env : Env) (settings : UploadSettings) (world : World) (registry : Registry)
    (v : WorldIsValid world) where
  claimed-Evolves :
      (node : WorkerNode) (ids : List String) (locked : ℕ → Bool) (token : ℕ)
      → Evolves world.db.jobs
          (answer env settings world registry
            (claim_next world.db node.id ids locked token env.now env.lease_seconds)).1.db.jobs
  unfolding answer answer_with claim_row
  claimed-Evolves node ids locked token =
      elim (claim_next-cases world.db node.id ids locked token env.now env.lease_seconds v.keys) [
        | inl (none_left, _) ↦ rw none_left (Evolves-refl world.db.jobs)
        | inr (j, f, taken) ↦ elim (Option-cases (get registry j.workflow_id)) [
          | inl gone ↦ rw (taken, gone) (Evolves-refl world.db.jobs)
          | inr (d, e) ↦
              rw (taken, e)
                (put_job-Evolves (claim_row node.id token env.now env.lease_seconds j) world.db.jobs
                  f.found
                  (claim_row-RowEvolves node.id token env.now env.lease_seconds j
                    (is_claimable-queued ids locked j f.claimable).0))
        ]
      ]

  claim_job-Evolves :
      (r : ClaimRequest) → Evolves world.db.jobs (claim_job env settings world registry r).1.db.jobs
  unfolding claim_job claim_as
  claim_job-Evolves r = elim (Option-cases (find_worker r.worker_id world.db.workers)) [
    | inl e ↦ rw (e, claim_job) (Evolves-refl world.db.jobs)
    | inr (node, e) ↦
        elim (Bool-cases (is_empty (wanted_workflows registry node r.workflows r.runtimes))) [
          | inl t ↦ rw (e, claim_job, t, claim_as) (Evolves-refl world.db.jobs)
          | inr t ↦
              rw (e, claim_job, t, claim_as)
                (claimed-Evolves node (wanted_workflows registry node r.workflows r.runtimes)
                  r.locked r.token)
        ]
  ]

-- One committed transaction. A progress report is refused by its schema above 100, and the settings
-- allow at least one attempt; nothing else is asked of who calls what and when.
pub data Step : World → World → Type 0 where
  creates :
      (env : Env) (registry : Registry) (id : ℕ) (user : User) (request : Request)
      (key : Option String) {world : World}
      → 1 ≤ env.max_attempts
      → Step world (create env world registry id user request key).1
  claims :
      (env : Env) (settings : UploadSettings) (registry : Registry) (r : ClaimRequest)
      {world : World}
      → Step world (claim_job env settings world registry r).1
  progresses :
      (env : Env) (job_id worker token : ℕ) (status : JobStatus) (progress : ℕ) (message : String)
      (payload : Payload) {world : World}
      → progress ≤ 100
      → Step world (report_progress env world job_id worker token status progress message payload).1
  completes :
      (env : Env) (job_id worker token asset_id : ℕ) (output : Output) {world : World}
      → Step world (complete env world job_id worker token asset_id output).1
  fails :
      (env : Env) (job_id worker token : ℕ) (code : ErrorCode) (message : String) (retriable : Bool)
      {world : World}
      → Step world (fail env world job_id worker token code message retriable).1
  cancels : (env : Env) (job : Job) {world : World} → Step world (cancel env world job).1
  reaps : (env : Env) (limit : ℕ) {world : World} → Step world (reap_leases env world limit).1
  registers :
      (now : ℕ) (registry : Registry) (id : ℕ) (r : Registration) {world : World}
      → Step world (register_worker now world registry id r).1
  beats :
      (now id : ℕ) (status : Option WorkerStatus) {world : World}
      → Step world (worker_heartbeat now world id status).1

-- A history: transactions one after the other.
pub data Steps : World → World → Type 0 where
  here : {world : World} → Steps world world
  then_step :
      {before between after : World}
      → Steps before between
      → Step between after
      → Steps before after

register_worker-WorldIsValid :
    (now : ℕ) (world : World) (registry : Registry) (id : ℕ) (r : Registration)
    → WorldIsValid world
    → WorldIsValid (register_worker now world registry id r).1
unfolding register_worker
register_worker-WorldIsValid now world registry id r v = ground arith

register_worker-Evolves :
    (now : ℕ) (world : World) (registry : Registry) (id : ℕ) (r : Registration)
    → Evolves world.db.jobs (register_worker now world registry id r).1.db.jobs
unfolding register_worker
register_worker-Evolves now world registry id r =
    let same : (register_worker now world registry id r).1.db.jobs ≡ world.db.jobs = ground arith in
    subst (λ js. Evolves world.db.jobs js) (sym same) (Evolves-refl world.db.jobs)

Step-WorldIsValid :
    {before after : World} → Step before after → WorldIsValid before → WorldIsValid after
unfolding worker_heartbeat
Step-WorldIsValid (creates env registry id user request key {world} h) v =
    create-WorldIsValid env h registry id user request key world v
Step-WorldIsValid (claims env settings registry r {world}) v =
    claim_job-WorldIsValid env settings world registry v r
Step-WorldIsValid (progresses env job_id worker token status progress message payload {world} h) v =
    report_progress-WorldIsValid env world job_id worker token v status progress message payload h
Step-WorldIsValid (completes env job_id worker token asset_id output {world}) v =
    complete-WorldIsValid env world job_id worker token v asset_id output
Step-WorldIsValid (fails env job_id worker token code message retriable {world}) v =
    fail-WorldIsValid env world job_id worker token v code message retriable
Step-WorldIsValid (cancels env job {world}) v = cancel-WorldIsValid env world v job
Step-WorldIsValid (reaps env limit {world}) v = reap_leases-WorldIsValid env world limit v
Step-WorldIsValid (registers now registry id r {world}) v =
    register_worker-WorldIsValid now world registry id r v
Step-WorldIsValid (beats now id status {world}) v = record {
  keys = v.keys;
  rows = v.rows;
  log = v.log;
  recorded = v.recorded;
}

Step-Evolves :
    {before after : World}
    → Step before after
    → WorldIsValid before
    → Evolves before.db.jobs after.db.jobs
unfolding worker_heartbeat
Step-Evolves (creates env registry id user request key {world} h) v =
    create-Evolves env registry id user request key world
Step-Evolves (claims env settings registry r {world}) v =
    claim_job-Evolves env settings world registry v r
Step-Evolves (progresses env job_id worker token status progress message payload {world} h) v =
    report_progress-Evolves env world job_id worker token status progress message payload
Step-Evolves (completes env job_id worker token asset_id output {world}) v =
    complete-Evolves env world job_id worker token asset_id output
Step-Evolves (fails env job_id worker token code message retriable {world}) v =
    fail-Evolves env world job_id worker token code message retriable
Step-Evolves (cancels env job {world}) v = cancel-Evolves env world job
Step-Evolves (reaps env limit {world}) v = reap_leases-Evolves env world limit
Step-Evolves (registers now registry id r {world}) v =
    register_worker-Evolves now world registry id r
Step-Evolves (beats now id status {world}) v = Evolves-refl world.db.jobs

-- From a valid world every history of committed transactions leads to a valid world: distinct ids,
-- each row within its percentage, its attempts and the lease that its status asks for, each job's
-- events numbered 1, 2, … up to its row's last number, and every published event in the log.
pub Steps-WorldIsValid :
    {before after : World} → Steps before after → WorldIsValid before → WorldIsValid after
Steps-WorldIsValid here v = v
Steps-WorldIsValid (then_step before s) v = Step-WorldIsValid s (Steps-WorldIsValid before v)

pub Steps-Evolves :
    {before after : World}
    → Steps before after
    → WorldIsValid before
    → Evolves before.db.jobs after.db.jobs
Steps-Evolves here v = Evolves-refl _
Steps-Evolves (then_step before s) v =
    Evolves-trans _ _ _ (Steps-Evolves before v) (Step-Evolves s (Steps-WorldIsValid before v))
