-- ===== src/Deployment/Held.antt =====
-- What the API's transactions leave of a job that the reporting worker holds.
use mathlib.Core.Path.{subst}
use zolexai.Prelude.{
  ◌⊎◌, inl, inr, ℕ, String, ◌≡◌, refl, sym, ap, ◌∙◌, Bool, true, false, Bool-cases, Option-cases,
  none, some, ==_iff,
}
use zolexai.Job.{
  JobStatus, queued, completed, failed, is_terminal, can_transition, Job, ErrorCode, EventType,
  Payload, empty, asset,
}
use zolexai.Database.{Db, find_job, next_seq, append_event, attach_output}
use zolexai.Database.Rows.{id-find_job, find_job-put_job}
use zolexai.Storage.{insert_asset}
use zolexai.Service.{
  World, Env, Report, Output, accepted, rejected, raised, granted, lock_and_authorize, record_event,
  report_progress, progress_row, complete, complete_row, output_row, parse_kind, fail, fail_row,
  retry_row, should_retry,
}
use zolexai.Service.Messages.{safe_failure_message}
use zolexai.Service.Leases.{lock_and_authorize_iff, progress_recorded}

-- The job is active and held by the worker under the token.
pub record IsHeld (job_id worker token : ℕ) (world : World) : Type 0 where
  pub job : Job
  pub found : find_job job_id world.db.jobs ≡ some job
  pub active : is_terminal job.status ≡ false
  pub held : job.worker_id ≡ some worker
  pub token_held : job.lease_token ≡ some token

record_event-stored :
    (env : Env) (world : World) (db : Db) (job_id : ℕ) {old : Job} (row : Job)
    (event_type : EventType) (message : String) (payload : Payload)
    → find_job job_id db.jobs ≡ some old
    → row.id ≡ job_id
    → find_job job_id (record_event env world db row event_type message payload).1.db.jobs
      ≡ some (next_seq row)
unfolding record_event append_event next_seq
record_event-stored env world db job_id {old} row event_type message payload found own =
    rw
      (
        find_job-put_job (next_seq row) job_id db.jobs
            (subst (λ k. find_job k db.jobs ≡ some old) (sym own) found),
        (==_iff row.id job_id).1 own,
      )
      refl

abbrev pub Completed : ℕ → World → Type 0
Completed job_id world =
    (job : Job) × (find_job job_id world.db.jobs ≡ some job)
    × (job.status ≡ completed)
    × (job.progress ≡ 100)

abbrev pub AfterCompletion : ℕ → ℕ → ℕ → Report × World → Type 0
AfterCompletion job_id worker token (accepted job, world) = Completed job_id world
AfterCompletion job_id worker token (rejected reason, world) = IsHeld job_id worker token world
AfterCompletion job_id worker token (raised, world) = IsHeld job_id worker token world

-- The job failed, or it waits for another attempt without a holder, if the failure is retriable.
abbrev pub GivenUp : ℕ → Bool → World → Type 0
GivenUp job_id retriable world =
    (job : Job) × (find_job job_id world.db.jobs ≡ some job)
    × ((job.status ≡ failed)
        ⊎ ((retriable ≡ true) × (job.status ≡ queued) × (job.lease_token ≡ none)))

retried : (retriable : Bool) (job : Job) → should_retry retriable job ≡ true → retriable ≡ true
unfolding should_retry
retried true job h = refl
retried false job h = h

module _ (env : Env) (world : World) (job_id worker token : ℕ)
    (h : IsHeld job_id worker token world) where
  authorized : lock_and_authorize world.db job_id worker token ≡ granted h.job
  authorized =
      (lock_and_authorize_iff world.db job_id worker token h.job).1
        (h.found, h.active, h.held, h.token_held)

  own_id : h.job.id ≡ job_id
  own_id = id-find_job job_id world.db.jobs h.found

  -- A report of an active status leaves the job held, accepted or not.
  pub report_progress-IsHeld :
      (status : JobStatus) (progress : ℕ) (message : String) (payload : Payload)
      → is_terminal status ≡ false
      → IsHeld job_id worker token
          (report_progress env world job_id worker token status progress message payload).1
  unfolding report_progress
  report_progress-IsHeld status progress message payload active =
      elim (Bool-cases (can_transition h.job.status status)) [
        | inl legal ↦
            let stored =
              progress_recorded env world job_id worker token status progress message payload
                (h.found, h.active, h.held, h.token_held) in
            rw (authorized, legal, report_progress)
              record {
                job = next_seq (progress_row env status progress message h.job);
                found = stored.stored;
                active = ap is_terminal stored.status_set ∙ active;
                held = stored.lease_kept.0;
                token_held = stored.lease_kept.1;
              }
        | inr illegal ↦ rw (authorized, illegal, report_progress) h
      ]

  -- An accepted completion leaves the job completed, and any other leaves it as it was.
  pub complete-AfterCompletion :
      (asset_id : ℕ) (output : Output)
      → AfterCompletion job_id worker token (complete env world job_id worker token asset_id output)
  unfolding complete complete_row attach_output next_seq
  complete-AfterCompletion asset_id output = elim (Option-cases (parse_kind output.kind)) [
    | inl e ↦ rw (authorized, e, complete) h
    | inr (kind, e) ↦
        elim (Option-cases
          (insert_asset (output_row env h.job asset_id kind output) world.db.assets)) [
            | inl f ↦ rw (authorized, e, f, complete) h
            | inr (assets, f) ↦
                rw (authorized, e, f, complete)
                  (
                    next_seq (complete_row env.now h.job),
                    record_event-stored env world
                        (attach_output (record world.db { assets = assets }) h.job
                          (output_row env h.job asset_id kind output))
                        job_id (complete_row env.now h.job) EventType.completed "" (asset asset_id)
                        h.found own_id,
                    refl,
                    refl,
                  )
          ]
  ]

  -- A failure report always gives the job up.
  pub fail-GivenUp :
      (code : ErrorCode) (message : String) (retriable : Bool)
      → GivenUp job_id retriable (fail env world job_id worker token code message retriable).1
  unfolding fail fail_row retry_row should_retry next_seq
  fail-GivenUp code message retriable = elim (Bool-cases (should_retry retriable h.job)) [
    | inl again ↦
        rw (authorized, again, fail)
          (
            next_seq (retry_row h.job),
            record_event-stored env world world.db job_id (retry_row h.job) EventType.status
                "Retrying…" empty h.found own_id,
            inr (retried retriable h.job again, refl, refl),
          )
    | inr last ↦
        rw (authorized, last, fail)
          (
            next_seq (fail_row env.now code message h.job),
            record_event-stored env world world.db job_id (fail_row env.now code message h.job)
                EventType.failed (safe_failure_message message) empty h.found own_id,
            inl refl,
          )
  ]
