-- ===== src/Service/Leases.antt =====
-- Who may report on a job, and what an accepted report leaves in its row.
use mathlib.Core.Path.{subst}
use zolexai.Prelude.{
  ℕ, String, ◌+◌, ◌≡◌, ◌≢◌, ◌↔◌, refl, sym, Bool, true, false, not, some, arith, max,
  same_option_iff, ==_iff, Bool-cases, inl, inr,
}
use zolexai.Job.{JobStatus, is_terminal, can_transition, Job, ErrorCode, Payload, EventType}
use zolexai.Database.{Db, find_job, next_seq, append_event, extend_lease}
use zolexai.Database.Rows.{id-find_job, find_job-put_job}
use zolexai.Service.{
  World, Env, Refusal, lease_not_held, already, accepted, rejected, granted, refused,
  lock_and_authorize, report_progress, progress_row, complete, fail, Output, record_event,
}
use zolexai.Service.Invariant.{lock_and_authorize-granted, Authorized-cases}

-- A report is authorized exactly for an active job, from the worker and with the token of its row.
pub lock_and_authorize_iff :
    (db : Db) (job_id worker token : ℕ) (job : Job)
    → (lock_and_authorize db job_id worker token ≡ granted job) ↔ (
        (find_job job_id db.jobs ≡ some job)
        × (is_terminal job.status ≡ false)
        × (job.worker_id ≡ some worker)
        × (job.lease_token ≡ some token))
unfolding lock_and_authorize
lock_and_authorize_iff db job_id worker token job = (
  λ h. lock_and_authorize-granted db job_id worker token h,
  λ (found, active, held, token_held). ground (
    arith,
    same_option_iff job.worker_id (some worker),
    same_option_iff job.lease_token (some token),
  ),
)

-- A refused report answers why and leaves the world as it was, whatever it reports.
abbrev pub AllRefused : Env → World → ℕ → ℕ → ℕ → Refusal → Type 0
AllRefused env world job_id worker token reason =
    ((status : JobStatus) (progress : ℕ) (message : String) (payload : Payload)
      → report_progress env world job_id worker token status progress message payload
        ≡ (rejected reason, world))
    × ((asset_id : ℕ) (output : Output)
        → complete env world job_id worker token asset_id output ≡ (rejected reason, world))
    × ((code : ErrorCode) (message : String) (retriable : Bool)
        → fail env world job_id worker token code message retriable ≡ (rejected reason, world))

module _ (env : Env) (world : World) (job_id worker token : ℕ) where
  pub refused-AllRefused :
      (reason : Refusal)
      → lock_and_authorize world.db job_id worker token ≡ refused reason
      → AllRefused env world job_id worker token reason
  unfolding report_progress complete fail
  refused-AllRefused reason e = (
    λ status progress message payload. rw (e, report_progress) refl,
    λ asset_id output. rw (e, complete) refl,
    λ code message retriable. rw (e, fail) refl,
  )

  -- Every report on an active job under a token that is not that of its row is refused with
  -- `lease_not_held` and leaves the world as it was.
  pub stale_reports :
      {job : Job}
      → find_job job_id world.db.jobs ≡ some job
      → is_terminal job.status ≡ false
      → job.lease_token ≢ some token
      → AllRefused env world job_id worker token lease_not_held
  unfolding lock_and_authorize
  stale_reports {job} found active other =
      refused-AllRefused lease_not_held
        (ground (arith, same_option_iff job.lease_token (some token)))

  -- No report reaches a job that has finished, not even from the worker that held its lease.
  pub finished_reports :
      {job : Job}
      → find_job job_id world.db.jobs ≡ some job
      → is_terminal job.status ≡ true
      → AllRefused env world job_id worker token (already job.status)
  unfolding lock_and_authorize
  finished_reports {job} found finished = refused-AllRefused (already job.status) (ground arith)

  -- What an accepted progress report leaves: its row is stored with the reported status, the larger
  -- of the two percentages, a lease that runs from now, and the next event number.
  pub record ProgressStored (old row : Job) (status : JobStatus) (progress : ℕ) (after : World)
      : Type 0 where
    pub was : find_job job_id world.db.jobs ≡ some old
    pub stored : find_job job_id after.db.jobs ≡ some row
    pub status_set : row.status ≡ status
    pub progress_kept : row.progress ≡ max old.progress progress
    pub lease_extended : row.lease_expires_at ≡ some (env.now + env.lease_seconds)
    pub lease_kept : (row.worker_id ≡ some worker) × (row.lease_token ≡ some token)
    pub numbered : row.last_event_seq ≡ old.last_event_seq + 1

  pub progress_recorded :
      (status : JobStatus) (progress : ℕ) (message : String) (payload : Payload) {job : Job}
      → (find_job job_id world.db.jobs ≡ some job)
        × (is_terminal job.status ≡ false)
        × (job.worker_id ≡ some worker)
        × (job.lease_token ≡ some token)
      → ProgressStored job
          (next_seq (progress_row env status progress message job))
          status
          progress
          (record_event env world world.db
            (progress_row env status progress message job)
            EventType.progress
            (progress_row env status progress message job).stage_hint
            payload).1
  unfolding progress_row record_event append_event next_seq extend_lease
  progress_recorded status progress message payload {job} (found, active, held, token_held) =
      let own = id-find_job job_id world.db.jobs found in
      record {
        was = found;
        stored =
            rw
              (
                find_job-put_job (next_seq (progress_row env status progress message job)) job_id
                    world.db.jobs
                    (subst (λ k. find_job k world.db.jobs ≡ some job) (sym own) found),
                (==_iff job.id job_id).1 own,
              )
              refl;
        status_set = refl;
        progress_kept = refl;
        lease_extended = refl;
        lease_kept = (held, token_held);
        numbered = refl;
      }

  -- If a progress report is accepted, there was a row under the id, and the row stored in its
  -- place has the reported status, the larger of the two percentages, a lease that runs from now,
  -- the same worker and token, and the next event number.
  pub report_progress-stored :
      (status : JobStatus) (progress : ℕ) (message : String) (payload : Payload) {row : Job}
      → (report_progress env world job_id worker token status progress message payload).0
        ≡ accepted row
      → (old : Job) × ProgressStored old row status progress
          (report_progress env world job_id worker token status progress message payload).1
  unfolding report_progress record_event append_event
  report_progress-stored status progress message payload {row} h =
      elim (Authorized-cases (lock_and_authorize world.db job_id worker token)) [
        | inl (reason, e) ↦ cc (rw (e, report_progress) at h)
        | inr (job, e) ↦ elim (Bool-cases (not (can_transition job.status status))) [
          | inl t ↦ cc (rw (e, t, report_progress) at h)
          | inr t ↦
              let kept =
                progress_recorded status progress message payload
                  (lock_and_authorize-granted world.db job_id worker token e) in
              rw (e, t, report_progress)
                (
                  job,
                  subst
                      (λ r.
                        ProgressStored job r status progress
                          (record_event env world world.db
                            (progress_row env status progress message job) EventType.progress
                            (progress_row env status progress message job).stage_hint payload).1)
                      (cc (rw (e, t, report_progress) at h)) kept,
                )
        ]
      ]
