-- ===== src/Service/Finality.antt =====
-- How a row may change from one transaction to the next, whatever the operation.
use mathlib.Core.Path.{subst}
use zolexai.Prelude.{
  ℕ, String, ◌≤◌, ◌≡◌, refl, sym, ap, ◌∙◌, Bool, true, false, not, none, some, List, [], ◌∷◌, ◌++◌,
  arith, ◌==◌, ==_iff, Bool-cases, Option-cases, inl, inr,
}
use zolexai.Job.{
  JobStatus, is_terminal, can_transition, Job, EventType, ErrorCode, Payload, asset, empty,
}
use zolexai.Storage.{insert_asset}
use zolexai.Database.{Db, find_job, put_job, append_event, next_seq, attach_output}
use zolexai.Database.Rows.{id-find_job, find_job-put_job, find_job-append}
use zolexai.Service.Messages.{safe_failure_message}
use zolexai.Service.{
  World, Env, lock_and_authorize, record_event, report_progress, progress_row, complete,
  complete_row, fail, fail_row, retry_row, should_retry, cancel, cancel_row, cancel_locked, Output,
  parse_kind, output_row,
}
use zolexai.Service.Invariant.{lock_and_authorize-granted, Authorized-cases}

-- A row keeps its identity, its owner and its workflow, never loses an attempt or an event, and
-- once it is terminal it never changes at all.
pub record RowEvolves (j k : Job) : Type 0 where
  pub same_id : k.id ≡ j.id
  pub same_owner : k.user_id ≡ j.user_id
  pub same_workflow : k.workflow_id ≡ j.workflow_id
  pub same_limit : k.max_attempts ≡ j.max_attempts
  pub same_key : k.idempotency_key ≡ j.idempotency_key
  pub attempts : j.attempt_count ≤ k.attempt_count
  pub events : j.last_event_seq ≤ k.last_event_seq
  pub frozen : is_terminal j.status ≡ true → k ≡ j

pub RowEvolves-refl : (j : Job) → RowEvolves j j
RowEvolves-refl j = ground arith

pub RowEvolves-trans : (j k l : Job) → RowEvolves j k → RowEvolves k l → RowEvolves j l
RowEvolves-trans j k l a b = record {
  same_id = b.same_id ∙ a.same_id;
  same_owner = b.same_owner ∙ a.same_owner;
  same_workflow = b.same_workflow ∙ a.same_workflow;
  same_limit = b.same_limit ∙ a.same_limit;
  same_key = b.same_key ∙ a.same_key;
  attempts = omega (arith, a.attempts, b.attempts);
  events = omega (arith, a.events, b.events);
  frozen = λ t. b.frozen (ap (λ x. is_terminal x.status) (a.frozen t) ∙ t) ∙ a.frozen t;
}

-- No row is lost, and each one changes as above.
abbrev pub Evolves : List Job → List Job → Type 0
Evolves before after =
    (id : ℕ) (j : Job)
    → find_job id before ≡ some j
    → (k : Job) × (find_job id after ≡ some k) × RowEvolves j k

pub Evolves-refl : (jobs : List Job) → Evolves jobs jobs
Evolves-refl jobs id j e = (j, e, RowEvolves-refl j)

pub Evolves-trans :
    (before between after : List Job)
    → Evolves before between
    → Evolves between after
    → Evolves before after
Evolves-trans before between after a b id j e =
    let (k, found, first) = a id j e in
    let (l, found', second) = b id k found in (l, found', RowEvolves-trans j k l first second)

pub put_job-Evolves :
    (row : Job) (jobs : List Job) {old : Job}
    → find_job row.id jobs ≡ some old
    → RowEvolves old row
    → Evolves jobs (put_job row jobs)
put_job-Evolves row jobs {old} found step id j e = elim (Bool-cases (row.id == id)) [
  | inl own ↦
      let own_id = (==_iff row.id id).0 own in
      let same : old ≡ j = cc (found, e, ap (λ x. find_job x jobs) own_id) in
      (
        row,
        rw (find_job-put_job row id jobs found, own) refl,
        subst (λ x. RowEvolves x row) same step,
      )
  | inr other ↦ (j, rw (find_job-put_job row id jobs found, other) e, RowEvolves-refl j)
]

pub append-Evolves :
    (row : Job) (jobs : List Job) → find_job row.id jobs ≡ none → Evolves jobs (jobs ++ row ∷ [])
append-Evolves row jobs fresh id j e = elim (Bool-cases (row.id == id)) [
  | inl own ↦ cc (fresh, e, ap (λ x. find_job x jobs) ((==_iff row.id id).0 own))
  | inr other ↦ (j, rw (find_job-append row id jobs fresh, other) e, RowEvolves-refl j)
]

module _ (env : Env) (world : World) (db : Db) (id : ℕ) {job : Job} (row : Job)
    (event_type : EventType) (message : String) (payload : Payload) where
  -- An operation that records an event on an active row.
  pub record_event-Evolves :
      find_job id db.jobs ≡ some job
      → RowEvolves job (next_seq row)
      → Evolves db.jobs (record_event env world db row event_type message payload).1.db.jobs
  unfolding record_event append_event
  record_event-Evolves found step =
      put_job-Evolves (next_seq row) db.jobs {old = job}
        (subst (λ k. find_job k db.jobs ≡ some job)
          (sym (step.same_id ∙ id-find_job id db.jobs found)) found)
        step

-- What each operation writes over an active row.
progress_row-RowEvolves :
    (env : Env) (status : JobStatus) (progress : ℕ) (message : String) (job : Job)
    → is_terminal job.status ≡ false
    → RowEvolves job (next_seq (progress_row env status progress message job))
unfolding progress_row next_seq
progress_row-RowEvolves env status progress message job active = ground arith

complete_row-RowEvolves :
    (now : ℕ) (job : Job)
    → is_terminal job.status ≡ false
    → RowEvolves job (next_seq (complete_row now job))
unfolding complete_row next_seq
complete_row-RowEvolves now job active = ground arith

retry_row-RowEvolves :
    (job : Job) → is_terminal job.status ≡ false → RowEvolves job (next_seq (retry_row job))
unfolding retry_row next_seq
retry_row-RowEvolves job active = ground arith

fail_row-RowEvolves :
    (now : ℕ) (code : ErrorCode) (message : String) (job : Job)
    → is_terminal job.status ≡ false
    → RowEvolves job (next_seq (fail_row now code message job))
unfolding fail_row next_seq
fail_row-RowEvolves now code message job active = ground arith

cancel_row-RowEvolves :
    (now : ℕ) (job : Job)
    → is_terminal job.status ≡ false
    → RowEvolves job (next_seq (cancel_row now job))
unfolding cancel_row next_seq
cancel_row-RowEvolves now job active = ground arith

module _ (env : Env) (world : World) where
  cancel_locked-Evolves :
      (id : ℕ)
      → Evolves world.db.jobs (cancel_locked env world (find_job id world.db.jobs)).1.db.jobs
  unfolding cancel_locked
  cancel_locked-Evolves id = elim (Option-cases (find_job id world.db.jobs)) [
    | inl missing ↦ rw missing (Evolves-refl world.db.jobs)
    | inr (job, e) ↦ elim (Bool-cases (is_terminal job.status)) [
      | inl t ↦ rw (e, t) (Evolves-refl world.db.jobs)
      | inr t ↦
          rw (e, t)
            (record_event-Evolves env world world.db id (cancel_row env.now job) EventType.cancelled
              "Cancelled." empty e (cancel_row-RowEvolves env.now job t))
    ]
  ]

  pub cancel-Evolves : (job : Job) → Evolves world.db.jobs (cancel env world job).1.db.jobs
  unfolding cancel
  cancel-Evolves job = elim (Bool-cases (is_terminal job.status)) [
    | inl t ↦ rw t (Evolves-refl world.db.jobs)
    | inr t ↦ rw t (cancel_locked-Evolves job.id)
  ]

module _ (env : Env) (world : World) (job_id worker token : ℕ) where
  pub report_progress-Evolves :
      (status : JobStatus) (progress : ℕ) (message : String) (payload : Payload)
      → Evolves world.db.jobs
          (report_progress env world job_id worker token status progress message payload).1.db.jobs
  unfolding report_progress
  report_progress-Evolves status progress message payload =
      elim (Authorized-cases (lock_and_authorize world.db job_id worker token)) [
        | inl (reason, e) ↦ rw (e, report_progress) (Evolves-refl world.db.jobs)
        | inr (job, e) ↦
            let (found, active, _, _) = lock_and_authorize-granted world.db job_id worker token e in
            elim (Bool-cases (not (can_transition job.status status))) [
              | inl t ↦ rw (e, t, report_progress) (Evolves-refl world.db.jobs)
              | inr t ↦
                  rw (e, t, report_progress)
                    (record_event-Evolves env world world.db job_id
                      (progress_row env status progress message job) EventType.progress
                      (progress_row env status progress message job).stage_hint payload found
                      (progress_row-RowEvolves env status progress message job active))
            ]
      ]

  pub fail-Evolves :
      (code : ErrorCode) (message : String) (retriable : Bool)
      → Evolves world.db.jobs (fail env world job_id worker token code message retriable).1.db.jobs
  unfolding fail
  fail-Evolves code message retriable =
      elim (Authorized-cases (lock_and_authorize world.db job_id worker token)) [
        | inl (reason, e) ↦ rw (e, fail) (Evolves-refl world.db.jobs)
        | inr (job, e) ↦
            let (found, active, _, _) = lock_and_authorize-granted world.db job_id worker token e in
            elim (Bool-cases (should_retry retriable job)) [
              | inl t ↦
                  rw (e, t, fail)
                    (record_event-Evolves env world world.db job_id (retry_row job) EventType.status
                      "Retrying…" empty found (retry_row-RowEvolves job active))
              | inr t ↦
                  rw (e, t, fail)
                    (record_event-Evolves env world world.db job_id
                      (fail_row env.now code message job) EventType.failed
                      (safe_failure_message message) empty found
                      (fail_row-RowEvolves env.now code message job active))
            ]
      ]

  pub complete-Evolves :
      (asset_id : ℕ) (output : Output)
      → Evolves world.db.jobs (complete env world job_id worker token asset_id output).1.db.jobs
  unfolding complete attach_output
  complete-Evolves asset_id output =
      elim (Authorized-cases (lock_and_authorize world.db job_id worker token)) [
        | inl (reason, e) ↦ rw (e, complete) (Evolves-refl world.db.jobs)
        | inr (job, e) ↦
            let (found, active, _, _) = lock_and_authorize-granted world.db job_id worker token e in
            elim (Option-cases (parse_kind output.kind)) [
              | inl unknown ↦ rw (e, unknown, complete) (Evolves-refl world.db.jobs)
              | inr (kind, k) ↦
                  let file = output_row env job asset_id kind output in
                  elim (Option-cases (insert_asset file world.db.assets)) [
                    | inl taken ↦ rw (e, k, taken, complete) (Evolves-refl world.db.jobs)
                    | inr (assets, a) ↦
                        rw (e, k, a, complete)
                          (record_event-Evolves env world
                            (attach_output (record world.db { assets = assets }) job file) job_id
                            (complete_row env.now job) EventType.completed "" (asset asset_id) found
                            (complete_row-RowEvolves env.now job active))
                  ]
            ]
      ]
