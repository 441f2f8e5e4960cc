-- ===== src/Service/Invariant.antt =====
-- Worker reports and cancellation keep the tables and the published events valid.
use zolexai.Prelude.{
  ℕ, String, ◌≤◌, ◌≡◌, refl, sym, ap, Bool, true, false, some, List, [], ◌∷◌, ◌++◌, arith, is_some,
  All, All-append, Some, Some-append_left, Some-append_right, Option-cases, Bool-cases,
  same_option_iff, inl, inr, ◌⊎◌,
}
use zolexai.Job.{
  JobStatus, is_terminal, can_transition, Job, Event, EventType, Payload, asset, empty, Asset,
  ErrorCode,
}
use mathlib.Core.Path.{subst}
use zolexai.Service.Messages.{safe_failure_message}
use zolexai.Storage.{insert_asset}
use zolexai.Database.{attach_output}
use zolexai.Database.{Db, find_job, append_row, next_seq}
use zolexai.Database.Rows.{
  id-find_job, All-put_job, All-find_job, KeysDistinct, put_job-KeysDistinct,
}
use zolexai.Database.Validity.{next_seq-RowIsValid}
use zolexai.Database.Validity.{RowIsValid, LogIsDense, AllRecorded, append_event-LogIsDense}
use zolexai.Service.{parse_kind, output_row}
use zolexai.Service.{
  World, Env, Refusal, Authorized, granted, refused, lock_and_authorize, record_event,
  publish_event, report_progress, progress_row, complete, complete_row, fail, fail_row, retry_row,
  should_retry, cancel, cancel_row, cancel_locked, Output,
}

pub record WorldIsValid (w : World) : Type 0 where
  pub keys : KeysDistinct w.db.jobs
  pub rows : All RowIsValid w.db.jobs
  pub log : LogIsDense w.db
  pub recorded : AllRecorded w.db.events w.redis.channel

AllRecorded-append :
    (events channel : List Event) (e : Event)
    → AllRecorded events channel
    → AllRecorded (events ++ e ∷ []) channel
AllRecorded-append events [] e h = tt
AllRecorded-append events (x ∷ xs) e h =
    (Some-append_left (λ f. f ≡ x) events (e ∷ []) h.0, AllRecorded-append events xs e h.1)

publish_event-AllRecorded :
    (up : Bool) (events channel : List Event) (e : Event)
    → AllRecorded events channel
    → AllRecorded (events ++ e ∷ []) (publish_event up e channel)
unfolding publish_event
publish_event-AllRecorded true events channel e h =
    All-append (λ x. Some (λ f. f ≡ x) (events ++ e ∷ [])) channel (e ∷ [])
      (AllRecorded-append events channel e h)
      (Some-append_right (λ f. f ≡ e) events (e ∷ []) (inl refl), tt)
publish_event-AllRecorded false events channel e h = AllRecorded-append events channel e h

module _ (env : Env) (world : World) (db : Db) (row : Job) (event_type : EventType)
    (message : String) (payload : Payload) where
  pub record_event-WorldIsValid :
      {old : Job}
      → KeysDistinct db.jobs
      → All RowIsValid db.jobs
      → LogIsDense db
      → AllRecorded db.events world.redis.channel
      → RowIsValid row
      → find_job row.id db.jobs ≡ some old
      → old.last_event_seq ≡ row.last_event_seq
      → WorldIsValid (record_event env world db row event_type message payload).1
  unfolding record_event
  record_event-WorldIsValid keys rows log recorded valid found same = record {
    keys = put_job-KeysDistinct (next_seq row) db.jobs keys;
    rows = All-put_job RowIsValid (next_seq row) db.jobs (next_seq-RowIsValid row valid) rows;
    log = append_event-LogIsDense db row event_type message payload env.now found same log;
    recorded =
        publish_event-AllRecorded env.redis_up db.events world.redis.channel
          (append_row row event_type message payload env.now) recorded;
  }

-- A granted report comes from the worker that holds the lease of an active job.
pub lock_and_authorize-granted :
    (db : Db) (job_id worker token : ℕ) {job : Job}
    → lock_and_authorize db job_id worker token ≡ granted job
    → (find_job job_id db.jobs ≡ some job)
      × (is_terminal job.status ≡ false)
      × (job.worker_id ≡ some worker)
      × (job.lease_token ≡ some token)
unfolding lock_and_authorize
lock_and_authorize-granted db job_id worker token {job} h = ground (
  arith,
  same_option_iff job.worker_id (some worker),
  same_option_iff job.lease_token (some token),
)

progress_row-RowIsValid :
    (env : Env) (status : JobStatus) (progress : ℕ) (message : String) (job : Job)
    → progress ≤ 100
    → is_terminal job.status ≡ false
    → is_some job.lease_token ≡ true
    → can_transition job.status status ≡ true
    → RowIsValid job
    → RowIsValid (progress_row env status progress message job)
unfolding progress_row can_transition
progress_row-RowIsValid env status progress message job range active held allowed v = ground arith

complete_row-RowIsValid : (now : ℕ) (job : Job) → RowIsValid job → RowIsValid (complete_row now job)
unfolding complete_row is_terminal
complete_row-RowIsValid now job v = ground arith

retry_row-RowIsValid :
    (retriable : Bool) (job : Job)
    → should_retry retriable job ≡ true
    → RowIsValid job
    → RowIsValid (retry_row job)
unfolding retry_row should_retry is_terminal
retry_row-RowIsValid retriable job h v = ground arith

fail_row-RowIsValid :
    (now : ℕ) (code : ErrorCode) (message : String) (job : Job)
    → RowIsValid job
    → RowIsValid (fail_row now code message job)
unfolding fail_row is_terminal
fail_row-RowIsValid now code message job v = ground arith

cancel_row-RowIsValid : (now : ℕ) (job : Job) → RowIsValid job → RowIsValid (cancel_row now job)
unfolding cancel_row is_terminal
cancel_row-RowIsValid now job v = ground arith

pub Authorized-cases :
    (a : Authorized)
    → ((reason : Refusal) × (a ≡ refused reason)) ⊎ ((job : Job) × (a ≡ granted job))
Authorized-cases (refused reason) = inl (reason, refl)
Authorized-cases (granted job) = inr (job, refl)

module _ (env : Env) (world : World) (valid : WorldIsValid world) where
  find_job-RowIsValid :
      (id : ℕ) {job : Job}
      → find_job id world.db.jobs ≡ some job
      → RowIsValid job × (find_job job.id world.db.jobs ≡ some job)
  find_job-RowIsValid id {job} e = (
    All-find_job RowIsValid id world.db.jobs valid.rows e,
    subst (λ k. find_job k world.db.jobs ≡ some job) (sym (id-find_job id world.db.jobs e)) e,
  )

  -- An operation that records an event on a row of the tables, changed within its validity.
  recorded_row :
      (id : ℕ) {job : Job} (row : Job) (event_type : EventType) (message : String)
      (payload : Payload)
      → find_job id world.db.jobs ≡ some job
      → (RowIsValid job → RowIsValid row)
      → row.id ≡ job.id
      → job.last_event_seq ≡ row.last_event_seq
      → WorldIsValid (record_event env world world.db row event_type message payload).1
  recorded_row id {job} row event_type message payload e keeps same seq =
      let (v, found) = find_job-RowIsValid id e in
      record_event-WorldIsValid env world world.db row event_type message payload valid.keys
        valid.rows valid.log valid.recorded (keeps v)
        (subst (λ k. find_job k world.db.jobs ≡ some job) (sym same) found) seq

  cancel_found-WorldIsValid :
      (id : ℕ) (job : Job)
      → find_job id world.db.jobs ≡ some job
      → WorldIsValid (cancel_locked env world (some job)).1
  unfolding cancel_locked
  cancel_found-WorldIsValid id job e = elim (Bool-cases (is_terminal job.status)) [
    | inl t ↦ rw t valid
    | inr t ↦ rw t (
        recorded_row id (cancel_row env.now job) EventType.cancelled "Cancelled." empty e
          (cancel_row-RowIsValid env.now job) (unfold cancel_row in refl)
          (unfold cancel_row in refl))
  ]

  cancel_locked-WorldIsValid :
      (id : ℕ) → WorldIsValid (cancel_locked env world (find_job id world.db.jobs)).1
  cancel_locked-WorldIsValid id = elim (Option-cases (find_job id world.db.jobs)) [
    | inl missing ↦ rw missing (unfold cancel_locked in valid)
    | inr (job, e) ↦ rw e (cancel_found-WorldIsValid id job e)
  ]

  -- Whoever cancels, and whatever row they loaded, the world stays valid.
  pub cancel-WorldIsValid : (job : Job) → WorldIsValid (cancel env world job).1
  unfolding cancel
  cancel-WorldIsValid job = elim (Bool-cases (is_terminal job.status)) [
    | inl t ↦ rw t valid
    | inr t ↦ rw t (cancel_locked-WorldIsValid job.id)
  ]

module _ (env : Env) (world : World) (job_id worker token : ℕ) (valid : WorldIsValid world) where
  -- A report splits on its authorization: refused, it changes nothing.
  pub report_progress-WorldIsValid :
      (status : JobStatus) (progress : ℕ) (message : String) (payload : Payload)
      → progress ≤ 100
      → WorldIsValid
          (report_progress env world job_id worker token status progress message payload).1
  unfolding report_progress
  report_progress-WorldIsValid status progress message payload range =
      elim (Authorized-cases (lock_and_authorize world.db job_id worker token)) [
        | inl (reason, e) ↦ rw (e, report_progress) valid
        | inr (job, e) ↦ elim (Bool-cases (can_transition job.status status)) [
          | inl t ↦
              let (found, active, held, token_held) =
                lock_and_authorize-granted world.db job_id worker token e in
              rw (e, t, report_progress)
                (recorded_row env world valid job_id (progress_row env status progress message job)
                  EventType.progress (progress_row env status progress message job).stage_hint
                  payload found
                  (progress_row-RowIsValid env status progress message job range active
                    (ap is_some token_held) t)
                  (unfold progress_row in refl) (unfold progress_row in refl))
          | inr t ↦ rw (e, t, report_progress) valid
        ]
      ]

  pub fail-WorldIsValid :
      (code : ErrorCode) (message : String) (retriable : Bool)
      → WorldIsValid (fail env world job_id worker token code message retriable).1
  unfolding fail
  fail-WorldIsValid code message retriable =
      elim (Authorized-cases (lock_and_authorize world.db job_id worker token)) [
        | inl (reason, e) ↦ rw (e, fail) valid
        | inr (job, e) ↦
            let (found, active, held, token_held) =
              lock_and_authorize-granted world.db job_id worker token e in
            elim (Bool-cases (should_retry retriable job)) [
              | inl t ↦
                  let kept =
                    recorded_row env world valid job_id (retry_row job) EventType.status "Retrying…"
                      empty found (retry_row-RowIsValid retriable job t) (unfold retry_row in refl)
                      (unfold retry_row in refl) in
                  rw (e, t, fail)
                    (record {
                      keys = kept.keys;
                      rows = kept.rows;
                      log = kept.log;
                      recorded = kept.recorded;
                    })
              | inr t ↦
                  rw (e, t, fail)
                    (recorded_row env world valid job_id (fail_row env.now code message job)
                      EventType.failed (safe_failure_message message) empty found
                      (fail_row-RowIsValid env.now code message job) (unfold fail_row in refl)
                      (unfold fail_row in refl))
            ]
      ]

  -- The output is registered and attached in the same transaction.
  completed_row :
      {job : Job} (file : Asset) (assets : List Asset) (payload : Payload)
      → find_job job_id world.db.jobs ≡ some job
      → WorldIsValid
          (record_event env world
            (attach_output (record world.db { assets = assets }) job file)
            (complete_row env.now job)
            EventType.completed
            ""
            payload).1
  unfolding attach_output complete_row
  completed_row {job} file assets payload e =
      let (v, found) = find_job-RowIsValid env world valid job_id e in
      record_event-WorldIsValid env world
        (attach_output (record world.db { assets = assets }) job file) (complete_row env.now job)
        EventType.completed "" payload {old = job} valid.keys valid.rows valid.log valid.recorded
        (complete_row-RowIsValid env.now job v) found refl

  pub complete-WorldIsValid :
      (asset_id : ℕ) (output : Output)
      → WorldIsValid (complete env world job_id worker token asset_id output).1
  unfolding complete
  complete-WorldIsValid asset_id output =
      elim (Authorized-cases (lock_and_authorize world.db job_id worker token)) [
        | inl (reason, e) ↦ rw (e, complete) valid
        | inr (job, e) ↦ elim (Option-cases (parse_kind output.kind)) [
          | inl unknown ↦ rw (e, unknown, complete) valid
          | inr (kind, k) ↦
              elim (Option-cases
                (insert_asset (output_row env job asset_id kind output) world.db.assets)) [
                  | inl taken ↦ rw (e, k, taken, complete) valid
                  | inr (assets, a) ↦
                      rw (e, k, a, complete)
                        (completed_row (output_row env job asset_id kind output) assets
                          (asset asset_id)
                          (lock_and_authorize-granted world.db job_id worker token e).0)
                ]
        ]
      ]
