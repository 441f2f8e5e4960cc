-- ===== src/Service/Creation/Validity.antt =====
-- Creating a job keeps the world valid, on every path through the guards.
use mathlib.Core.Path.{subst}
use zolexai.Prelude.{
  ℕ, String, ◌≤◌, ◌≡◌, refl, ap, ◌∙◌, Bool, false, Option, none, some, List, [], ◌∷◌, arith, ◌==◌,
  ==_iff, All-append, Bool-cases, inl, inr,
}
use zolexai.Job.{Job, is_terminal, EventType, Params, empty}
use zolexai.Registry.{Registry, Verdict, valid, invalid, unsupported_workflow}
use zolexai.Workflow.{WorkflowDefinition}
use zolexai.Limits.{Counter, User, check_request_rate, check_generation_concurrency}
use zolexai.Database.{Db, find_job}
use zolexai.Database.Rows.{find_job-append, append-KeysDistinct}
use zolexai.Database.Log.{seqs, upto, last_seq}
use zolexai.Database.Validity.{RowIsValid, LogIsDense}
use zolexai.Service.{World, Env, record_event}
use zolexai.Service.Invariant.{WorldIsValid, record_event-WorldIsValid}
use zolexai.Service.Creation.{
  Request, new_row, create_job, stored, violates_unique, insert_and_announce, check_running,
  check_inputs, check_verdict, counted, create, MediaProblem, input_problems,
}

new_row-RowIsValid :
    (env : Env) (id user : ℕ) (d : WorkflowDefinition) (prompt : String) (params : Params)
    (key : Option String)
    → 1 ≤ env.max_attempts
    → RowIsValid (new_row env id user d prompt params key)
unfolding new_row is_terminal
new_row-RowIsValid env id user d prompt params key h = ground arith

violates_unique-id :
    (db : Db) (id user : ℕ) (key : Option String)
    → violates_unique db id user key ≡ false
    → find_job id db.jobs ≡ none
unfolding violates_unique
violates_unique-id db id user key h = ground arith

module _ (db : Db) (job : Job) (inputs : List (String × ℕ))
    (fresh : find_job job.id db.jobs ≡ none) where
  find_job-create_job : find_job job.id (create_job db job inputs).jobs ≡ some job
  unfolding create_job
  find_job-create_job = rw (find_job-append job job.id db.jobs fresh) (ground arith)

  create_job-LogIsDense :
      job.last_event_seq ≡ 0 → LogIsDense db → LogIsDense (create_job db job inputs)
  unfolding create_job
  create_job-LogIsDense start dense id =
      rw (find_job-append job id db.jobs fresh) (elim (Bool-cases (job.id == id)) [
        | inl own ↦
            rw (own, start)
              (subst (λ k. seqs k db.events ≡ upto 0) ((==_iff job.id id).0 own)
                (dense job.id ∙ ap (λ o. upto (last_seq o)) fresh))
        | inr other ↦ rw other (dense id)
      ])

-- A valid new row under a fresh id, with its first event.
inserted-WorldIsValid :
    (env : Env) (world : World) (job : Job) (inputs : List (String × ℕ))
    → WorldIsValid world
    → RowIsValid job
    → find_job job.id world.db.jobs ≡ none
    → job.last_event_seq ≡ 0
    → WorldIsValid
        (record_event env world
          (create_job world.db job inputs)
          job
          EventType.status
          job.stage_hint
          empty).1
unfolding create_job
inserted-WorldIsValid env world job inputs v row fresh start =
    record_event-WorldIsValid env world (create_job world.db job inputs) job EventType.status
      job.stage_hint empty {old = job} (append-KeysDistinct job world.db.jobs fresh v.keys)
      (All-append RowIsValid world.db.jobs (job ∷ []) v.rows (row, tt))
      (create_job-LogIsDense world.db job inputs fresh start v.log) v.recorded row
      (find_job-create_job world.db job inputs fresh) refl

module _ (env : Env) (some_attempt : 1 ≤ env.max_attempts) (registry : Registry) (id : ℕ)
    (user : User) (request : Request) (key : Option String) where
  insert_and_announce-WorldIsValid :
      (world : World) (d : WorkflowDefinition)
      → WorldIsValid world
      → WorldIsValid (insert_and_announce env world id user d request key).1
  unfolding insert_and_announce
  insert_and_announce-WorldIsValid world d v =
      elim (Bool-cases (violates_unique world.db id user.id key)) [
        | inl clash ↦ rw clash v
        | inr free ↦ rw free (record {
          keys = (recorded free).keys;
          rows = (recorded free).rows;
          log = (recorded free).log;
          recorded = (recorded free).recorded;
        })
      ]
    where
      params : Params
      params = (stored world.db user.id d request).0

      inputs : List (String × ℕ)
      inputs = (stored world.db user.id d request).1

      job : Job
      job = new_row env id user.id d request.prompt params key

      recorded :
          violates_unique world.db id user.id key ≡ false
          → WorldIsValid
              (record_event env world
                (create_job world.db job inputs)
                job
                EventType.status
                job.stage_hint
                empty).1
      recorded free =
          inserted-WorldIsValid env world job inputs v
            (new_row-RowIsValid env id user.id d request.prompt params key some_attempt)
            (unfold new_row in violates_unique-id world.db id user.id key free)
            (unfold new_row in refl)

  check_running-WorldIsValid :
      (world : World) (d : WorkflowDefinition) (running : Option ℕ)
      → WorldIsValid world
      → WorldIsValid (check_running env world id user d request key running).1
  check_running-WorldIsValid world d none v = insert_and_announce-WorldIsValid world d v
  check_running-WorldIsValid world d (some running) v = v

  check_inputs-WorldIsValid :
      (world : World) (d : WorkflowDefinition) (ps : List MediaProblem)
      → WorldIsValid world
      → WorldIsValid (check_inputs env world id user d request key ps).1
  check_inputs-WorldIsValid world d (p ∷ ps) v = v
  check_inputs-WorldIsValid world d [] v =
      check_running-WorldIsValid world d
        (check_generation_concurrency env.default_concurrency_limit world.db.jobs user) v

  check_verdict-WorldIsValid :
      (world : World) (w : Verdict)
      → WorldIsValid world
      → WorldIsValid (check_verdict env world id user request key w).1
  check_verdict-WorldIsValid world unsupported_workflow v = v
  check_verdict-WorldIsValid world (invalid code ps) v = v
  check_verdict-WorldIsValid world (valid d) v =
      check_inputs-WorldIsValid world d (input_problems world.db.assets user.id d request.inputs) v

  -- The request counter is no part of the tables.
  pub create-WorldIsValid :
      (world : World)
      → WorldIsValid world
      → WorldIsValid (create env world registry id user request key).1
  unfolding create
  create-WorldIsValid world v = elim (Bool-cases admitted) [
    | inl yes_admitted ↦
        rw yes_admitted (check_verdict-WorldIsValid (counted world user.id counter) _ v')
    | inr refused ↦ rw refused v'
  ]
    where
      admitted : Bool
      admitted = (check_request_rate env.redis_up env.now 30 60 (world.redis.counters user.id)).0

      counter : Option Counter
      counter = (check_request_rate env.redis_up env.now 30 60 (world.redis.counters user.id)).1

      v' : WorldIsValid (counted world user.id counter)
      v' = record { keys = v.keys; rows = v.rows; log = v.log; recorded = v.recorded }
