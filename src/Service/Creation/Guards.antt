-- ===== src/Service/Creation/Guards.antt =====
-- What must hold for a job to be created, and what creation does to the rows that exist.
use zolexai.Prelude.{
  ℕ, String, ◌<◌, ◌≡◌, refl, Bool, true, false, Option, none, List, [], ◌∷◌, ◌++◌, arith, map,
  Bool-cases, inl, inr, leb,
}
use zolexai.Job.{Job}
use zolexai.Registry.{Registry, Verdict, valid, invalid, unsupported_workflow, validate_request}
use zolexai.Workflow.{WorkflowDefinition}
use zolexai.Limits.{
  Counter, User, check_request_rate, check_generation_concurrency, concurrency_limit_for,
}
use zolexai.Database.{find_job, count_active_for_user, next_seq, append_event}
use zolexai.Database.Rows.{put_job-append}
use zolexai.Service.{World, Env, record_event}
use zolexai.Service.Creation.{
  Request, Created, created, new_row, create_job, stored, violates_unique, insert_and_announce,
  check_running, check_inputs, check_verdict, counted, create, MediaProblem, input_problems,
  holds_key,
}

abbrev pub is_created : Created → Bool
is_created (created row) = true
is_created _ = false

module _ (env : Env) (registry : Registry) (id : ℕ) (user : User) (request : Request)
    (key : Option String) where
  abbrev pub row_for : World → WorkflowDefinition → Job
  row_for world d =
      new_row env id user.id d request.prompt (stored world.db user.id d request).0 key

  abbrev verdict : Verdict
  verdict =
      validate_request registry request.workflow_id request.prompt request.parameters
        (map (λ p. p.0) request.inputs)

  abbrev pub limit : ℕ
  limit = concurrency_limit_for env.default_concurrency_limit user

  -- What the guards have let through when a job is created: a valid request with usable media, a
  -- user below their limit, and an id and an idempotency key that no row has.
  pub record Admitted (world : World) (d : WorkflowDefinition) : Type 0 where
    pub request_valid : verdict ≡ valid d
    pub media_usable : input_problems world.db.assets user.id d request.inputs ≡ []
    pub below_limit : count_active_for_user user.id world.db.jobs < limit
    pub new_id : find_job id world.db.jobs ≡ none
    pub new_key : holds_key world.db user.id key ≡ false

  -- The answer to a creation, and the tables after it: either they are as they were and no job is
  -- answered, or the guards hold and the new row, at its first event, is the only change to jobs.
  pub data Outcome (world : World) : Created × World → Type 0 where
    unchanged :
        (answer : Created) (after : World)
        → is_created answer ≡ false
        → after.db ≡ world.db
        → Outcome world (answer, after)
    inserted :
        (d : WorkflowDefinition) (after : World)
        → Admitted world d
        → after.db.jobs ≡ world.db.jobs ++ next_seq (row_for world d) ∷ []
        → Outcome world (created (next_seq (row_for world d)), after)

  insert_and_announce-Outcome :
      (world : World) (d : WorkflowDefinition)
      → verdict ≡ valid d
      → input_problems world.db.assets user.id d request.inputs ≡ []
      → count_active_for_user user.id world.db.jobs < limit
      → Outcome world (insert_and_announce env world id user d request key)
  unfolding insert_and_announce violates_unique record_event append_event create_job new_row
      next_seq
  insert_and_announce-Outcome world d ok media below =
      elim (Bool-cases (violates_unique world.db id user.id key)) [
        | inl clash ↦ rw clash (unchanged _ world refl refl)
        | inr free ↦ rw free (
            inserted d _
              (record {
                request_valid = ok;
                media_usable = media;
                below_limit = below;
                new_id = fresh free;
                new_key = ground arith;
              })
              (put_job-append (row_for world d) (next_seq (row_for world d)) world.db.jobs refl
                (fresh free)))
      ]
    where
      fresh : violates_unique world.db id user.id key ≡ false → find_job id world.db.jobs ≡ none
      fresh free = ground arith

  check_running-Outcome :
      (world : World) (d : WorkflowDefinition)
      → verdict ≡ valid d
      → input_problems world.db.assets user.id d request.inputs ≡ []
      → Outcome world (
          check_running env world id user d request key
            (check_generation_concurrency env.default_concurrency_limit world.db.jobs user))
  unfolding check_generation_concurrency
  check_running-Outcome world d ok media =
      elim (Bool-cases (leb limit (count_active_for_user user.id world.db.jobs))) [
        | inl t ↦ rw t (unchanged _ world refl refl)
        | inr t ↦ rw t (insert_and_announce-Outcome world d ok media (ground arith))
      ]

  check_inputs-Outcome :
      (world : World) (d : WorkflowDefinition) (ps : List MediaProblem)
      → verdict ≡ valid d
      → input_problems world.db.assets user.id d request.inputs ≡ ps
      → Outcome world (check_inputs env world id user d request key ps)
  check_inputs-Outcome world d (p ∷ ps) ok media = unchanged _ world refl refl
  check_inputs-Outcome world d [] ok media = check_running-Outcome world d ok media

  check_verdict-Outcome :
      (world : World) (w : Verdict)
      → verdict ≡ w
      → Outcome world (check_verdict env world id user request key w)
  check_verdict-Outcome world unsupported_workflow ok = unchanged _ world refl refl
  check_verdict-Outcome world (invalid code ps) ok = unchanged _ world refl refl
  check_verdict-Outcome world (valid d) ok = check_inputs-Outcome world d _ ok refl

  -- The request counter is no part of the tables.
  counted-Outcome :
      (world : World) (counter : Option Counter) (result : Created × World)
      → Outcome (counted world user.id counter) result
      → Outcome world result
  counted-Outcome world counter (answer, after) (unchanged _ _ refused same) =
      unchanged answer after refused same
  counted-Outcome world counter _ (inserted d after a rows) =
      inserted d after
        (record {
          request_valid = a.request_valid;
          media_usable = a.media_usable;
          below_limit = a.below_limit;
          new_id = a.new_id;
          new_key = a.new_key;
        })
        rows

  -- A creation either answers no job and leaves the tables as they were, or it answers the new row
  -- at its first event, the one change to the table of jobs, and then the request was valid, its
  -- media usable, the user below their limit, and the id and the idempotency key new.
  pub create-Outcome :
      (world : World) → Outcome world (create env world registry id user request key)
  unfolding create
  create-Outcome world = elim (Bool-cases admitted) [
    | inl t ↦ rw t (
        counted-Outcome world counter _
          (check_verdict-Outcome (counted world user.id counter) verdict refl))
    | inr t ↦ rw t (unchanged _ _ refl refl)
  ]
    where
      admitted : Bool
      admitted = (check_request_rate env.redis_up env.now 30 60 (world.redis.counters user.id)).0

      counter : Option Counter
      counter = (check_request_rate env.redis_up env.now 30 60 (world.redis.counters user.id)).1
