-- ===== src/Generations/Retries.antt =====
-- What a repeated submission gets under the idempotency key of an earlier one.
use mathlib.Core.Path.{subst}
use zolexai.Prelude.{
  if_true, if_false, Bool-cases, true, ℕ, String, ◌+◌, ◌<◌, ◌≡◌, refl, ap, ◌∙◌, false, Option, none,
  some, List, [], ◌∷◌, arith, ==_iff, ◌≈◌, ≈_iff, lt→ltb, Option-cases, inl, inr,
}
use zolexai.Job.{Job}
use zolexai.Registry.{Registry}
use zolexai.Limits.{User}
use zolexai.Database.{find_job, find_job_for_user, next_seq}
use zolexai.Database.Rows.{find_job-append}
use zolexai.Service.{World, Env}
use zolexai.Service.Invariant.{WorldIsValid}
use zolexai.Service.Finality.{RowEvolves}
use zolexai.Service.Creation.{
  Request, Created, created, rate_limited, tool_unavailable, integrity_error, bad_parameters,
  bad_media, too_many_running, new_row, create,
}
use zolexai.Service.Creation.Guards.{
  Outcome, unchanged, inserted, create-Outcome, is_created, row_for,
}
use zolexai.Idempotency.{
  Holder, pending, made, Keys, holder_of, reserve, reserve_with, complete, release, set_key,
}
use zolexai.Protocol.Runs.{Steps, Steps-Evolves}
use zolexai.Generations.{
  Submitted, accepted, repeated, refused, create_generation, reserved, settle,
}

find_job_for_user-own :
    (id user : ℕ) (jobs : List Job) {k : Job}
    → find_job id jobs ≡ some k
    → k.user_id ≡ user
    → find_job_for_user id user jobs ≡ some k
unfolding find_job find_job_for_user
find_job_for_user-own id user [] e u = ground arith
find_job_for_user-own id user (x ∷ xs) {k} e u =
    ground (arith, find_job_for_user-own id user xs {k = k}, ==_iff k.user_id user)

module _ (env : Env) (registry : Registry) (id : ℕ) (user : User) (request : Request)
    (key : Option String) (world : World) where
  -- A created row is in the tables, and its owner is the user.
  created-row :
      (result : Created × World)
      → Outcome env registry id user request key world result
      → (job : Job) → result.0 ≡ created job
      → (find_job job.id result.1.db.jobs ≡ some job) × (job.user_id ≡ user.id)
  unfolding new_row next_seq
  created-row (answer, after) (unchanged _ _ other same) job e = cc (other, ap is_created e)
  created-row _ (inserted d after a rows) job e =
      let row = next_seq (row_for env registry id user request key world d) in
      let same : row ≡ job = cc e in
      subst (λ j. (find_job j.id after.db.jobs ≡ some j) × (j.user_id ≡ user.id)) same
        (
          rw
              (
                rows,
                find_job-append row row.id world.db.jobs a.new_id,
                (==_iff row.id row.id).1 refl,
              )
              refl,
          refl,
        )

-- What an accepted submission under a key leaves: the job that `create` made, its world, and the
-- key naming the job.
record Settled (now ttl user : ℕ) (key : String) (job : Job) (result : Created × World)
    (answer : Submitted × World × Keys) : Type 0 where
  made_job : result.0 ≡ created job
  same_world : answer.1 ≡ result.1
  key_names : answer.2 user key ≡ some (record { holder = made job.id; expires_at = now + ttl })

settle-Settled :
    (now ttl user : ℕ) (key : String) (keys : Keys) (job : Job) (result : Created × World)
    → (settle now ttl user key keys result).0 ≡ accepted job
    → Settled now ttl user key job result (settle now ttl user key keys result)
unfolding settle complete set_key
settle-Settled now ttl user key keys job (created row, after) e =
    let same : row ≡ job = cc e in
    record {
      made_job = ap created same;
      same_world = refl;
      key_names = rw ((==_iff user user).1 refl, (≈_iff key key).1 refl, same) refl;
    }
settle-Settled now ttl user key keys job (rate_limited, after) e = cc e
settle-Settled now ttl user key keys job (tool_unavailable, after) e = cc e
settle-Settled now ttl user key keys job (integrity_error, after) e = cc e
settle-Settled now ttl user key keys job (bad_parameters ps, after) e = cc e
settle-Settled now ttl user key keys job (bad_media ps, after) e = cc e
settle-Settled now ttl user key keys job (too_many_running n, after) e = cc e

module _ (env : Env) (ttl : ℕ) (registry : Registry) (id : ℕ) (user : User) (request : Request)
    (key : String) (world : World) (keys : Keys) where
  abbrev created_now : Created × World
  created_now = create env world registry id user request (some key)

  accepted-Settled :
      (job : Job)
      → (key ≈ "") ≡ false
      → (create_generation env ttl registry id user request (some key) world keys).0 ≡ accepted job
      → Settled env.now ttl user.id key job created_now
          (create_generation env ttl registry id user request (some key) world keys)
  unfolding create_generation reserved reserve reserve_with
  accepted-Settled job given e = elim (Bool-cases env.redis_up) [
    | inr away ↦ cc (rw (given, create_generation, if_false env.redis_up _ _ away) at e)
    | inl up ↦ elim (Option-cases (holder_of env.now (keys user.id key))) [
      | inl free ↦
          rw
            (
              given,
              create_generation,
              if_true env.redis_up _ _ up,
              reserve,
              free,
              reserve_with,
              reserved,
            )
            (settle-Settled env.now ttl user.id key _ job created_now (
              rw
                (
                  given,
                  create_generation,
                  if_true env.redis_up _ _ up,
                  reserve,
                  free,
                  reserve_with,
                  reserved,
                )
                at e))
      | inr (held, taken) ↦ not_taken held (
          rw (given, create_generation, if_true env.redis_up _ _ up, reserve, taken, reserve_with)
            at e)
    ]
  ]
    where
      not_taken :
          (held : Holder)
          → (reserved env ttl registry id user request key world keys (some held, keys)).0
            ≡ accepted job
          → Settled env.now ttl user.id key job created_now
              (create_generation env ttl registry id user request (some key) world keys)
      not_taken pending t = cc t
      not_taken (made j) t = elim (Option-cases (find_job_for_user j user.id world.db.jobs)) [
        | inl gone ↦ cc (rw gone at t)
        | inr (k, found) ↦ cc (rw found at t)
      ]

  repeated_answer :
      (job expires_at : ℕ) {k : Job}
      → (key ≈ "") ≡ false
      → env.redis_up ≡ true
      → keys user.id key ≡ some (record { holder = made job; expires_at = expires_at })
      → env.now < expires_at
      → find_job_for_user job user.id world.db.jobs ≡ some k
      → create_generation env ttl registry id user request (some key) world keys
        ≡ (repeated k, world, keys)
  unfolding create_generation reserved reserve reserve_with holder_of
  repeated_answer job expires_at {k} given up held live found =
      rw
        (
          given,
          create_generation,
          if_true env.redis_up _ _ up,
          reserve,
          held,
          holder_of,
          lt→ltb env.now expires_at live,
          reserve_with,
          reserved,
          found,
        )
        refl

-- A submission that is accepted under a key that is not empty and leaves a valid world, and is
-- sent again while Redis answers, within the lifetime of the key and after any history, answers
-- the present row of the job that it made, and changes nothing.
pub retry_repeats :
    (env again : Env) (ttl : ℕ) (registry : Registry) (id new_id : ℕ) (user : User)
    (request : Request) (key : String) (world later : World) (keys : Keys) (job : Job)
    → (key ≈ "") ≡ false
    → (create_generation env ttl registry id user request (some key) world keys).0 ≡ accepted job
    → WorldIsValid (create_generation env ttl registry id user request (some key) world keys).1
    → Steps (create_generation env ttl registry id user request (some key) world keys).1 later
    → again.redis_up ≡ true
    → again.now < env.now + ttl
    → (k : Job) × RowEvolves job k
      × (create_generation again ttl registry new_id user request
            (some key)
            later
            (create_generation env ttl registry id user request (some key) world keys).2
          ≡ (
            repeated k,
            later,
            (create_generation env ttl registry id user request (some key) world keys).2,
          ))
retry_repeats env again ttl registry id new_id user request key world later keys job given e v steps
      up soon =
    let was = accepted-Settled env ttl registry id user request key world keys job given e in
    let (stored, owner) =
      created-row env registry id user request (some key) world _
        (create-Outcome env registry id user request (some key) world) job was.made_job in
    let (k, found, step) = Steps-Evolves steps v job.id job (rw was.same_world stored) in
    let own = find_job_for_user-own job.id user.id later.db.jobs found (step.same_owner ∙ owner) in
    (
      k,
      step,
      repeated_answer again ttl registry new_id user request key later
          (create_generation env ttl registry id user request (some key) world keys).2 job.id
          (env.now + ttl) given up was.key_names soon own,
    )

-- What a refused submission leaves: no job, the world of the refusal, and a free key.
record Freed (user : ℕ) (key : String) (result : Created × World)
    (answer : Submitted × World × Keys) : Type 0 where
  not_made : is_created result.0 ≡ false
  same_world : answer.1 ≡ result.1
  key_free : answer.2 user key ≡ none

released : (user : ℕ) (key : String) (keys : Keys) → release user key keys user key ≡ none
unfolding release set_key
released user key keys = rw ((==_iff user user).1 refl, (≈_iff key key).1 refl) refl

settle-Freed :
    (now ttl user : ℕ) (key : String) (keys : Keys) (why : Created) (result : Created × World)
    → (settle now ttl user key keys result).0 ≡ refused why
    → Freed user key result (settle now ttl user key keys result)
unfolding settle
settle-Freed now ttl user key keys why (created row, after) e = cc e
settle-Freed now ttl user key keys why (rate_limited, after) e = record {
  not_made = refl;
  same_world = refl;
  key_free = released user key keys;
}
settle-Freed now ttl user key keys why (tool_unavailable, after) e = record {
  not_made = refl;
  same_world = refl;
  key_free = released user key keys;
}
settle-Freed now ttl user key keys why (integrity_error, after) e = record {
  not_made = refl;
  same_world = refl;
  key_free = released user key keys;
}
settle-Freed now ttl user key keys why (bad_parameters ps, after) e = record {
  not_made = refl;
  same_world = refl;
  key_free = released user key keys;
}
settle-Freed now ttl user key keys why (bad_media ps, after) e = record {
  not_made = refl;
  same_world = refl;
  key_free = released user key keys;
}
settle-Freed now ttl user key keys why (too_many_running n, after) e = record {
  not_made = refl;
  same_world = refl;
  key_free = released user key keys;
}

module _ (env : Env) (ttl : ℕ) (registry : Registry) (id : ℕ) (user : User) (request : Request)
    (key : String) (world : World) (keys : Keys) where
  refused-Freed :
      (why : Created)
      → (key ≈ "") ≡ false
      → (create_generation env ttl registry id user request (some key) world keys).0 ≡ refused why
      → Freed user.id key
          (created_now env ttl registry id user request key world keys)
          (create_generation env ttl registry id user request (some key) world keys)
  unfolding create_generation reserved reserve reserve_with
  refused-Freed why given e = elim (Bool-cases env.redis_up) [
    | inr away ↦ cc (rw (given, create_generation, if_false env.redis_up _ _ away) at e)
    | inl up ↦ elim (Option-cases (holder_of env.now (keys user.id key))) [
      | inl free ↦
          rw
            (
              given,
              create_generation,
              if_true env.redis_up _ _ up,
              reserve,
              free,
              reserve_with,
              reserved,
            )
            (settle-Freed env.now ttl user.id key _ why
              (created_now env ttl registry id user request key world keys)
              (rw
                (
                  given,
                  create_generation,
                  if_true env.redis_up _ _ up,
                  reserve,
                  free,
                  reserve_with,
                  reserved,
                )
                at e))
      | inr (held, taken) ↦ not_taken held (
          rw (given, create_generation, if_true env.redis_up _ _ up, reserve, taken, reserve_with)
            at e)
    ]
  ]
    where
      not_taken :
          (held : Holder)
          → (reserved env ttl registry id user request key world keys (some held, keys)).0
            ≡ refused why
          → Freed user.id key
              (created_now env ttl registry id user request key world keys)
              (create_generation env ttl registry id user request (some key) world keys)
      not_taken pending t = cc t
      not_taken (made j) t = elim (Option-cases (find_job_for_user j user.id world.db.jobs)) [
        | inl gone ↦ cc (rw gone at t)
        | inr (k, found) ↦ cc (rw found at t)
      ]

  -- A submission under a key that is not empty and that `create` refuses leaves the tables as they
  -- were and the key free, so that a corrected one may use it at once.
  pub refusal_frees_key :
      (why : Created)
      → (key ≈ "") ≡ false
      → (create_generation env ttl registry id user request (some key) world keys).0 ≡ refused why
      → ((create_generation env ttl registry id user request (some key) world keys).1.db ≡ world.db)
        × ((create_generation env ttl registry id user request (some key) world keys).2 user.id key
            ≡ none)
  refusal_frees_key why given e =
      let was = refused-Freed why given e in
      (
        ap (λ w. w.db) was.same_world
            ∙ unmade _ (create-Outcome env registry id user request (some key) world) was.not_made,
        was.key_free,
      )
    where
      unmade :
          (result : Created × World)
          → Outcome env registry id user request (some key) world result
          → is_created result.0 ≡ false
          → result.1.db ≡ world.db
      unmade (answer, after) (unchanged _ _ other same) n = same
      unmade _ (inserted d after a rows) n = cc n
