-- ===== src/Generations.antt =====
-- apps/api/app/api/v1/generations.py: the endpoints of a user's generations.
pub mod Retries
pub mod Ownership
use zolexai.Prelude.{
  ℕ, String, Bool, true, false, Option, none, some, List, [], ◌∷◌, ◌≈◌, if◌then◌else◌,
}
use zolexai.Job.{Job, Event}
use zolexai.Registry.{Registry}
use zolexai.Limits.{User}
use zolexai.Database.{Db, find_job_for_user}
use zolexai.Service.{World, Env, Cancelled, not_found, cancel}
use zolexai.Service.Creation.{
  Request, Created, created, rate_limited, tool_unavailable, integrity_error, bad_parameters,
  bad_media, too_many_running, create,
}
use zolexai.Idempotency.{Holder, pending, made, Keys, reserve, complete, release}
use zolexai.Stream.{Message, stream_job_events}

-- The answer to a submission: a new job (202), the job of an earlier one (200), or an error.
pub data Submitted : Type 0 where
  accepted : Job → Submitted
  repeated : Job → Submitted
  still_processing unknown_job redis_away : Submitted
  refused : Created → Submitted

-- `create` answered; a refusal frees the key.
unfoldable pub settle : ℕ → ℕ → ℕ → String → Keys → Created × World → Submitted × World × Keys
unfolding complete release
settle now ttl user key keys (created job, world) =
    (accepted job, world, complete now ttl user key job.id keys)
settle now ttl user key keys (answer, world) = (refused answer, world, release user key keys)

abbrev pub repeat_of : Option Job → Submitted
repeat_of none = unknown_job
repeat_of (some job) = repeated job

answer : Created → Submitted
answer (created job) = accepted job
answer other = refused other

module _ (env : Env) (ttl : ℕ) (registry : Registry) (id : ℕ) (user : User)
    (request : Request) where
  unfoldable pub reserved : String → World → Keys → Option Holder × Keys → Submitted × World × Keys
  unfolding settle
  reserved key world keys (some pending, _) = (still_processing, world, keys)
  reserved key world keys (some (made job), _) =
      (repeat_of (find_job_for_user job user.id world.db.jobs), world, keys)
  reserved key world keys (none, keys') =
      settle env.now ttl user.id key keys' (create env world registry id user request (some key))

  -- A key that is not there, or empty, reserves nothing. With a key, a Redis that is away raises
  -- before anything is done.
  unfoldable pub create_generation : Option String → World → Keys → Submitted × World × Keys
  unfolding reserved answer reserve
  create_generation none world keys =
      let (result, after) = create env world registry id user request none in
      (answer result, after, keys)
  create_generation (some key) world keys =
      let (result, after) = create env world registry id user request (some key) in
      let keyed = reserved key world keys (reserve env.now ttl user.id key keys) in
      if key ≈ ""
      then (answer result, after, keys)
      else if env.redis_up
      then keyed
      else (redis_away, world, keys)

cancel_found : Env → World → Option Job → Cancelled × World
unfolding cancel
cancel_found env world none = (not_found, world)
cancel_found env world (some job) = cancel env world job

unfoldable pub cancel_generation : Env → World → ℕ → User → Cancelled × World
unfolding cancel_found
cancel_generation env world id user =
    cancel_found env world (find_job_for_user id user.id world.db.jobs)

-- Ownership is checked before the stream opens.
stream_found : ℕ → List Event → List Message → Option Job → Option (List (Option Event))
unfolding stream_job_events
stream_found after log messages none = none
stream_found after log messages (some job) = some (stream_job_events job.id after log messages)

unfoldable pub stream_generation_events :
    World → ℕ → User → ℕ → List Message → Option (List (Option Event))
unfolding stream_found
stream_generation_events world id user after messages =
    stream_found after world.db.events messages (find_job_for_user id user.id world.db.jobs)
