-- ===== src/Generations/Ownership.antt =====
-- A user reaches only their own jobs.
use zolexai.Prelude.{ℕ, ◌≡◌, ◌≢◌, refl, none, some, List, [], ◌∷◌, arith, ==_iff}
use zolexai.Job.{Job}
use zolexai.Limits.{User}
use zolexai.Database.{find_job, find_job_for_user}
use zolexai.Database.Rows.{KeysDistinct}
use zolexai.Service.{World, Env, not_found}
use zolexai.Stream.{Message}
use zolexai.Generations.{cancel_generation, cancel_found, stream_generation_events, stream_found}

find_job_for_user-missing :
    (id user : ℕ) (jobs : List Job)
    → find_job id jobs ≡ none
    → find_job_for_user id user jobs ≡ none
unfolding find_job find_job_for_user
find_job_for_user-missing id user [] e = refl
find_job_for_user-missing id user (x ∷ xs) e = ground (arith, find_job_for_user-missing id user xs)

find_job_for_user-other :
    (id user : ℕ) (jobs : List Job) {j : Job}
    → KeysDistinct jobs
    → find_job id jobs ≡ some j
    → j.user_id ≢ user
    → find_job_for_user id user jobs ≡ none
unfolding find_job find_job_for_user
find_job_for_user-other id user [] keys e other = refl
find_job_for_user-other id user (x ∷ xs) {j} keys e other = ground (
  arith,
  find_job_for_user-other id user xs {j = j},
  find_job_for_user-missing id user xs,
  ==_iff x.id id,
  ==_iff x.user_id user,
)

-- In a table with distinct ids, a job of another user can be neither cancelled nor followed, is
-- answered as one that does not exist, and stays as it was.
pub other_users_job :
    (env : Env) (world : World) (id : ℕ) (user : User) (after : ℕ) (messages : List Message)
    (job : Job)
    → KeysDistinct world.db.jobs
    → find_job id world.db.jobs ≡ some job
    → job.user_id ≢ user.id
    → (cancel_generation env world id user ≡ (not_found, world))
      × (stream_generation_events world id user after messages ≡ none)
unfolding cancel_generation cancel_found stream_generation_events stream_found
other_users_job env world id user after messages job keys found other =
    let hidden = find_job_for_user-other id user.id world.db.jobs keys found other in
    (rw hidden refl, rw hidden refl)
