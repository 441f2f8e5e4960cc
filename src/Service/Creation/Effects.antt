-- ===== src/Service/Creation/Effects.antt =====
-- What a creation does to the rows that exist, to the user's running jobs and to the keys in use.
use mathlib.Core.Path.{subst}
use zolexai.Prelude.{
  ℕ, String, ◌≡◌, sym, true, false, Option, some, List, [], ◌∷◌, arith, is_some, ==_iff, ≈_iff,
}
use zolexai.Job.{Job}
use zolexai.Registry.{Registry}
use zolexai.Limits.{User}
use zolexai.Database.{find_job, find_by_idempotency_key, next_seq}
use zolexai.Service.{World, Env}
use zolexai.Service.Finality.{Evolves, Evolves-refl, append-Evolves}
use zolexai.Service.Creation.{Request, Created, new_row, create}
use zolexai.Service.Creation.Guards.{
  Outcome, unchanged, inserted, create-Outcome, row_for, is_created,
}

-- A row that is in the table takes its user's key.
pub find_job-holds_key :
    (id user : ℕ) (key : String) (jobs : List Job) {j : Job}
    → find_job id jobs ≡ some j
    → j.user_id ≡ user
    → j.idempotency_key ≡ some key
    → is_some (find_by_idempotency_key user key jobs) ≡ true
unfolding find_job find_by_idempotency_key
find_job-holds_key id user key [] e u k = ground arith
find_job-holds_key id user key (x ∷ xs) {j} e u k =
    ground (arith, find_job-holds_key id user key xs {j = j}, ==_iff j.user_id user, ≈_iff key key)

module _ (env : Env) (registry : Registry) (id : ℕ) (user : User) (request : Request)
    (key : Option String) (world : World) where
  Outcome-Evolves :
      (result : Created × World)
      → Outcome env registry id user request key world result
      → Evolves world.db.jobs result.1.db.jobs
  unfolding new_row next_seq
  Outcome-Evolves (answer, after) (unchanged _ _ refused same) =
      subst (λ d. Evolves world.db.jobs d.jobs) (sym same) (Evolves-refl world.db.jobs)
  Outcome-Evolves _ (inserted d after a rows) =
      subst (λ js. Evolves world.db.jobs js) (sym rows)
        (append-Evolves (next_seq (row_for env registry id user request key world d)) world.db.jobs
          a.new_id)

  pub create-Evolves :
      Evolves world.db.jobs (create env world registry id user request key).1.db.jobs
  create-Evolves = Outcome-Evolves _ (create-Outcome env registry id user request key world)

-- A key that some row of the user holds never makes another job.
pub create-once :
    (env : Env) (registry : Registry) (id : ℕ) (user : User) (request : Request) (key : String)
    (world : World) (held_by : ℕ) {j : Job}
    → find_job held_by world.db.jobs ≡ some j
    → j.user_id ≡ user.id
    → j.idempotency_key ≡ some key
    → (is_created (create env world registry id user request (some key)).0 ≡ false)
      × ((create env world registry id user request (some key)).1.db ≡ world.db)
create-once env registry id user request key world held_by {j} found owner holds =
    once _ (create-Outcome env registry id user request (some key) world)
  where
    once :
        (result : Created × World)
        → Outcome env registry id user request (some key) world result
        → (is_created result.0 ≡ false) × (result.1.db ≡ world.db)
    once (answer, after) (unchanged _ _ refused same) = (refused, same)
    once _ (inserted d after a rows) =
        cc (a.new_key, find_job-holds_key held_by user.id key world.db.jobs found owner holds)
