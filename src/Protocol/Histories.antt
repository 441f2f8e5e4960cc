-- ===== src/Protocol/Histories.antt =====
-- What stays true through every history of transactions.
use zolexai.Prelude.{ℕ, String, ◌≡◌, ◌∙◌, false, some}
use zolexai.Job.{Job}
use zolexai.Registry.{Registry}
use zolexai.Limits.{User}
use zolexai.Database.{find_job}
use zolexai.Service.{World, Env}
use zolexai.Service.Invariant.{WorldIsValid}
use zolexai.Service.Creation.{Request, create}
use zolexai.Service.Creation.Guards.{is_created}
use zolexai.Service.Creation.Effects.{create-once}
use zolexai.Protocol.Runs.{Steps, Steps-Evolves}

-- Once a job of a valid world holds an idempotency key of its owner, no submission of that user
-- with the key makes a job or changes the tables after any history, whatever has become of the
-- first job.
pub key_used_once :
    (before after : World) (id : ℕ) (job : Job) (user : User) (key : String) (env : Env)
    (registry : Registry) (new_id : ℕ) (request : Request)
    → WorldIsValid before
    → Steps before after
    → find_job id before.db.jobs ≡ some job
    → job.user_id ≡ user.id
    → job.idempotency_key ≡ some key
    → (is_created (create env after registry new_id user request (some key)).0 ≡ false)
      × ((create env after registry new_id user request (some key)).1.db ≡ after.db)
key_used_once before after id job user key env registry new_id request v steps found owner holds =
    let (k, found', step) = Steps-Evolves steps v id job found in
    create-once env registry new_id user request key after id found' (step.same_owner ∙ owner)
      (step.same_key ∙ holds)
