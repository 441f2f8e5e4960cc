-- ===== src/Protocol/Handover.antt =====
-- A claim hands the job to the new holder and to nobody else.
use mathlib.Core.Path.{subst}
use zolexai.Prelude.{ℕ, ◌≡◌, ◌≢◌, refl, sym, false, some, ==_iff}
use zolexai.Job.{Job, is_terminal}
use zolexai.Workflow.{is_empty}
use zolexai.Registry.{Registry}
use zolexai.Workers.{WorkerNode, find_worker}
use zolexai.Database.{find_job, claim_row}
use zolexai.Database.Rows.{KeysDistinct, find_job-put_job}
use zolexai.Service.{World, Env, lock_and_authorize, granted, lease_not_held}
use zolexai.Service.Leases.{AllRefused, stale_reports, lock_and_authorize_iff}
use zolexai.Protocol.{
  UploadSettings, ClaimRequest, ClaimedJob, Claim, claimed, claim_job, claimed_job,
}
use zolexai.Protocol.Claims.{
  Oldest, Answered, nothing_left, definition_gone, handed_out, claim_job-Answered, row_of, db_of,
  wanted,
}

-- What the world after a claim says of the job that it handed out.
pub record HandedOver (after : World) (node : WorkerNode) (token : ℕ) (job : Job) : Type 0 where
  pub holder_granted : lock_and_authorize after.db job.id node.id token ≡ granted job
  pub others_refused :
      (env : Env) (worker other : ℕ)
      → other ≢ token
      → AllRefused env after job.id worker other lease_not_held

module _ (env : Env) (settings : UploadSettings) (world : World) (registry : Registry)
    (r : ClaimRequest) (node : WorkerNode) where
  claimed_row-HandedOver :
      (j : Job)
      → Oldest env settings world registry r node j
      → HandedOver
          (record world { db = db_of env settings world registry r node j })
          node
          r.token
          (row_of env settings world registry r node j)
  unfolding claim_row
  claimed_row-HandedOver j f =
      let row = row_of env settings world registry r node j in
      let after : World = record world { db = db_of env settings world registry r node j } in
      let stored : find_job j.id after.db.jobs ≡ some row =
        rw (find_job-put_job row j.id world.db.jobs f.found, (==_iff j.id j.id).1 refl) refl in
      record {
        holder_granted =
            (lock_and_authorize_iff after.db j.id node.id r.token row).1
              (stored, unfold is_terminal in refl, refl, refl);
        others_refused = λ env worker other differs.
            stale_reports env after j.id worker other {job = row} stored
              (unfold is_terminal in refl) (λ e. differs (sym (cc (e))));
      }

  Answered-HandedOver :
      (result : Claim × World) (c : ClaimedJob)
      → Answered env settings world registry r node result
      → result.0 ≡ claimed c
      → HandedOver result.1 node r.token c.job
  unfolding claimed_job
  Answered-HandedOver _ c (nothing_left _) e = cc e
  Answered-HandedOver _ c (definition_gone _ _ _) e = cc e
  Answered-HandedOver _ c (handed_out j d f _) e =
      let answered : claimed_job env settings (db_of env settings world registry r node j)
            (row_of env settings world registry r node j) d
          ≡ c =
        cc e in
      subst
        (λ x.
          HandedOver (record world { db = db_of env settings world registry r node j }) node r.token
            x.job)
        answered (claimed_row-HandedOver j f)

  -- After a job is handed out from a table with distinct ids, a report with the new lease from the
  -- node that claimed it is authorized on the row that was answered, and every report under any
  -- other token, such as that of the worker that lost the job, is refused and changes nothing.
  pub claim_job-HandedOver :
      (c : ClaimedJob)
      → KeysDistinct world.db.jobs
      → find_worker r.worker_id world.db.workers ≡ some node
      → is_empty (wanted env settings world registry r node) ≡ false
      → (claim_job env settings world registry r).0 ≡ claimed c
      → HandedOver (claim_job env settings world registry r).1 node r.token c.job
  claim_job-HandedOver c keys found some_wanted =
      Answered-HandedOver _ c
        (claim_job-Answered env settings world registry r node keys found some_wanted)
