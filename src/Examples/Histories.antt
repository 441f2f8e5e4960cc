-- ===== src/Examples/Histories.antt =====
-- Histories of transactions, claims and the reaper at concrete worlds.
use mathlib.Core.List.Perm
use zolexai.Prelude.{◌≡◌, refl, false, some, [], ◌∷◌, arith}
use zolexai.Job.{Job, is_terminal}
use zolexai.Registry.{ids, get, sort_texts, lookup}
use zolexai.Workers.{find_worker}
use zolexai.Database.{
  find_job, is_claimable, oldest, claim_next, claim_found, claim_row, lease_expired, requeues,
  has_id, requeue_row, exhausts, update_where, requeue_expired_leases,
}
use zolexai.Service.{World, lease_not_held}
use zolexai.Service.Creation.{create}
use zolexai.Service.Creation.Guards.{is_created}
use zolexai.Service.Invariant.{WorldIsValid}
use zolexai.Protocol.{
  claim_job, claim_as, answer, answer_with, wanted_workflows, claimed_job, ClaimedJob, reap_leases,
}
use zolexai.Protocol.Claims.{Answered, claim_job-Answered, row_of, db_of}
use zolexai.Protocol.Handover.{HandedOver, claim_job-HandedOver}
use zolexai.Protocol.Recovery.{reap_leases-Reaps, reap_leases-clears, Reaps, expired_rows}
use zolexai.Protocol.Runs.{claims, reaps, here, then_step, Steps-WorldIsValid}
use zolexai.Protocol.Histories.{key_used_once}
use zolexai.Examples.{
  env, settings, registry, song, user, request, waiting, running, finished, node, claim_request,
  holding, holding-WorldIsValid, waiting-RowIsValid, running-RowIsValid,
}

Steps-WorldIsValid_example :
    WorldIsValid (claim_job env settings (holding waiting) registry claim_request).1
Steps-WorldIsValid_example =
    Steps-WorldIsValid
      (then_step here (claims env settings registry claim_request {world = holding waiting}))
      (holding-WorldIsValid waiting waiting-RowIsValid refl)

abbrev reaped_later : World
reaped_later = (reap_leases env (holding finished) 10).1

abbrev reaped_running : World
reaped_running = (reap_leases env (holding running) 10).1

key_used_once_example :
    (is_created (create env reaped_running registry 2 user request (some "k1")).0 ≡ false)
    × ((create env reaped_running registry 2 user request (some "k1")).1.db ≡ reaped_running.db)
unfolding find_job
key_used_once_example =
    key_used_once (holding running) reaped_running 1 running user "k1" env registry 2 request
      (holding-WorldIsValid running running-RowIsValid refl)
      (then_step here (reaps env 10 {world = holding running})) refl refl refl

reap_leases-Reaps_example :
    (k : Job) × (find_job 1 reaped_running.db.jobs ≡ some k)
    × Reaps 1000 (has_id 1 (expired_rows (λ rows. rows) 1000 10 (running ∷ []))) running k
unfolding find_job
reap_leases-Reaps_example = reap_leases-Reaps env (holding running) 10 1 {j = running} refl

reap_leases-clears_example : lease_expired 1000 (requeue_row running) ≡ false
unfolding find_job lease_expired reap_leases requeue_expired_leases update_where requeues
    requeue_row exhausts is_terminal
reap_leases-clears_example =
    reap_leases-clears env (holding running) 10 1 {j = requeue_row running} Perm.rfl (omega arith)
      refl

abbrev answered : ClaimedJob
answered =
    claimed_job env settings
      (db_of env settings (holding waiting) registry claim_request node waiting)
      (row_of env settings (holding waiting) registry claim_request node waiting) song

claim_job-Answered_example :
    Answered env settings
      (holding waiting)
      registry
      claim_request
      node
      (claim_job env settings (holding waiting) registry claim_request)
unfolding find_job find_worker wanted_workflows ids sort_texts
claim_job-Answered_example =
    claim_job-Answered env settings (holding waiting) registry claim_request node (refl, tt) refl
      refl

claim_job-HandedOver_example :
    HandedOver
      (claim_job env settings (holding waiting) registry claim_request).1
      node
      43
      answered.job
unfolding find_job find_worker wanted_workflows ids sort_texts claim_job claim_as answer answer_with
    get lookup claim_next claim_found oldest is_claimable claim_row
claim_job-HandedOver_example =
    claim_job-HandedOver env settings (holding waiting) registry claim_request node answered
      (refl, tt) refl refl refl
