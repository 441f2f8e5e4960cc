-- ===== src/Deployment.antt =====
-- apps/worker/worker/jobs/runner.py against apps/api/app/services/generation.py: a run whose reports
-- are the API's transactions, and no other transaction on its job between them.
pub mod Held
pub mod Outcomes
use zolexai.Prelude.{ℕ, String, Bool, Option, none, some, List, [], ◌∷◌, length}
use zolexai.Job.{ErrorCode, Payload}
use zolexai.Service.{World, Env, Report, Output, report_progress, complete, fail}
use zolexai.Service
use zolexai.Runner.{
  Raised, Answer, accepted, refused, outage, Call, progress_report, download, upload_output,
  complete_report, failure_report, Outside,
}

-- How the client reads a report's answer; what raises is a 5xx.
abbrev pub answer_of : Report → Answer
answer_of (Service.accepted job) = accepted
answer_of (Service.rejected reason) = refused
answer_of Service.raised = outage

-- What a run's reports carry, with the clock, the message and the details at each of its calls.
pub record Reporting : Type 0 where
  pub env : ℕ → Env
  pub job_id : ℕ
  pub worker : ℕ
  pub token : ℕ
  pub asset_id : ℕ
  pub output : Output
  pub code : ErrorCode
  pub user_message : String
  pub message : ℕ → String
  pub details : ℕ → Payload

-- The transaction of a call after `n` others; a transfer is none.
unfoldable pub deliver : Reporting → ℕ → World → Call → Report × World
unfolding report_progress complete fail
deliver s n world (progress_report p) =
    report_progress (s.env n) world s.job_id s.worker s.token p.status p.progress (s.message n)
      (s.details n)
deliver s n world (download role) = (Service.raised, world)
deliver s n world upload_output = (Service.raised, world)
deliver s n world complete_report =
    complete (s.env n) world s.job_id s.worker s.token s.asset_id s.output
deliver s n world (failure_report retriable) =
    fail (s.env n) world s.job_id s.worker s.token s.code s.user_message retriable

module _ (s : Reporting) (world : World) where
  -- The world after some calls, the newest first.
  unfoldable pub after : List Call → World
  unfolding deliver
  after [] = world
  after (c ∷ earlier) = (deliver s (length earlier) (after earlier) c).1

  unfoldable pub answer_to : List Call → Answer
  unfolding deliver after
  answer_to [] = accepted
  answer_to (c ∷ earlier) = answer_of (deliver s (length earlier) (after earlier) c).0

  abbrev pub platform : (List Call → Option Raised) → Outside
  platform transfer = record { answer = answer_to; transfer = transfer }
