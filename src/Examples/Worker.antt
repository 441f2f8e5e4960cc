-- ===== src/Examples/Worker.antt =====
-- A worker's reports and requests at concrete inputs.
use zolexai.Prelude.{ℕ, List, [], ◌∷◌, if◌then◌else◌, ◌==◌}
use zolexai.Job.{assigned}
use zolexai.Reporter.{
  Stage, stitching, section, preparing_stage, uploading_stage, new_reporter, reports,
}
use zolexai.Reporter.Legal.{Legal, reports_are_Legal}
use zolexai.Client.{Outcome, response, connect_timeout, request, heartbeat}
use zolexai.Client.Attempts.{Posts, request-Posts}

abbrev stages : List Stage
stages = preparing_stage ∷ stitching ∷ section 2 3 40 ∷ uploading_stage ∷ []

reports_are_Legal_example : Legal assigned 0 (reports stages new_reporter)
reports_are_Legal_example = reports_are_Legal stages

abbrev outcomes : ℕ → Outcome
outcomes n = if n == 0 then connect_timeout else response 200

request-Posts_example : Posts 3 outcomes (request heartbeat outcomes)
request-Posts_example = request-Posts heartbeat outcomes
