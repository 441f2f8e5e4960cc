-- ===== src/Deployment/Outcomes.antt =====
-- What a run leaves of its job.
use zolexai.Prelude.{◌≡◌, Bool, true, false, Option, none, some, List}
use zolexai.Job.{is_terminal}
use zolexai.Service.{World}
use zolexai.Service
use zolexai.Runner.{
  Raised, lease_lost, api_unavailable, job_cancelled, cancelled_on_shutdown, job_timed_out, crashed,
  adapter_error, Answer, refused, outage, Call, Run, Raising, Outside, Adapter, ends, reports,
  polls, interval, failure_of,
}
use zolexai.Runner
use zolexai.Deployment.{Reporting, after, platform}
use zolexai.Deployment.Held.{IsHeld, Completed, GivenUp}

-- An adapter that reports only statuses of a running job.
abbrev pub ReportsActive : Adapter → Type 0
ReportsActive (ends ending) = Unit
ReportsActive (reports p next unwound) =
    (is_terminal p.status ≡ false) × ReportsActive next × ReportsActive unwound
ReportsActive (polls next stopped) = ReportsActive next × ReportsActive stopped
ReportsActive (interval next) = ReportsActive next

module _ (s : Reporting) (world : World) (transfer : List Call → Option Raised) where
  abbrev o : Outside
  o = platform s world transfer

  -- The job is held, and the keeper would repeat a status of a running job.
  abbrev HeldAfter : List Call → Type 0
  HeldAfter calls = IsHeld s.job_id s.worker s.token (after s world calls)

  abbrev Ready : Run → Type 0
  Ready r = HeldAfter r.calls × (is_terminal r.last.status ≡ false)

  -- The job is completed when nothing was raised, and else it is still held.
  abbrev Recorded : Raising → Type 0
  Recorded (none, r) = Completed s.job_id (after s world r.calls)
  Recorded (some e, r) = HeldAfter r.calls

  abbrev GivenUpAfter : Bool → List Call → Type 0
  GivenUpAfter retriable calls = GivenUp s.job_id retriable (after s world calls)

  -- What the API stores of the job, by what the execution raised.
  abbrev pub Outcome : Option Raised → List Call → Type 0
  Outcome none calls = Completed s.job_id (after s world calls)
  Outcome (some lease_lost) calls = HeldAfter calls
  Outcome (some api_unavailable) calls = HeldAfter calls
  Outcome (some job_cancelled) calls = HeldAfter calls
  Outcome (some cancelled_on_shutdown) calls = HeldAfter calls
  Outcome (some job_timed_out) calls = GivenUpAfter true calls
  Outcome (some crashed) calls = GivenUpAfter true calls
  Outcome (some (adapter_error retriable)) calls = GivenUpAfter retriable calls
