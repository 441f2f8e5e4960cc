-- ===== src/Examples/Runs.antt =====
-- A run that completes, and one whose lease is lost under it.
use zolexai.Prelude.{◌≡◌, refl, true, false, none, List, [], ◌∷◌}
use zolexai.Job.{generating, preparing}
use zolexai.Runner.{
  Answer, accepted, refused, Progress, Call, progress_report, upload_output, complete_report,
  lease_lost, job_cancelled, new_run, Outside, Adapter, ends, reports, polls, interval, returned,
  raised, Claim, execute, run, Call, timed_out, failure_report, first_progress, Run, run_adapter,
  report, stage_inputs,
}
use zolexai.Runner.Settling.{Settled, run-Settled}
use zolexai.Runner.Endings.{Ended, run-Ended}
use zolexai.Runner.Leases.{delivered, refused-undelivered}

abbrev halfway : Progress
halfway = record { status = generating; progress = 50 }

-- An adapter that reports once, lets one keepalive pass and looks whether it shall stop.
abbrev adapter : Adapter
adapter =
    reports halfway (interval (polls (ends returned) (ends (raised job_cancelled))))
      (ends (raised lease_lost))

abbrev pub claim : Claim
claim = record { resolving = none; inputs = 7 ∷ []; adapter = adapter }

-- An API that refuses from its third answer on.
abbrev refusing : List Call → Answer
refusing (a ∷ b ∷ c ∷ d ∷ calls) = refused
refusing calls = accepted

abbrev losing : Outside
losing = record { answer = refusing; transfer = λ calls. none }

abbrev holding_on : Outside
holding_on = record { answer = λ calls. accepted; transfer = λ calls. none }

completed :
    (run holding_on claim).calls
    ≡ complete_report
      ∷ upload_output
      ∷ progress_report halfway
      ∷ progress_report halfway
      ∷ Call.download 7
      ∷ progress_report (record { status = preparing; progress = 8 })
      ∷ []
unfolding run
completed = refl

run-Settled_example : Settled losing (execute losing claim new_run).0 (run losing claim).calls
run-Settled_example = run-Settled losing claim

refused-undelivered_example : delivered (run losing claim).calls ≡ false
unfolding run
refused-undelivered_example = refused-undelivered losing claim ((tt, tt), tt) refl

-- An adapter that is too slow, after a renewal that the API refuses.
abbrev slow : Claim
slow = record claim { adapter = reports halfway (interval (ends timed_out)) (ends timed_out) }

abbrev staged : Run
staged = record new_run {
  calls = Call.download 7 ∷ progress_report first_progress ∷ [];
  last = first_progress;
}

given_up :
    (run losing slow).calls
    ≡ failure_report true
      ∷ progress_report halfway
      ∷ progress_report halfway
      ∷ Call.download 7
      ∷ progress_report first_progress
      ∷ []
unfolding run
given_up = refl

run-Ended_example : Ended losing (run_adapter losing slow.adapter staged) (run losing slow).calls
unfolding report stage_inputs
run-Ended_example = run-Ended losing slow staged refl
