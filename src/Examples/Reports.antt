-- ===== src/Examples/Reports.antt =====
-- Worker reports and cancellations at concrete worlds.
use zolexai.Prelude.{refl, arith}
use zolexai.Job.{generating, is_terminal, can_transition, empty, Job}
use zolexai.Database.{find_job, next_seq, append_event}
use zolexai.Service.{
  lease_not_held, lock_and_authorize, report_progress, progress_row, record_event,
}
use zolexai.Service.Leases.{AllRefused, stale_reports, report_progress-stored, ProgressStored}
use zolexai.Examples.{env, running, holding}

stale_reports_example : AllRefused env (holding running) 1 7 41 lease_not_held
unfolding find_job is_terminal
stale_reports_example =
    stale_reports env (holding running) 1 7 41 {job = running} refl refl (λ e. ground arith)

abbrev reported : Job
reported = next_seq (progress_row env generating 30 "Singing" running)

report_progress-stored_example :
    (old : Job) × ProgressStored env
      (holding running)
      1
      7
      42
      old
      reported
      generating
      30
      (report_progress env (holding running) 1 7 42 generating 30 "Singing" empty).1
unfolding find_job is_terminal can_transition lock_and_authorize report_progress record_event
    append_event
report_progress-stored_example =
    report_progress-stored env (holding running) 1 7 42 generating 30 "Singing" empty
      {row = reported} refl
