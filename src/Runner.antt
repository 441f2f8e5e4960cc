-- ===== src/Runner.antt =====
-- apps/worker/worker/jobs/runner.py: one claimed job from its start to its report, and the keeper
-- of its lease.
pub mod Settling
pub mod Leases
pub mod Endings
use zolexai.Prelude.{ℕ, Bool, true, false, ◌||◌, List, [], ◌∷◌, Option, none, some, if◌then◌else◌}
use zolexai.Job.{JobStatus, preparing}

-- What a run can raise. An error of the adapter says whether a retry may help.
pub data Raised : Type 0 where
  lease_lost job_cancelled job_timed_out api_unavailable cancelled_on_shutdown crashed : Raised
  adapter_error : Bool → Raised

-- How the API answers a report: `accepted`, a refusal (a 4xx or `accepted: false`), or not at all.
pub data Answer : Type 0 where
  accepted refused outage : Answer

pub record Progress : Type 0 where
  pub status : JobStatus
  pub progress : ℕ

-- What a run sends to the API and to the object storage.
pub data Call : Type 0 where
  progress_report : Progress → Call
  download : ℕ → Call
  upload_output complete_report : Call
  failure_report : Bool → Call

-- The calls made so far, the newest first, with the keeper's `_last`, `_lost` and `_cancelled`.
pub record Run : Type 0 where
  pub calls : List Call
  pub last : Progress
  pub lost : Bool
  pub cancelled : Bool

abbrev pub new_run : Run
new_run = record {
  calls = [];
  last = record { status = preparing; progress = 0 };
  lost = false;
  cancelled = false;
}

abbrev pub Raising : Type 0
Raising = Option Raised × Run

-- What follows a call that may raise.
abbrev pub and_then : Raising → (Run → Raising) → Raising
and_then (none, r) next = next r
and_then (some e, r) next = (some e, r)

abbrev calling : Call → Run → Run
calling c r = record r { calls = c ∷ r.calls }

-- What the API answers to the newest of the calls, and what a transfer raises after the calls so far.
pub record Outside : Type 0 where
  pub answer : List Call → Answer
  pub transfer : List Call → Option Raised

abbrev on_answer : Answer → Run → Raising
on_answer accepted r = (none, r)
on_answer outage r = (none, r)
on_answer refused r = (some lease_lost, record r { cancelled = true })

-- `_LeaseKeeper.report`: an outage is no reason to stop.
unfoldable pub report : Outside → Progress → Run → Raising
report o p r =
    on_answer (o.answer (progress_report p ∷ r.calls))
      (calling (progress_report p) (record r { last = p }))

abbrev on_renewal : Answer → Run → Run
on_renewal refused r = record r { lost = true; cancelled = true }
on_renewal accepted r = r
on_renewal outage r = r

-- One turn of `_LeaseKeeper._loop`, which returned when the lease was lost.
unfoldable pub renew : Outside → Run → Run
renew o r =
    if r.lost
    then r
    else on_renewal (o.answer (progress_report r.last ∷ r.calls))
        (calling (progress_report r.last) r)

abbrev pub raise_if_lost : Run → Raising
raise_if_lost r = if r.lost then (some lease_lost, r) else (none, r)

-- How the adapter's run ends; `timed_out` is the `TimeoutError` of `wait_for`.
pub data Ending : Type 0 where
  returned timed_out : Ending
  raised : Raised → Ending

-- What a run of an adapter does that the runner takes part in: a progress report, with what it does
-- when this raises; the look at the cancellation flag, with what it does when it is set; and
-- between these the intervals of the keepalive that pass.
pub data Adapter : Type 0 where
  ends : Ending → Adapter
  reports : Progress → Adapter → Adapter → Adapter
  polls : Adapter → Adapter → Adapter
  interval : Adapter → Adapter

abbrev choose : Option Raised → Ending × Run → Ending × Run → Ending × Run
choose none go stop = go
choose (some e) go stop = stop

unfoldable pub run_adapter : Outside → Adapter → Run → Ending × Run
unfolding report renew
run_adapter o (ends ending) r = (ending, r)
run_adapter o (reports p next unwound) r =
    let after = (report o p r).1 in
    choose (report o p r).0 (run_adapter o next after) (run_adapter o unwound after)
run_adapter o (polls next stopped) r =
    let going = run_adapter o next r in
    let stopping = run_adapter o stopped r in if r.cancelled then stopping else going
run_adapter o (interval next) r = run_adapter o next (renew o r)

-- The end of `adapter.run` under `wait_for`.
abbrev pub awaited : Ending × Run → Raising
awaited (returned, r) = (none, r)
awaited (timed_out, r) = (some job_timed_out, r)
awaited (raised e, r) = (some e, r)

-- `_stage_inputs`
unfoldable pub stage_inputs : Outside → List ℕ → Run → Raising
stage_inputs o [] r = (none, r)
stage_inputs o (role ∷ roles) r =
    let after = calling (download role) r in
    let rest = stage_inputs o roles after in and_then (o.transfer r.calls, after) (λ s. rest)

unfoldable pub upload_output_file : Outside → Run → Raising
upload_output_file o r = (o.transfer r.calls, calling upload_output r)

abbrev pub on_completion : Answer → Run → Raising
on_completion accepted r = (none, r)
on_completion refused r = (some lease_lost, r)
on_completion outage r = (some api_unavailable, r)

unfoldable pub complete : Outside → Run → Raising
complete o r = on_completion (o.answer (complete_report ∷ r.calls)) (calling complete_report r)

-- A claimed job: what building and resolving its adapter raises, its inputs and its adapter.
pub record Claim : Type 0 where
  pub resolving : Option Raised
  pub inputs : List ℕ
  pub adapter : Adapter

abbrev pub first_progress : Progress
first_progress = record { status = preparing; progress = 8 }

-- `_execute`
unfoldable pub execute : Outside → Claim → Run → Raising
unfolding report stage_inputs run_adapter upload_output_file complete
execute o claim r =
    and_then (claim.resolving, r)
      λ r0. and_then (report o first_progress r0) λ r1.
        and_then (stage_inputs o claim.inputs r1) λ r2.
          and_then (awaited (run_adapter o claim.adapter r2)) λ r3.
            and_then (raise_if_lost r3) λ r4. and_then (upload_output_file o r4) λ r5. complete o r5

-- Whether an ending is reported as a failure, and then as a retriable one.
abbrev pub failure_of : Raised → Option Bool
failure_of lease_lost = none
failure_of job_cancelled = none
failure_of job_timed_out = some true
failure_of api_unavailable = none
failure_of cancelled_on_shutdown = none
failure_of crashed = some true
failure_of (adapter_error retriable) = some retriable

abbrev report_failure : Option Bool → Run → Run
report_failure none r = r
report_failure (some retriable) r = calling (failure_report retriable) r

abbrev pub handled : Raising → Run
handled (none, r) = r
handled (some e, r) = report_failure (failure_of e) r

-- `JobRunner.run`
unfoldable pub run : Outside → Claim → Run
unfolding execute
run o claim = handled (execute o claim new_run)
