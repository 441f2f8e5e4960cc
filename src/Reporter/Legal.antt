-- ===== src/Reporter/Legal.antt =====
-- What a reporter forwards is always a legal move of the job.
use zolexai.Prelude.{ℕ, ◌≤◌, ◌≡◌, refl, true, List, [], ◌∷◌, arith, ltb}
use zolexai.Job.{JobStatus, assigned, preparing, can_transition}
use zolexai.Job.Status.{can_transition_order}
use zolexai.Reporter.{StageReporter, new_reporter, report, Stage, enter, reports, stage_rank}

-- Each report may follow the one before it: its status is a legal move and its progress no smaller,
-- and never above 100.
abbrev pub Legal : JobStatus → ℕ → List StageReporter → Type 0
Legal status progress [] = Unit
Legal status progress (r ∷ rs) =
    (can_transition status r.status ≡ true)
    × (progress ≤ r.progress)
    × (r.progress ≤ 100)
    × Legal r.status r.progress rs

-- The statuses that a reporter is ever in.
abbrev InStages : StageReporter → Type 0
InStages r = (ltb (stage_rank r.status) 4 ≡ true) × (r.progress ≤ 100)

enter-InStages :
    (s : Stage) (r : StageReporter)
    → InStages r
    → InStages (enter s r)
      × (can_transition r.status (enter s r).status ≡ true)
      × (r.progress ≤ (enter s r).progress)
unfolding enter report can_transition
enter-InStages s r h = ground arith

reports-Legal :
    (stages : List Stage) (r : StageReporter)
    → InStages r
    → Legal r.status r.progress (reports stages r)
unfolding reports
reports-Legal [] r h = tt
reports-Legal (s ∷ stages) r h =
    let (inside, legal, more) = enter-InStages s r h in
    (legal, more, inside.1, reports-Legal stages (enter s r) inside)

-- Whatever stages a worker enters, in whatever order and with whatever percentages, the API that
-- handed out the job as `assigned` can accept every report: each is a legal move from the one
-- before, progress never falls, and it stays within 100.
pub reports_are_Legal : (stages : List Stage) → Legal assigned 0 (reports stages new_reporter)
unfolding reports can_transition
reports_are_Legal [] = tt
reports_are_Legal (s ∷ stages) =
    let (inside, legal, more) = enter-InStages s new_reporter (refl, omega arith) in
    (
      (can_transition_order assigned preparing (enter s new_reporter).status refl).0 legal,
      more,
      inside.1,
      reports-Legal stages (enter s new_reporter) inside,
    )
