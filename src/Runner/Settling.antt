-- ===== src/Runner/Settling.antt =====
-- What a run reports at its end.
use zolexai.Prelude.{
  ◌⊎◌, inl, inr, ℕ, ◌≡◌, refl, ap, ◌∙◌, Bool, true, false, Bool-cases, Option-cases, List, [], ◌∷◌,
  Option, none, some, arith, count_if, if_true, if_false,
}
use zolexai.Runner.{
  Raised, lease_lost, api_unavailable, job_cancelled, cancelled_on_shutdown, job_timed_out, crashed,
  adapter_error, progress_report, Answer, accepted, refused, outage, Progress, Call, download,
  upload_output, complete_report, failure_report, Run, new_run, Raising, and_then, Outside, report,
  renew, raise_if_lost, Ending, Adapter, ends, reports, polls, interval, returned, timed_out,
  raised, run_adapter, awaited, stage_inputs, upload_output_file, complete, Claim, first_progress,
  execute, handled, run,
}

abbrev pub is_final : Call → Bool
is_final complete_report = true
is_final (failure_report retriable) = true
is_final _ = false

-- How many of the calls report an end.
abbrev pub finals : List Call → ℕ
finals calls = count_if is_final calls

-- The completion is posted after the upload, and no other end before it.
abbrev pub Completes : List Call → Type 0
Completes calls =
    (earlier : List Call) × (calls ≡ complete_report ∷ upload_output ∷ earlier)
    × (finals earlier ≡ 0)

abbrev Fails : Bool → List Call → Type 0
Fails retriable calls =
    (earlier : List Call) × (calls ≡ failure_report retriable ∷ earlier) × (finals earlier ≡ 0)

-- The completion was posted, and this is its answer.
abbrev Answered : Outside → Answer → List Call → Type 0
Answered o answer calls = Completes calls × (o.answer calls ≡ answer)

-- What a run has reported, by what its execution raised.
abbrev pub Settled : Outside → Option Raised → List Call → Type 0
Settled o none calls = Answered o accepted calls
Settled o (some lease_lost) calls = (finals calls ≡ 0) ⊎ Answered o refused calls
Settled o (some api_unavailable) calls = (finals calls ≡ 0) ⊎ Answered o outage calls
Settled o (some job_cancelled) calls = finals calls ≡ 0
Settled o (some cancelled_on_shutdown) calls = finals calls ≡ 0
Settled o (some job_timed_out) calls = Fails true calls
Settled o (some crashed) calls = Fails true calls
Settled o (some (adapter_error retriable)) calls = Fails retriable calls

-- What an execution raises after its completion was posted.
abbrev Unanswered : Outside → Raised → List Call → Type 0
Unanswered o lease_lost calls = Answered o refused calls
Unanswered o api_unavailable calls = Answered o outage calls
Unanswered o _ calls = ⊥

abbrev Executed : Outside → Raising → Type 0
Executed o (none, r) = Answered o accepted r.calls
Executed o (some e, r) = (finals r.calls ≡ 0) ⊎ Unanswered o e r.calls

pub Answer-cases : (a : Answer) → (a ≡ accepted) ⊎ ((a ≡ refused) ⊎ (a ≡ outage))
Answer-cases accepted = inl refl
Answer-cases refused = inr (inl refl)
Answer-cases outage = inr (inr refl)

finals-report :
    (o : Outside) (p : Progress) (r : Run) → finals (report o p r).1.calls ≡ finals r.calls
unfolding report
finals-report o p r = elim (Answer-cases (o.answer (progress_report p ∷ r.calls))) [
  | inl e ↦ rw (e, report) refl
  | inr (inl e) ↦ rw (e, report) refl
  | inr (inr e) ↦ rw (e, report) refl
]

finals-renew : (o : Outside) (r : Run) → finals (renew o r).calls ≡ finals r.calls
unfolding renew
finals-renew o r = elim (Bool-cases r.lost) [
  | inl e ↦ rw (e, renew) refl
  | inr l ↦ elim (Answer-cases (o.answer (progress_report r.last ∷ r.calls))) [
    | inl e ↦ rw (l, e, renew) refl
    | inr (inl e) ↦ rw (l, e, renew) refl
    | inr (inr e) ↦ rw (l, e, renew) refl
  ]
]

finals-run_adapter :
    (o : Outside) (a : Adapter) (r : Run) → finals (run_adapter o a r).1.calls ≡ finals r.calls
unfolding run_adapter
finals-run_adapter o (ends ending) r = refl
finals-run_adapter o (reports p next unwound) r =
    let same = finals-report o p r in
    elim (Option-cases (report o p r).0) [
      | inl e ↦ rw (e, run_adapter) (finals-run_adapter o next (report o p r).1 ∙ same)
      | inr (x, e) ↦ rw (e, run_adapter) (finals-run_adapter o unwound (report o p r).1 ∙ same)
    ]
finals-run_adapter o (polls next stopped) r = elim (Bool-cases r.cancelled) [
  | inl e ↦
      ap (λ (x : Ending × Run). finals x.1.calls) (if_true r.cancelled _ _ e)
      ∙ finals-run_adapter o stopped r
  | inr e ↦
      ap (λ (x : Ending × Run). finals x.1.calls) (if_false r.cancelled _ _ e)
      ∙ finals-run_adapter o next r
]
finals-run_adapter o (interval next) r = finals-run_adapter o next (renew o r) ∙ finals-renew o r

finals-awaited : (x : Ending × Run) → finals (awaited x).1.calls ≡ finals x.1.calls
finals-awaited (returned, r) = refl
finals-awaited (timed_out, r) = refl
finals-awaited (raised e, r) = refl

finals-stage_inputs :
    (o : Outside) (roles : List ℕ) (r : Run)
    → finals (stage_inputs o roles r).1.calls ≡ finals r.calls
unfolding stage_inputs
finals-stage_inputs o [] r = refl
finals-stage_inputs o (role ∷ roles) r = elim (Option-cases (o.transfer r.calls)) [
  | inl e ↦
      rw (e, stage_inputs)
        (finals-stage_inputs o roles (record r { calls = download role ∷ r.calls }))
  | inr (x, e) ↦ rw (e, stage_inputs) refl
]

finals-raise_if_lost : (r : Run) → finals (raise_if_lost r).1.calls ≡ finals r.calls
finals-raise_if_lost r = ground arith

and_then-Executed :
    (o : Outside) (x : Raising) (next : Run → Raising)
    → finals x.1.calls ≡ 0
    → ((r : Run) → finals r.calls ≡ 0 → Executed o (next r))
    → Executed o (and_then x next)
and_then-Executed o (none, r) next quiet later = later r quiet
and_then-Executed o (some e, r) next quiet later = inl quiet

complete-Executed :
    (o : Outside) (r : Run)
    → finals r.calls ≡ 0
    → Executed o (complete o (record r { calls = upload_output ∷ r.calls }))
unfolding complete
complete-Executed o r quiet =
    elim (Answer-cases (o.answer (complete_report ∷ upload_output ∷ r.calls))) [
      | inl e ↦ rw (e, complete) ((r.calls, refl, quiet), e)
      | inr (inl e) ↦ rw (e, complete) (inr ((r.calls, refl, quiet), e))
      | inr (inr e) ↦ rw (e, complete) (inr ((r.calls, refl, quiet), e))
    ]

uploaded-Executed :
    (o : Outside) (r : Run)
    → finals r.calls ≡ 0
    → Executed o (and_then (upload_output_file o r) (complete o))
unfolding upload_output_file
uploaded-Executed o r quiet = elim (Option-cases (o.transfer r.calls)) [
  | inl e ↦ rw e (complete-Executed o r quiet)
  | inr (x, e) ↦ rw e (inl quiet)
]

execute-Executed :
    (o : Outside) (claim : Claim) (r : Run) → finals r.calls ≡ 0 → Executed o (execute o claim r)
unfolding execute
execute-Executed o claim r h =
    and_then-Executed o (claim.resolving, r) _ h
      λ r0 h0.
        and_then-Executed o (report o first_progress r0) _ (finals-report o first_progress r0 ∙ h0)
          λ r1 h1.
            and_then-Executed o (stage_inputs o claim.inputs r1) _
              (finals-stage_inputs o claim.inputs r1 ∙ h1)
              λ r2 h2.
                and_then-Executed o (awaited (run_adapter o claim.adapter r2)) _
                  (finals-awaited (run_adapter o claim.adapter r2)
                    ∙ finals-run_adapter o claim.adapter r2
                    ∙ h2)
                  λ r3 h3.
                    and_then-Executed o (raise_if_lost r3) _ (finals-raise_if_lost r3 ∙ h3)
                      λ r4 h4. uploaded-Executed o r4 h4

handled-Settled : (o : Outside) (x : Raising) → Executed o x → Settled o x.0 (handled x).calls
handled-Settled o (none, r) completed = completed
handled-Settled o (some lease_lost, r) executed = executed
handled-Settled o (some api_unavailable, r) executed = executed
handled-Settled o (some job_cancelled, r) (inl quiet) = quiet
handled-Settled o (some job_cancelled, r) (inr absent) = absurd absent
handled-Settled o (some cancelled_on_shutdown, r) (inl quiet) = quiet
handled-Settled o (some cancelled_on_shutdown, r) (inr absent) = absurd absent
handled-Settled o (some job_timed_out, r) (inl quiet) = (r.calls, refl, quiet)
handled-Settled o (some job_timed_out, r) (inr absent) = absurd absent
handled-Settled o (some crashed, r) (inl quiet) = (r.calls, refl, quiet)
handled-Settled o (some crashed, r) (inr absent) = absurd absent
handled-Settled o (some (adapter_error retriable), r) (inl quiet) = (r.calls, refl, quiet)
handled-Settled o (some (adapter_error retriable), r) (inr absent) = absurd absent

-- Whatever the API, the object storage and the adapter do, what a run reports is given by what its
-- execution raised. Nothing: the last two calls are the upload and the completion, which the API
-- accepted. A timeout or a crash: the last call is a retriable failure report. An error of the
-- adapter: the last call is a failure report with the retriability of that error; in these three
-- cases it is made also when a renewal of the lease was refused before. A cancellation or a
-- shutdown: no end is reported. A lost lease or an unreachable API: no end is reported, or only a
-- completion after the upload, which the API refused or did not answer. No end is reported before
-- the last call.
pub run-Settled :
    (o : Outside) (claim : Claim) → Settled o (execute o claim new_run).0 (run o claim).calls
unfolding run
run-Settled o claim =
    handled-Settled o (execute o claim new_run) (execute-Executed o claim new_run refl)
