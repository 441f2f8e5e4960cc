-- ===== src/Runner/Endings.antt =====
-- What a run reports by the way its adapter ended.
use mathlib.Core.Path.{subst}
use zolexai.Prelude.{
  ◌⊎◌, inl, inr, ◌≡◌, refl, sym, ap, ◌∙◌, true, false, Bool-cases, Option-cases, Option, none, some,
  List, ◌∷◌, if_true, if_false,
}
use zolexai.Runner.{
  Raised, lease_lost, api_unavailable, job_cancelled, cancelled_on_shutdown, job_timed_out, crashed,
  adapter_error, Call, upload_output, complete_report, failure_report, Run, new_run, Raising,
  and_then, Outside, report, raise_if_lost, Ending, returned, timed_out, raised, run_adapter,
  awaited, stage_inputs, upload_output_file, complete, Claim, first_progress, execute, handled, run,
}
use zolexai.Runner.Settling.{Answer-cases}

-- The calls of a run that raised something after these calls.
abbrev pub Handled : Raised → List Call → List Call → Type 0
Handled lease_lost before calls = calls ≡ before
Handled job_cancelled before calls = calls ≡ before
Handled api_unavailable before calls = calls ≡ before
Handled cancelled_on_shutdown before calls = calls ≡ before
Handled job_timed_out before calls = calls ≡ failure_report true ∷ before
Handled crashed before calls = calls ≡ failure_report true ∷ before
Handled (adapter_error retriable) before calls = calls ≡ failure_report retriable ∷ before

-- The calls of a run whose upload came to this.
abbrev pub Uploaded : Option Raised → List Call → List Call → Type 0
Uploaded none before calls = calls ≡ complete_report ∷ upload_output ∷ before
Uploaded (some e) before calls = Handled e (upload_output ∷ before) calls

-- The calls of a run whose adapter ended, with the state that it left.
abbrev pub Ended : Outside → Ending × Run → List Call → Type 0
Ended o (returned, r) calls =
    ((r.lost ≡ true) × (calls ≡ r.calls))
    ⊎ ((r.lost ≡ false) × Uploaded (o.transfer r.calls) r.calls calls)
Ended o (timed_out, r) calls = Handled job_timed_out r.calls calls
Ended o (raised e, r) calls = Handled e r.calls calls

-- What comes before the adapter.
abbrev pub prepared : Outside → Claim → Raising
prepared o claim =
    and_then (claim.resolving, new_run)
      λ r0. and_then (report o first_progress r0) λ r1. stage_inputs o claim.inputs r1

handled-Handled : (e : Raised) (r : Run) → Handled e r.calls (handled (some e, r)).calls
handled-Handled lease_lost r = refl
handled-Handled job_cancelled r = refl
handled-Handled api_unavailable r = refl
handled-Handled cancelled_on_shutdown r = refl
handled-Handled job_timed_out r = refl
handled-Handled crashed r = refl
handled-Handled (adapter_error retriable) r = refl

-- What comes after the adapter returned.
abbrev delivery : Outside → Run → Raising
delivery o r = and_then (raise_if_lost r) λ r4. and_then (upload_output_file o r4) (complete o)

handled-complete :
    (o : Outside) (r : Run) → (handled (complete o r)).calls ≡ complete_report ∷ r.calls
unfolding complete
handled-complete o r = elim (Answer-cases (o.answer (complete_report ∷ r.calls))) [
  | inl e ↦ rw (e, complete) refl
  | inr (inl e) ↦ rw (e, complete) refl
  | inr (inr e) ↦ rw (e, complete) refl
]

uploaded :
    (o : Outside) (r : Run)
    → Uploaded
        (o.transfer r.calls)
        r.calls
        (handled (and_then (upload_output_file o r) (complete o))).calls
unfolding upload_output_file
uploaded o r = elim (Option-cases (o.transfer r.calls)) [
  | inl e ↦ rw e (handled-complete o (record r { calls = upload_output ∷ r.calls }))
  | inr (x, e) ↦ rw e (handled-Handled x (record r { calls = upload_output ∷ r.calls }))
]

ended :
    (o : Outside) (x : Ending × Run) → Ended o x (handled (and_then (awaited x) (delivery o))).calls
ended o (timed_out, r) = refl
ended o (raised e, r) = handled-Handled e r
ended o (returned, r) =
    let after = λ (x : Raising).
      (handled (and_then x λ r4. and_then (upload_output_file o r4) (complete o))).calls in
    let goal = λ (x : Raising).
      ((r.lost ≡ true) × (after x ≡ r.calls))
      ⊎ ((r.lost ≡ false) × Uploaded (o.transfer r.calls) r.calls (after x)) in
    elim (Bool-cases r.lost) [
      | inl lost ↦ subst goal (sym (if_true r.lost _ _ lost)) (inl (lost, refl))
      | inr kept ↦ subst goal (sym (if_false r.lost _ _ kept)) (inr (kept, uploaded o r))
    ]

and_then-none :
    (x : Raising) (next : Run → Raising) (r : Run)
    → and_then x next ≡ (none, r)
    → (first : Run) × (x ≡ (none, first)) × (next first ≡ (none, r))
and_then-none (none, first) next r h = (first, refl, h)
and_then-none (some e, first) next r h = cc (ap (λ (x : Raising). x.0) h)

-- Once the adapter is built, the first report is made and the inputs are staged, the calls of a run
-- are given by how its adapter ends. When it returns: nothing more if the keeper lost the lease, and
-- else the upload and, if that succeeds, the completion. When it times out, crashes or raises an
-- error of its own, or the upload does: a failure report, retriable but for an error that says
-- otherwise. When it raises a lost lease, a cancellation, an unreachable API or a shutdown, or the
-- upload does: nothing more.
pub run-Ended :
    (o : Outside) (claim : Claim) (r : Run)
    → prepared o claim ≡ (none, r)
    → Ended o (run_adapter o claim.adapter r) (run o claim).calls
unfolding run execute
run-Ended o claim r ready =
    let built = and_then-none (claim.resolving, new_run) _ r ready in
    let told = and_then-none (report o first_progress built.0) _ r built.2 in
    let staged = λ (r2 : Run). and_then (awaited (run_adapter o claim.adapter r2)) (delivery o) in
    let first = λ (r1 : Run). and_then (stage_inputs o claim.inputs r1) staged in
    let same : execute o claim new_run ≡ staged r =
      ap (λ (x : Raising). and_then x λ r0. and_then (report o first_progress r0) first) built.1
      ∙ ap (λ (x : Raising). and_then x first) told.1
      ∙ ap (λ (x : Raising). and_then x staged) told.2 in
    subst (λ (x : Raising). Ended o (run_adapter o claim.adapter r) (handled x).calls) (sym same)
      (ended o (run_adapter o claim.adapter r))
