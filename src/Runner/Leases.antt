-- ===== src/Runner/Leases.antt =====
-- What a run does after its lease was lost.
use mathlib.Core.Path.{subst}
use zolexai.Prelude.{
  inl, inr, ℕ, ◌≡◌, refl, sym, ap, ◌∙◌, Bool, true, false, ◌||◌, Bool-cases, Option-cases, List, [],
  ◌∷◌, Option, none, some, if_true, if_false,
}
use zolexai.Runner.Settling.{Answer-cases}
use zolexai.Runner.{
  Raised, Answer, refused, Progress, Call, progress_report, download, upload_output,
  complete_report, Run, new_run, Raising, and_then, Outside, report, renew, raise_if_lost, Ending,
  Adapter, ends, reports, polls, interval, returned, timed_out, raised, run_adapter, awaited,
  stage_inputs, upload_output_file, complete, Claim, first_progress, execute, failure_of, handled,
  run,
}

abbrev is_refused : Answer → Bool
is_refused refused = true
is_refused _ = false

-- Whether the API refused one of the progress reports.
abbrev pub lease_refused : Outside → List Call → Bool
lease_refused o [] = false
lease_refused o (progress_report p ∷ earlier) =
    is_refused (o.answer (progress_report p ∷ earlier)) || lease_refused o earlier
lease_refused o (c ∷ earlier) = lease_refused o earlier

-- Whether the output was uploaded or a completion posted.
abbrev pub delivered : List Call → Bool
delivered [] = false
delivered (upload_output ∷ earlier) = true
delivered (complete_report ∷ earlier) = true
delivered (c ∷ earlier) = delivered earlier

-- The adapter lets the exception of a refused report and a cancellation end its run.
abbrev pub NeverReturns : Adapter → Type 0
NeverReturns (ends returned) = ⊥
NeverReturns (ends ending) = Unit
NeverReturns (reports p next unwound) = NeverReturns next × NeverReturns unwound
NeverReturns (polls next stopped) = NeverReturns next × NeverReturns stopped
NeverReturns (interval next) = NeverReturns next

abbrev pub Unwinds : Adapter → Type 0
Unwinds (ends ending) = Unit
Unwinds (reports p next unwound) = Unwinds next × NeverReturns unwound
Unwinds (polls next stopped) = Unwinds next × NeverReturns stopped
Unwinds (interval next) = Unwinds next

-- A run that is still held: nothing was delivered, and a refused report is known to the keeper.
abbrev Held : Outside → Run → Type 0
Held o r = (delivered r.calls ≡ false) × (lease_refused o r.calls ≡ true → r.lost ≡ true)

abbrev Undelivered : Run → Type 0
Undelivered r = delivered r.calls ≡ false

-- A raising step from a held run leaves it held, or has raised with nothing delivered.
abbrev Step : Outside → Raising → Type 0
Step o (none, r) = Held o r
Step o (some e, r) = Undelivered r

-- A step that has raised with nothing delivered.
abbrev Stopped : Raising → Type 0
Stopped (none, r) = ⊥
Stopped (some e, r) = Undelivered r

Stopped-Step : (o : Outside) (x : Raising) → Stopped x → Step o x
Stopped-Step o (none, r) stopped = absurd stopped
Stopped-Step o (some e, r) stopped = stopped

delivered-report :
    (o : Outside) (p : Progress) (r : Run) → delivered (report o p r).1.calls ≡ delivered r.calls
unfolding report
delivered-report o p r = elim (Answer-cases (o.answer (progress_report p ∷ r.calls))) [
  | inl e ↦ rw (e, report) refl
  | inr (inl e) ↦ rw (e, report) refl
  | inr (inr e) ↦ rw (e, report) refl
]

report-Step : (o : Outside) (p : Progress) (r : Run) → Held o r → Step o (report o p r)
unfolding report
report-Step o p r held = elim (Answer-cases (o.answer (progress_report p ∷ r.calls))) [
  | inl e ↦ rw (e, report) (held.0, rw e held.1)
  | inr (inl e) ↦ rw (e, report) held.0
  | inr (inr e) ↦ rw (e, report) (held.0, rw e held.1)
]

delivered-renew : (o : Outside) (r : Run) → delivered (renew o r).calls ≡ delivered r.calls
unfolding renew
delivered-renew o r = elim (Bool-cases r.lost) [
  | inl l ↦ ap (λ (x : Run). delivered x.calls) (if_true r.lost _ _ l)
  | inr l ↦ elim (Answer-cases (o.answer (progress_report r.last ∷ r.calls))) [
    | inl e ↦ rw (l, e, renew) refl
    | inr (inl e) ↦ rw (l, e, renew) refl
    | inr (inr e) ↦ rw (l, e, renew) refl
  ]
]

renew-Held : (o : Outside) (r : Run) → Held o r → Held o (renew o r)
unfolding renew
renew-Held o r held = elim (Bool-cases r.lost) [
  | inl l ↦ subst (Held o) (sym (if_true r.lost _ _ l)) held
  | inr l ↦
      subst (Held o) (sym (if_false r.lost _ _ l))
        (elim (Answer-cases (o.answer (progress_report r.last ∷ r.calls))) [
          | inl e ↦ rw e (held.0, rw e held.1)
          | inr (inl e) ↦ rw e (held.0, λ h. refl)
          | inr (inr e) ↦ rw e (held.0, rw e held.1)
        ])
]

unwound-Stopped :
    (o : Outside) (a : Adapter) (r : Run)
    → NeverReturns a
    → Undelivered r
    → Stopped (awaited (run_adapter o a r))
unfolding run_adapter
unwound-Stopped o (ends returned) r never h = absurd never
unwound-Stopped o (ends timed_out) r never h = h
unwound-Stopped o (ends (raised e)) r never h = h
unwound-Stopped o (reports p next unwound) r never h =
    let after = (report o p r).1 in
    let kept : Undelivered after = delivered-report o p r ∙ h in
    elim (Option-cases (report o p r).0) [
      | inl e ↦ rw (e, run_adapter) (unwound-Stopped o next after never.0 kept)
      | inr (x, e) ↦ rw (e, run_adapter) (unwound-Stopped o unwound after never.1 kept)
    ]
unwound-Stopped o (polls next stopped) r never h = elim (Bool-cases r.cancelled) [
  | inl e ↦
      subst (λ (x : Ending × Run). Stopped (awaited x)) (sym (if_true r.cancelled _ _ e))
        (unwound-Stopped o stopped r never.1 h)
  | inr e ↦
      subst (λ (x : Ending × Run). Stopped (awaited x)) (sym (if_false r.cancelled _ _ e))
        (unwound-Stopped o next r never.0 h)
]
unwound-Stopped o (interval next) r never h =
    unwound-Stopped o next (renew o r) never (delivered-renew o r ∙ h)

Step-Held : (o : Outside) (x : Raising) → x.0 ≡ none → Step o x → Held o x.1
Step-Held o (none, r) e step = step
Step-Held o (some x, r) e step = cc e

run_adapter-Step :
    (o : Outside) (a : Adapter) (r : Run)
    → Unwinds a
    → Held o r
    → Step o (awaited (run_adapter o a r))
unfolding run_adapter
run_adapter-Step o (ends returned) r unwinds held = held
run_adapter-Step o (ends timed_out) r unwinds held = held.0
run_adapter-Step o (ends (raised e)) r unwinds held = held.0
run_adapter-Step o (reports p next unwound) r unwinds held =
    let after = (report o p r).1 in
    elim (Option-cases (report o p r).0) [
      | inl e ↦
          rw (e, run_adapter)
            (run_adapter-Step o next after unwinds.0
              (Step-Held o (report o p r) e (report-Step o p r held)))
      | inr (x, e) ↦
          rw (e, run_adapter)
            (Stopped-Step o (awaited (run_adapter o unwound after))
              (unwound-Stopped o unwound after unwinds.1 (delivered-report o p r ∙ held.0)))
    ]
run_adapter-Step o (polls next stopped) r unwinds held = elim (Bool-cases r.cancelled) [
  | inl e ↦
      subst (λ (x : Ending × Run). Step o (awaited x)) (sym (if_true r.cancelled _ _ e))
        (Stopped-Step o (awaited (run_adapter o stopped r))
          (unwound-Stopped o stopped r unwinds.1 held.0))
  | inr e ↦
      subst (λ (x : Ending × Run). Step o (awaited x)) (sym (if_false r.cancelled _ _ e))
        (run_adapter-Step o next r unwinds.0 held)
]
run_adapter-Step o (interval next) r unwinds held =
    run_adapter-Step o next (renew o r) unwinds (renew-Held o r held)

stage_inputs-Step :
    (o : Outside) (roles : List ℕ) (r : Run) → Held o r → Step o (stage_inputs o roles r)
unfolding stage_inputs
stage_inputs-Step o [] r held = held
stage_inputs-Step o (role ∷ roles) r held = elim (Option-cases (o.transfer r.calls)) [
  | inl e ↦
      rw (e, stage_inputs)
        (stage_inputs-Step o roles (record r { calls = download role ∷ r.calls }) held)
  | inr (x, e) ↦ rw (e, stage_inputs) held.0
]

-- What is shown of a whole run: a refused report, or nothing delivered.
abbrev Clear : Outside → Run → Type 0
Clear o r = lease_refused o r.calls ≡ true → delivered r.calls ≡ false

and_then-Clear :
    (o : Outside) (x : Raising) (next : Run → Raising)
    → Step o x
    → ((r : Run) → Held o r → Clear o (handled (next r)))
    → Clear o (handled (and_then x next))
and_then-Clear o (none, r) next step later = later r step
and_then-Clear o (some e, r) next step later = λ h. elim (Option-cases (failure_of e)) [
  | inl none_reported ↦ rw none_reported step
  | inr (b, reported) ↦ rw reported step
]

lease_refused-handled :
    (o : Outside) (x : Raising) → lease_refused o (handled x).calls ≡ lease_refused o x.1.calls
lease_refused-handled o (none, r) = refl
lease_refused-handled o (some e, r) = elim (Option-cases (failure_of e)) [
  | inl h ↦ rw h refl
  | inr (b, h) ↦ rw h refl
]

lease_refused-complete :
    (o : Outside) (r : Run) → lease_refused o (complete o r).1.calls ≡ lease_refused o r.calls
unfolding complete
lease_refused-complete o r = elim (Answer-cases (o.answer (complete_report ∷ r.calls))) [
  | inl e ↦ rw (e, complete) refl
  | inr (inl e) ↦ rw (e, complete) refl
  | inr (inr e) ↦ rw (e, complete) refl
]

lease_refused-delivery :
    (o : Outside) (r : Run)
    → lease_refused o (and_then (upload_output_file o r) (complete o)).1.calls
      ≡ lease_refused o r.calls
unfolding upload_output_file
lease_refused-delivery o r = elim (Option-cases (o.transfer r.calls)) [
  | inl e ↦ rw e (lease_refused-complete o (record r { calls = upload_output ∷ r.calls }))
  | inr (x, e) ↦ rw e refl
]

-- A held run that does not know of a lost lease has had no report refused.
unrefused : (o : Outside) (r : Run) → Held o r → r.lost ≡ false → lease_refused o r.calls ≡ false
unrefused o r held e = elim (Bool-cases (lease_refused o r.calls)) [
  | inl h ↦ cc (e, held.1 h)
  | inr h ↦ h
]

delivery-Clear :
    (o : Outside) (r : Run)
    → Held o r
    → Clear o
        (handled (and_then (raise_if_lost r) λ r4. and_then (upload_output_file o r4) (complete o)))
delivery-Clear o r held =
    let after = λ (x : Raising). and_then x λ r4. and_then (upload_output_file o r4) (complete o) in
    elim (Bool-cases r.lost) [
      | inl e ↦
          subst (λ (x : Raising). Clear o (handled (after x))) (sym (if_true r.lost _ _ e))
            (λ h. held.0)
      | inr e ↦
          subst (λ (x : Raising). Clear o (handled (after x))) (sym (if_false r.lost _ _ e))
            (λ h. cc (
              h,
              lease_refused-handled o (and_then (upload_output_file o r) (complete o)),
              lease_refused-delivery o r,
              unrefused o r held e,
            ))
    ]

resolving-Step : (o : Outside) (e : Option Raised) → Step o (e, new_run)
resolving-Step o none = (refl, λ h. cc h)
resolving-Step o (some e) = refl

-- When the API refuses a progress report, the runner's own or one of the keepalive, the run neither
-- uploads an output nor posts a completion, in any order of the reports and with every outage. The
-- adapter must let the refused report and the cancellation end it with some exception.
pub refused-undelivered :
    (o : Outside) (claim : Claim)
    → Unwinds claim.adapter
    → lease_refused o (run o claim).calls ≡ true
    → delivered (run o claim).calls ≡ false
unfolding run execute
refused-undelivered o claim unwinds =
    and_then-Clear o (claim.resolving, new_run) _ (resolving-Step o claim.resolving)
      λ r0 h0.
        and_then-Clear o (report o first_progress r0) _ (report-Step o first_progress r0 h0)
          λ r1 h1.
            and_then-Clear o (stage_inputs o claim.inputs r1) _
              (stage_inputs-Step o claim.inputs r1 h1)
              λ r2 h2.
                and_then-Clear o (awaited (run_adapter o claim.adapter r2)) _
                  (run_adapter-Step o claim.adapter r2 unwinds h2) λ r3 h3. delivery-Clear o r3 h3
