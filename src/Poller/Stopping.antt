-- ===== src/Poller/Stopping.antt =====
-- What a worker does after the signal to stop.
use mathlib.Core.Path.{subst}
use zolexai.Prelude.{
  ℕ, suc, ◌+◌, ◌≤◌, ◌≡◌, refl, ap, sym, ◌∙◌, Bool, true, false, none, some, arith, if_true,
  if◌then◌else◌,
}
use zolexai.Poller.{
  Phase, registering, loop_head, acquiring, claiming, returned, WorkerService, register, registered,
  turn, acquire, check, unavailable, rejected, no_job, job, claimed, resume, finish, exit, Step,
  registers, retries, turns, acquires, checks, claims, resumes, wakes, finishes, stops, exits,
  Steps, here, then_step, backoff_start, next_delay,
}

-- The claim that is on its way.
abbrev pub pending : Phase → ℕ
pending claiming = 1
pending _ = 0

-- The jobs that are in flight, were cut off, or may come of the claim on its way.
abbrev pub jobs : WorkerService → ℕ
jobs s = s.active + s.killed + pending s.phase

record Drains (s t : WorkerService) : Type 0 where
  stopping : t.stopping ≡ true
  posted : t.posted ≡ s.posted
  jobs : jobs t ≤ jobs s

Drains-trans : {s t u : WorkerService} → Drains s t → Drains t u → Drains s u
Drains-trans a b = record {
  stopping = b.stopping;
  posted = b.posted ∙ a.posted;
  jobs = omega (arith, a.jobs, b.jobs);
}

-- A step that posts no claim and starts no job.
quiet :
    (s t : WorkerService) → t.stopping ≡ true → t.posted ≡ s.posted → jobs t ≤ jobs s → Drains s t
quiet s t h p j = record { stopping = h; posted = p; jobs = j }

pending-if :
    (b : Bool) (p q : Phase) → pending p ≡ 0 → pending q ≡ 0 → pending (if b then p else q) ≡ 0
pending-if true p q hp hq = hp
pending-if false p q hp hq = hq

register-Drains : (delay : ℕ) (s : WorkerService) → s.stopping ≡ true → Drains s (register delay s)
unfolding register
register-Drains delay s h =
    quiet s _ h refl (omega (arith, pending-if s.stopping loop_head (registering delay) refl refl))

check-Drains : (s : WorkerService) → s.stopping ≡ true → Drains s (check s)
unfolding check
check-Drains s h =
    subst (Drains s) (sym (if_true s.stopping _ _ h)) (quiet s _ h refl (omega arith))

Step-Drains : {s t : WorkerService} → s.stopping ≡ true → Step s t → Drains s t
unfolding registered turn acquire claimed resume finish exit
Step-Drains h (registers delay none e) = quiet _ _ h refl (omega arith)
Step-Drains h (registers delay (some id) e) = quiet _ _ h refl (omega arith)
Step-Drains {s = s} h (retries delay e) = register-Drains (next_delay delay) s h
Step-Drains {s = s} h (turns e) =
    quiet s _ h refl (omega (arith, pending-if s.stopping returned acquiring refl refl))
Step-Drains h (acquires left e f) = quiet _ _ h refl (omega arith)
Step-Drains {s = s} h (checks e) = check-Drains s h
Step-Drains h (claims unavailable e) = quiet _ _ h refl (omega arith)
Step-Drains {s = s} h (claims rejected e) =
    let released = record s { free = suc s.free; delay = backoff_start } in
    Drains-trans (quiet s released h refl (omega arith)) (register-Drains backoff_start released h)
Step-Drains h (claims no_job e) = quiet _ _ h refl (omega arith)
Step-Drains h (claims job e) = quiet _ _ h refl (omega (arith, ap pending e))
Step-Drains h (resumes e) = quiet _ _ h refl (omega arith)
Step-Drains h (wakes e) = quiet _ _ h refl (omega arith)
Step-Drains h (finishes others e) = quiet _ _ h refl (omega (arith, e))
Step-Drains h stops = quiet _ _ refl refl (omega arith)
Step-Drains h (exits e) = quiet _ _ h refl (omega arith)

Steps-Drains : {s t : WorkerService} → s.stopping ≡ true → Steps s t → Drains s t
Steps-Drains {s = s} h here = quiet s s h refl (omega arith)
Steps-Drains h (then_step before last) =
    let d = Steps-Drains h before in Drains-trans d (Step-Drains d.stopping last)

-- After the signal to stop a worker posts no claim any more, and it starts no job but the one that
-- a claim already on its way may bring.
pub Steps-draining :
    (s t : WorkerService)
    → s.stopping ≡ true
    → Steps s t
    → (t.posted ≡ s.posted) × (t.active + t.killed ≤ s.active + s.killed + pending s.phase)
Steps-draining s t h steps = let d = Steps-Drains h steps in (d.posted, omega (arith, d.jobs))
