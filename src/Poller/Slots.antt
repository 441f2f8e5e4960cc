-- ===== src/Poller/Slots.antt =====
-- How many jobs a worker runs at once, and how long it backs off.
use mathlib.Core.Path.{subst}
use zolexai.Prelude.{
  inl, inr, ℕ, suc, ◌+◌, ◌≤◌, ◌≡◌, ◌≢◌, refl, ap, sym, ◌∙◌, Bool-cases, none, some, arith,
}
use zolexai.Poller.{
  Phase, registering, registration_pause, loop_head, holding, claiming, exited, WorkerService,
  new_service, register, registered, turn, acquire, check, ClaimAnswer, unavailable, rejected,
  no_job, job, claimed, resume, finish, exit, Step, registers, retries, turns, acquires, checks,
  claims, resumes, wakes, finishes, stops, exits, Steps, here, then_step, backoff_start,
  backoff_max, next_delay,
}

-- The slot that the claim loop holds itself.
abbrev pub in_hand : Phase → ℕ
in_hand holding = 1
in_hand claiming = 1
in_hand _ = 0

abbrev pub IsBackoff : ℕ → Type 0
IsBackoff delay = (backoff_start ≤ delay) × (delay ≤ backoff_max)

abbrev pub HasBackoff : Phase → Type 0
HasBackoff (registering delay) = IsBackoff delay
HasBackoff (registration_pause delay) = IsBackoff delay
HasBackoff _ = Unit

pub record ServiceIsValid (max_concurrency : ℕ) (s : WorkerService) : Type 0 where
  pub slots : s.free + s.active + s.killed + in_hand s.phase ≡ max_concurrency
  pub unkilled : s.phase ≢ exited → s.killed ≡ 0
  pub delay : IsBackoff s.delay
  pub pause : HasBackoff s.phase

next_delay-IsBackoff : (delay : ℕ) → IsBackoff delay → IsBackoff (next_delay delay)
next_delay-IsBackoff delay h = ground arith

-- A phase that is not the last one has cut off no job.
going :
    {n : ℕ} {s : WorkerService} {p : Phase}
    → ServiceIsValid n s
    → s.phase ≡ p
    → p ≢ exited
    → s.killed ≡ 0
going {s = s} v e other = v.unkilled λ x. other (sym e ∙ x)

counted :
    {n : ℕ} {s : WorkerService} {p : Phase}
    → ServiceIsValid n s
    → s.phase ≡ p
    → p ≢ exited
    → s.free + s.active + in_hand p ≡ n
counted v e other = omega (arith, v.slots, going v e other, ap in_hand e)

module _ (n : ℕ) where
  -- A state in which no job has been cut off.
  still :
      (t : WorkerService)
      → t.killed ≡ 0
      → t.free + t.active + in_hand t.phase ≡ n
      → IsBackoff t.delay
      → HasBackoff t.phase
      → ServiceIsValid n t
  still t k slots delay pause = record {
    slots = omega (arith, k, slots);
    unkilled = λ x. k;
    delay = delay;
    pause = pause;
  }

  register-ServiceIsValid :
      (s : WorkerService) (delay : ℕ)
      → IsBackoff delay
      → IsBackoff s.delay
      → s.killed ≡ 0
      → s.free + s.active ≡ n
      → ServiceIsValid n (register delay s)
  unfolding register
  register-ServiceIsValid s delay b d k slots = elim (Bool-cases s.stopping) [
    | inl e ↦ rw (e, register) (still _ k (omega (arith, slots)) d tt)
    | inr e ↦ rw (e, register) (still _ k (omega (arith, slots)) d b)
  ]

  turn-ServiceIsValid :
      {s : WorkerService} → ServiceIsValid n s → s.phase ≡ loop_head → ServiceIsValid n (turn s)
  unfolding turn
  turn-ServiceIsValid {s = s} v e =
      let k = going v e (λ x. cc x) in
      elim (Bool-cases s.stopping) [
        | inl h ↦ rw (h, turn) (still _ k (omega (arith, counted v e (λ x. cc x))) v.delay tt)
        | inr h ↦ rw (h, turn) (still _ k (omega (arith, counted v e (λ x. cc x))) v.delay tt)
      ]

  check-ServiceIsValid :
      {s : WorkerService} → ServiceIsValid n s → s.phase ≡ holding → ServiceIsValid n (check s)
  unfolding check
  check-ServiceIsValid {s = s} v e =
      let k = going v e (λ x. cc x) in
      elim (Bool-cases s.stopping) [
        | inl h ↦ rw (h, check) (still _ k (omega (arith, counted v e (λ x. cc x))) v.delay tt)
        | inr h ↦ rw (h, check) (still _ k (omega (arith, counted v e (λ x. cc x))) v.delay tt)
      ]

  claimed-ServiceIsValid :
      {s : WorkerService} (a : ClaimAnswer)
      → ServiceIsValid n s
      → s.phase ≡ claiming
      → ServiceIsValid n (claimed a s)
  unfolding claimed
  claimed-ServiceIsValid {s = s} unavailable v e =
      still _ (going v e (λ x. cc x)) (omega (arith, counted v e (λ x. cc x))) v.delay tt
  claimed-ServiceIsValid {s = s} rejected v e =
      let k = going v e (λ x. cc x) in
      register-ServiceIsValid (record s { free = suc s.free; delay = backoff_start }) backoff_start
        (omega arith, omega arith) (omega arith, omega arith) k
        (omega (arith, counted v e (λ x. cc x)))
  claimed-ServiceIsValid {s = s} no_job v e =
      still _ (going v e (λ x. cc x)) (omega (arith, counted v e (λ x. cc x)))
        (omega arith, omega arith) tt
  claimed-ServiceIsValid {s = s} job v e =
      still _ (going v e (λ x. cc x)) (omega (arith, counted v e (λ x. cc x)))
        (omega arith, omega arith) tt

  Step-ServiceIsValid : {s t : WorkerService} → ServiceIsValid n s → Step s t → ServiceIsValid n t
  unfolding registered acquire resume finish exit
  Step-ServiceIsValid v (registers delay none e) =
      still _ (going v e (λ x. cc x)) (omega (arith, counted v e (λ x. cc x))) v.delay
        (subst HasBackoff e v.pause)
  Step-ServiceIsValid v (registers delay (some id) e) =
      still _ (going v e (λ x. cc x)) (omega (arith, counted v e (λ x. cc x))) v.delay tt
  Step-ServiceIsValid v (retries delay e) =
      let k = going v e (λ x. cc x) in
      register-ServiceIsValid _ (next_delay delay)
        (next_delay-IsBackoff delay (subst HasBackoff e v.pause)) v.delay k
        (omega (arith, counted v e (λ x. cc x)))
  Step-ServiceIsValid v (turns e) = turn-ServiceIsValid v e
  Step-ServiceIsValid v (acquires left e f) =
      still _ (going v e (λ x. cc x)) (omega (arith, counted v e (λ x. cc x), f)) v.delay tt
  Step-ServiceIsValid v (checks e) = check-ServiceIsValid v e
  Step-ServiceIsValid v (claims a e) = claimed-ServiceIsValid a v e
  Step-ServiceIsValid v (resumes e) =
      still _ (going v e (λ x. cc x)) (omega (arith, counted v e (λ x. cc x)))
        (next_delay-IsBackoff _ v.delay) tt
  Step-ServiceIsValid v (wakes e) =
      still _ (going v e (λ x. cc x)) (omega (arith, counted v e (λ x. cc x))) v.delay tt
  Step-ServiceIsValid v (finishes others e) = record {
    slots = omega (arith, v.slots, e);
    unkilled = v.unkilled;
    delay = v.delay;
    pause = v.pause;
  }
  Step-ServiceIsValid v stops = record {
    slots = v.slots;
    unkilled = v.unkilled;
    delay = v.delay;
    pause = v.pause;
  }
  Step-ServiceIsValid v (exits e) = record {
    slots = omega (arith, v.slots, ap in_hand e, going v e (λ x. cc x));
    unkilled = λ x. absurd (x refl);
    delay = v.delay;
    pause = tt;
  }

  Steps-ServiceIsValid : {s t : WorkerService} → ServiceIsValid n s → Steps s t → ServiceIsValid n t
  Steps-ServiceIsValid v here = v
  Steps-ServiceIsValid v (then_step before last) =
      Step-ServiceIsValid (Steps-ServiceIsValid v before) last

  new_service-ServiceIsValid : ServiceIsValid n (new_service n)
  new_service-ServiceIsValid = record {
    slots = omega arith;
    unkilled = λ x. refl;
    delay = (omega arith, omega arith);
    pause = (omega arith, omega arith);
  }

-- In every state that a worker's process can reach, it runs at most `max_concurrency` jobs, it has
-- posted a claim only with a slot free for the job that may come of it, and it waits between 2 and
-- 30 seconds before it tries an unreachable API again, for a registration as for a claim.
pub Steps-bounded :
    (max_concurrency : ℕ) (s : WorkerService)
    → Steps (new_service max_concurrency) s
    → (s.active ≤ max_concurrency)
      × (s.phase ≡ claiming → s.active + 1 ≤ max_concurrency)
      × IsBackoff s.delay
      × HasBackoff s.phase
Steps-bounded n s steps =
    let v = Steps-ServiceIsValid n (new_service-ServiceIsValid n) steps in
    (omega (arith, v.slots), λ e. omega (arith, v.slots, ap in_hand e), v.delay, v.pause)
