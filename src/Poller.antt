-- ===== src/Poller.antt =====
-- apps/worker/worker/main.py: the worker's process, which registers, claims jobs while a slot is
-- free, and runs them side by side. The points at which it awaits are the phases of its claim loop;
-- jobs end and the signal to stop arrives between any two of them.
pub mod Slots
pub mod Stopping
use zolexai.Prelude.{
  ℕ, zero, suc, ◌+◌, ◌*◌, ◌≡◌, Bool, true, false, Option, none, some, min, if◌then◌else◌,
}

abbrev pub backoff_start : ℕ
backoff_start = 2

abbrev pub backoff_max : ℕ
backoff_max = 30

abbrev pub next_delay : ℕ → ℕ
next_delay delay = min (delay * 2) backoff_max

-- Where `register` and `claim_loop` stand: at a request, at a sleep, at the semaphore or between;
-- `returned` is the end of the loop and `exited` that of the process.
pub data Phase : Type 0 where
  registering registration_pause : ℕ → Phase
  loop_head acquiring holding claiming claim_pause waiting returned exited : Phase

-- `posted` counts the claims posted and `killed` the jobs that the process's end cut off.
pub record WorkerService : Type 0 where
  pub worker_id : Option ℕ
  pub stopping : Bool
  pub active : ℕ
  pub free : ℕ
  pub delay : ℕ
  pub phase : Phase
  pub posted : ℕ
  pub killed : ℕ

abbrev pub new_service : ℕ → WorkerService
new_service max_concurrency = record {
  worker_id = none;
  stopping = false;
  active = 0;
  free = max_concurrency;
  delay = backoff_start;
  phase = registering backoff_start;
  posted = 0;
  killed = 0;
}

-- The head of `register`'s loop.
unfoldable pub register : ℕ → WorkerService → WorkerService
register delay s = record s { phase = if s.stopping then loop_head else registering delay }

-- What registration comes to: an identity, or a rejection, an outage or an answer without one.
unfoldable pub registered : Option ℕ → ℕ → WorkerService → WorkerService
registered none delay s = record s { phase = registration_pause delay }
registered (some id) delay s = record s { worker_id = some id; phase = loop_head }

-- The head of `claim_loop`.
unfoldable pub turn : WorkerService → WorkerService
turn s = record s { phase = if s.stopping then returned else acquiring }

unfoldable pub acquire : ℕ → WorkerService → WorkerService
acquire left s = record s { free = left; phase = holding }

abbrev pub release : WorkerService → WorkerService
release s = record s { free = suc s.free }

-- With a slot in hand: stop, or post a claim.
unfoldable pub check : WorkerService → WorkerService
check s =
    if s.stopping
    then record (release s) { phase = returned }
    else record s { phase = claiming; posted = suc s.posted }

pub data ClaimAnswer : Type 0 where
  unavailable rejected no_job job : ClaimAnswer

unfoldable pub claimed : ClaimAnswer → WorkerService → WorkerService
unfolding register
claimed unavailable s = record (release s) { phase = claim_pause }
claimed rejected s = register backoff_start (record (release s) { delay = backoff_start })
claimed no_job s = record (release s) { delay = backoff_start; phase = waiting }
claimed job s = record s { delay = backoff_start; active = suc s.active; phase = loop_head }

-- After the sleep that follows an outage.
unfoldable pub resume : WorkerService → WorkerService
resume s = record s { delay = next_delay s.delay; phase = loop_head }

-- `_run_and_release`, at a job's end.
unfoldable pub finish : ℕ → WorkerService → WorkerService
finish others s = record s { active = others; free = suc s.free }

-- The end of the process ends the tasks it still has.
unfoldable pub exit : WorkerService → WorkerService
exit s = record s { phase = exited; killed = s.active; active = 0 }

pub data Step : WorkerService → WorkerService → Type 0 where
  registers :
      {s : WorkerService} (delay : ℕ) (answer : Option ℕ)
      → s.phase ≡ registering delay
      → Step s (registered answer delay s)
  retries :
      {s : WorkerService} (delay : ℕ)
      → s.phase ≡ registration_pause delay
      → Step s (register (next_delay delay) s)
  turns : {s : WorkerService} → s.phase ≡ loop_head → Step s (turn s)
  acquires :
      {s : WorkerService} (left : ℕ)
      → s.phase ≡ acquiring
      → s.free ≡ suc left
      → Step s (acquire left s)
  checks : {s : WorkerService} → s.phase ≡ holding → Step s (check s)
  claims : {s : WorkerService} (a : ClaimAnswer) → s.phase ≡ claiming → Step s (claimed a s)
  resumes : {s : WorkerService} → s.phase ≡ claim_pause → Step s (resume s)
  wakes : {s : WorkerService} → s.phase ≡ waiting → Step s (record s { phase = loop_head })
  finishes : {s : WorkerService} (others : ℕ) → s.active ≡ suc others → Step s (finish others s)
  stops : {s : WorkerService} → Step s (record s { stopping = true })
  exits : {s : WorkerService} → s.phase ≡ returned → Step s (exit s)

pub data Steps : WorkerService → WorkerService → Type 0 where
  here : {s : WorkerService} → Steps s s
  then_step :
      {before between after : WorkerService}
      → Steps before between
      → Step between after
      → Steps before after
