-- ===== src/Examples/Shutdown.antt =====
-- A worker with two slots that is told to stop while it runs one job and waits for another:
-- its loop returns, the process ends, and the job is cut off.
use zolexai.Prelude.{◌+◌, ◌≤◌, ◌≡◌, refl, true, some}
use zolexai.Poller.{
  WorkerService, new_service, Step, Steps, here, then_step, registers, turns, acquires, checks,
  claims, stops, exits, wakes, job, no_job, loop_head, acquiring, holding, waiting, returned,
  exited, claiming, registered, turn, acquire, check, claimed, exit, backoff_start,
}
use zolexai.Poller.Slots.{IsBackoff, HasBackoff, Steps-bounded}
use zolexai.Poller.Stopping.{pending, Steps-draining}

abbrev seen : WorkerService
seen = record (new_service 2) { worker_id = some 3; phase = loop_head }

abbrev looking : WorkerService
looking = record seen { phase = acquiring }

abbrev ready : WorkerService
ready = record looking { phase = holding; free = 1 }

abbrev asking : WorkerService
asking = record ready { phase = claiming; posted = 1 }

abbrev busy : WorkerService
busy = record asking { phase = loop_head; active = 1 }

abbrev looking_on : WorkerService
looking_on = record busy { phase = acquiring }

abbrev ready_again : WorkerService
ready_again = record looking_on { phase = holding; free = 0 }

abbrev asking_again : WorkerService
asking_again = record ready_again { phase = claiming; posted = 2 }

abbrev idle : WorkerService
idle = record asking_again { phase = waiting; free = 1 }

abbrev told : WorkerService
told = record idle { stopping = true }

abbrev awake : WorkerService
awake = record told { phase = loop_head }

abbrev left : WorkerService
left = record awake { phase = returned }

abbrev gone : WorkerService
gone = record left { phase = exited; active = 0; killed = 1 }

to_seen : Step (new_service 2) seen
unfolding registered turn acquire check claimed exit
to_seen = registers backoff_start (some 3) refl

to_looking : Step seen looking
unfolding registered turn acquire check claimed exit
to_looking = turns refl

to_ready : Step looking ready
unfolding registered turn acquire check claimed exit
to_ready = acquires 1 refl refl

to_asking : Step ready asking
unfolding registered turn acquire check claimed exit
to_asking = checks refl

to_busy : Step asking busy
unfolding registered turn acquire check claimed exit
to_busy = claims job refl

to_looking_on : Step busy looking_on
unfolding registered turn acquire check claimed exit
to_looking_on = turns refl

to_ready_again : Step looking_on ready_again
unfolding registered turn acquire check claimed exit
to_ready_again = acquires 0 refl refl

to_asking_again : Step ready_again asking_again
unfolding registered turn acquire check claimed exit
to_asking_again = checks refl

to_idle : Step asking_again idle
unfolding registered turn acquire check claimed exit
to_idle = claims no_job refl

to_told : Step idle told
unfolding registered turn acquire check claimed exit
to_told = stops

to_awake : Step told awake
unfolding registered turn acquire check claimed exit
to_awake = wakes refl

to_left : Step awake left
unfolding registered turn acquire check claimed exit
to_left = turns refl

to_gone : Step left gone
unfolding registered turn acquire check claimed exit
to_gone = exits refl

until_told : Steps (new_service 2) told
until_told =
    then_step
      (then_step
        (then_step
          (then_step
            (then_step
              (then_step
                (then_step (then_step (then_step (then_step here to_seen) to_looking) to_ready)
                  to_asking)
                to_busy)
              to_looking_on)
            to_ready_again)
          to_asking_again)
        to_idle)
      to_told

from_told : Steps told gone
from_told = then_step (then_step (then_step here to_awake) to_left) to_gone

Steps-bounded_example :
    (told.active ≤ 2)
    × (told.phase ≡ claiming → told.active + 1 ≤ 2)
    × IsBackoff told.delay
    × HasBackoff told.phase
Steps-bounded_example = Steps-bounded 2 told until_told

Steps-draining_example :
    (gone.posted ≡ told.posted)
    × (gone.active + gone.killed ≤ told.active + told.killed + pending told.phase)
Steps-draining_example = Steps-draining told gone refl from_told
