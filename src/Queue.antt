-- ===== src/Queue.antt =====
-- apps/api/app/services/queue.py: the doorbell, a bounded list in Redis whose head is its newest
-- entry. `up` tells whether the Redis calls of an operation go through; if not, nothing changes.
pub mod Bounds
use zolexai.Prelude.{
  ℕ, zero, suc, ◌-◌, Bool, true, false, Option, none, some, List, [], ◌∷◌, if◌then◌else◌, max, min,
  length, take,
}

pub data Hint : Type 0 where
  job : ℕ → Hint
  wake : Hint

abbrev pub max_wake_depth : ℕ
max_wake_depth = 1000

-- `LTRIM 0 (max_wake_depth - 1)`
trim : List Hint → List Hint
trim hints = take max_wake_depth hints

unfoldable pub notify_job_available : Bool → ℕ → List Hint → List Hint
unfolding trim
notify_job_available up id hints = if up then trim (job id ∷ hints) else hints

push_wakes : ℕ → List Hint → List Hint
push_wakes zero hints = hints
push_wakes (suc n) hints = push_wakes n (wake ∷ hints)

unfoldable pub wake_workers : Bool → ℕ → List Hint → List Hint
unfolding push_wakes trim
wake_workers up count hints = if up then trim (push_wakes (max 1 (min count 50)) hints) else hints

-- `BRPOP`: the oldest entry, which stands last. The hint, and the list without it.
unfoldable pub pop_last : List Hint → Option Hint × List Hint
pop_last [] = (none, [])
pop_last (h ∷ []) = (some h, [])
pop_last (h ∷ k ∷ hs) = let (found, rest) = pop_last (k ∷ hs) in (found, h ∷ rest)

unfoldable pub wait_for_wake : Bool → List Hint → Option Hint × List Hint
unfolding pop_last
wait_for_wake up hints = if up then pop_last hints else (none, hints)

unfoldable pub queue_depth : Bool → List Hint → ℕ
queue_depth up hints = if up then length hints else 0
