-- ===== src/Queue/Bounds.antt =====
-- The doorbell never holds more than its bound, and rings in the order of the announcements.
use zolexai.Prelude.{
  ℕ, ◌+◌, ◌≤◌, ◌<◌, ◌≡◌, refl, Bool, true, false, some, List, [], ◌∷◌, ◌++◌, arith, length,
  length-take, length-append, take-all, max, min,
}
use zolexai.Queue.{
  Hint, max_wake_depth, notify_job_available, wake_workers, push_wakes, wait_for_wake, pop_last,
  trim,
}

length-trim-le : (hints : List Hint) → length (trim hints) ≤ max_wake_depth
unfolding trim
length-trim-le hints = omega (arith, length-take max_wake_depth hints)

length-pop_last-le : (hints : List Hint) → length (pop_last hints).1 ≤ length hints
unfolding pop_last
length-pop_last-le [] = omega arith
length-pop_last-le (h ∷ []) = omega arith
length-pop_last-le (h ∷ k ∷ hs) = omega (arith, length-pop_last-le (k ∷ hs))

notified :
    (up : Bool) (id : ℕ) (hints : List Hint)
    → length hints ≤ max_wake_depth
    → length (notify_job_available up id hints) ≤ max_wake_depth
unfolding notify_job_available
notified true id hints h = length-trim-le (Hint.job id ∷ hints)
notified false id hints h = h

woken :
    (up : Bool) (count : ℕ) (hints : List Hint)
    → length hints ≤ max_wake_depth
    → length (wake_workers up count hints) ≤ max_wake_depth
unfolding wake_workers
woken true count hints h = length-trim-le (push_wakes (max 1 (min count 50)) hints)
woken false count hints h = h

taken : (up : Bool) (hints : List Hint) → length (wait_for_wake up hints).1 ≤ length hints
unfolding wait_for_wake
taken true hints = length-pop_last-le hints
taken false hints = omega arith

-- Whether or not Redis answers, a doorbell within its bound stays within it after an announcement
-- and after a wake, and waiting never lengthens it.
depth_bounded :
    (up : Bool) (id count : ℕ) (hints : List Hint)
    → length hints ≤ max_wake_depth
    → (length (notify_job_available up id hints) ≤ max_wake_depth)
      × (length (wake_workers up count hints) ≤ max_wake_depth)
      × (length (wait_for_wake up hints).1 ≤ length hints)
depth_bounded up id count hints h = (notified up id hints h, woken up count hints h, taken up hints)

pop_last-append : (hints : List Hint) (h : Hint) → pop_last (hints ++ h ∷ []) ≡ (some h, hints)
unfolding pop_last
pop_last-append [] h = refl
pop_last-append (k ∷ []) h = refl
pop_last-append (k ∷ l ∷ ks) h = rw (pop_last-append (l ∷ ks) h)

-- While one more than the hints besides the oldest is below the bound, announcing a job leaves the
-- oldest hint to be taken next, and what is then left is what announcing without it would give.
notify_fifo :
    (id : ℕ) (hints : List Hint) (oldest : Hint)
    → length hints + 1 < max_wake_depth
    → wait_for_wake true (notify_job_available true id (hints ++ oldest ∷ []))
      ≡ (some oldest, notify_job_available true id hints)
unfolding notify_job_available wait_for_wake
notify_fifo id hints oldest h =
    rw
      (
        take-all max_wake_depth (Hint.job id ∷ hints ++ oldest ∷ [])
            (omega (arith, length-append hints (oldest ∷ []))),
        take-all max_wake_depth (Hint.job id ∷ hints) (omega arith),
      )
      (pop_last-append (Hint.job id ∷ hints) oldest)
