-- ===== src/Stream/Order.antt =====
-- The order in which a stream delivers events, whatever its subscription yields.
use zolexai.Prelude.{
  ℕ, zero, suc, ◌≤◌, ◌<◌, ◌≡◌, refl, sym, true, Option, none, some, List, [], ◌∷◌, ◌++◌, arith, max,
  leb, ltb, select, ◌==◌, Bool-cases, inl, inr, All, All-append,
}
use mathlib.Core.Path.{subst}
use zolexai.Job.{Event, is_terminal}
use zolexai.Database.{list_events}
use zolexai.Database.Log.{seqs, upto}
use zolexai.Stream.{Message, quiet, bad_payload, live, follow, catch_up, stream_job_events}

-- Strictly rising numbers above a bound.
abbrev pub Rising : ℕ → List Event → Type 0
Rising bound [] = Unit
Rising bound (e ∷ es) = (bound < e.seq) × Rising e.seq es

abbrev pub of_job : ℕ → List Event → List Event
of_job job es = select (λ e. e.job_id == job) es

abbrev pub above : ℕ → List Event → List Event
above bound es = select (λ e. ltb bound e.seq) es

-- The events among what a stream yields.
abbrev pub delivered : List (Option Event) → List Event
delivered [] = []
delivered (none ∷ os) = delivered os
delivered (some e ∷ os) = e ∷ delivered os

pub Rising-weaken :
    (low bound : ℕ) (es : List Event) → low ≤ bound → Rising bound es → Rising low es
Rising-weaken low bound [] le h = tt
Rising-weaken low bound (e ∷ es) le h = (omega (arith, le, h.0), h.1)

abbrev RisingNumbers : ℕ → List ℕ → Type 0
RisingNumbers bound [] = Unit
RisingNumbers bound (n ∷ ns) = (bound < n) × RisingNumbers n ns

rising_snoc :
    (bound last : ℕ) (ns : List ℕ)
    → bound < last
    → All (λ n. n < last) ns
    → RisingNumbers bound ns
    → RisingNumbers bound (ns ++ last ∷ [])
rising_snoc bound last [] above small h = (above, tt)
rising_snoc bound last (n ∷ ns) above small h = (h.0, rising_snoc n last ns small.0 small.1 h.1)

upto-small : (n bound : ℕ) → n < bound → All (λ k. k < bound) (upto n)
unfolding upto
upto-small zero bound h = tt
upto-small (suc n) bound h =
    All-append (λ k. k < bound) (upto n) (suc n ∷ []) (upto-small n bound (omega (arith, h)))
      (h, tt)

upto-rising : (n : ℕ) → RisingNumbers 0 (upto n)
unfolding upto
upto-rising zero = tt
upto-rising (suc n) =
    rising_snoc 0 (suc n) (upto n) (omega arith) (upto-small n (suc n) (omega arith))
      (upto-rising n)

of_job-Rising :
    (job bound : ℕ) (es : List Event)
    → RisingNumbers bound (seqs job es)
    → Rising bound (of_job job es)
unfolding seqs
of_job-Rising job bound [] h = tt
of_job-Rising job bound (e ∷ es) h = elim (Bool-cases (e.job_id == job)) [
  | inl t ↦ rw t (let k = (rw t at h) in (k.0, of_job-Rising job e.seq es k.1))
  | inr t ↦ rw t (of_job-Rising job bound es (rw t at h))
]

-- A dense log holds each job's events in rising order.
pub dense-Rising :
    (job n : ℕ) (log : List Event) → seqs job log ≡ upto n → Rising 0 (of_job job log)
dense-Rising job n log dense =
    of_job-Rising job 0 log (subst (λ ns. RisingNumbers 0 ns) (sym dense) (upto-rising n))

pub list_events-above :
    (job after : ℕ) (es : List Event) → list_events job after es ≡ above after (of_job job es)
unfolding list_events
list_events-above job after [] = refl
list_events-above job after (e ∷ es) = ground (arith, list_events-above job after es)

above_all :
    (bound low : ℕ) (es : List Event) → bound ≤ low → Rising low es → Rising low (above bound es)
above_all bound low [] le h = tt
above_all bound low (e ∷ es) le h =
    let t : ltb bound e.seq ≡ true = ground (arith, h.0) in
    rw t (h.0, above_all bound e.seq es (omega (arith, le, h.0)) h.1)

pub above-Rising : (bound low : ℕ) (es : List Event) → Rising low es → Rising bound (above bound es)
above-Rising bound low [] h = tt
above-Rising bound low (e ∷ es) h = elim (Bool-cases (ltb bound e.seq)) [
  | inl t ↦ rw t (ground arith, above_all bound e.seq es (ground arith) h.1)
  | inr t ↦ rw t (above-Rising bound e.seq es h.1)
]

follow-Rising :
    (highest : ℕ) (messages : List Message) → Rising highest (delivered (follow highest messages))
unfolding follow
follow-Rising highest [] = tt
follow-Rising highest (quiet ∷ ms) = follow-Rising highest ms
follow-Rising highest (bad_payload ∷ ms) = follow-Rising highest ms
follow-Rising highest (live e ∷ ms) = elim (Bool-cases (leb e.seq highest)) [
  | inl t ↦ rw t (follow-Rising highest ms)
  | inr t ↦ elim (Bool-cases (is_terminal e.status)) [
    | inl u ↦ rw (t, u) (ground arith, tt)
    | inr u ↦ rw (t, u) (ground arith, follow-Rising e.seq ms)
  ]
]

catch_up-Rising :
    (highest : ℕ) (replay : List Event) (messages : List Message)
    → Rising highest replay
    → Rising highest (delivered (catch_up highest replay messages))
unfolding catch_up
catch_up-Rising highest [] ms h = follow-Rising highest ms
catch_up-Rising highest (e ∷ es) ms h =
    let same : max highest e.seq ≡ e.seq = omega (arith, h.0) in
    elim (Bool-cases (is_terminal e.status)) [
      | inl t ↦ rw t (h.0, tt)
      | inr t ↦ rw (t, same) (h.0, catch_up-Rising e.seq es ms h.1)
    ]

-- If the log numbers the job's events 1, 2, …, then whatever the subscription yields, in whatever
-- order and however often, the events that a browser gets have strictly rising numbers, all above
-- the last one that it has seen.
pub stream_job_events-Rising :
    (job last_event_id n : ℕ) (log : List Event) (messages : List Message)
    → seqs job log ≡ upto n
    → Rising last_event_id (delivered (stream_job_events job last_event_id log messages))
unfolding stream_job_events
stream_job_events-Rising job last n log messages dense = rw (list_events-above job last log) (
    catch_up-Rising last (above last (of_job job log)) messages
      (above-Rising last 0 (of_job job log) (dense-Rising job n log dense)))
