-- ===== src/Stream/Lossless.antt =====
-- What a stream delivers when the live feed is in the order of the log.
use mathlib.Core.Path.{subst}
use mathlib.Core.List.{append_assoc}
use zolexai.Prelude.{
  ℕ, ◌≤◌, ◌<◌, ◌≡◌, refl, sym, ap, ◌∙◌, true, false, some, List, [], ◌∷◌, ◌++◌, arith, max, leb,
  ltb, if◌then◌else◌, Bool-cases, inl, inr, map, All, All-weaken,
}
use zolexai.Job.{Event, is_terminal}
use zolexai.Database.{list_events}
use zolexai.Database.Log.{seqs, upto}
use zolexai.Stream.{live, follow, catch_up, stream_job_events}
use zolexai.Stream.Order.{Rising, Rising-weaken, of_job, above, dense-Rising, list_events-above}

-- The events up to the first one with a terminal status.
unfoldable pub until_terminal : List Event → List Event
until_terminal [] = []
until_terminal (e ∷ es) =
    let rest = until_terminal es in if is_terminal e.status then e ∷ [] else e ∷ rest

above-same : (bound low : ℕ) (es : List Event) → bound ≤ low → Rising low es → above bound es ≡ es
above-same bound low [] le h = refl
above-same bound low (e ∷ es) le h =
    let t : ltb bound e.seq ≡ true = ground (arith, le, h.0) in
    rw t (ap (λ r. e ∷ r) (above-same bound e.seq es (omega (arith, le, h.0)) h.1))

follow-above :
    (highest low : ℕ) (feed : List Event)
    → Rising low feed
    → follow highest (map live feed) ≡ map some (until_terminal (above highest feed))
unfolding follow until_terminal
follow-above highest low [] h = refl
follow-above highest low (e ∷ es) h = elim (Bool-cases (leb e.seq highest)) [
  | inl t ↦
      let u : ltb highest e.seq ≡ false = ground arith in
      rw (t, u) (follow-above highest e.seq es h.1)
  | inr t ↦
      let u : ltb highest e.seq ≡ true = ground arith in
      elim (Bool-cases (is_terminal e.status)) [
        | inl w ↦ rw (t, u, w) refl
        | inr w ↦
            rw (t, u, w)
              (ap (λ r. some e ∷ r)
                (follow-above e.seq e.seq es h.1
                  ∙ ap (λ r. map some (until_terminal r))
                      (above-same e.seq e.seq es (omega arith) h.1
                        ∙ sym (above-same highest e.seq es (ground arith) h.1))))
      ]
]

-- The highest number seen once the replay is over.
abbrev seen : ℕ → List Event → ℕ
seen highest [] = highest
seen highest (e ∷ es) = seen (max highest e.seq) es

catch_up-above :
    (highest low : ℕ) (replay feed : List Event)
    → Rising low feed
    → catch_up highest replay (map live feed)
      ≡ map some (until_terminal (replay ++ above (seen highest replay) feed))
unfolding catch_up until_terminal
catch_up-above highest low [] feed h = follow-above highest low feed h
catch_up-above highest low (e ∷ es) feed h = elim (Bool-cases (is_terminal e.status)) [
  | inl t ↦ rw t refl
  | inr t ↦ rw t (ap (λ r. some e ∷ r) (catch_up-above (max highest e.seq) low es feed h))
]

seen-least : (highest : ℕ) (replay : List Event) → highest ≤ seen highest replay
seen-least highest [] = omega arith
seen-least highest (e ∷ es) = omega (arith, seen-least (max highest e.seq) es)

seen-covers :
    (last highest bound : ℕ) (es : List Event)
    → last ≤ highest
    → seen highest (above last es) ≤ bound
    → All (λ e. e.seq ≤ bound) es
seen-covers last highest bound [] le h = tt
seen-covers last highest bound (e ∷ es) le h = elim (Bool-cases (ltb last e.seq)) [
  | inl t ↦
      let k = (rw t at h) in
      (
        omega (arith, seen-least (max highest e.seq) (above last es), k),
        seen-covers last (max highest e.seq) bound es (omega (arith, le)) k,
      )
  | inr t ↦
      let k = (rw t at h) in
      (
        ground (arith, seen-least highest (above last es), k),
        seen-covers last highest bound es le k,
      )
]

seen-bounded :
    (last highest bound : ℕ) (es : List Event)
    → highest ≤ bound
    → All (λ e. e.seq ≤ bound) es
    → seen highest (above last es) ≤ bound
seen-bounded last highest bound [] le h = le
seen-bounded last highest bound (e ∷ es) le h = elim (Bool-cases (ltb last e.seq)) [
  | inl t ↦ rw t (seen-bounded last (max highest e.seq) bound es (omega (arith, le, h.0)) h.1)
  | inr t ↦ rw t (seen-bounded last highest bound es le h.1)
]

-- Every event of a rising sequence is above the bound, and the parts of a sequence rise too.
Rising-All : (low : ℕ) (es : List Event) → Rising low es → All (λ e. low < e.seq) es
Rising-All low [] h = tt
Rising-All low (e ∷ es) h =
    (h.0, All-weaken (λ x more. omega (arith, h.0, more)) es (Rising-All e.seq es h.1))

Rising-suffix : (low : ℕ) (es fs : List Event) → Rising low (es ++ fs) → Rising low fs
Rising-suffix low [] fs h = h
Rising-suffix low (e ∷ es) fs h =
    Rising-weaken low e.seq fs (omega (arith, h.0)) (Rising-suffix e.seq es fs h.1)

-- The number that a rising sequence ends with.
abbrev top : ℕ → List Event → ℕ
top low [] = low
top low (e ∷ es) = top e.seq es

top-least : (low : ℕ) (es : List Event) → Rising low es → low ≤ top low es
top-least low [] h = omega arith
top-least low (e ∷ es) h = omega (arith, h.0, top-least e.seq es h.1)

top-All : (low : ℕ) (es : List Event) → Rising low es → All (λ e. e.seq ≤ top low es) es
top-All low [] h = tt
top-All low (e ∷ es) h = (top-least e.seq es h.1, top-All e.seq es h.1)

top-suffix :
    (low : ℕ) (es fs : List Event) → Rising low (es ++ fs) → Rising low es × Rising (top low es) fs
top-suffix low [] fs h = (tt, h)
top-suffix low (e ∷ es) fs h =
    let (first, rest) = top-suffix e.seq es fs h.1 in ((h.0, first), rest)

above-append :
    (bound : ℕ) (es fs : List Event) → above bound (es ++ fs) ≡ above bound es ++ above bound fs
above-append bound [] fs = refl
above-append bound (e ∷ es) fs = ground (arith, above-append bound es fs)

of_job-append :
    (job : ℕ) (es fs : List Event) → of_job job (es ++ fs) ≡ of_job job es ++ of_job job fs
of_job-append job [] fs = refl
of_job-append job (e ∷ es) fs = ground (arith, of_job-append job es fs)

above-none : (bound : ℕ) (es : List Event) → All (λ e. e.seq ≤ bound) es → above bound es ≡ []
above-none bound [] h = refl
above-none bound (e ∷ es) h =
    let t : ltb bound e.seq ≡ false = ground (arith, h.0) in rw t (above-none bound es h.1)

above-agree :
    (last s high : ℕ) (fs : List Event)
    → last ≤ s
    → s ≤ max last high
    → All (λ f. high < f.seq) fs
    → above s fs ≡ above last fs
above-agree last s high [] low_s high_s h = refl
above-agree last s high (f ∷ fs) low_s high_s h =
    let same : ltb s f.seq ≡ ltb last f.seq = ground (arith, h.0) in
    rw (same, above-agree last s high fs low_s high_s h.1) refl

All-suffix :
    (bound : ℕ) (es fs : List Event)
    → All (λ e. e.seq ≤ bound) (es ++ fs)
    → All (λ e. e.seq ≤ bound) fs
All-suffix bound [] fs h = h
All-suffix bound (e ∷ es) fs h = All-suffix bound es fs h.1

-- What the feed adds to the replay.
feed-above :
    (last : ℕ) (x y z : List Event)
    → Rising 0 (x ++ y ++ z)
    → above (seen last (above last (x ++ y))) (y ++ z) ≡ above last z
feed-above last x y z h =
    let s = seen last (above last (x ++ y)) in
    let (first, rest) = top-suffix 0 (x ++ y) z h in
    let high = top 0 (x ++ y) in
    let old =
      above-none s y
        (All-suffix s x y (seen-covers last last s (x ++ y) (omega arith) (omega arith))) in
    let below =
      seen-bounded last last (max last high) (x ++ y) (omega arith)
        (All-weaken (λ e le. omega (arith, le)) (x ++ y) (top-All 0 (x ++ y) first)) in
    above-append s y z
    ∙ ap (λ r. r ++ above s z) old
    ∙ above-agree last s high z (seen-least last (above last (x ++ y))) below
        (Rising-All high z rest)

module _ (job last : ℕ) (before overlap later : List Event) where
  -- What the replay and the feed hold of one job, by parts.
  merged :
      (x y z : List Event)
      → Rising 0 (x ++ y ++ z)
      → catch_up last (above last (x ++ y)) (map live (y ++ z))
        ≡ map some (until_terminal (above last (x ++ y ++ z)))
  merged x y z h =
      catch_up-above last 0 (above last (x ++ y)) (y ++ z)
        (Rising-suffix 0 x (y ++ z) (subst (λ es. Rising 0 es) (append_assoc x y z) h))
      ∙ ap (λ r. map some (until_terminal (above last (x ++ y) ++ r))) (feed-above last x y z h)
      ∙ ap (λ r. map some (until_terminal r)) (sym (above-append last (x ++ y) z))

  -- When the whole log numbers the job's events 1, 2, … and the subscription yields, in the order
  -- of the log, those from some point before the log was read (`overlap` are read and received,
  -- `later` only received), the stream is exactly the job's events after the last one that the
  -- browser has seen, each once, up to the first terminal one.
  pub stream_job_events-lossless :
      (n : ℕ)
      → seqs job (before ++ overlap ++ later) ≡ upto n
      → stream_job_events job last (before ++ overlap) (map live (of_job job (overlap ++ later)))
        ≡ map some (until_terminal (list_events job last (before ++ overlap ++ later)))
  unfolding stream_job_events
  stream_job_events-lossless n dense =
      let parts =
        of_job-append job (before ++ overlap) later
        ∙ ap (λ r. r ++ of_job job later) (of_job-append job before overlap) in
      ap (λ r. catch_up last r (map live (of_job job (overlap ++ later))))
        (list_events-above job last (before ++ overlap)
          ∙ ap (above last) (of_job-append job before overlap))
      ∙ ap (λ r. catch_up last (above last (of_job job before ++ of_job job overlap)) (map live r))
          (of_job-append job overlap later)
      ∙ merged (of_job job before) (of_job job overlap) (of_job job later)
          (subst (λ es. Rising 0 es) parts (dense-Rising job n (before ++ overlap ++ later) dense))
      ∙ ap (λ r. map some (until_terminal r))
          (sym (list_events-above job last (before ++ overlap ++ later) ∙ ap (above last) parts))
