-- ===== src/Planner/Sorting.antt =====
-- The sort of the events by their start and then by their end.
use zolexai.Prelude.{
  inl, inr, ◌+◌, ◌≡◌, refl, true, false, Bool-cases, List, [], ◌∷◌, arith, All, length,
}
use zolexai.Timeline.{DirectorEvent}
use zolexai.Planner.{before, put, sort}

module _ (P : DirectorEvent → Type 0) where
  put-All :
      (e : DirectorEvent) (events : List DirectorEvent) → P e → All P events → All P (put e events)
  unfolding put
  put-All e [] h hs = (h, tt)
  put-All e (f ∷ events) h hs = elim (Bool-cases (before e f)) [
    | inl b ↦ rw (b, put) (h, hs)
    | inr b ↦ rw (b, put) (hs.0, put-All e events h hs.1)
  ]

  pub sort-All : (events : List DirectorEvent) → All P events → All P (sort events)
  unfolding sort
  sort-All [] hs = tt
  sort-All (e ∷ events) hs = put-All e (sort events) hs.0 (sort-All events hs.1)

length-put :
    (e : DirectorEvent) (events : List DirectorEvent) → length (put e events) ≡ 1 + length events
unfolding put
length-put e [] = refl
length-put e (f ∷ events) = ground (arith, length-put e events)

pub length-sort : (events : List DirectorEvent) → length (sort events) ≡ length events
unfolding sort
length-sort [] = refl
length-sort (e ∷ events) =
    let last = length-put e (sort events) in
    let rest = length-sort events in omega (arith, last, rest)

-- Sorted by the start and then by the end.
abbrev pub Sorted : List DirectorEvent → Type 0
Sorted [] = Unit
Sorted (e ∷ events) = All (λ f. before e f ≡ true) events × Sorted events

before_total : (e f : DirectorEvent) → before e f ≡ false → before f e ≡ true
before_total e f h = ground (arith, h)

before_trans : (e f g : DirectorEvent) → before e f ≡ true → before f g ≡ true → before e g ≡ true
before_trans e f g h k = ground (arith, h, k)

before-All :
    (e f : DirectorEvent) (events : List DirectorEvent)
    → before e f ≡ true
    → All (λ g. before f g ≡ true) events
    → All (λ g. before e g ≡ true) events
before-All e f [] h hs = tt
before-All e f (g ∷ events) h hs = (before_trans e f g h hs.0, before-All e f events h hs.1)

put-Sorted :
    (e : DirectorEvent) (events : List DirectorEvent) → Sorted events → Sorted (put e events)
unfolding put
put-Sorted e [] hs = (tt, tt)
put-Sorted e (f ∷ events) hs = elim (Bool-cases (before e f)) [
  | inl b ↦ rw (b, put) ((b, before-All e f events b hs.0), hs)
  | inr b ↦
      rw (b, put)
        (
          put-All (λ g. before f g ≡ true) e events (before_total e f b) hs.0,
          put-Sorted e events hs.1,
        )
]

pub sort-Sorted : (events : List DirectorEvent) → Sorted (sort events)
unfolding sort
sort-Sorted [] = tt
sort-Sorted (e ∷ events) = put-Sorted e (sort events) (sort-Sorted events)
