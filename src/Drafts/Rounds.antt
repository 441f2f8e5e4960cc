-- ===== src/Drafts/Rounds.antt =====
-- The best draft of the rounds.
use mathlib.Core.Path.{subst}
use mathlib.Core.List.{append_assoc, append-nil}
use native.Mathlib.Nat.{mul-le-mul_right, le_of_mul-le-mul_left, mul-pos}
use zolexai.Prelude.{
  inl, inr, ℕ, zero, suc, ◌+◌, ◌*◌, ◌≤◌, ◌<◌, ◌≡◌, refl, sym, true, false, Bool-cases, Option-cases,
  ltb→lt, max, if_true, if_false, Option, none, some, List, [], ◌∷◌, ◌++◌, All, All-append,
  All-weaken, Some, Some-append_left, Some-append_right, if◌then◌else◌, length, arith,
}
use zolexai.Lyrics.{Part, parse_sections}
use zolexai.Review.{Issue, Review, SongPlan, has_lyrics}
use zolexai.Drafts.{
  reviewed, acceptable, gains, totals, blocking, scores_higher, Draft, best_of, Written, raised,
  wrote, draft_of, rounds, write_lyrics, review_lyrics,
}

-- Fractions less whole numbers, compared with both sides multiplied out, are in a transitive order.
multiplied_trans :
    (ga ta ka gb tb kb gc tc kc : ℕ)
    → 0 < tb
    → gb * ta + ka * (tb * ta) ≤ ga * tb + kb * (tb * ta)
    → gc * tb + kb * (tc * tb) ≤ gb * tc + kc * (tc * tb)
    → gc * ta + ka * (tc * ta) ≤ ga * tc + kc * (tc * ta)
multiplied_trans ga ta ka gb tb kb gc tc kc pos h1 h2 =
    le_of_mul-le-mul_left {k = tb} (omega (arith, mul-le-mul_right tc h1, mul-le-mul_right ta h2))
      pos

abbrev Beaten : Review → Review → Type 0
Beaten a b = scores_higher b a ≡ true

abbrev AtLeast : Review → Review → Type 0
AtLeast a b = scores_higher b a ≡ false

abbrev Holds : Review → Review → Type 0
Holds a b =
    gains b * totals a + blocking a * (totals b * totals a)
    ≤ gains a * totals b + blocking b * (totals b * totals a)

AtLeast-Holds : (a b : Review) → AtLeast a b → Holds a b
unfolding scores_higher
AtLeast-Holds a b h = ground (arith, h)

Holds-AtLeast : (a b : Review) → Holds a b → AtLeast a b
unfolding scores_higher
Holds-AtLeast a b h = ground (arith, h)

AtLeast-refl : (a : Review) → AtLeast a a
AtLeast-refl a = Holds-AtLeast a a (omega arith)

AtLeast-trans : (a b c : Review) → 0 < totals b → AtLeast a b → AtLeast b c → AtLeast a c
AtLeast-trans a b c pos h1 h2 = Holds-AtLeast a c (
    multiplied_trans (gains a) (totals a) (blocking a) (gains b) (totals b) (blocking b) (gains c)
      (totals c) (blocking c) pos (AtLeast-Holds a b h1) (AtLeast-Holds b c h2))

Beaten-AtLeast : (a b : Review) → Beaten a b → AtLeast b a
unfolding scores_higher
Beaten-AtLeast a b h = Holds-AtLeast b a (omega (arith, ltb→lt _ _ h))

reviewed-totals :
    (plan : SongPlan) (must_keep text : List (List ℕ)) (parts : List Part)
    → 0 < totals (reviewed plan must_keep text parts)
reviewed-totals plan must_keep text [] = omega arith
reviewed-totals plan must_keep text (p ∷ parts) = mul-pos (omega arith) (omega arith)

draft_of-totals :
    (plan : SongPlan) (must_keep raw : List (List ℕ))
    → 0 < totals (draft_of plan must_keep raw).review
unfolding draft_of review_lyrics
draft_of-totals plan must_keep raw = reviewed-totals plan must_keep _ (parse_sections _)

-- A draft of a list that no draft of it beats.
abbrev pub IsBest : Draft → List Draft → Type 0
IsBest d seen = Some (λ e. d ≡ e) seen × All (λ e. scores_higher e.review d.review ≡ false) seen

abbrev Standing : Option Draft → List Draft → Type 0
Standing none seen = seen ≡ []
Standing (some best) seen = IsBest best seen × (0 < totals best.review)

best_of-Standing :
    (best : Option Draft) (d : Draft) (seen : List Draft)
    → 0 < totals d.review
    → Standing best seen
    → Standing (some (best_of best d)) (seen ++ (d ∷ []))
best_of-Standing none d seen pos standing =
    rw standing ((inl refl, (AtLeast-refl d.review, tt)), pos)
best_of-Standing (some best) d seen pos standing =
    let is = standing.0 in
    let P = λ (x : Draft). IsBest x (seen ++ (d ∷ [])) × (0 < totals x.review) in
    elim (Bool-cases (scores_higher d.review best.review)) [
      | inl beaten ↦ subst P (sym (if_true (scores_higher d.review best.review) _ _ beaten)) (
        (
          Some-append_right (λ e. d ≡ e) seen (d ∷ []) (inl refl),
          All-append (λ e. AtLeast d.review e.review) seen (d ∷ [])
              (All-weaken
                (λ e h.
                  AtLeast-trans d.review best.review e.review standing.1
                    (Beaten-AtLeast best.review d.review beaten) h)
                seen is.1)
              (AtLeast-refl d.review, tt),
        ),
        pos,
      )
      | inr stands ↦ subst P (sym (if_false (scores_higher d.review best.review) _ _ stands)) (
        (
          Some-append_left (λ e. best ≡ e) seen (d ∷ []) is.0,
          All-append (λ e. AtLeast best.review e.review) seen (d ∷ []) is.1 (stands, tt),
        ),
        standing.1,
      )
    ]

abbrev pub drafts_after : Option (List (List ℕ)) → (List (List ℕ) → List Draft) → List Draft
drafts_after none next = []
drafts_after (some raw) next = next raw

module _ (plan : SongPlan) (must_keep : List (List ℕ))
    (write : ℕ → Option (List Issue) → Option (List (List ℕ))) where
  -- The drafts that are made: up to the first acceptable one, a writer's exception or the last round.
  abbrev pub drafted : ℕ → ℕ → Option (List Issue) → List Draft
  drafted zero round notes = []
  drafted (suc left) round notes = drafts_after (write round notes) λ raw.
      let d = draft_of plan must_keep raw in
      let next = drafted left (suc round) (some d.review.issues) in
      if acceptable d.review then d ∷ [] else d ∷ next

  -- What the rounds come to, by the drafts made.
  abbrev pub Ended : List Draft → Written → Type 0
  Ended seen raised = (round : ℕ) × (notes : Option (List Issue)) × (write round notes ≡ none)
  Ended seen (wrote none) = ⊥
  Ended seen (wrote (some d)) = IsBest d seen

  rounds-Ended :
      (left round : ℕ) (notes : Option (List Issue)) (best : Option Draft) (seen : List Draft)
      → Standing best seen
      → (best ≡ none → 0 < left)
      → Ended (seen ++ drafted left round notes) (rounds plan must_keep write left round notes best)
  unfolding rounds
  rounds-Ended zero round notes none seen standing begun = absurd (omega (arith, begun refl))
  rounds-Ended zero round notes (some best) seen standing begun =
      subst (IsBest best) (sym (append-nil seen)) standing.0
  rounds-Ended (suc left) round notes best seen standing begun =
      elim (Option-cases (write round notes)) [
        | inl e ↦ rw e (round, notes, e)
        | inr (raw, e) ↦
            let d = draft_of plan must_keep raw in
            let now = best_of-Standing best d seen (draft_of-totals plan must_keep raw) standing in
            elim (Bool-cases (acceptable d.review)) [
              | inl good ↦ rw (e, good) now.0
              | inr more ↦
                  let next =
                    rounds-Ended left (suc round) (some d.review.issues) (some (best_of best d))
                      (seen ++ (d ∷ [])) now (λ x. cc x) in
                  rw (e, more)
                    (subst
                      (λ x. Ended x (
                        rounds plan must_keep write left (suc round) (some d.review.issues)
                          (some (best_of best d))))
                      (append_assoc seen (d ∷ []) (drafted left (suc round) (some d.review.issues)))
                      next)
            ]
      ]

  -- A draft is the polished text of the writer in some round, with its review.
  abbrev pub IsDraft : Draft → Type 0
  IsDraft d =
      (round : ℕ) × (notes : Option (List Issue)) × (raw : List (List ℕ)) × (write round notes
        ≡ some raw)
      × (d ≡ draft_of plan must_keep raw)

  drafted-IsDraft :
      (left round : ℕ) (notes : Option (List Issue))
      → All IsDraft (drafted left round notes) × (length (drafted left round notes) ≤ left)
  drafted-IsDraft zero round notes = (tt, omega arith)
  drafted-IsDraft (suc left) round notes = elim (Option-cases (write round notes)) [
    | inl e ↦ rw e (tt, omega arith)
    | inr (raw, e) ↦
        let d = draft_of plan must_keep raw in
        let next = drafted-IsDraft left (suc round) (some d.review.issues) in
        elim (Bool-cases (acceptable d.review)) [
          | inl good ↦ rw (e, good) (((round, notes, raw, e, refl), tt), omega arith)
          | inr more ↦ rw (e, more) (((round, notes, raw, e, refl), next.0), omega (arith, next.1))
        ]
  ]

  -- Written rounds for a plan with lyrics end in one of two ways: the writer raised an exception in
  -- some round, or the answer is one of the drafts made and none of these scores higher. Every
  -- draft is the polished text of one round with its review, and there are no more drafts than
  -- rounds allowed, nor more than one if none is.
  pub write_lyrics-Ended :
      (max_rounds : ℕ)
      → has_lyrics plan ≡ true
      → Ended
          (drafted (max 1 max_rounds) 0 none)
          (write_lyrics plan must_keep (some write) max_rounds)
        × All IsDraft (drafted (max 1 max_rounds) 0 none)
        × (length (drafted (max 1 max_rounds) 0 none) ≤ max 1 max_rounds)
  unfolding write_lyrics
  write_lyrics-Ended max_rounds lyrics =
      let are = drafted-IsDraft (max 1 max_rounds) 0 none in
      (
        rw lyrics (rounds-Ended (max 1 max_rounds) 0 none none [] refl (λ x. omega arith)),
        are.0,
        are.1,
      )
