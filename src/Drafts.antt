-- ===== src/Drafts.antt =====
-- apps/worker/worker/music/lyrics.py: the review of a draft, and the rounds in which a writer drafts,
-- is reviewed and revises.
pub mod Faults
pub mod Rounds
use zolexai.Prelude.{
  ℕ, zero, suc, ◌+◌, ◌*◌, Bool, true, false, not, ◌&&◌, ◌||◌, ◌==◌, leb, ltb, max, Option, none,
  some, List, [], ◌∷◌, ◌++◌, if◌then◌else◌, length, count_if,
}
use zolexai.Lyrics.{Part, is_empty, parse_sections, polish_lyrics}
use zolexai.Review.{
  Issue, empty_draft, chorus_differs, weak_rhyme, missing_kinds, single_lines, lost_details,
  too_many_lines, reused, Review, SongPlan, has_lyrics, plan_budget, count_lines, missing, thin,
  verse_lines, repeated, unique_lines, choruses, differ, rhymes, lost,
}

-- The issues whose tests hold.
unfoldable pub found : List (Bool × Issue) → List Issue
found [] = []
found ((test, issue) ∷ checks) = let rest = found checks in if test then issue ∷ rest else rest

-- The checks of a draft with lines, by its sections, and the words that a brief wants kept.
unfoldable pub checks : SongPlan → List (List ℕ) → List (List ℕ) → List Part → List (Bool × Issue)
unfolding missing thin plan_budget verse_lines repeated rhymes lost
checks plan must_keep text parts =
    (not (is_empty (missing plan parts)), missing_kinds (missing plan parts))
    ∷ (not (is_empty (thin parts)), single_lines (thin parts))
    ∷ (
      ltb (plan_budget plan) (count_lines parts),
      too_many_lines (count_lines parts) (plan_budget plan),
    )
    ∷ (leb 1 (repeated (verse_lines parts)), reused (repeated (verse_lines parts)))
    ∷ (differ (choruses parts), chorus_differs)
    ∷ (ltb (2 * (rhymes parts).0) (max 1 (rhymes parts).1), weak_rhyme)
    ∷ (not (is_empty (lost text must_keep)), lost_details (lost text must_keep))
    ∷ []

-- Without a line outside the choruses the rate of unique lines is 1.
abbrev pub reviewed : SongPlan → List (List ℕ) → List (List ℕ) → List Part → Review
reviewed plan must_keep text [] = record {
  issues = empty_draft ∷ [];
  rhyming = 0;
  rhyme_total = 1;
  unique = 0;
  unique_total = 1;
}
reviewed plan must_keep text (p ∷ parts) =
    let lines = verse_lines (p ∷ parts) in
    record {
      issues = found (checks plan must_keep text (p ∷ parts));
      rhyming = (rhymes (p ∷ parts)).0;
      rhyme_total = max 1 (rhymes (p ∷ parts)).1;
      unique = if is_empty lines then 1 else unique_lines lines;
      unique_total = max 1 (length lines);
    }

unfoldable pub review_lyrics : SongPlan → List (List ℕ) → List (List ℕ) → Review
unfolding found checks parse_sections verse_lines unique_lines rhymes
review_lyrics plan must_keep text = reviewed plan must_keep text (parse_sections text)

abbrev pub is_blocking : Issue → Bool
is_blocking weak_rhyme = false
is_blocking _ = true

abbrev pub blocking : Review → ℕ
blocking r = count_if is_blocking r.issues

unfoldable pub acceptable : Review → Bool
acceptable r =
    (blocking r == 0)
    && leb r.rhyme_total (2 * r.rhyming)
    && leb (7 * r.unique_total) (10 * r.unique)

-- `_score(a) > _score(b)`, both sides multiplied by the totals of the rates.
abbrev pub gains : Review → ℕ
gains r = r.rhyming * r.unique_total + r.unique * r.rhyme_total

abbrev pub totals : Review → ℕ
totals r = r.rhyme_total * r.unique_total

unfoldable pub scores_higher : Review → Review → Bool
scores_higher a b =
    ltb (gains b * totals a + blocking a * (totals a * totals b))
      (gains a * totals b + blocking b * (totals a * totals b))

pub record Draft : Type 0 where
  pub text : List (List ℕ)
  pub review : Review

-- The better of the best draft so far and the new one.
abbrev pub best_of : Option Draft → Draft → Draft
best_of none draft = draft
best_of (some best) draft = if scores_higher draft.review best.review then draft else best

-- What comes of the rounds: a writer's exception, or the best draft.
pub data Written : Type 0 where
  raised : Written
  wrote : Option Draft → Written

-- What follows a text of the writer.
abbrev pub after_write : Option (List (List ℕ)) → (List (List ℕ) → Written) → Written
after_write none next = raised
after_write (some raw) next = next raw

unfoldable pub draft_of : SongPlan → List (List ℕ) → List (List ℕ) → Draft
unfolding polish_lyrics review_lyrics has_lyrics
draft_of plan must_keep raw =
    let text = polish_lyrics (has_lyrics plan) raw in
    record { text = text; review = review_lyrics plan must_keep text }

module _ (plan : SongPlan) (must_keep : List (List ℕ))
    (write : ℕ → Option (List Issue) → Option (List (List ℕ))) where
  -- The rounds that are left, from a round on, with the notes for it and the best draft so far;
  -- the writer gives `none` when it raises.
  unfoldable pub rounds : ℕ → ℕ → Option (List Issue) → Option Draft → Written
  unfolding draft_of scores_higher acceptable
  rounds zero round notes best = wrote best
  rounds (suc left) round notes best = after_write (write round notes) λ raw.
      let draft = draft_of plan must_keep raw in
      let better = best_of best draft in
      let next = rounds left (suc round) (some draft.review.issues) (some better) in
      if acceptable draft.review then wrote (some better) else next

-- `write_lyrics`, by the writer if there is one.
unfoldable pub write_lyrics :
    SongPlan
    → List (List ℕ)
    → Option (ℕ → Option (List Issue) → Option (List (List ℕ)))
    → ℕ
    → Written
unfolding rounds has_lyrics
write_lyrics plan must_keep none max_rounds = wrote none
write_lyrics plan must_keep (some write) max_rounds =
    if has_lyrics plan
    then rounds plan must_keep write (max 1 max_rounds) 0 none none
    else wrote none
