-- ===== src/Drafts/Faults.antt =====
-- The faults of polished drafts.
use mathlib.Core.Path.{subst}
use zolexai.Prelude.{
  inl, inr, ℕ, ◌≡◌, ◌≢◌, refl, sym, ap, Bool, true, false, not, Bool-cases, Option, some, List, [],
  ◌∷◌, All, every, arith,
}
use zolexai.Text.{same_codes}
use zolexai.Lyrics.{Part, is_empty, is_chorus_tag, parse_sections, polish_lyrics}
use zolexai.Lyrics.Reading.{NamesItsTags}
use zolexai.Lyrics.Polishing.{Agrees, polish_lyrics-Settled}
use zolexai.Review.{Issue, chorus_differs, SongPlan, has_lyrics, same_lines, choruses, differ}
use zolexai.Drafts.{found, checks, reviewed, review_lyrics, draft_of}

same_codes_refl : (word : List ℕ) → same_codes word word ≡ true
unfolding same_codes
same_codes_refl [] = refl
same_codes_refl (c ∷ word) = ground (arith, same_codes_refl word)

same_lines_refl : (lines : List (List ℕ)) → same_lines lines lines ≡ true
same_lines_refl [] = refl
same_lines_refl (line ∷ lines) = rw (same_codes_refl line, same_lines_refl lines) refl

choruses-Agrees :
    (canonical : Option (List (List ℕ))) (parts : List Part)
    → Agrees canonical parts
    → All (λ lines. canonical ≡ some lines) (choruses parts)
choruses-Agrees canonical [] agrees = tt
choruses-Agrees canonical (p ∷ parts) agrees = elim (Bool-cases (is_chorus_tag p.tag)) [
  | inl e ↦ rw e (agrees.0 e, choruses-Agrees canonical parts agrees.1)
  | inr e ↦ rw e (choruses-Agrees canonical parts agrees.1)
]

every-same_lines :
    (lines : List (List ℕ)) (others : List (List (List ℕ)))
    → All (λ other. some lines ≡ some other) others
    → every (same_lines lines) others ≡ true
every-same_lines lines [] same = refl
every-same_lines lines (other ∷ others) same =
    let e : lines ≡ other = cc (same.0) in
    rw
      (
        subst (λ x. same_lines lines x ≡ true) e (same_lines_refl lines),
        every-same_lines lines others same.1,
      )
      refl

differ-Agrees :
    (canonical : Option (List (List ℕ))) (all : List (List (List ℕ)))
    → All (λ lines. canonical ≡ some lines) all
    → differ all ≡ false
differ-Agrees canonical [] same = refl
differ-Agrees canonical (lines ∷ others) same = ap not (
    every-same_lines lines others (subst (λ x. All (λ other. x ≡ some other) others) same.0 same.1))

-- An issue other than that the choruses differ.
abbrev pub IsOther : Issue → Type 0
IsOther i = i ≢ chorus_differs

found-IsOther :
    (tests : List (Bool × Issue))
    → All (λ (x : Bool × Issue). x.0 ≡ true → IsOther x.1) tests
    → All IsOther (found tests)
unfolding found
found-IsOther [] others = tt
found-IsOther ((test, issue) ∷ tests) others = elim (Bool-cases test) [
  | inl e ↦ rw e (others.0 e, found-IsOther tests others.1)
  | inr e ↦ rw e (found-IsOther tests others.1)
]

checks-IsOther :
    (plan : SongPlan) (must_keep text : List (List ℕ)) (parts : List Part)
    → differ (choruses parts) ≡ false
    → All IsOther (found (checks plan must_keep text parts))
unfolding checks
checks-IsOther plan must_keep text parts same = found-IsOther (checks plan must_keep text parts) (
  (λ h e. cc e),
  (
    (λ h e. cc e),
    ((λ h e. cc e), ((λ h e. cc e), ((λ h. cc (h, same)), ((λ h e. cc e), ((λ h e. cc e), tt))))),
  ),
)

reviewed-IsOther :
    (plan : SongPlan) (must_keep text : List (List ℕ)) (parts : List Part)
    → differ (choruses parts) ≡ false
    → All IsOther (reviewed plan must_keep text parts).issues
reviewed-IsOther plan must_keep text [] same = ((λ e. cc e), tt)
reviewed-IsOther plan must_keep text (p ∷ parts) same =
    checks-IsOther plan must_keep text (p ∷ parts) same

-- The review of a polished draft never finds that its choruses differ, for a plan with lyrics and
-- a text with a line and no tag with nothing but blanks between its brackets.
pub draft_of-IsOther :
    (plan : SongPlan) (must_keep raw : List (List ℕ))
    → has_lyrics plan ≡ true
    → NamesItsTags raw
    → is_empty (parse_sections raw) ≡ false
    → All IsOther (draft_of plan must_keep raw).review.issues
unfolding draft_of review_lyrics
draft_of-IsOther plan must_keep raw lyrics named full =
    let settled = (polish_lyrics-Settled raw named full).1 in
    let text = polish_lyrics true raw in
    subst (λ b. All IsOther (review_lyrics plan must_keep (polish_lyrics b raw)).issues)
      (sym lyrics)
      (reviewed-IsOther plan must_keep text (parse_sections text) (
        differ-Agrees settled.0 (choruses (parse_sections text))
          (choruses-Agrees settled.0 (parse_sections text) settled.1)))
