-- ===== src/Lyrics/Choruses.antt =====
-- The lines and the chorus that `polish_lyrics` keeps.
use zolexai.Prelude.{
  inl, inr, ℕ, ◌≡◌, refl, ap, Bool, true, false, ◌||◌, Bool-cases, leb, Option, none, some, is_some,
  List, [], ◌∷◌, All, arith, length,
}
use zolexai.Lyrics.{
  is_empty, Part, is_chorus_tag, longer, canonical_chorus, same_line, without_repeats, kept_lines,
}
use zolexai.Lyrics.Lines.{IsLine}
use zolexai.Lyrics.Parsing.{IsSheet}

without_repeats_twice :
    (previous : List ℕ) (lines : List (List ℕ))
    → without_repeats previous (without_repeats previous lines) ≡ without_repeats previous lines
unfolding without_repeats
without_repeats_twice previous [] = refl
without_repeats_twice previous (line ∷ lines) = elim (Bool-cases (same_line line previous)) [
  | inl same ↦ rw same (without_repeats_twice previous lines)
  | inr other ↦ rw other (rw other (ap (λ x. line ∷ x) (without_repeats_twice line lines)))
]

pub kept_lines_twice : (lines : List (List ℕ)) → kept_lines (kept_lines lines) ≡ kept_lines lines
unfolding kept_lines
kept_lines_twice [] = refl
kept_lines_twice (line ∷ lines) = ap (λ x. line ∷ x) (without_repeats_twice line lines)

without_repeats-IsLine :
    (previous : List ℕ) (lines : List (List ℕ))
    → All IsLine lines
    → All IsLine (without_repeats previous lines)
unfolding without_repeats
without_repeats-IsLine previous [] are = tt
without_repeats-IsLine previous (line ∷ lines) are = elim (Bool-cases (same_line line previous)) [
  | inl same ↦ rw same (without_repeats-IsLine previous lines are.1)
  | inr other ↦ rw other (are.0, without_repeats-IsLine line lines are.1)
]

pub kept_lines-IsLine : (lines : List (List ℕ)) → All IsLine lines → All IsLine (kept_lines lines)
unfolding kept_lines
kept_lines-IsLine [] are = tt
kept_lines-IsLine (line ∷ lines) are = (are.0, without_repeats-IsLine line lines are.1)

pub is_empty-kept_lines : (lines : List (List ℕ)) → is_empty (kept_lines lines) ≡ is_empty lines
unfolding kept_lines
is_empty-kept_lines [] = refl
is_empty-kept_lines (line ∷ lines) = refl

-- A chorus that a sheet can hold, if there is one.
abbrev pub IsChorus : Option (List (List ℕ)) → Type 0
IsChorus none = Unit
IsChorus (some canonical) = (is_empty canonical ≡ false) × All IsLine canonical

longer-IsChorus :
    (lines : List (List ℕ)) (other : Option (List (List ℕ)))
    → is_empty lines ≡ false
    → All IsLine lines
    → IsChorus other
    → IsChorus (longer lines other)
longer-IsChorus lines none full are h = (full, are)
longer-IsChorus lines (some other) full are h =
    elim (Bool-cases (leb (length other) (length lines))) [
      | inl e ↦ rw e (full, are)
      | inr e ↦ rw e h
    ]

-- Whether a sheet has a chorus.
abbrev pub has_chorus : List Part → Bool
has_chorus [] = false
has_chorus (p ∷ parts) = is_chorus_tag p.tag || has_chorus parts

is_some-longer :
    (lines : List (List ℕ)) (other : Option (List (List ℕ))) → is_some (longer lines other) ≡ true
is_some-longer lines none = refl
is_some-longer lines (some other) = ground arith

pub canonical-IsChorus :
    (parts : List Part)
    → IsSheet parts
    → IsChorus (canonical_chorus parts) × (is_some (canonical_chorus parts) ≡ has_chorus parts)
unfolding canonical_chorus
canonical-IsChorus [] are = (tt, refl)
canonical-IsChorus (p ∷ parts) are =
    let others = canonical_chorus parts in
    let later = canonical-IsChorus parts are.1 in
    elim (Bool-cases (is_chorus_tag p.tag)) [
      | inl e ↦
          rw (e, are.0.full)
            (
              longer-IsChorus p.lines others are.0.full are.0.lines later.0,
              is_some-longer p.lines others,
            )
      | inr e ↦ rw e later
    ]
