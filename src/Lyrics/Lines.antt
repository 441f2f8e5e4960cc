-- ===== src/Lyrics/Lines.antt =====
-- Lines without blanks at their ends, and tags.
use zolexai.Prelude.{
  inl, inr, ℕ, ◌≡◌, refl, ap, ◌∙◌, false, ◌&&◌, Bool-cases, ◌==◌, none, some, List, [], ◌∷◌, ◌++◌,
  All, if◌then◌else◌,
}
use zolexai.Text.{is_space}
use zolexai.Lyrics.{
  is_empty, lower_line, strip_left, strip_right, strip_line, strip_top, up_to_bracket, nonempty,
  bracketed, match_tag, tag_line, tag_name,
}

-- A character that can stand in a tag.
abbrev pub IsOpen : ℕ → Type 0
IsOpen c = (c == b']') ≡ false

-- A line that a sheet holds as it is: stripped, not blank and no tag.
pub record IsLine (line : List ℕ) : Type 0 where
  pub stripped : strip_line line ≡ line
  pub right_stripped : strip_right line ≡ line
  pub full : is_empty line ≡ false
  pub untagged : match_tag line ≡ none

-- A section's name as `parse_sections` gives it.
pub record IsTag (tag : List ℕ) : Type 0 where
  pub stripped : strip_line tag ≡ tag
  pub lowered : lower_line tag ≡ tag
  pub full : is_empty tag ≡ false
  pub opened : All IsOpen tag

is_empty-append : (line : List ℕ) (c : ℕ) → is_empty (line ++ (c ∷ [])) ≡ false
is_empty-append [] c = refl
is_empty-append (d ∷ line) c = refl

-- What is kept in front of characters that are kept.
abbrev pub before : ℕ → List ℕ → List ℕ
before c rest = if is_space c && is_empty rest then [] else c ∷ rest

pub before-full : (c : ℕ) (rest : List ℕ) → is_empty rest ≡ false → before c rest ≡ c ∷ rest
before-full c rest e = elim (Bool-cases (is_space c)) [ inl s ↦ rw (s, e) refl | inr s ↦ rw s refl ]

strip_right-bracket : (line : List ℕ) → strip_right (line ++ (b']' ∷ [])) ≡ line ++ (b']' ∷ [])
unfolding strip_right is_space
strip_right-bracket [] = refl
strip_right-bracket (c ∷ line) =
    ap (before c) (strip_right-bracket line)
    ∙ before-full c (line ++ (b']' ∷ [])) (is_empty-append line b']')

up_to_bracket-tag : (tag : List ℕ) → All IsOpen tag → up_to_bracket (tag ++ (b']' ∷ [])) ≡ some tag
unfolding up_to_bracket
up_to_bracket-tag [] opened = refl
up_to_bracket-tag (c ∷ tag) opened = rw (opened.0, up_to_bracket-tag tag opened.1) refl

nonempty-full : (tag : List ℕ) → is_empty tag ≡ false → nonempty (some tag) ≡ some tag
nonempty-full [] e = cc e
nonempty-full (c ∷ tag) e = refl

strip_line-tag_line : (tag : List ℕ) → strip_line (tag_line tag) ≡ tag_line tag
unfolding strip_line strip_left is_space
strip_line-tag_line tag = ap (λ x. b'[' ∷ x) (strip_right-bracket tag)

pub match_tag-tag_line : (tag : List ℕ) → IsTag tag → match_tag (tag_line tag) ≡ some tag
unfolding match_tag
match_tag-tag_line tag t =
    ap bracketed (strip_line-tag_line tag)
    ∙ ap nonempty (up_to_bracket-tag tag t.opened)
    ∙ nonempty-full tag t.full

pub tag_name-IsTag : (tag : List ℕ) → IsTag tag → tag_name tag ≡ tag
tag_name-IsTag tag t = ap lower_line t.stripped ∙ t.lowered

pub strip_right-tag_line : (tag : List ℕ) → strip_right (tag_line tag) ≡ tag_line tag
unfolding strip_right is_space
strip_right-tag_line tag = ap (λ x. b'[' ∷ x) (strip_right-bracket tag)

pub strip_right-blank : strip_right [] ≡ []
unfolding strip_right
strip_right-blank = refl

pub strip_top-bracket :
    (tag : List ℕ) (text : List (List ℕ)) → strip_top (tag_line tag ∷ text) ≡ tag_line tag ∷ text
unfolding strip_top strip_left is_space
strip_top-bracket tag text = refl
