-- ===== src/Lyrics/Parsing.antt =====
-- Reading a rendered sheet.
use mathlib.Core.List.{append_assoc, append-nil}
use zolexai.Prelude.{
  inl, inr, ℕ, ◌≡◌, refl, sym, ap, ◌∙◌, false, Bool-cases, Option-cases, List, [], ◌∷◌, ◌++◌, All,
  All-append, All-weaken, if◌then◌else◌,
}
use zolexai.Lyrics.{
  is_empty, strip_right, strip_line, strip_top, strip_bottom, strip_text, last_line, match_tag,
  tag_name, flush, Part, parse_from, parse_sections, sheet_lines, render, verse,
}
use zolexai.Lyrics.Lines.{
  IsLine, IsTag, strip_right-tag_line, strip_right-blank, strip_top-bracket, match_tag-tag_line,
  tag_name-IsTag,
}

-- A section that a sheet holds: a name, and lines, at least one.
pub record IsPart (p : Part) : Type 0 where
  pub tag : IsTag p.tag
  pub full : is_empty p.lines ≡ false
  pub lines : All IsLine p.lines

abbrev pub IsSheet : List Part → Type 0
IsSheet parts = All IsPart parts

parse_from-lines :
    (lines rest : List (List ℕ)) (tag : List ℕ) (current : List (List ℕ))
    → All IsLine lines
    → parse_from (lines ++ rest) tag current ≡ parse_from rest tag (current ++ lines)
unfolding parse_from
parse_from-lines [] rest tag current are = ap (parse_from rest tag) (sym (append-nil current))
parse_from-lines (line ∷ lines) rest tag current are =
    let is = are.0 in
    rw (is.untagged, is.stripped, is.full)
      (parse_from-lines lines rest tag (current ++ (line ∷ [])) are.1
        ∙ ap (parse_from rest tag) (append_assoc current (line ∷ []) lines))

parse_from-blank :
    (rest : List (List ℕ)) (tag : List ℕ) (current : List (List ℕ))
    → parse_from ([] ∷ rest) tag current ≡ parse_from rest tag current
unfolding parse_from match_tag strip_line
parse_from-blank rest tag current = refl

pub flush-full :
    (tag : List ℕ) (lines : List (List ℕ)) (parts : List Part)
    → is_empty lines ≡ false
    → flush tag lines parts ≡ record { tag = tag; lines = lines } ∷ parts
flush-full tag [] parts e = cc e
flush-full tag (line ∷ lines) parts e = refl

parse_from-sheet :
    (parts : List Part) (tag : List ℕ) (current : List (List ℕ))
    → IsSheet parts
    → parse_from (sheet_lines parts) tag current ≡ flush tag current parts
unfolding parse_from sheet_lines
parse_from-sheet [] tag current are = refl
parse_from-sheet (p ∷ parts) tag current are =
    let is = are.0 in
    let after : parse_from (p.lines ++ ([] ∷ sheet_lines parts)) p.tag [] ≡ p ∷ parts =
      parse_from-lines p.lines ([] ∷ sheet_lines parts) p.tag [] is.lines
      ∙ parse_from-blank (sheet_lines parts) p.tag p.lines
      ∙ parse_from-sheet parts p.tag p.lines are.1
      ∙ flush-full p.tag p.lines parts is.full in
    rw (match_tag-tag_line p.tag is.tag, tag_name-IsTag p.tag is.tag) (ap (flush tag current) after)

-- Two texts that read the same do so after one more line.
parse_from-cong :
    (line : List ℕ) (a b : List (List ℕ))
    → ((tag : List ℕ) (current : List (List ℕ))
        → parse_from a tag current ≡ parse_from b tag current)
    → (tag : List ℕ) (current : List (List ℕ))
    → parse_from (line ∷ a) tag current ≡ parse_from (line ∷ b) tag current
unfolding parse_from
parse_from-cong line a b same tag current = elim (Option-cases (match_tag line)) [
  | inl e ↦ elim (Bool-cases (is_empty (strip_line line))) [
    | inl blank ↦ rw (e, blank) (same tag current)
    | inr full ↦ rw (e, full) (same tag (current ++ (strip_line line ∷ [])))
  ]
  | inr (group, e) ↦ rw e (ap (flush tag current) (same (tag_name group) []))
]

-- A line above the rest of a text without its last blank lines.
abbrev above : List ℕ → List (List ℕ) → List (List ℕ)
above line below = if is_empty below then last_line (strip_right line) else line ∷ below

parse_from-above :
    (line : List ℕ) (below text : List (List ℕ))
    → strip_right line ≡ line
    → ((tag : List ℕ) (current : List (List ℕ))
        → parse_from below tag current ≡ parse_from text tag current)
    → (tag : List ℕ) (current : List (List ℕ))
    → parse_from (above line below) tag current ≡ parse_from (line ∷ text) tag current
unfolding strip_right
parse_from-above [] [] text right same tag current =
    same tag current ∙ sym (parse_from-blank text tag current)
parse_from-above (c ∷ line) [] text right same tag current =
    ap (λ x. parse_from (last_line x) tag current) right
    ∙ parse_from-cong (c ∷ line) [] text same tag current
parse_from-above line (l ∷ below) text right same tag current =
    parse_from-cong line (l ∷ below) text same tag current

-- The last lines of a text do not matter when they are blank.
parse_from-strip_bottom :
    (text : List (List ℕ)) (tag : List ℕ) (current : List (List ℕ))
    → All (λ line. strip_right line ≡ line) text
    → parse_from (strip_bottom text) tag current ≡ parse_from text tag current
unfolding strip_bottom
parse_from-strip_bottom [] tag current are = refl
parse_from-strip_bottom (line ∷ text) tag current are =
    parse_from-above line (strip_bottom text) text are.0
      (λ t c. parse_from-strip_bottom text t c are.1) tag current

sheet_lines-right :
    (parts : List Part) → IsSheet parts → All (λ line. strip_right line ≡ line) (sheet_lines parts)
unfolding sheet_lines
sheet_lines-right [] are = tt
sheet_lines-right (p ∷ parts) are = (
  strip_right-tag_line p.tag,
  All-append (λ line. strip_right line ≡ line) p.lines ([] ∷ sheet_lines parts)
      (All-weaken (λ line is. is.right_stripped) p.lines are.0.lines)
      (strip_right-blank, sheet_lines-right parts are.1),
)

-- A sheet's first line is a tag, which `strip` leaves alone.
strip_top-sheet_lines : (parts : List Part) → strip_top (sheet_lines parts) ≡ sheet_lines parts
unfolding strip_top sheet_lines
strip_top-sheet_lines [] = refl
strip_top-sheet_lines (p ∷ parts) = strip_top-bracket p.tag (p.lines ++ ([] ∷ sheet_lines parts))

-- A rendered sheet reads back as it was, when its section names are trimmed, lower-case texts that
-- are not empty and have no closing bracket, and each of its sections has lines, all of them trimmed
-- and none of them blank or a tag.
pub parse_sections-render :
    (parts : List Part) → IsSheet parts → parse_sections (render parts) ≡ parts
unfolding parse_sections render strip_text
parse_sections-render parts are =
    ap (λ x. parse_from (strip_bottom x) verse []) (strip_top-sheet_lines parts)
    ∙ parse_from-strip_bottom (sheet_lines parts) verse [] (sheet_lines-right parts are)
    ∙ parse_from-sheet parts verse [] are
