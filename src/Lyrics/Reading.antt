-- ===== src/Lyrics/Reading.antt =====
-- What the sections of a text are.
use mathlib.Core.Path.{subst}
use zolexai.Prelude.{
  inl, inr, ℕ, ◌≡◌, refl, ap, ◌∙◌, false, Bool-cases, Option-cases, ◌==◌, Option, none, some, List,
  [], ◌∷◌, ◌++◌, All, All-append, if◌then◌else◌,
}
use zolexai.Lyrics.{
  is_empty, lower_line, strip_line, strip_left, strip_right, up_to_bracket, nonempty, bracketed,
  match_tag, tag_name, flush, Part, parse_from, parse_sections, verse, cons_code,
}
use zolexai.Text.{is_space, lower_code}
use zolexai.Lyrics.Lines.{IsOpen, IsLine, IsTag}
use zolexai.Lyrics.Parsing.{IsSheet}
use zolexai.Lyrics.Stripping.{
  strip_right_twice, strip_line_twice, lower_line_twice, lower_line-IsOpen, strip_line-lower_line,
  strip_line-IsOpen,
}

-- A line whose tag, if it is one, is not blank between its brackets.
abbrev pub HasName : Option (List ℕ) → Type 0
HasName none = Unit
HasName (some group) = is_empty (tag_name group) ≡ false

abbrev pub NamesItsTags : List (List ℕ) → Type 0
NamesItsTags text = All (λ raw. HasName (match_tag raw)) text

abbrev AllOpen : Option (List ℕ) → Type 0
AllOpen none = Unit
AllOpen (some tag) = All IsOpen tag

cons_code-AllOpen :
    (c : ℕ) (rest : Option (List ℕ)) → IsOpen c → AllOpen rest → AllOpen (cons_code c rest)
cons_code-AllOpen c none free h = tt
cons_code-AllOpen c (some rest) free h = (free, h)

last-AllOpen : (line : List ℕ) → AllOpen (if is_empty line then some [] else none)
last-AllOpen [] = tt
last-AllOpen (c ∷ line) = tt

up_to_bracket-AllOpen : (line : List ℕ) → AllOpen (up_to_bracket line)
unfolding up_to_bracket
up_to_bracket-AllOpen [] = tt
up_to_bracket-AllOpen (c ∷ line) = elim (Bool-cases (c == b']')) [
  | inl e ↦ rw e (last-AllOpen line)
  | inr e ↦ rw e (cons_code-AllOpen c (up_to_bracket line) e (up_to_bracket-AllOpen line))
]

nonempty-AllOpen : (tag : Option (List ℕ)) → AllOpen tag → AllOpen (nonempty tag)
nonempty-AllOpen none h = tt
nonempty-AllOpen (some []) h = tt
nonempty-AllOpen (some (c ∷ tag)) h = h

bracketed-AllOpen : (line : List ℕ) → AllOpen (bracketed line)
bracketed-AllOpen [] = tt
bracketed-AllOpen (c ∷ line) = elim (Bool-cases (c == b'[')) [
  | inl e ↦ rw e (nonempty-AllOpen (up_to_bracket line) (up_to_bracket-AllOpen line))
  | inr e ↦ rw e tt
]

tag_name-IsTag :
    (group : List ℕ) → All IsOpen group → is_empty (tag_name group) ≡ false → IsTag (tag_name group)
tag_name-IsTag group free full = record {
  stripped = strip_line-lower_line (strip_line group) ∙ ap lower_line (strip_line_twice group);
  lowered = lower_line_twice (strip_line group);
  full = full;
  opened = lower_line-IsOpen (strip_line group) (strip_line-IsOpen group free);
}

match_tag-IsTag :
    (raw group : List ℕ)
    → match_tag raw ≡ some group
    → HasName (match_tag raw)
    → IsTag (tag_name group)
unfolding match_tag
match_tag-IsTag raw group e named =
    tag_name-IsTag group (subst AllOpen e (bracketed-AllOpen (strip_line raw)))
      (subst HasName e named)

strip_line-IsLine :
    (raw : List ℕ)
    → match_tag raw ≡ none
    → is_empty (strip_line raw) ≡ false
    → IsLine (strip_line raw)
unfolding match_tag strip_line
strip_line-IsLine raw e full = record {
  stripped = strip_line_twice raw;
  right_stripped = strip_right_twice (strip_left raw);
  full = full;
  untagged = ap bracketed (strip_line_twice raw) ∙ e;
}

flush-IsSheet :
    (tag : List ℕ) (current : List (List ℕ)) (parts : List Part)
    → IsTag tag
    → All IsLine current
    → IsSheet parts
    → IsSheet (flush tag current parts)
flush-IsSheet tag [] parts t are rest = rest
flush-IsSheet tag (line ∷ current) parts t are rest =
    (record { tag = t; full = refl; lines = are }, rest)

parse_from-IsSheet :
    (text : List (List ℕ)) (tag : List ℕ) (current : List (List ℕ))
    → NamesItsTags text
    → IsTag tag
    → All IsLine current
    → IsSheet (parse_from text tag current)
unfolding parse_from
parse_from-IsSheet [] tag current named t are = flush-IsSheet tag current [] t are tt
parse_from-IsSheet (raw ∷ text) tag current named t are = elim (Option-cases (match_tag raw)) [
  | inl e ↦ elim (Bool-cases (is_empty (strip_line raw))) [
    | inl blank ↦ rw (e, blank) (parse_from-IsSheet text tag current named.1 t are)
    | inr full ↦
        rw (e, full)
          (parse_from-IsSheet text tag (current ++ (strip_line raw ∷ [])) named.1 t (
            All-append IsLine current (strip_line raw ∷ []) are (strip_line-IsLine raw e full, tt)))
  ]
  | inr (group, e) ↦
      let next = match_tag-IsTag raw group e named.0 in
      rw e (
        flush-IsSheet tag current (parse_from text (tag_name group) []) t are
          (parse_from-IsSheet text (tag_name group) [] named.1 next tt))
]

verse-IsTag : IsTag verse
unfolding strip_line strip_left strip_right is_space lower_code
verse-IsTag = record {
  stripped = refl;
  lowered = refl;
  full = refl;
  opened = (refl, (refl, (refl, (refl, (refl, tt)))));
}

-- The sections of a text that names its tags.
pub parse_sections-IsSheet :
    (text : List (List ℕ)) → NamesItsTags text → IsSheet (parse_sections text)
unfolding parse_sections
parse_sections-IsSheet text named = parse_from-IsSheet text verse [] named verse-IsTag tt
