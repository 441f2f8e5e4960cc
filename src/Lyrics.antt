-- ===== src/Lyrics.antt =====
-- apps/worker/worker/music/lyrics.py, and `_render` of music/writer.py: lyric sheets and the repairs
-- made to them. A text is the list of its lines and a line the list of its character codes; letters
-- and blanks are those of ASCII.
pub mod Lines
pub mod Stripping
pub mod Reading
pub mod Parsing
pub mod Choruses
pub mod Polishing
use zolexai.Prelude.{
  ℕ, zero, suc, ◌+◌, ◌-◌, ◌*◌, ◌/◌, ◌%◌, Bool, true, false, not, ◌&&◌, ◌||◌, ◌==◌, leb, ltb, max,
  min, Option, none, some, List, [], ◌∷◌, ◌++◌, map, if◌then◌else◌, length,
}
use zolexai.Text.{codes, is_space, lower_code, same_codes}

abbrev pub is_empty {ℓ} : {A : Type ℓ} → List A → Bool
is_empty [] = true
is_empty (x ∷ l) = false

abbrev pub lower_line : List ℕ → List ℕ
lower_line line = map lower_code line

-- `strip`, of a line and of a text.
unfoldable pub strip_left : List ℕ → List ℕ
unfolding is_space
strip_left [] = []
strip_left (c ∷ line) = if is_space c then strip_left line else c ∷ line

unfoldable pub strip_right : List ℕ → List ℕ
unfolding is_space
strip_right [] = []
strip_right (c ∷ line) =
    let rest = strip_right line in if is_space c && is_empty rest then [] else c ∷ rest

unfoldable pub strip_line : List ℕ → List ℕ
unfolding strip_left strip_right
strip_line line = strip_right (strip_left line)

unfoldable pub strip_top : List (List ℕ) → List (List ℕ)
unfolding strip_left
strip_top [] = []
strip_top (line ∷ text) =
    let below = strip_top text in
    if is_empty (strip_left line) then below else strip_left line ∷ text

abbrev pub last_line : List ℕ → List (List ℕ)
last_line line = if is_empty line then [] else line ∷ []

unfoldable pub strip_bottom : List (List ℕ) → List (List ℕ)
unfolding strip_right
strip_bottom [] = []
strip_bottom (line ∷ text) =
    let below = strip_bottom text in
    if is_empty below then last_line (strip_right line) else line ∷ below

unfoldable pub strip_text : List (List ℕ) → List (List ℕ)
unfolding strip_top strip_bottom
strip_text text = strip_bottom (strip_top text)

abbrev pub cons_code : ℕ → Option (List ℕ) → Option (List ℕ)
cons_code c none = none
cons_code c (some rest) = some (c ∷ rest)

-- What stands before a `]` that is the last character and the only one.
unfoldable pub up_to_bracket : List ℕ → Option (List ℕ)
up_to_bracket [] = none
up_to_bracket (c ∷ line) =
    let rest = up_to_bracket line in
    if c == b']' then (if is_empty line then some [] else none) else cons_code c rest

abbrev pub nonempty : Option (List ℕ) → Option (List ℕ)
nonempty none = none
nonempty (some []) = none
nonempty (some (c ∷ tag)) = some (c ∷ tag)

abbrev pub bracketed : List ℕ → Option (List ℕ)
bracketed [] = none
bracketed (c ∷ line) = if c == b'[' then nonempty (up_to_bracket line) else none

-- `_TAG.match`: the group of `^\s*\[([^\]]+)\]\s*$`.
unfoldable pub match_tag : List ℕ → Option (List ℕ)
unfolding strip_line up_to_bracket
match_tag line = bracketed (strip_line line)

pub record Part : Type 0 where
  pub tag : List ℕ
  pub lines : List (List ℕ)

abbrev pub verse : List ℕ
verse = codes "verse"

abbrev pub flush : List ℕ → List (List ℕ) → List Part → List Part
flush tag [] parts = parts
flush tag (line ∷ lines) parts = record { tag = tag; lines = line ∷ lines } ∷ parts

abbrev pub tag_name : List ℕ → List ℕ
tag_name group = lower_line (strip_line group)

-- One line: a tag, a blank line or a line of the section.
abbrev pub reading :
    Option (List ℕ) → List ℕ → List Part → List Part → (List ℕ → List Part) → List Part
reading none line blank added tagged = if is_empty line then blank else added
reading (some group) line blank added tagged = tagged (tag_name group)

-- The loop of `parse_sections`: the tag and the lines of the section that is read.
unfoldable pub parse_from : List (List ℕ) → List ℕ → List (List ℕ) → List Part
parse_from [] tag current = flush tag current []
parse_from (raw ∷ text) tag current =
    reading (match_tag raw) (strip_line raw) (parse_from text tag current)
      (parse_from text tag (current ++ (strip_line raw ∷ [])))
      (λ next. flush tag current (parse_from text next []))

unfoldable pub parse_sections : List (List ℕ) → List Part
unfolding parse_from
parse_sections text = parse_from text verse []

abbrev pub tag_line : List ℕ → List ℕ
tag_line tag = (b'[' ∷ tag) ++ (b']' ∷ [])

unfoldable pub sheet_lines : List Part → List (List ℕ)
sheet_lines [] = []
sheet_lines (p ∷ parts) = (tag_line p.tag ∷ p.lines) ++ ([] ∷ sheet_lines parts)

-- `_render`
unfoldable pub render : List Part → List (List ℕ)
unfolding sheet_lines strip_text
render parts = strip_text (sheet_lines parts)

-- `chorus_tags`
abbrev pub is_chorus_tag : List ℕ → Bool
is_chorus_tag tag =
    same_codes tag (codes "chorus")
    || same_codes tag (codes "hook")
    || same_codes tag (codes "drop")
    || same_codes tag (codes "refrain")

-- `max(choruses, key=len)`, which is the first of the longest ones.
abbrev pub longer : List (List ℕ) → Option (List (List ℕ)) → Option (List (List ℕ))
longer lines none = some lines
longer lines (some other) = if leb (length other) (length lines) then some lines else some other

unfoldable pub canonical_chorus : List Part → Option (List (List ℕ))
canonical_chorus [] = none
canonical_chorus (p ∷ parts) =
    let others = canonical_chorus parts in
    if is_chorus_tag p.tag && not (is_empty p.lines) then longer p.lines others else others

abbrev pub same_line : List ℕ → List ℕ → Bool
same_line a b = same_codes (lower_line (strip_line a)) (lower_line (strip_line b))

-- The lines that do not repeat the one kept before them, `previous` being that one.
unfoldable pub without_repeats : List ℕ → List (List ℕ) → List (List ℕ)
without_repeats previous [] = []
without_repeats previous (line ∷ lines) =
    let rest = without_repeats line lines in
    let skipped = without_repeats previous lines in
    if same_line line previous then skipped else line ∷ rest

unfoldable pub kept_lines : List (List ℕ) → List (List ℕ)
unfolding without_repeats
kept_lines [] = []
kept_lines (line ∷ lines) = line ∷ without_repeats line lines

abbrev pub chorus_or : Option (List (List ℕ)) → List (List ℕ) → List (List ℕ)
chorus_or none lines = lines
chorus_or (some canonical) lines = canonical

unfoldable pub polished_part : Option (List (List ℕ)) → Part → Part
unfolding kept_lines
polished_part canonical p = record p {
  lines =
      if is_chorus_tag p.tag then chorus_or canonical (kept_lines p.lines) else kept_lines p.lines;
}

-- The sections of the rebuilt sheet, the empty ones left out.
unfoldable pub polished : Option (List (List ℕ)) → List Part → List Part
unfolding polished_part
polished canonical [] = []
polished canonical (p ∷ parts) =
    let part = polished_part canonical p in flush part.tag part.lines (polished canonical parts)

abbrev pub polished_or : List (List ℕ) → List Part → List (List ℕ)
polished_or text [] = strip_text text
polished_or text (p ∷ parts) = render (polished (canonical_chorus (p ∷ parts)) (p ∷ parts))

-- `polish_lyrics`, of a plan that has lyrics or not.
unfoldable pub polish_lyrics : Bool → List (List ℕ) → List (List ℕ)
unfolding render canonical_chorus polished parse_sections
polish_lyrics has_lyrics text = if has_lyrics then polished_or text (parse_sections text) else []
