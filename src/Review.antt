-- ===== src/Review.antt =====
-- apps/worker/worker/music/lyrics.py: how a draft is measured against its plan and its brief.
pub mod Rhyme
use zolexai.Prelude.{
  ℕ, zero, suc, ◌+◌, ◌-◌, ◌*◌, ◌/◌, ◌%◌, Bool, true, false, not, ◌&&◌, ◌||◌, ◌==◌, leb, ltb, max,
  min, List, [], ◌∷◌, ◌++◌, map, if◌then◌else◌, length, every, count_if,
}
use zolexai.Text.{codes, same_codes, contains}
use zolexai.Lyrics.{Part, is_empty, lower_line, is_chorus_tag, parse_sections}
use Rhyme.{lines_rhyme}

abbrev pub mentions : List (List ℕ) → List ℕ → Bool
mentions [] word = false
mentions (w ∷ words) word = same_codes w word || mentions words word

-- `Section`: what it is, and its length in ticks.
pub record Section : Type 0 where
  pub kind : List ℕ
  pub seconds : ℕ

abbrev pub wordless_kinds : List (List ℕ)
wordless_kinds =
    codes "intro"
    ∷ codes "outro"
    ∷ codes "solo"
    ∷ codes "movement"
    ∷ codes "breakdown"
    ∷ codes "build"
    ∷ []

unfoldable pub carries_words : Section → Bool
carries_words s = not (mentions wordless_kinds s.kind)

-- `line_budget`, with the ticks of a second and of a line.
unfoldable pub line_budget : ℕ → ℕ → ℕ → ℕ
line_budget second per_line total = max 2 (total / max second per_line)

pub record SongPlan : Type 0 where
  pub second : ℕ
  pub per_line : ℕ
  pub total : ℕ
  pub sections : List Section
  pub wordless : Bool

unfoldable pub has_lyrics : SongPlan → Bool
unfolding carries_words
has_lyrics plan = not plan.wordless && leb 1 (count_if carries_words plan.sections)

unfoldable pub plan_budget : SongPlan → ℕ
unfolding line_budget
plan_budget plan = line_budget plan.second plan.per_line plan.total

unfoldable pub lines_per_section : SongPlan → ℕ
unfolding plan_budget carries_words
lines_per_section plan = max 2 (plan_budget plan / max 1 (count_if carries_words plan.sections))

-- `round` of a quotient, a half to the even side.
abbrev round_div : ℕ → ℕ → ℕ
round_div a b =
    let q = a / b in
    let r = 2 * (a % b) in
    if ltb r b then q else if ltb b r then q + 1 else if q % 2 == 0 then q else q + 1

unfoldable pub target_lines : SongPlan → ℕ
unfolding plan_budget
target_lines plan = min (plan_budget plan) (max 4 (round_div plan.total (8 * plan.second)))

-- `check_lyric_fit`: the lines of a sheet and the budget.
abbrev pub count_lines : List Part → ℕ
count_lines [] = 0
count_lines (p ∷ parts) = length p.lines + count_lines parts

unfoldable pub check_lyric_fit : ℕ → ℕ → ℕ → List (List ℕ) → ℕ × ℕ
unfolding parse_sections line_budget
check_lyric_fit second per_line total text =
    (count_lines (parse_sections text), line_budget second per_line total)

pub data Issue : Type 0 where
  empty_draft chorus_differs weak_rhyme : Issue
  missing_kinds single_lines lost_details : List (List ℕ) → Issue
  too_many_lines : ℕ → ℕ → Issue
  reused : ℕ → Issue

-- A rate is a number of lines out of another.
pub record Review : Type 0 where
  pub issues : List Issue
  pub rhyming : ℕ
  pub rhyme_total : ℕ
  pub unique : ℕ
  pub unique_total : ℕ

abbrev keep_if : Bool → List ℕ → List (List ℕ) → List (List ℕ)
keep_if b word words = if b then word ∷ words else words

-- Each word once, in the order in which they first stand; `before` are those seen.
abbrev pub once_each : List (List ℕ) → List (List ℕ) → List (List ℕ)
once_each before [] = []
once_each before (w ∷ words) =
    let rest = once_each (w ∷ before) words in if mentions before w then rest else w ∷ rest

abbrev essential : List (List ℕ)
essential = codes "verse" ∷ codes "chorus" ∷ codes "hook" ∷ codes "drop" ∷ codes "movement" ∷ []

abbrev pub wanted_kinds : List Section → List (List ℕ)
unfolding carries_words
wanted_kinds [] = []
wanted_kinds (s ∷ sections) = keep_if (carries_words s) s.kind (wanted_kinds sections)

abbrev tags : List Part → List (List ℕ)
tags parts = map (λ p. p.tag) parts

abbrev absent : List (List ℕ) → List (List ℕ) → List (List ℕ)
absent arrived [] = []
absent arrived (kind ∷ kinds) =
    keep_if (mentions essential kind && not (mentions arrived kind)) kind (absent arrived kinds)

unfoldable pub missing : SongPlan → List Part → List (List ℕ)
missing plan parts = absent (tags parts) (once_each [] (wanted_kinds plan.sections))

unfoldable pub thin : List Part → List (List ℕ)
thin [] = []
thin (p ∷ parts) = keep_if (length p.lines == 1) p.tag (thin parts)

-- The lines outside the choruses, in lower case.
unfoldable pub verse_lines : List Part → List (List ℕ)
verse_lines [] = []
verse_lines (p ∷ parts) =
    let rest = verse_lines parts in
    if is_chorus_tag p.tag then rest else map lower_line p.lines ++ rest

abbrev occurrences : List (List ℕ) → List ℕ → ℕ
occurrences lines line = count_if (same_codes line) lines

unfoldable pub repeated : List (List ℕ) → ℕ
repeated lines = count_if (λ line. ltb 1 (occurrences lines line)) (once_each [] lines)

unfoldable pub unique_lines : List (List ℕ) → ℕ
unique_lines lines = count_if (λ line. occurrences lines line == 1) lines

abbrev pub same_lines : List (List ℕ) → List (List ℕ) → Bool
same_lines [] [] = true
same_lines [] (b ∷ m) = false
same_lines (a ∷ l) [] = false
same_lines (a ∷ l) (b ∷ m) = same_codes a b && same_lines l m

abbrev pub choruses : List Part → List (List (List ℕ))
choruses [] = []
choruses (p ∷ parts) =
    let rest = choruses parts in if is_chorus_tag p.tag then p.lines ∷ rest else rest

-- `len(set(choruses)) > 1`
abbrev pub differ : List (List (List ℕ)) → Bool
differ [] = false
differ (c ∷ others) = not (every (same_lines c) others)

-- How many lines of a section rhyme with another one, those before and after being given.
unfoldable pub partnered : List (List ℕ) → List (List ℕ) → ℕ
unfolding lines_rhyme
partnered before [] = 0
partnered before (line ∷ lines) =
    let rest = partnered (before ++ (line ∷ [])) lines in
    if leb 1 (count_if (lines_rhyme line) (before ++ lines)) then 1 + rest else rest

-- The lines of the sections with two lines or more: how many rhyme, and how many there are.
unfoldable pub rhymes : List Part → ℕ × ℕ
unfolding partnered
rhymes [] = (0, 0)
rhymes (p ∷ parts) =
    let (rhyming, total) = rhymes parts in
    if ltb (length p.lines) 2
    then (rhyming, total)
    else (partnered [] p.lines + rhyming, length p.lines + total)

abbrev in_text : List (List ℕ) → List ℕ → Bool
in_text text detail = leb 1 (count_if (λ line. contains (lower_line detail) (lower_line line)) text)

-- A detail of a brief is one word, so it stands in one line.
unfoldable pub lost : List (List ℕ) → List (List ℕ) → List (List ℕ)
unfolding contains
lost text [] = []
lost text (detail ∷ details) = keep_if (not (in_text text detail)) detail (lost text details)
