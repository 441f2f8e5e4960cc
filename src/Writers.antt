-- ===== src/Writers.antt =====
-- apps/worker/worker/music/fallback.py: the chain of lyric writers. A text is the list of its lines
-- and a language the list of its character codes.
pub mod Choice
use zolexai.Prelude.{
  ℕ, suc, Bool, true, false, not, ◌&&◌, ◌||◌, Option, none, some, List, [], ◌∷◌, ◌++◌,
  if◌then◌else◌,
}
use zolexai.Text.{codes, same_codes}
use zolexai.Lyrics.{is_empty, lower_line, strip_line, strip_text}

-- What a writer's `write` comes to: a text, a failure that it declares, or another exception.
pub data Written : Type 0 where
  wrote : List (List ℕ) → Written
  write_failed crashed : Written

-- A writer as the chain sees it; it has no languages when it writes any.
pub record Writer : Type 0 where
  pub available : Bool
  pub languages : List (List ℕ)
  pub write : List ℕ → Written

abbrev pub mentions : List (List ℕ) → List ℕ → Bool
mentions [] language = false
mentions (l ∷ languages) language = same_codes l language || mentions languages language

unfoldable pub can_write : Writer → List ℕ → Bool
can_write w language = is_empty w.languages || mentions w.languages language

unfoldable pub chain_available : List Writer → Bool
chain_available [] = false
chain_available (w ∷ writers) = w.available || chain_available writers

abbrev joined : List (List ℕ) → Option (List (List ℕ)) → Option (List (List ℕ))
joined languages none = none
joined languages (some others) = some (languages ++ others)

-- The languages of the available writers; `none` is the early return of "any".
unfoldable pub collect_languages : List Writer → Option (List (List ℕ))
collect_languages [] = some []
collect_languages (w ∷ writers) =
    let others = collect_languages writers in
    if not w.available
    then others
    else if is_empty w.languages
    then none
    else joined w.languages others

abbrev any_language : Option (List (List ℕ)) → List (List ℕ)
any_language none = []
any_language (some languages) = languages

unfoldable pub supported_languages : List Writer → List (List ℕ)
unfolding collect_languages
supported_languages writers = any_language (collect_languages writers)

abbrev or_english : List ℕ → List ℕ
or_english [] = codes "en"
or_english (c ∷ language) = c ∷ language

unfoldable pub language_of : List ℕ → List ℕ
unfolding strip_line
language_of brief = or_english (lower_line (strip_line brief))

-- Why a writer gave nothing.
pub data Problem : Type 0 where
  unavailable wrong_language failed empty_sheet : Problem

-- What the chain comes to: the position of the writer with its text, or the problems of them all.
pub data Chain : Type 0 where
  used : ℕ → List (List ℕ) → Chain
  none_available : List Problem → Chain
  raised : Chain

abbrev pub after_problem : Problem → Chain → Chain
after_problem problem (used position text) = used (suc position) text
after_problem problem (none_available problems) = none_available (problem ∷ problems)
after_problem problem raised = raised

abbrev pub on_written : Written → Chain → Chain
on_written (wrote text) rest =
    if is_empty (strip_text text) then after_problem empty_sheet rest else used 1 text
on_written write_failed rest = after_problem failed rest
on_written crashed rest = raised

unfoldable pub write_with : List ℕ → List Writer → Chain
unfolding can_write strip_text
write_with language [] = none_available []
write_with language (w ∷ writers) =
    let rest = write_with language writers in
    if not w.available
    then after_problem unavailable rest
    else if not (can_write w language)
    then after_problem wrong_language rest
    else on_written (w.write language) rest

-- `FallbackLyricsWriter.write`, of the brief's language.
unfoldable pub write : List ℕ → List Writer → Chain
unfolding write_with language_of
write brief writers = write_with (language_of brief) writers
