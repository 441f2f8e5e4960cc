-- ===== src/Speech.antt =====
-- apps/worker/worker/director/plan.py: the words that a directed scene may speak, and the lines taken
-- out of it. Texts are lists of character codes, with the letters and blanks of ASCII, and durations
-- are microseconds.
pub mod Trimming
pub mod Slack
use zolexai.Prelude.{
  ℕ, zero, suc, ◌+◌, ◌-◌, ◌*◌, ◌/◌, ◌%◌, ltb, String, Bool, true, false, not, ◌&&◌, ◌||◌, ◌==◌, leb,
  Option, none, some, List, [], ◌∷◌, map, length, any, or_text, is_some, or_default, if◌then◌else◌,
  select,
}
use zolexai.Text.{codes, is_space, lower_code, same_codes, is_digit}
use zolexai.Lyrics.{is_empty, strip_line, cons_code}
use zolexai.Timeline.{DirectorEvent}

-- A character put before the runs of a text, of which the first may go on from it.
abbrev join : Bool → ℕ → List (List ℕ) → List (List ℕ)
join goes_on c [] = (c ∷ []) ∷ []
join goes_on c (w ∷ words) = if goes_on then (c ∷ w) ∷ words else (c ∷ []) ∷ w ∷ words

abbrev starts : (ℕ → Bool) → List ℕ → Bool
starts p [] = false
starts p (c ∷ text) = p c

-- The longest runs of the characters that pass a test.
unfoldable pub runs : (ℕ → Bool) → List ℕ → List (List ℕ)
runs p [] = []
runs p (c ∷ text) = let rest = runs p text in if p c then join (starts p text) c rest else rest

-- `str.split`
unfoldable pub split : List ℕ → List (List ℕ)
unfolding runs is_space
split text = runs (λ c. not (is_space c)) text

-- `re.sub(r"\s+", " ", text)`
unfoldable pub collapse : List ℕ → List ℕ
unfolding is_space
collapse [] = []
collapse (c ∷ text) =
    let rest = collapse text in
    if is_space c then (if starts is_space text then rest else 32 ∷ rest) else c ∷ rest

abbrev is_terminal_mark : ℕ → Bool
is_terminal_mark c =
    (c == b'.') || (c == b'!') || (c == b'?') || (c == 161) || (c == 191) || (c == 32)

abbrev drop_left : (ℕ → Bool) → List ℕ → List ℕ
drop_left p [] = []
drop_left p (c ∷ text) = let rest = drop_left p text in if p c then rest else c ∷ text

abbrev drop_right : (ℕ → Bool) → List ℕ → List ℕ
drop_right p [] = []
drop_right p (c ∷ text) =
    let rest = drop_right p text in if p c && is_empty rest then [] else c ∷ rest

-- A straight apostrophe for a curly one.
abbrev straight : ℕ → ℕ
straight c = if (c == 8217) || (c == 8216) then b'\'' else c

unfoldable pub normalise_line : List ℕ → List ℕ
unfolding collapse strip_line lower_code
normalise_line text =
    map (λ c. straight (lower_code c))
      (drop_right is_terminal_mark (drop_left is_terminal_mark (strip_line (collapse text))))

abbrev is_word_mark : ℕ → Bool
unfolding is_digit lower_code
is_word_mark c =
    is_digit c
    || (leb b'a' (lower_code c) && leb (lower_code c) b'z')
    || (c == b'_')
    || (c == b'\'')

unfoldable pub words_of : List ℕ → List (List ℕ)
unfolding runs normalise_line is_word_mark
words_of text = runs is_word_mark (normalise_line text)

abbrev begins_run : List (List ℕ) → List (List ℕ) → Bool
begins_run [] stream = true
begins_run (w ∷ words) [] = false
begins_run (w ∷ words) (v ∷ stream) = same_codes v w && begins_run words stream

unfoldable pub contains_run : List (List ℕ) → List (List ℕ) → Bool
contains_run [] words = begins_run words []
contains_run (v ∷ stream) words = begins_run words (v ∷ stream) || contains_run stream words

abbrev opens : ℕ → Bool
opens c = (c == 34) || (c == 8220)

abbrev closes : ℕ → Bool
closes c = (c == 34) || (c == 8221)

-- What stands before the closing quote, if no quote opens before it.
abbrev quote_body : List ℕ → Option (List ℕ)
quote_body [] = none
quote_body (c ∷ text) =
    let rest = quote_body text in
    if closes c then some [] else if c == 8220 then none else cons_code c rest

-- From 2 to 300 characters.
abbrev of_length : Option (List ℕ) → Option (List ℕ)
of_length none = none
of_length (some body) = if leb 2 (length body) && leb (length body) 300 then some body else none

-- The matches of `_USER_QUOTE`, with how many characters of one are still to be passed over.
unfoldable pub quotes_from : ℕ → List ℕ → List (List ℕ)
quotes_from skip [] = []
quotes_from (suc skip) (c ∷ text) = quotes_from skip text
quotes_from zero (c ∷ text) =
    let body = of_length (quote_body text) in
    let rest = quotes_from zero text in
    let after = quotes_from (suc (length (or_default body []))) text in
    if opens c && is_some body then or_default body [] ∷ after else rest

unfoldable pub required_quotes : List ℕ → List (List ℕ)
unfolding quotes_from split strip_line
required_quotes idea =
    map strip_line (select (λ match. leb 2 (length (split match))) (quotes_from 0 idea))

-- `ESTABLISH_SECONDS` at two words a second.
unfoldable pub speech_budget : ℕ → ℕ
speech_budget duration = ((duration - 2500000) * 2) / 1000000

-- 53 bits, which a float holds.
abbrev pub float_limit : ℕ
float_limit = 9007199254740992

-- The unit in which a number has at most 53 bits, from a smaller one, in some doublings.
unfoldable pub float_unit : ℕ → ℕ → ℕ → ℕ
float_unit zero n unit = unit
float_unit (suc doublings) n unit =
    let rest = float_unit doublings n (2 * unit) in
    if ltb n (float_limit * unit) then unit else rest

-- To the nearest multiple, and of two as near to the even one.
abbrev round_even : ℕ → ℕ → ℕ
round_even n unit =
    let low = n / unit in
    let rest = 2 * (n % unit) in
    if ltb rest unit then low else if ltb unit rest then low + 1 else low + low % 2

-- `int(words * _BUDGET_SLACK)`: the float 1.15 in units of 2 ^ -52, times the words, rounded.
unfoldable pub with_slack : ℕ → ℕ
unfolding float_unit
with_slack words =
    let product = words * 5179139571476070 in
    let unit = float_unit words product 1 in round_even product unit * unit / 4503599627370496

unfoldable pub trim_budget : ℕ → ℕ
unfolding speech_budget with_slack
trim_budget duration = with_slack (speech_budget duration)

-- The words of an event's line.
unfoldable pub spoken : Option String → ℕ
unfolding split
spoken none = 0
spoken (some dialogue) = length (split (codes dialogue))

-- `spoken_words`
abbrev pub spoken_words : List DirectorEvent → ℕ
spoken_words [] = 0
spoken_words (e ∷ events) = spoken e.dialogue + spoken_words events

unfoldable pub is_protected : List (List (List ℕ)) → List ℕ → Bool
unfolding words_of contains_run
is_protected quotes dialogue =
    let words = words_of dialogue in
    not (is_empty words) && any (λ quote. contains_run quote words) quotes

-- Whether an event has a line, and that is not the user's.
unfoldable pub is_cuttable : List (List (List ℕ)) → Option String → Bool
unfolding is_protected
is_cuttable quotes none = false
is_cuttable quotes (some dialogue) =
    not (is_empty (codes dialogue)) && not (is_protected quotes (codes dialogue))

abbrev pub silenced : DirectorEvent → DirectorEvent
silenced e = record e {
  dialogue = none;
  delivery = none;
  action = or_text e.action "holds the moment in silence";
}

abbrev pub silence : List (List (List ℕ)) → DirectorEvent → DirectorEvent
silence quotes e = if is_cuttable quotes e.dialogue then silenced e else e

-- The loop from the last event to the first, with the words of the events before these.
unfoldable pub trim : List (List (List ℕ)) → ℕ → ℕ → List DirectorEvent → List DirectorEvent
unfolding is_cuttable
trim quotes budget before [] = []
trim quotes budget before (e ∷ events) =
    let words = before + spoken e.dialogue in
    let later = trim quotes budget words events in
    if leb (words + spoken_words later) budget then e ∷ later else silence quotes e ∷ later

-- `_enforce_speech_budget`, of the timeline of a plan.
unfoldable pub enforce_speech_budget : ℕ → List ℕ → List DirectorEvent → List DirectorEvent
unfolding trim_budget trim required_quotes words_of
enforce_speech_budget duration idea timeline =
    let trimmed = trim (map words_of (required_quotes idea)) (trim_budget duration) 0 timeline in
    if leb (spoken_words timeline) (trim_budget duration) then timeline else trimmed
