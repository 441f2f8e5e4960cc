-- ===== src/Review/Rhyme.antt =====
-- apps/worker/worker/music/lyrics.py: whether two lines end on the same sound.
use zolexai.Prelude.{
  ℕ, zero, suc, ◌-◌, Bool, false, not, ◌&&◌, ◌||◌, ◌==◌, leb, ltb, Option, none, some, List, [],
  ◌∷◌, ◌++◌, if◌then◌else◌, length, drop, or_default,
}
use zolexai.Text.{codes, same_codes, begins_with}
use zolexai.Lyrics.{is_empty, lower_line}

-- `str.replace`: how many characters of a match are still to be passed over.
unfoldable pub replace_from : List ℕ → List ℕ → ℕ → List ℕ → List ℕ
unfolding begins_with
replace_from spelling sound skip [] = []
replace_from spelling sound (suc skip) (c ∷ word) = replace_from spelling sound skip word
replace_from spelling sound zero (c ∷ word) =
    let matched = replace_from spelling sound (length spelling - 1) word in
    let rest = replace_from spelling sound zero word in
    if begins_with spelling (c ∷ word) then sound ++ matched else c ∷ rest

unfoldable pub replace : List ℕ × List ℕ → List ℕ → List ℕ
unfolding replace_from
replace (spelling, sound) word = replace_from spelling sound 0 word

-- `_SOUND_RULES`
abbrev pub sound_rules : List (List ℕ × List ℕ)
sound_rules =
    (codes "ight", codes "ite")
    ∷ (codes "igh", codes "ie")
    ∷ (codes "ough", codes "uf")
    ∷ (codes "augh", codes "af")
    ∷ (codes "tion", codes "shun")
    ∷ (codes "sion", codes "shun")
    ∷ (codes "ceive", codes "eve")
    ∷ (codes "ie", codes "ee")
    ∷ (codes "ea", codes "ee")
    ∷ (codes "ee", codes "ee")
    ∷ (codes "ey", codes "ee")
    ∷ (codes "y", codes "ee")
    ∷ (codes "ai", codes "ay")
    ∷ (codes "ay", codes "ay")
    ∷ (codes "ei", codes "ay")
    ∷ (codes "oa", codes "oh")
    ∷ (codes "ow", codes "oh")
    ∷ (codes "oe", codes "oh")
    ∷ (codes "oo", codes "oo")
    ∷ (codes "ou", codes "ow")
    ∷ (codes "ue", codes "oo")
    ∷ (codes "ew", codes "oo")
    ∷ (codes "ph", codes "f")
    ∷ (codes "ck", codes "k")
    ∷ (codes "qu", codes "kw")
    ∷ []

abbrev apply_rules : List (List ℕ × List ℕ) → List ℕ → List ℕ
unfolding replace
apply_rules [] word = word
apply_rules (rule ∷ rules) word = apply_rules rules (replace rule word)

abbrev is_vowel : ℕ → Bool
is_vowel c = (c == b'a') || (c == b'e') || (c == b'i') || (c == b'o') || (c == b'u')

abbrev is_letter : ℕ → Bool
is_letter c = leb b'a' c && leb c b'z'

abbrev letters : List ℕ → List ℕ
letters [] = []
letters (c ∷ word) = let rest = letters word in if is_letter c then c ∷ rest else rest

-- Whether a word ends in an `e` after a consonant, and the word without it.
abbrev ends_silent : List ℕ → Bool
ends_silent [] = false
ends_silent (c ∷ []) = false
ends_silent (c ∷ d ∷ []) = (d == b'e') && not (is_vowel c)
ends_silent (c ∷ d ∷ e ∷ word) = ends_silent (d ∷ e ∷ word)

abbrev without_last : List ℕ → List ℕ
without_last [] = []
without_last (c ∷ []) = []
without_last (c ∷ d ∷ word) = c ∷ without_last (d ∷ word)

abbrev silenced : List ℕ → List ℕ
silenced word = if ltb 3 (length word) && ends_silent word then without_last word else word

abbrev or_here : Option (List ℕ) → ℕ → List ℕ → Option (List ℕ)
or_here (some end) c word = some end
or_here none c word = if is_vowel c then some (c ∷ word) else none

-- A word from its last vowel on.
unfoldable pub last_vowel : List ℕ → Option (List ℕ)
last_vowel [] = none
last_vowel (c ∷ word) = or_here (last_vowel word) c word

abbrev ending : List ℕ → List ℕ
ending word = or_default (last_vowel word) (drop (length word - 2) word)

unfoldable pub rhyme_key : List ℕ → List ℕ
unfolding last_vowel replace
rhyme_key word =
    let cleaned = letters (lower_line word) in
    if is_empty cleaned then [] else ending (apply_rules sound_rules (silenced cleaned))

abbrev in_word : ℕ → Bool
in_word c = (leb b'a' c && leb c b'z') || (leb b'A' c && leb c b'Z') || (c == b'\'') || (c == 8217)

-- The last of `re.findall`: the word being read and the last one before it.
unfoldable pub final_from : List ℕ → List ℕ → List ℕ → List ℕ
final_from [] current last = if is_empty current then last else current
final_from (c ∷ line) current last =
    let longer = final_from line (current ++ (c ∷ [])) last in
    let ended = final_from line [] (if is_empty current then last else current) in
    if in_word c then longer else ended

abbrev final_word : List ℕ → List ℕ
final_word line = final_from line [] []

unfoldable pub lines_rhyme : List ℕ → List ℕ → Bool
unfolding rhyme_key final_from
lines_rhyme first second =
    let left = rhyme_key (final_word first) in
    let right = rhyme_key (final_word second) in
    if is_empty left || is_empty right
    then false
    else if same_codes (lower_line (final_word first)) (lower_line (final_word second))
    then false
    else same_codes left right
