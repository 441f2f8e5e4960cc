-- ===== src/Text.antt =====
-- The text methods of Python that the program calls, for texts whose letters, digits and blanks
-- are ASCII: `strip`, `lower`, `in`, `len`, `endswith` of one character, `isdigit` and `int`.
use Prim.Native.Char.{code}
use zolexai.Prelude.{
  ℕ, zero, suc, ◌+◌, ◌*◌, ◌-◌, String, Bool, true, false, ◌&&◌, ◌||◌, Option, none, some, List, [],
  ◌∷◌, map, ◌==◌, ◌≈◌, leb, if◌then◌else◌, length, every,
}
use mathlib.Core.List.{reverse}

abbrev pub codes : String → List ℕ
codes String.[] = []
codes (String.◌∷◌ c s) = code c ∷ codes s

-- `len`
abbrev pub text_length : String → ℕ
text_length s = length (codes s)

unfoldable pub is_space : ℕ → Bool
is_space c = (c == 32) || (leb 9 c && leb c 13) || (leb 28 c && leb c 31)

unfoldable pub lstrip : String → String
unfolding is_space
lstrip String.[] = ""
lstrip (String.◌∷◌ c s) = if is_space (code c) then lstrip s else String.◌∷◌ c s

unfoldable pub rstrip : String → String
unfolding is_space
rstrip String.[] = ""
rstrip (String.◌∷◌ c s) =
    let rest = rstrip s in if is_space (code c) && (rest ≈ "") then "" else String.◌∷◌ c rest

unfoldable pub strip : String → String
unfolding lstrip rstrip
strip s = rstrip (lstrip s)

unfoldable pub lower_code : ℕ → ℕ
lower_code c = if leb b'A' c && leb c b'Z' then c + 32 else c

-- The codes of `s.lower()`.
unfoldable pub lower : String → List ℕ
unfolding lower_code
lower s = map lower_code (codes s)

unfoldable pub begins_with : List ℕ → List ℕ → Bool
begins_with [] s = true
begins_with (c ∷ p) [] = false
begins_with (c ∷ p) (d ∷ s) = (c == d) && begins_with p s

-- `p in s`
unfoldable pub contains : List ℕ → List ℕ → Bool
unfolding begins_with
contains p [] = begins_with p []
contains p (d ∷ s) = begins_with p (d ∷ s) || contains p s

-- A text without its last character, if that is `suffix`.
abbrev keep : ℕ → Option (List ℕ) → Option (List ℕ)
keep c none = none
keep c (some body) = some (c ∷ body)

unfoldable pub without_suffix : ℕ → List ℕ → Option (List ℕ)
without_suffix suffix [] = none
without_suffix suffix (c ∷ []) = if c == suffix then some [] else none
without_suffix suffix (c ∷ d ∷ s) = keep c (without_suffix suffix (d ∷ s))

unfoldable pub is_digit : ℕ → Bool
is_digit c = leb b'0' c && leb c b'9'

abbrev is_nonempty : List ℕ → Bool
is_nonempty [] = false
is_nonempty (c ∷ s) = true

-- `isdigit`
unfoldable pub all_digits : List ℕ → Bool
unfolding is_digit
all_digits s = is_nonempty s && every is_digit s

-- `int` on a text of digits, from the value of the digits before it.
unfoldable pub digits_value : ℕ → List ℕ → ℕ
digits_value n [] = n
digits_value n (c ∷ s) = digits_value (n * 10 + (c - 48)) s

unfoldable pub same_codes : List ℕ → List ℕ → Bool
same_codes [] [] = true
same_codes [] (d ∷ t) = false
same_codes (c ∷ s) [] = false
same_codes (c ∷ s) (d ∷ t) = (c == d) && same_codes s t

-- `s[:n]`
unfoldable pub take_text : ℕ → String → String
take_text zero s = ""
take_text (suc n) String.[] = ""
take_text (suc n) (String.◌∷◌ c s) = String.◌∷◌ c (take_text n s)

unfoldable pub ends_with : List ℕ → List ℕ → Bool
unfolding begins_with
ends_with p s = begins_with (reverse p) (reverse s)
