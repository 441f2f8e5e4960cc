-- ===== src/Storage/Names.antt =====
-- What a sanitized file name can contain.
use Prim.Native.Char.{code}
use zolexai.Prelude.{
  ℕ, zero, suc, String, ◌≤◌, ◌≡◌, refl, Bool, true, false, ◌&&◌, arith, ◌≈◌, ≈_iff, Bool-cases, inl,
  inr, or_text, every,
}
use zolexai.Text.{codes, text_length, take_text, strip}
use zolexai.Storage.{
  is_safe, is_mark, sanitize_filename, collapse, lstrip_marks, rstrip_marks, replace_dots,
}

-- Every character is a letter, a digit, a dot, an underscore or a dash.
abbrev pub all_safe : String → Bool
all_safe s = every is_safe (codes s)

collapse-safe : (in_run : Bool) (s : String) → all_safe (collapse in_run s) ≡ true
unfolding collapse is_safe
collapse-safe in_run String.[] = refl
collapse-safe in_run (String.◌∷◌ c s) = ground (arith, collapse-safe true s, collapse-safe false s)

lstrip_marks-safe : (s : String) → all_safe s ≡ true → all_safe (lstrip_marks s) ≡ true
unfolding lstrip_marks
lstrip_marks-safe String.[] h = refl
lstrip_marks-safe (String.◌∷◌ c s) h = ground (arith, lstrip_marks-safe s)

rstrip_marks-safe : (s : String) → all_safe s ≡ true → all_safe (rstrip_marks s) ≡ true
unfolding rstrip_marks
rstrip_marks-safe String.[] h = refl
rstrip_marks-safe (String.◌∷◌ c s) h =
    let tail : all_safe (rstrip_marks s) ≡ true = rstrip_marks-safe s (ground arith) in
    elim (Bool-cases (is_mark (code c) && (rstrip_marks s ≈ ""))) [
      | inl t ↦ rw t refl
      | inr t ↦ rw t (ground (arith, tail))
    ]

take_text-safe : (n : ℕ) (s : String) → all_safe s ≡ true → all_safe (take_text n s) ≡ true
unfolding take_text
take_text-safe zero s h = refl
take_text-safe (suc n) String.[] h = refl
take_text-safe (suc n) (String.◌∷◌ c s) h = ground (arith, take_text-safe n s)

take_text-length : (n : ℕ) (s : String) → text_length (take_text n s) ≤ n
unfolding take_text
take_text-length zero s = omega arith
take_text-length (suc n) String.[] = omega arith
take_text-length (suc n) (String.◌∷◌ c s) = omega (arith, take_text-length n s)

take_text-nonempty :
    (n : ℕ) (s : String) → 1 ≤ n → (s ≈ "") ≡ false → 1 ≤ text_length (take_text n s)
unfolding take_text
take_text-nonempty zero s h e = omega (arith, h)
take_text-nonempty (suc n) String.[] h e = ground (arith, ≈_iff "" "")
take_text-nonempty (suc n) (String.◌∷◌ c s) h e = omega arith

or_text-safe : (s : String) → all_safe s ≡ true → all_safe (or_text s "file") ≡ true
unfolding is_safe
or_text-safe s h = elim (Bool-cases (s ≈ "")) [ inl t ↦ rw t refl | inr t ↦ rw t h ]

or_text-nonempty : (s : String) → (or_text s "file" ≈ "") ≡ false
or_text-nonempty s = elim (Bool-cases (s ≈ "")) [ inl t ↦ rw t refl | inr t ↦ rw t t ]

-- Whatever a user calls a file, the name that goes into its storage key has between 1 and 120
-- characters, each a letter, a digit, a dot, an underscore or a dash, so no path separator.
pub sanitize_filename-safe :
    (name : String)
    → (all_safe (sanitize_filename name) ≡ true)
      × (1 ≤ text_length (sanitize_filename name))
      × (text_length (sanitize_filename name) ≤ 120)
unfolding sanitize_filename
sanitize_filename-safe name =
    let cleaned = collapse false (replace_dots (strip name)) in
    let stem = rstrip_marks (lstrip_marks cleaned) in
    (
      take_text-safe 120 (or_text stem "file") (
          or_text-safe stem (
            rstrip_marks-safe (lstrip_marks cleaned)
              (lstrip_marks-safe cleaned (collapse-safe false (replace_dots (strip name)))))),
      take_text-nonempty 120 (or_text stem "file") (omega arith) (or_text-nonempty stem),
      take_text-length 120 (or_text stem "file"),
    )
