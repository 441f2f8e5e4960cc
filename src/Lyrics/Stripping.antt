-- ===== src/Lyrics/Stripping.antt =====
-- What `strip` and `lower` leave of a line.
use mathlib.Core.Path.{subst}
use zolexai.Prelude.{
  inl, inr, ℕ, ◌≡◌, refl, sym, ap, ◌∙◌, Bool, true, false, ◌&&◌, Bool-cases, List, [], ◌∷◌, All,
  if◌then◌else◌, arith, if_false,
}
use zolexai.Text.{is_space, lower_code}
use zolexai.Lyrics.{is_empty, lower_line, strip_left, strip_right, strip_line}
use zolexai.Lyrics.Lines.{IsOpen, before}

-- A character that is no blank is kept in front of anything.
before-solid : (c : ℕ) (rest : List ℕ) → is_space c ≡ false → before c rest ≡ c ∷ rest
before-solid c rest e = rw e refl

lower_line-if :
    (b : Bool) (c : ℕ) (line : List ℕ)
    → (if b then [] else lower_code c ∷ lower_line line) ≡ lower_line (if b then [] else c ∷ line)
lower_line-if true c line = refl
lower_line-if false c line = refl

pub strip_right_twice : (line : List ℕ) → strip_right (strip_right line) ≡ strip_right line
unfolding strip_right
strip_right_twice [] = refl
strip_right_twice (c ∷ line) = elim (Bool-cases (is_space c && is_empty (strip_right line))) [
  | inl dropped ↦ rw dropped refl
  | inr kept ↦ rw kept (
      ap (before c) (strip_right_twice line)
      ∙ if_false (is_space c && is_empty (strip_right line)) _ _ kept)
]

strip_left-strip_right :
    (line : List ℕ) → strip_left (strip_right (strip_left line)) ≡ strip_right (strip_left line)
unfolding strip_left strip_right
strip_left-strip_right [] = refl
strip_left-strip_right (c ∷ line) = elim (Bool-cases (is_space c)) [
  | inl blank ↦ rw blank (strip_left-strip_right line)
  | inr full ↦
      let first : strip_left (c ∷ line) ≡ c ∷ line = if_false (is_space c) _ _ full in
      let kept : strip_right (c ∷ line) ≡ c ∷ strip_right line =
        before-solid c (strip_right line) full in
      subst (λ x. strip_left (strip_right x) ≡ strip_right x) (sym first)
        (subst (λ x. strip_left x ≡ x) (sym kept) (if_false (is_space c) _ _ full))
]

pub strip_line_twice : (line : List ℕ) → strip_line (strip_line line) ≡ strip_line line
unfolding strip_line
strip_line_twice line =
    ap strip_right (strip_left-strip_right line) ∙ strip_right_twice (strip_left line)

pub lower_code_twice : (c : ℕ) → lower_code (lower_code c) ≡ lower_code c
unfolding lower_code
lower_code_twice c = ground arith

is_space-lower_code : (c : ℕ) → is_space (lower_code c) ≡ is_space c
unfolding is_space lower_code
is_space-lower_code c = ground arith

lower_code-IsOpen : (c : ℕ) → IsOpen c → IsOpen (lower_code c)
unfolding lower_code
lower_code-IsOpen c free = ground arith

pub lower_line_twice : (line : List ℕ) → lower_line (lower_line line) ≡ lower_line line
lower_line_twice [] = refl
lower_line_twice (c ∷ line) = rw (lower_code_twice c, lower_line_twice line) refl

pub lower_line-IsOpen : (line : List ℕ) → All IsOpen line → All IsOpen (lower_line line)
lower_line-IsOpen [] free = tt
lower_line-IsOpen (c ∷ line) free = (lower_code-IsOpen c free.0, lower_line-IsOpen line free.1)

is_empty-lower_line : (line : List ℕ) → is_empty (lower_line line) ≡ is_empty line
is_empty-lower_line [] = refl
is_empty-lower_line (c ∷ line) = refl

strip_right-lower_line :
    (line : List ℕ) → strip_right (lower_line line) ≡ lower_line (strip_right line)
unfolding strip_right
strip_right-lower_line [] = refl
strip_right-lower_line (c ∷ line) =
    rw (strip_right-lower_line line, is_space-lower_code c, is_empty-lower_line (strip_right line))
      (lower_line-if (is_space c && is_empty (strip_right line)) c (strip_right line))

strip_left-lower_line :
    (line : List ℕ) → strip_left (lower_line line) ≡ lower_line (strip_left line)
unfolding strip_left
strip_left-lower_line [] = refl
strip_left-lower_line (c ∷ line) = elim (Bool-cases (is_space c)) [
  | inl blank ↦ rw (is_space-lower_code c, blank) (strip_left-lower_line line)
  | inr full ↦ rw (is_space-lower_code c, full) refl
]

pub strip_line-lower_line :
    (line : List ℕ) → strip_line (lower_line line) ≡ lower_line (strip_line line)
unfolding strip_line
strip_line-lower_line line =
    ap strip_right (strip_left-lower_line line) ∙ strip_right-lower_line (strip_left line)

strip_right-IsOpen : (line : List ℕ) → All IsOpen line → All IsOpen (strip_right line)
unfolding strip_right
strip_right-IsOpen [] free = tt
strip_right-IsOpen (c ∷ line) free = elim (Bool-cases (is_space c && is_empty (strip_right line))) [
  | inl dropped ↦ rw dropped tt
  | inr kept ↦ rw kept (free.0, strip_right-IsOpen line free.1)
]

strip_left-IsOpen : (line : List ℕ) → All IsOpen line → All IsOpen (strip_left line)
unfolding strip_left
strip_left-IsOpen [] free = tt
strip_left-IsOpen (c ∷ line) free = elim (Bool-cases (is_space c)) [
  | inl blank ↦ rw blank (strip_left-IsOpen line free.1)
  | inr full ↦ rw full free
]

pub strip_line-IsOpen : (line : List ℕ) → All IsOpen line → All IsOpen (strip_line line)
unfolding strip_line
strip_line-IsOpen line free = strip_right-IsOpen (strip_left line) (strip_left-IsOpen line free)
