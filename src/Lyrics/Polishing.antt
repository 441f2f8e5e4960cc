-- ===== src/Lyrics/Polishing.antt =====
-- What `polish_lyrics` leaves of a draft.
use mathlib.Core.Path.{subst}
use zolexai.Prelude.{
  inl, inr, ℕ, ◌≡◌, refl, sym, ap, ◌∙◌, Bool, true, false, ◌||◌, Bool-cases, Option, none, some,
  is_some, List, [], ◌∷◌, All, if◌then◌else◌, arith, if_true,
}
use zolexai.Lyrics.{
  is_empty, Part, parse_sections, render, is_chorus_tag, longer, canonical_chorus, kept_lines,
  chorus_or, polished_part, polished, polished_or, polish_lyrics,
}
use zolexai.Lyrics.Choruses.{
  IsChorus, has_chorus, kept_lines_twice, kept_lines-IsLine, is_empty-kept_lines,
  canonical-IsChorus,
}
use zolexai.Lyrics.Lines.{IsLine}
use zolexai.Lyrics.Parsing.{IsPart, IsSheet, flush-full, parse_sections-render}
use zolexai.Lyrics.Reading.{NamesItsTags, parse_sections-IsSheet}

abbrev chosen : Bool → Option (List (List ℕ)) → List (List ℕ) → List (List ℕ)
chosen chorus canonical lines = if chorus then chorus_or canonical lines else lines

chosen-IsChorus :
    (chorus : Bool) (canonical : Option (List (List ℕ))) (lines : List (List ℕ))
    → IsChorus canonical
    → is_empty lines ≡ false
    → All IsLine lines
    → (is_empty (chosen chorus canonical lines) ≡ false)
      × All IsLine (chosen chorus canonical lines)
chosen-IsChorus true none lines good full are = (full, are)
chosen-IsChorus true (some canonical) lines good full are = good
chosen-IsChorus false canonical lines good full are = (full, are)

polished_part-IsPart :
    (canonical : Option (List (List ℕ))) (p : Part)
    → IsChorus canonical
    → IsPart p
    → IsPart (polished_part canonical p)
unfolding polished_part
polished_part-IsPart canonical p good is =
    let kept =
      chosen-IsChorus (is_chorus_tag p.tag) canonical (kept_lines p.lines) good
        (is_empty-kept_lines p.lines ∙ is.full) (kept_lines-IsLine p.lines is.lines) in
    record { tag = is.tag; full = kept.0; lines = kept.1 }

chosen-kept :
    (chorus : Bool) (canonical : Option (List (List ℕ))) (lines : List (List ℕ))
    → chosen chorus canonical (kept_lines (chosen chorus canonical (kept_lines lines)))
      ≡ chosen chorus canonical (kept_lines lines)
chosen-kept true none lines = kept_lines_twice lines
chosen-kept true (some canonical) lines = refl
chosen-kept false canonical lines = kept_lines_twice lines

polished_part_twice :
    (canonical : Option (List (List ℕ))) (p : Part)
    → polished_part canonical (polished_part canonical p) ≡ polished_part canonical p
unfolding polished_part
polished_part_twice canonical p =
    ap (λ lines. record { tag = p.tag; lines = lines })
      (chosen-kept (is_chorus_tag p.tag) canonical p.lines)

module _ (canonical : Option (List (List ℕ))) (good : IsChorus canonical) where
  polished-cons :
      (p : Part) (parts : List Part)
      → IsPart p
      → polished canonical (p ∷ parts) ≡ polished_part canonical p ∷ polished canonical parts
  unfolding polished
  polished-cons p parts is =
      let part = polished_part canonical p in
      flush-full part.tag part.lines (polished canonical parts)
        (polished_part-IsPart canonical p good is).full

  polished-IsSheet : (parts : List Part) → IsSheet parts → IsSheet (polished canonical parts)
  unfolding polished
  polished-IsSheet [] are = tt
  polished-IsSheet (p ∷ parts) are =
      subst IsSheet (sym (polished-cons p parts are.0))
        (polished_part-IsPart canonical p good are.0, polished-IsSheet parts are.1)

  polished_twice :
      (parts : List Part)
      → IsSheet parts
      → polished canonical (polished canonical parts) ≡ polished canonical parts
  unfolding polished
  polished_twice [] are = refl
  polished_twice (p ∷ parts) are =
      ap (polished canonical) (polished-cons p parts are.0)
      ∙ polished-cons (polished_part canonical p) (polished canonical parts)
          (polished_part-IsPart canonical p good are.0)
      ∙ ap (λ x. x ∷ polished canonical (polished canonical parts))
          (polished_part_twice canonical p)
      ∙ ap (λ x. polished_part canonical p ∷ x) (polished_twice parts are.1)
      ∙ sym (polished-cons p parts are.0)

longer-same :
    (canonical : List (List ℕ)) (b : Bool)
    → longer canonical (if b then some canonical else none) ≡ some canonical
longer-same canonical true = ground arith
longer-same canonical false = refl

or_false : (a b : Bool) → (a || b) ≡ false → (a ≡ false) × (b ≡ false)
or_false true b e = cc e
or_false false b e = (refl, e)

-- The choruses of a sheet are one and the same.
abbrev pub Agrees : Option (List (List ℕ)) → List Part → Type 0
Agrees canonical parts = All (λ p. is_chorus_tag p.tag ≡ true → canonical ≡ some p.lines) parts

module _ (canonical : List (List ℕ)) (good : IsChorus (some canonical)) where
  polished-some-Agrees :
      (parts : List Part)
      → IsSheet parts
      → Agrees (some canonical) (polished (some canonical) parts)
  unfolding polished polished_part
  polished-some-Agrees [] are = tt
  polished-some-Agrees (p ∷ parts) are =
      subst (Agrees (some canonical)) (sym (polished-cons (some canonical) good p parts are.0)) (
        λ e. ap some (sym (if_true (is_chorus_tag p.tag) canonical _ e)),
        polished-some-Agrees parts are.1,
      )

  canonical_chorus-some :
      (parts : List Part)
      → IsSheet parts
      → canonical_chorus (polished (some canonical) parts)
        ≡ (if has_chorus parts then some canonical else none)
  unfolding polished canonical_chorus polished_part
  canonical_chorus-some [] are = refl
  canonical_chorus-some (p ∷ parts) are =
      ap canonical_chorus (polished-cons (some canonical) good p parts are.0)
      ∙ (elim (Bool-cases (is_chorus_tag p.tag)) [
        | inl e ↦
            rw (e, good.0, canonical_chorus-some parts are.1)
              (longer-same canonical (has_chorus parts))
        | inr e ↦ rw e (canonical_chorus-some parts are.1)
      ])

canonical_chorus-none :
    (parts : List Part)
    → IsSheet parts
    → has_chorus parts ≡ false
    → (canonical_chorus (polished none parts) ≡ none) × Agrees none (polished none parts)
unfolding polished canonical_chorus polished_part
canonical_chorus-none [] are e = (refl, tt)
canonical_chorus-none (p ∷ parts) are e =
    let without = or_false (is_chorus_tag p.tag) (has_chorus parts) e in
    let rest = canonical_chorus-none parts are.1 without.1 in
    subst (λ x. (canonical_chorus x ≡ none) × Agrees none x)
      (sym (polished-cons none tt p parts are.0))
      (rw without.0 rest.0, (λ h. cc (without.0, h), rest.1))

-- What is settled of a sheet that is polished by its own chorus.
abbrev Settled : Option (List (List ℕ)) → List Part → Type 0
Settled canonical parts = (canonical_chorus parts ≡ canonical) × Agrees canonical parts

polished-Settled :
    (parts : List Part) (canonical : Option (List (List ℕ)))
    → IsSheet parts
    → IsChorus canonical
    → is_some canonical ≡ has_chorus parts
    → Settled canonical (polished canonical parts)
polished-Settled parts none are good e = canonical_chorus-none parts are (sym e)
polished-Settled parts (some canonical) are good e = (
  canonical_chorus-some canonical good parts are
      ∙ ap (λ b. if b then some canonical else none) (sym e),
  polished-some-Agrees canonical good parts are,
)

is_empty-polished :
    (canonical : Option (List (List ℕ))) (parts : List Part)
    → IsChorus canonical
    → IsSheet parts
    → is_empty (polished canonical parts) ≡ is_empty parts
unfolding polished
is_empty-polished canonical [] good are = refl
is_empty-polished canonical (p ∷ parts) good are =
    ap is_empty (polished-cons canonical good p parts are.0)

polished_or-full :
    (text : List (List ℕ)) (parts : List Part)
    → is_empty parts ≡ false
    → polished_or text parts ≡ render (polished (canonical_chorus parts) parts)
polished_or-full text [] e = cc e
polished_or-full text (p ∷ parts) e = refl

-- Polishing a draft again changes nothing, and all the choruses of a polished draft, hooks, drops
-- and refrains included, have the same lines. The draft must have a line and no tag with nothing
-- but blanks between its brackets.
pub polish_lyrics-Settled :
    (text : List (List ℕ))
    → NamesItsTags text
    → is_empty (parse_sections text) ≡ false
    → (polish_lyrics true (polish_lyrics true text) ≡ polish_lyrics true text)
      × ((canonical : Option (List (List ℕ))) × Agrees canonical
            (parse_sections (polish_lyrics true text)))
unfolding polish_lyrics
polish_lyrics-Settled text named full =
    let parts = parse_sections text in
    let are = parse_sections-IsSheet text named in
    let canonical = canonical_chorus parts in
    let chorus = canonical-IsChorus parts are in
    let sheet = polished canonical parts in
    let first : polish_lyrics true text ≡ render sheet = polished_or-full text parts full in
    let read : parse_sections (polish_lyrics true text) ≡ sheet =
      ap parse_sections first
      ∙ parse_sections-render sheet (polished-IsSheet canonical chorus.0 parts are) in
    let settled = polished-Settled parts canonical are chorus.0 chorus.1 in
    (
      ap (polished_or (polish_lyrics true text)) read
          ∙ polished_or-full (polish_lyrics true text) sheet
              (is_empty-polished canonical parts chorus.0 are ∙ full)
          ∙ ap (λ x. render (polished x sheet)) settled.0
          ∙ ap render (polished_twice canonical chorus.0 parts are)
          ∙ sym first,
      (canonical, subst (Agrees canonical) (sym read) settled.1),
    )
