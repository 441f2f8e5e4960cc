-- ===== src/Writers/Choice.antt =====
-- Which writer of a chain is used.
use mathlib.Core.Path.{subst}
use zolexai.Prelude.{
  ◌⊎◌, inl, inr, ℕ, zero, suc, ◌≡◌, refl, sym, ap, ◌∙◌, true, false, not, Bool-cases, List, [], ◌∷◌,
  if_true, if_false,
}
use zolexai.Lyrics.{is_empty, strip_text}
use zolexai.Writers.{
  Written, wrote, write_failed, crashed, Writer, can_write, language_of, Problem, unavailable,
  wrong_language, failed, empty_sheet, Chain, used, none_available, raised, after_problem,
  on_written, write_with, write,
}

-- A writer that may be asked for a language.
abbrev pub Asked : List ℕ → Writer → Type 0
Asked language w = (w.available ≡ true) × (can_write w language ≡ true)

-- A writer that gives no sheet: it is not asked, it fails, or its text is blank.
abbrev Blank : Written → Type 0
Blank (wrote text) = is_empty (strip_text text) ≡ true
Blank write_failed = Unit
Blank crashed = ⊥

abbrev pub GivesNothing : List ℕ → Writer → Type 0
GivesNothing language w =
    (w.available ≡ false) ⊎ ((can_write w language ≡ false) ⊎ Blank (w.write language))

-- What the outcome of a chain says of its writers, in their order.
abbrev pub Chosen : List ℕ → List Writer → Chain → Type 0
Chosen language [] (used position text) = ⊥
Chosen language [] (none_available problems) = problems ≡ []
Chosen language [] raised = ⊥
Chosen language (w ∷ writers) (used zero text) = ⊥
Chosen language (w ∷ writers) (used (suc zero) text) =
    Asked language w × (w.write language ≡ wrote text) × (is_empty (strip_text text) ≡ false)
Chosen language (w ∷ writers) (used (suc (suc n)) text) =
    GivesNothing language w × Chosen language writers (used (suc n) text)
Chosen language (w ∷ writers) (none_available []) = ⊥
Chosen language (w ∷ writers) (none_available (p ∷ problems)) =
    GivesNothing language w × Chosen language writers (none_available problems)
Chosen language (w ∷ writers) raised =
    (Asked language w × (w.write language ≡ crashed))
    ⊎ (GivesNothing language w × Chosen language writers raised)

no_position :
    (language : List ℕ) (writers : List Writer) (text : List (List ℕ))
    → Chosen language writers (used 0 text)
    → ⊥
no_position language [] text h = h
no_position language (w ∷ writers) text h = h

passed_over :
    (language : List ℕ) (w : Writer) (writers : List Writer) (p : Problem) (c : Chain)
    → GivesNothing language w
    → Chosen language writers c
    → Chosen language (w ∷ writers) (after_problem p c)
passed_over language w writers p (used zero text) nothing h =
    absurd (no_position language writers text h)
passed_over language w writers p (used (suc n) text) nothing h = (nothing, h)
passed_over language w writers p (none_available problems) nothing h = (nothing, h)
passed_over language w writers p raised nothing h = inr (nothing, h)

Written-cases :
    (r : Written)
    → ((text : List (List ℕ)) × (r ≡ wrote text)) ⊎ ((r ≡ write_failed) ⊎ (r ≡ crashed))
Written-cases (wrote text) = inl (text, refl)
Written-cases write_failed = inr (inl refl)
Written-cases crashed = inr (inr refl)

Asked-Chosen :
    (language : List ℕ) (w : Writer) (writers : List Writer) (rest : Chain)
    → Asked language w
    → Chosen language writers rest
    → Chosen language (w ∷ writers) (on_written (w.write language) rest)
Asked-Chosen language w writers rest asked h = elim (Written-cases (w.write language)) [
  | inl (text, e) ↦ elim (Bool-cases (is_empty (strip_text text))) [
    | inl blank ↦
        rw (e, blank)
          (passed_over language w writers empty_sheet rest (inr (inr (subst Blank (sym e) blank)))
            h)
    | inr full ↦ rw (e, full) (asked, e, full)
  ]
  | inr (inl e) ↦
      rw e (passed_over language w writers failed rest (inr (inr (subst Blank (sym e) tt))) h)
  | inr (inr e) ↦ rw e (inl (asked, e))
]

write_with-Chosen :
    (language : List ℕ) (writers : List Writer)
    → Chosen language writers (write_with language writers)
unfolding write_with
write_with-Chosen language [] = refl
write_with-Chosen language (w ∷ writers) =
    let rest = write_with language writers in
    let h = write_with-Chosen language writers in
    let P = Chosen language (w ∷ writers) in
    elim (Bool-cases w.available) [
      | inr away ↦
          subst P (sym (if_true (not w.available) _ _ (ap not away)))
            (passed_over language w writers unavailable rest (inl away) h)
      | inl here ↦ elim (Bool-cases (can_write w language)) [
        | inr other ↦
            subst P
              (sym (
                if_false (not w.available) _ _ (ap not here)
                ∙ if_true (not (can_write w language)) _ _ (ap not other)))
              (passed_over language w writers wrong_language rest (inr (inl other)) h)
        | inl claims ↦
            subst P
              (sym (
                if_false (not w.available) _ _ (ap not here)
                ∙ if_false (not (can_write w language)) _ _ (ap not claims)))
              (Asked-Chosen language w writers rest (here, claims) h)
      ]
    ]

-- The chain of lyric writers answers in one of three ways. It uses the text of the first writer
-- that is available, claims the language of the brief and writes a sheet that is not blank; or a
-- writer that may be asked raises an exception that it does not declare, and none before it gave a
-- sheet; or no writer at all gives one, and each has its problem. So no writer is asked for a
-- language that it does not claim.
pub write-Chosen :
    (brief : List ℕ) (writers : List Writer)
    → Chosen (language_of brief) writers (write brief writers)
unfolding write
write-Chosen brief writers = write_with-Chosen (language_of brief) writers
