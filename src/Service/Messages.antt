-- ===== src/Service/Messages.antt =====
-- `_safe_failure_message`: what of a worker's text a customer may read.
use zolexai.Prelude.{
  ℕ, ◌≤◌, ◌<◌, String, Bool, true, false, ◌||◌, List, [], ◌∷◌, ◌≡◌, ◌≢◌, ◌⊎◌, inl, inr, refl, arith,
  any, ltb, if◌then◌else◌, ◌≈◌, map, ≈_iff,
}
use zolexai.Text.{codes, text_length, strip, lower, contains}

abbrev pub generic_failure : String
generic_failure = "This generation could not be completed. Please try again."

abbrev leak_markers : List String
leak_markers =
    "traceback" ∷ "exception" ∷ "  file " ∷ ".py" ∷ "cuda" ∷ "torch" ∷ "errno" ∷ "0x" ∷ "\n" ∷ []

-- Whether some marker occurs in the text, in any case of its letters.
unfoldable pub leaks : String → Bool
unfolding lower contains
leaks text = any (λ marker. contains (codes marker) (lower text)) leak_markers

unfoldable pub safe_failure_message : String → String
safe_failure_message candidate =
    let text = strip candidate in
    if text ≈ ""
    then generic_failure
    else if leaks text || ltb 300 (text_length text)
    then generic_failure
    else text

generic_clean : leaks generic_failure ≡ false
unfolding leaks
generic_clean = refl

safe_failure_message-cases :
    (candidate : String)
    → (safe_failure_message candidate ≡ generic_failure)
      ⊎ ((safe_failure_message candidate ≡ strip candidate)
          × (leaks (strip candidate) ≡ false)
          × (text_length (strip candidate) ≤ 300)
          × (strip candidate ≢ ""))
unfolding safe_failure_message
safe_failure_message-cases candidate = ground (arith, ≈_iff (strip candidate) "")

generic_nonempty : generic_failure ≢ ""
generic_nonempty = ground (arith, ≈_iff generic_failure "")

-- Whatever a worker sends, what is stored is not empty, has at most 300 characters, and contains
-- none of the markers of worker internals; it is the worker's text without its outer blanks, or
-- the generic message.
pub safe_failure_message_clean :
    (candidate : String)
    → (leaks (safe_failure_message candidate) ≡ false)
      × (text_length (safe_failure_message candidate) ≤ 300)
      × (safe_failure_message candidate ≢ "")
      × (zolexai.Prelude.◌⊎◌
          (safe_failure_message candidate ≡ strip candidate)
          (safe_failure_message candidate ≡ generic_failure))
safe_failure_message_clean candidate = elim (safe_failure_message-cases candidate) [
  | inl generic ↦ rw generic (generic_clean, omega arith, generic_nonempty, inr refl)
  | inr (own, clean, short, nonempty) ↦ rw own (clean, short, nonempty, inl refl)
]
