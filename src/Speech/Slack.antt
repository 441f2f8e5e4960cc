-- ===== src/Speech/Slack.antt =====
-- The product of the words with the float 1.15.
use zolexai.Prelude.{
  ℕ, zero, suc, ◌+◌, ◌*◌, ◌≤◌, ◌<◌, ◌≡◌, refl, Bool-cases, inl, inr, arith, ltb, ltb→lt,
}
use zolexai.Speech.{float_limit, float_unit, with_slack}

abbrev doubled : ℕ → ℕ → ℕ
doubled zero unit = unit
doubled (suc doublings) unit = doubled doublings (2 * unit)

float_unit-doubled :
    (doublings n unit : ℕ)
    → n < float_limit * doubled doublings unit
    → n < float_limit * float_unit doublings n unit
unfolding float_unit
float_unit-doubled zero n unit h = h
float_unit-doubled (suc doublings) n unit h = elim (Bool-cases (ltb n (float_limit * unit))) [
  | inl fits ↦ rw (fits, float_unit) (ltb→lt n (float_limit * unit) fits)
  | inr large ↦ rw (large, float_unit) (float_unit-doubled doublings n (2 * unit) h)
]

le-doubled : (doublings unit : ℕ) → 1 ≤ unit → doublings + unit ≤ doubled doublings unit
le-doubled zero unit h = omega arith
le-doubled (suc doublings) unit h =
    let rest = le-doubled doublings (2 * unit) (omega (arith, h)) in omega (arith, rest, h)

-- As many doublings as there are words are enough for their product to have at most 53 bits.
float_unit-enough :
    (words : ℕ)
    → words * 5179139571476070 < float_limit * float_unit words (words * 5179139571476070) 1
float_unit-enough words =
    let enough = le-doubled words 1 (omega arith) in
    float_unit-doubled words (words * 5179139571476070) 1 (omega (arith, enough))

-- The product of 100 and the float 1.15 is less than 115.
rounded : (with_slack 20 ≡ 23) × (with_slack 100 ≡ 114)
unfolding with_slack
rounded = (refl, refl)
