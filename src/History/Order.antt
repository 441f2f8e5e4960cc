-- ===== src/History/Order.antt =====
-- Sorting and filtering rows by their positions.
use zolexai.Prelude.{
  ℕ, ◌≡◌, ◌≢◌, refl, ap, Bool, true, false, none, List, [], ◌∷◌, arith, ==_iff, if◌then◌else◌,
  select, All, All-weaken, Bool-cases, inl, inr,
}
use zolexai.Job.{Job}
use zolexai.Database.{find_job}
use zolexai.Database.Rows.{KeysDistinct}
use zolexai.History.{Position, position_of, newer, insert_row, newest_first}

-- Each row is newer than every row after it.
abbrev pub Descending : List Job → Type 0
Descending [] = Unit
Descending (j ∷ js) = All (λ k. newer (position_of j) (position_of k) ≡ true) js × Descending js

newer_trans : (a b c : Position) → newer a b ≡ true → newer b c ≡ true → newer a c ≡ true
unfolding newer
newer_trans a b c h k = ground (
  arith,
  ==_iff b.created_at a.created_at,
  ==_iff c.created_at b.created_at,
  ==_iff c.created_at a.created_at,
)

newer_total : (a b : Position) → a.id ≢ b.id → newer a b ≡ false → newer b a ≡ true
unfolding newer
newer_total a b other h =
    ground (arith, ==_iff b.created_at a.created_at, ==_iff a.created_at b.created_at)

pub newer_asym : (a b : Position) → newer a b ≡ true → newer b a ≡ false
unfolding newer
newer_asym a b h =
    ground (arith, ==_iff b.created_at a.created_at, ==_iff a.created_at b.created_at)

pub newer_irrefl : (a : Position) → newer a a ≡ false
unfolding newer
newer_irrefl a = ground (arith, ==_iff a.created_at a.created_at)

module _ (P : Job → Type 0) where
  All-insert_row : (j : Job) (ks : List Job) → P j → All P ks → All P (insert_row j ks)
  unfolding insert_row
  All-insert_row j [] p h = (p, tt)
  All-insert_row j (k ∷ ks) p h = elim (Bool-cases (newer (position_of j) (position_of k))) [
    | inl t ↦ rw t (p, h)
    | inr t ↦ rw t (h.0, All-insert_row j ks p h.1)
  ]

  All-newest_first : (js : List Job) → All P js → All P (newest_first js)
  unfolding newest_first
  All-newest_first [] h = tt
  All-newest_first (j ∷ js) h = All-insert_row j (newest_first js) h.0 (All-newest_first js h.1)

  All-select : (q : Job → Bool) (js : List Job) → All P js → All P (select q js)
  All-select q [] h = tt
  All-select q (j ∷ js) h = elim (Bool-cases (q j)) [
    | inl t ↦ rw t (h.0, All-select q js h.1)
    | inr t ↦ rw t (All-select q js h.1)
  ]

find_job-none-All : (id : ℕ) (js : List Job) → find_job id js ≡ none → All (λ k. id ≢ k.id) js
unfolding find_job
find_job-none-All id [] h = tt
find_job-none-All id (k ∷ ks) h = ground (arith, find_job-none-All id ks, ==_iff k.id id)

insert_row-Descending :
    (j : Job) (ks : List Job)
    → All (λ k. j.id ≢ k.id) ks
    → Descending ks
    → Descending (insert_row j ks)
unfolding insert_row
insert_row-Descending j [] other h = (tt, tt)
insert_row-Descending j (k ∷ ks) other h =
    elim (Bool-cases (newer (position_of j) (position_of k))) [
      | inl t ↦ rw t (
        (
          t,
          All-weaken (λ x less. newer_trans (position_of j) (position_of k) (position_of x) t less)
              ks h.0,
        ),
        h,
      )
      | inr t ↦ rw t (
        All-insert_row (λ x. newer (position_of k) (position_of x) ≡ true) j ks
            (newer_total (position_of j) (position_of k) other.0 t) h.0,
        insert_row-Descending j ks other.1 h.1,
      )
    ]

pub newest_first-Descending : (js : List Job) → KeysDistinct js → Descending (newest_first js)
unfolding newest_first
newest_first-Descending [] keys = tt
newest_first-Descending (j ∷ js) keys =
    insert_row-Descending j (newest_first js)
      (All-newest_first (λ k. j.id ≢ k.id) js (find_job-none-All j.id js keys.0))
      (newest_first-Descending js keys.1)

insert_row-front :
    (j : Job) (ks : List Job)
    → All (λ k. newer (position_of j) (position_of k) ≡ true) ks
    → insert_row j ks ≡ j ∷ ks
unfolding insert_row
insert_row-front j [] h = refl
insert_row-front j (k ∷ ks) h = rw h.0 refl

select-insert_row :
    (q : Job → Bool) (j : Job) (ks : List Job)
    → Descending ks
    → select q (insert_row j ks) ≡ (if q j then insert_row j (select q ks) else select q ks)
unfolding insert_row
select-insert_row q j [] h = refl
select-insert_row q j (k ∷ ks) h = elim (Bool-cases (newer (position_of j) (position_of k))) [
  | inl t ↦
      let front = insert_row-front j (select q (k ∷ ks)) (
        All-select (λ x. newer (position_of j) (position_of x) ≡ true) q (k ∷ ks)
          (
            t,
            All-weaken
                (λ x less. newer_trans (position_of j) (position_of k) (position_of x) t less) ks
                h.0,
          )) in
      rw (t, front) refl
  | inr t ↦
      let rest = select-insert_row q j ks h.1 in
      elim (Bool-cases (q k)) [
        | inl u ↦ elim (Bool-cases (q j)) [
          | inl w ↦ rw (t, u, w, rest) (rw (w, t) refl)
          | inr w ↦ rw (t, u, w, rest) (rw w refl)
        ]
        | inr u ↦ rw (t, u, rest) refl
      ]
]

-- Sorting a filtered table is filtering the sorted one.
pub newest_first-select :
    (q : Job → Bool) (js : List Job)
    → KeysDistinct js
    → newest_first (select q js) ≡ select q (newest_first js)
unfolding newest_first
newest_first-select q [] keys = refl
newest_first-select q (j ∷ js) keys = elim (Bool-cases (q j)) [
  | inl t ↦
      rw (t, select-insert_row q j (newest_first js) (newest_first-Descending js keys.1), t)
        (ap (insert_row j) (newest_first-select q js keys.1))
  | inr t ↦
      rw (t, select-insert_row q j (newest_first js) (newest_first-Descending js keys.1), t)
        (newest_first-select q js keys.1)
]

pub select-Descending : (q : Job → Bool) (js : List Job) → Descending js → Descending (select q js)
select-Descending q [] h = tt
select-Descending q (j ∷ js) h = elim (Bool-cases (q j)) [
  | inl t ↦ rw t (
    All-select (λ k. newer (position_of j) (position_of k) ≡ true) q js h.0,
    select-Descending q js h.1,
  )
  | inr t ↦ rw t (select-Descending q js h.1)
]
