-- ===== src/Database/Rows.antt =====
-- How lookups see the writes of rows.
use zolexai.Prelude.{
  ℕ, ◌≡◌, ◌≤◌, refl, Bool, true, false, none, some, List, [], ◌∷◌, ◌++◌, arith, ◌==◌, if◌then◌else◌,
  Option-cases, All-weaken, All, Bool-cases, inl, inr,
}
use mathlib.Core.Path.{subst}
use zolexai.Job.{Job}
use zolexai.Database.{find_job, put_job, update_where, oldest}

pub id-find_job : (id : ℕ) (jobs : List Job) {j : Job} → find_job id jobs ≡ some j → j.id ≡ id
unfolding find_job
id-find_job id [] h = ground arith
id-find_job id (k ∷ ks) {j} h = ground (arith, id-find_job id ks {j = j})

pub find_job-put_job :
    (row : Job) (id : ℕ) (jobs : List Job) {old : Job}
    → find_job row.id jobs ≡ some old
    → find_job id (put_job row jobs) ≡ (if row.id == id then some row else find_job id jobs)
unfolding find_job put_job
find_job-put_job row id [] h = ground arith
find_job-put_job row id (k ∷ ks) {old} h = ground (arith, find_job-put_job row id ks {old = old})

pub find_job-append :
    (row : Job) (id : ℕ) (jobs : List Job)
    → find_job row.id jobs ≡ none
    → find_job id (jobs ++ row ∷ []) ≡ (if row.id == id then some row else find_job id jobs)
unfolding find_job
find_job-append row id [] h = refl
find_job-append row id (k ∷ ks) h = ground (arith, find_job-append row id ks)

pub put_job-append :
    (row new : Job) (jobs : List Job)
    → new.id ≡ row.id
    → find_job row.id jobs ≡ none
    → put_job new (jobs ++ row ∷ []) ≡ jobs ++ new ∷ []
unfolding find_job put_job
put_job-append row new [] same h = ground arith
put_job-append row new (k ∷ ks) same h = ground (arith, put_job-append row new ks same)

pub find_job-update_where :
    (test : Job → Bool) (f : Job → Job)
    → ((j : Job) → (f j).id ≡ j.id)
    → (id : ℕ) (jobs : List Job)
    → find_job id (update_where test f jobs)
      ≡ elim (find_job id jobs) [ none ↦ none | some j ↦ some (if test j then f j else j) ]
unfolding find_job update_where
find_job-update_where test f same id [] = refl
find_job-update_where test f same id (k ∷ ks) =
    ground (arith, same k, find_job-update_where test f same id ks)

module _ (P : Job → Type 0) where
  pub All-find_job :
      (id : ℕ) (jobs : List Job) {j : Job} → All P jobs → find_job id jobs ≡ some j → P j
  unfolding find_job
  All-find_job id [] h e = cc
  All-find_job id (k ∷ ks) {j} h e = elim (Bool-cases (k.id == id)) [
    | inl t ↦ let found : k ≡ j = ground arith in subst P found h.0
    | inr f ↦ All-find_job id ks h.1 (rw f at e)
  ]

  pub All-put_job : (row : Job) (jobs : List Job) → P row → All P jobs → All P (put_job row jobs)
  unfolding put_job
  All-put_job row [] p h = tt
  All-put_job row (k ∷ ks) p h = elim (Bool-cases (k.id == row.id)) [
    | inl t ↦ rw t (p, h.1)
    | inr f ↦ rw f (h.0, All-put_job row ks p h.1)
  ]

  pub All-update_where :
      (test : Job → Bool) (f : Job → Job)
      → ((j : Job) → test j ≡ true → P j → P (f j))
      → (jobs : List Job) → All P jobs
      → All P (update_where test f jobs)
  unfolding update_where
  All-update_where test f step [] h = tt
  All-update_where test f step (k ∷ ks) h = elim (Bool-cases (test k)) [
    | inl t ↦ rw t (step k t h.0, All-update_where test f step ks h.1)
    | inr e ↦ rw e (h.0, All-update_where test f step ks h.1)
  ]

-- The primary key: no two rows have the same id.
abbrev pub KeysDistinct : List Job → Type 0
KeysDistinct [] = Unit
KeysDistinct (j ∷ js) = (find_job j.id js ≡ none) × KeysDistinct js

find_job-put_job-none :
    (row : Job) (id : ℕ) (jobs : List Job)
    → find_job id jobs ≡ none
    → find_job id (put_job row jobs) ≡ none
unfolding find_job put_job
find_job-put_job-none row id [] h = refl
find_job-put_job-none row id (k ∷ ks) h = ground (arith, find_job-put_job-none row id ks)

pub put_job-KeysDistinct :
    (row : Job) (jobs : List Job) → KeysDistinct jobs → KeysDistinct (put_job row jobs)
unfolding put_job
put_job-KeysDistinct row [] h = tt
put_job-KeysDistinct row (k ∷ ks) h =
    ground (arith, put_job-KeysDistinct row ks, find_job-put_job-none row k.id ks)

pub append-KeysDistinct :
    (row : Job) (jobs : List Job)
    → find_job row.id jobs ≡ none
    → KeysDistinct jobs
    → KeysDistinct (jobs ++ row ∷ [])
unfolding find_job
append-KeysDistinct row [] fresh h = (refl, tt)
append-KeysDistinct row (k ∷ ks) fresh h =
    ground (arith, append-KeysDistinct row ks, find_job-append row k.id ks)

pub update_where-KeysDistinct :
    (test : Job → Bool) (f : Job → Job)
    → ((j : Job) → (f j).id ≡ j.id)
    → (jobs : List Job) → KeysDistinct jobs
    → KeysDistinct (update_where test f jobs)
unfolding update_where
update_where-KeysDistinct test f same [] h = tt
update_where-KeysDistinct test f same (k ∷ ks) h = ground (
  arith,
  same k,
  update_where-KeysDistinct test f same ks h.1,
  find_job-update_where test f same k.id ks,
)

-- What a test of `oldest` asks is a fact about the row that it finds, and that row is in the table.
pub oldest-test :
    (test : Job → Bool) (jobs : List Job) {j : Job} → oldest test jobs ≡ some j → test j ≡ true
unfolding oldest
oldest-test test [] h = ground arith
oldest-test test (k ∷ ks) {j} h = elim (Option-cases (oldest test ks)) [
  | inl e ↦ ground arith
  | inr (m, e) ↦ ground (arith, oldest-test test ks e)
]

pub oldest-find_job :
    (test : Job → Bool) (jobs : List Job) {j : Job}
    → KeysDistinct jobs
    → oldest test jobs ≡ some j
    → find_job j.id jobs ≡ some j
unfolding oldest find_job
oldest-find_job test [] keys h = ground arith
oldest-find_job test (k ∷ ks) {j} keys h = elim (Option-cases (oldest test ks)) [
  | inl e ↦ ground arith
  | inr (m, e) ↦ ground (arith, oldest-find_job test ks keys.1 e)
]

pub oldest-none :
    (test : Job → Bool) (jobs : List Job) → oldest test jobs ≡ none → All (λ k. test k ≡ false) jobs
unfolding oldest
oldest-none test [] h = tt
oldest-none test (k ∷ ks) h = ground (arith, oldest-none test ks)

-- Nobody is passed over: every row that satisfies the test was created no earlier.
pub oldest-first :
    (test : Job → Bool) (jobs : List Job) {j : Job}
    → oldest test jobs ≡ some j
    → All (λ k. test k ≡ true → j.created_at ≤ k.created_at) jobs
unfolding oldest
oldest-first test [] h = tt
oldest-first test (k ∷ ks) {j} h = elim (Option-cases (oldest test ks)) [
  | inl e ↦ (
    λ t. ground arith,
    All-weaken (λ x fails passes. cc (fails, passes)) ks (oldest-none test ks e),
  )
  | inr (m, e) ↦
      let sooner : j.created_at ≤ m.created_at = ground arith in
      (
        λ t. ground arith,
        All-weaken (λ x first passes. omega (arith, sooner, first passes)) ks
            (oldest-first test ks e),
      )
]
