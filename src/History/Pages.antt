-- ===== src/History/Pages.antt =====
-- Following the cursors from the first page on yields the whole history.
use mathlib.Core.List.{append_assoc, append-nil}
use native.Mathlib.Numerals.{add-one}
use mathlib.Core.Path.{subst}
use zolexai.Prelude.{
  ℕ, zero, suc, ◌+◌, ◌-◌, ◌≤◌, ◌<◌, ◌≡◌, refl, sym, ap, ◌∙◌, Bool, true, false, ◌&&◌, Option, none,
  some, List, [], ◌∷◌, ◌++◌, arith, ltb, select, take, take-all, drop, length, length-take,
  length-drop, All, Bool-cases, inl, inr,
}
use zolexai.Job.{Job}
use zolexai.Database.Rows.{KeysDistinct}
use zolexai.History.{
  Position, position_of, newer, newest_first, Filter, matches, after_position, last_position,
  page_of, list_for_user,
}
use zolexai.History.Order.{
  Descending, newer_asym, newer_irrefl, newest_first-Descending, newest_first-select,
  select-Descending,
}

-- Every item of the pages from a position on, at most as many pages as the first argument says.
unfoldable pub walk : ℕ → List Job → Filter → ℕ → Option Position → List Job
unfolding list_for_user
walk zero jobs f limit position = []
walk (suc pages) jobs f limit position =
    let page = list_for_user jobs f limit position in
    page.items ++ elim page.next [ none ↦ [] | some p ↦ walk pages jobs f limit (some p) ]

-- The rows after the position of the last one of a descending list's beginning are the rest.
select-All : (q : Job → Bool) (js : List Job) → All (λ j. q j ≡ true) js → select q js ≡ js
select-All q [] h = refl
select-All q (j ∷ js) h = rw h.0 (ap (λ r. j ∷ r) (select-All q js h.1))

newer_than_last :
    (j : Job) (items rest : List Job) (p : Position)
    → last_position items ≡ some p
    → All (λ k. newer (position_of j) (position_of k) ≡ true) (items ++ rest)
    → newer (position_of j) p ≡ true
unfolding last_position
newer_than_last j [] rest p e h = cc e
newer_than_last j (k ∷ []) rest p e h = subst (λ x. newer (position_of j) x ≡ true) (cc e) h.0
newer_than_last j (k ∷ l ∷ ks) rest p e h = newer_than_last j (l ∷ ks) rest p e h.1

after_last :
    (items rest : List Job) (p : Position)
    → last_position items ≡ some p
    → Descending (items ++ rest)
    → select (after_position (some p)) (items ++ rest) ≡ rest
unfolding last_position after_position
after_last [] rest p e h = cc e
after_last (j ∷ []) rest p e h =
    let same : position_of j ≡ p = cc e in
    subst (λ x. select (λ k. newer x (position_of k)) (j ∷ rest) ≡ rest) same
      (rw (newer_irrefl (position_of j))
        (select-All (λ k. newer (position_of j) (position_of k)) rest h.0))
after_last (j ∷ k ∷ ks) rest p e h =
    let older : newer p (position_of j) ≡ false =
      newer_asym (position_of j) p (newer_than_last j (k ∷ ks) rest p e h.0) in
    rw older (after_last (k ∷ ks) rest p e h.1)

last_position-append :
    (before items : List Job) (p : Position)
    → last_position items ≡ some p
    → last_position (before ++ items) ≡ some p
unfolding last_position
last_position-append [] items p e = e
last_position-append (j ∷ []) [] p e = cc e
last_position-append (j ∷ []) (k ∷ ks) p e = e
last_position-append (j ∷ l ∷ ls) items p e = last_position-append (l ∷ ls) items p e

last_position-some : (j : Job) (js : List Job) → (p : Position) × (last_position (j ∷ js) ≡ some p)
unfolding last_position
last_position-some j [] = (position_of j, refl)
last_position-some j (k ∷ ks) = last_position-some k ks

take-take : (n : ℕ) (js : List Job) → take n (take (suc n) js) ≡ take n js
take-take zero js = refl
take-take (suc n) [] = refl
take-take (suc n) (j ∷ js) = ap (λ r. j ∷ r) (take-take n js)

take-drop : (n : ℕ) (js : List Job) → take n js ++ drop n js ≡ js
take-drop zero js = refl
take-drop (suc n) [] = refl
take-drop (suc n) (j ∷ js) = ap (λ r. j ∷ r) (take-drop n js)

select-both :
    (p q : Job → Bool) (js : List Job) → select (λ j. p j && q j) js ≡ select q (select p js)
select-both p q [] = refl
select-both p q (j ∷ js) = ground (arith, select-both p q js)

All-after_position : (js : List Job) → All (λ j. after_position none j ≡ true) js
unfolding after_position
All-after_position [] = tt
All-after_position (j ∷ js) = (refl, All-after_position js)

-- A page of `limit` rows out of the rows that are left.
module _ (limit : ℕ) (rest : List Job) where
  page_items : take limit (take (limit + 1) rest) ≡ take limit rest
  page_items = rw add-one (take-take limit rest)

  page_more : ltb limit (length (take (limit + 1) rest)) ≡ ltb limit (length rest)
  page_more = ground (arith, length-take (limit + 1) rest)

module _ (jobs : List Job) (f : Filter) (limit : ℕ) (keys : KeysDistinct jobs)
    (some_item : 1 ≤ limit) where
  abbrev pub history : List Job
  history = newest_first (select (matches f) jobs)

  rows_after :
      (position : Option Position)
      → newest_first (select (λ j. matches f j && after_position position j) jobs)
        ≡ select (after_position position) history
  rows_after position =
      newest_first-select (λ j. matches f j && after_position position j) jobs keys
      ∙ select-both (matches f) (after_position position) (newest_first jobs)
      ∙ ap (select (after_position position)) (sym (newest_first-select (matches f) jobs keys))

  history-Descending : Descending history
  history-Descending =
      subst Descending (sym (newest_first-select (matches f) jobs keys))
        (select-Descending (matches f) (newest_first jobs) (newest_first-Descending jobs keys))

  first_some :
      (rest : List Job)
      → limit < length rest
      → (p : Position) × (last_position (take limit rest) ≡ some p)
  first_some [] more = absurd (omega (arith, more))
  first_some (j ∷ js) more =
      let one : suc (limit - 1) ≡ limit = omega (arith, some_item) in
      subst (λ n. (p : Position) × (last_position (take n (j ∷ js)) ≡ some p)) one
        (last_position-some j (take (limit - 1) js))

  next_split :
      (before rest : List Job)
      → history ≡ before ++ rest
      → history ≡ before ++ take limit rest ++ drop limit rest
  next_split before rest split =
      split
      ∙ ap (λ r. before ++ r) (sym (take-drop limit rest))
      ∙ sym (append_assoc before (take limit rest) (drop limit rest))

  next_here :
      (before rest : List Job) (p : Position)
      → history ≡ before ++ rest
      → last_position (take limit rest) ≡ some p
      → select (after_position (some p)) history ≡ drop limit rest
  next_here before rest p split last =
      let parts = next_split before rest split in
      ap (select (after_position (some p))) parts
      ∙ after_last (before ++ take limit rest) (drop limit rest) p
          (last_position-append before (take limit rest) p last)
          (subst Descending parts history-Descending)

  walk_rest :
      (pages : ℕ) (before rest : List Job) (position : Option Position)
      → history ≡ before ++ rest
      → select (after_position position) history ≡ rest
      → length rest < pages
      → walk pages jobs f limit position ≡ rest
  unfolding walk page_of
  walk_rest zero before rest position split here enough = absurd (omega (arith, enough))
  walk_rest (suc pages) before rest position split here enough =
      rw (rows_after position ∙ here, page_items limit rest, page_more limit rest)
        (elim (Bool-cases (ltb limit (length rest))) [
          | inl t ↦
              let more : limit < length rest = ground arith in
              let (p, last) = first_some rest more in
              rw (t, last)
                (ap (λ r. take limit rest ++ r)
                    (walk_rest pages (before ++ take limit rest) (drop limit rest) (some p)
                      (next_split before rest split) (next_here before rest p split last)
                      (omega (arith, enough, length-drop limit rest, some_item, more)))
                  ∙ take-drop limit rest)
          | inr t ↦ rw t (append-nil (take limit rest) ∙ take-all limit rest (ground arith))
        ])

  -- In a table with distinct ids that does not change, and with at least one item to a page, the
  -- pages that a user gets by following the cursors from the first one on are together exactly the
  -- jobs that match the filter, newest first, each once.
  pub walk-history : (pages : ℕ) → length history < pages → walk pages jobs f limit none ≡ history
  unfolding after_position
  walk-history pages enough =
      walk_rest pages [] history none refl
        (select-All (after_position none) history (All-after_position history)) enough
