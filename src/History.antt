-- ===== src/History.antt =====
-- The history of a user by pages: list_for_user of apps/api/app/repositories/generation.py with the
-- positions of apps/api/app/schemas/common.py. The text of a cursor is not modelled; a position is
-- what it decodes to.
pub mod Order
pub mod Pages
use zolexai.Prelude.{
  ℕ, ◌+◌, String, Bool, true, false, ◌&&◌, ◌||◌, Option, none, some, List, [], ◌∷◌, ◌==◌, ◌≈◌, ltb,
  if◌then◌else◌, length, take, select, any,
}
use zolexai.Job.{JobStatus, same_status, Job}

-- Where a page ended.
pub record Position : Type 0 where
  pub created_at : ℕ
  pub id : ℕ

abbrev pub position_of : Job → Position
position_of j = record { created_at = j.created_at; id = j.id }

-- `(b.created_at, b.id) < (a.created_at, a.id)`
unfoldable pub newer : Position → Position → Bool
newer a b = ltb b.created_at a.created_at || ((b.created_at == a.created_at) && ltb b.id a.id)

-- `ORDER BY created_at DESC, id DESC`
unfoldable pub insert_row : Job → List Job → List Job
insert_row j [] = j ∷ []
insert_row j (k ∷ ks) =
    let rest = insert_row j ks in
    if newer (position_of j) (position_of k) then j ∷ k ∷ ks else k ∷ rest

unfoldable pub newest_first : List Job → List Job
unfolding insert_row
newest_first [] = []
newest_first (j ∷ js) = insert_row j (newest_first js)

-- What a page asks for: the user's jobs, with one of the statuses if any are given, and of the
-- workflow if one is given.
pub record Filter : Type 0 where
  pub user_id : ℕ
  pub statuses : List JobStatus
  pub workflow_id : Option String

abbrev status_fits : List JobStatus → JobStatus → Bool
status_fits [] status = true
status_fits (s ∷ ss) status = any (λ t. same_status t status) (s ∷ ss)

abbrev workflow_fits : Option String → String → Bool
workflow_fits none id = true
workflow_fits (some w) id = (w ≈ "") || (w ≈ id)

unfoldable pub matches : Filter → Job → Bool
matches f j =
    (j.user_id == f.user_id)
    && status_fits f.statuses j.status
    && workflow_fits f.workflow_id j.workflow_id

unfoldable pub after_position : Option Position → Job → Bool
after_position none j = true
after_position (some p) j = newer p (position_of j)

unfoldable pub last_position : List Job → Option Position
last_position [] = none
last_position (j ∷ []) = some (position_of j)
last_position (j ∷ k ∷ ks) = last_position (k ∷ ks)

pub record HistoryPage : Type 0 where
  pub items : List Job
  pub next : Option Position
  pub has_more : Bool

page_of : ℕ → List Job → HistoryPage
page_of limit rows =
    let more = ltb limit (length rows) in
    record {
      items = take limit rows;
      next = if more then last_position (take limit rows) else none;
      has_more = more;
    }

unfoldable pub list_for_user : List Job → Filter → ℕ → Option Position → HistoryPage
unfolding page_of
list_for_user jobs f limit position =
    page_of limit (
      take (limit + 1) (newest_first (select (λ j. matches f j && after_position position j) jobs)))
