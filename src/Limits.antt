-- ===== src/Limits.antt =====
-- apps/api/app/services/rate_limit.py: the request counter of one user and action in Redis, and
-- the concurrency limit.
pub mod Window
use zolexai.Prelude.{
  ℕ, ◌+◌, Bool, true, false, Option, none, some, if◌then◌else◌, ltb, leb, or_default, List, ◌≡◌,
}
use zolexai.Job.{Job}
use zolexai.Database.{Db, count_active_for_user}

pub record User : Type 0 where
  pub id : ℕ
  pub concurrency_limit : Option ℕ

-- A counter key with its expiry.
pub record Counter : Type 0 where
  pub count : ℕ
  pub expires_at : ℕ

-- `INCR` with `EXPIRE … NX`: a key that is not there, or no longer, begins a window at 1.
pub hit : ℕ → ℕ → Option Counter → Counter
hit now window none = record { count = 1; expires_at = now + window }
hit now window (some c) =
    if ltb now c.expires_at
    then record c { count = c.count + 1 }
    else record { count = 1; expires_at = now + window }

-- Whether the request is let through, and the key afterwards. Fails open if Redis is away.
unfoldable pub check_request_rate : Bool → ℕ → ℕ → ℕ → Option Counter → Bool × Option Counter
unfolding hit
check_request_rate up now limit window key =
    if up then (leb (hit now window key).count limit, some (hit now window key)) else (true, key)

unfoldable pub concurrency_limit_for : ℕ → User → ℕ
concurrency_limit_for default_limit user = or_default user.concurrency_limit default_limit

-- The number of running jobs, if it has reached the limit.
unfoldable pub check_generation_concurrency : ℕ → List Job → User → Option ℕ
unfolding concurrency_limit_for count_active_for_user
check_generation_concurrency default_limit jobs user =
    let running = count_active_for_user user.id jobs in
    if leb (concurrency_limit_for default_limit user) running then some running else none
