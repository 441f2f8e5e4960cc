-- ===== src/Workers.antt =====
-- apps/api/app/models/worker.py and apps/api/app/repositories/worker.py: the worker nodes.
pub mod Upsert
use zolexai.Prelude.{
  ℕ, ◌-◌, String, Bool, true, false, not, ◌&&◌, ◌||◌, Option, none, some, List, [], ◌∷◌, ◌++◌, ◌==◌,
  ◌≈◌, ltb, leb, if◌then◌else◌, count_if,
}

pub data WorkerStatus : Type 0 where
  online busy offline : WorkerStatus

pub record WorkerNode : Type 0 where
  pub id : ℕ
  pub name : String
  pub status : WorkerStatus
  pub runtime : String
  pub version : String
  -- The `capabilities` dictionary.
  pub workflows : List String
  pub runtimes : List String
  pub max_concurrency : ℕ
  pub last_heartbeat_at : Option ℕ

unfoldable pub find_worker : ℕ → List WorkerNode → Option WorkerNode
find_worker id [] = none
find_worker id (w ∷ ws) = if w.id == id then some w else find_worker id ws

unfoldable pub find_by_name : String → List WorkerNode → Option WorkerNode
find_by_name name [] = none
find_by_name name (w ∷ ws) = if w.name ≈ name then some w else find_by_name name ws

unfoldable pub put_worker : WorkerNode → List WorkerNode → List WorkerNode
put_worker row [] = []
put_worker row (w ∷ ws) = if w.id == row.id then row ∷ ws else w ∷ put_worker row ws

-- What a node says of itself.
pub record Registration : Type 0 where
  pub name : String
  pub runtime : String
  pub version : String
  pub workflows : List String
  pub runtimes : List String
  pub max_concurrency : ℕ

node_row : ℕ → ℕ → Registration → WorkerNode
node_row now id r = record {
  id = id;
  name = r.name;
  status = online;
  runtime = r.runtime;
  version = r.version;
  workflows = r.workflows;
  runtimes = r.runtimes;
  max_concurrency = r.max_concurrency;
  last_heartbeat_at = some now;
}

-- Upsert by name: a known node keeps its id; another one is inserted under the fresh `id`.
unfoldable pub register : ℕ → ℕ → Registration → List WorkerNode → WorkerNode × List WorkerNode
unfolding node_row find_by_name put_worker
register now id r workers = elim (find_by_name r.name workers) [
  | none ↦ (node_row now id r, workers ++ node_row now id r ∷ [])
  | some known ↦ (node_row now known.id r, put_worker (node_row now known.id r) workers)
]

abbrev or_status : Option WorkerStatus → WorkerStatus → WorkerStatus
or_status none kept = kept
or_status (some s) kept = s

unfoldable pub heartbeat :
    ℕ → ℕ → Option WorkerStatus → List WorkerNode → Option WorkerNode × List WorkerNode
unfolding find_worker put_worker
heartbeat now id status workers = elim (find_worker id workers) [
  | none ↦ (none, workers)
  | some w ↦
      let row : WorkerNode = record w {
        last_heartbeat_at = some now;
        status = or_status status w.status;
      } in
      (some row, put_worker row workers)
]

abbrev pub is_offline : WorkerStatus → Bool
is_offline offline = true
is_offline _ = false

-- `last_heartbeat_at IS NULL OR last_heartbeat_at < cutoff`; a cutoff before the epoch is no
-- cutoff, as in `now - stale_after` stopped at 0.
abbrev silent_since : ℕ → Option ℕ → Bool
silent_since cutoff none = true
silent_since cutoff (some t) = ltb t cutoff

is_stale : ℕ → ℕ → WorkerNode → Bool
is_stale now stale_after w =
    not (is_offline w.status) && silent_since (now - stale_after) w.last_heartbeat_at

unfoldable pub flag_stale : ℕ → ℕ → List WorkerNode → List WorkerNode
unfolding is_stale
flag_stale now stale_after [] = []
flag_stale now stale_after (w ∷ ws) =
    (if is_stale now stale_after w then record w { status = offline } else w)
    ∷ flag_stale now stale_after ws

unfoldable pub mark_stale_offline : ℕ → ℕ → List WorkerNode → ℕ × List WorkerNode
unfolding is_stale flag_stale
mark_stale_offline now stale_after workers =
    (count_if (is_stale now stale_after) workers, flag_stale now stale_after workers)

abbrev heard_since : ℕ → Option ℕ → Bool
heard_since cutoff none = false
heard_since cutoff (some t) = leb cutoff t

unfoldable pub count_online : ℕ → ℕ → List WorkerNode → ℕ
count_online now stale_after workers =
    count_if (λ w. not (is_offline w.status) && heard_since (now - stale_after) w.last_heartbeat_at)
      workers
