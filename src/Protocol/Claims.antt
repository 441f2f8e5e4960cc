-- ===== src/Protocol/Claims.antt =====
-- Which job a claim hands out, and what it does to the tables.
use zolexai.Prelude.{
  ℕ, String, ◌≤◌, ◌≡◌, ◌⊎◌, inl, inr, refl, sym, ap, ◌∙◌, Bool, true, false, Option, none, some,
  List, arith, All, Option-cases, Bool-cases, ◌==◌, ==_iff,
}
use zolexai.Job.{Job, queued}
use zolexai.Workflow.{WorkflowDefinition, is_empty, mentions}
use zolexai.Registry.{Registry, get}
use zolexai.Workers.{WorkerNode, find_worker}
use zolexai.Database.{
  Db, find_job, put_job, is_claimable, oldest, claim_row, claim_next, claim_found,
}
use zolexai.Database.Rows.{
  find_job-put_job, All-find_job, All-put_job, KeysDistinct, put_job-KeysDistinct, oldest-test,
  oldest-find_job, oldest-first, oldest-none,
}
use zolexai.Database.Log.{upto, last_seq}
use zolexai.Database.Validity.{RowIsValid, LogIsDense, claim_row-RowIsValid}
use zolexai.Service.{World, Env}
use zolexai.Service.Invariant.{WorldIsValid}
use zolexai.Protocol.{
  Claim, nothing, tool_unavailable, claimed, ClaimRequest, UploadSettings, claim_job, claim_as,
  answer, answer_with, claimed_job, wanted_workflows,
}

pub is_claimable-queued :
    (workflow_ids : List String) (locked : ℕ → Bool) (j : Job)
    → is_claimable workflow_ids locked j ≡ true
    → (j.status ≡ queued) × (mentions j.workflow_id workflow_ids ≡ true) × (locked j.id ≡ false)
unfolding is_claimable
is_claimable-queued workflow_ids locked j h = ground arith

module _ (db : Db) (worker : ℕ) (workflow_ids : List String) (locked : ℕ → Bool)
    (token now lease_seconds : ℕ) where
  abbrev claim_of : Job → Job
  claim_of j = claim_row worker token now lease_seconds j

  -- The row that a claim finds: it is the row of its id, it may be claimed, and no other row that
  -- may be claimed is older.
  pub record Finds (j : Job) : Type 0 where
    pub found : find_job j.id db.jobs ≡ some j
    pub claimable : is_claimable workflow_ids locked j ≡ true
    pub first :
        All (λ k. is_claimable workflow_ids locked k ≡ true → j.created_at ≤ k.created_at) db.jobs

  pub claim_next-cases :
      KeysDistinct db.jobs
      → ((claim_next db worker workflow_ids locked token now lease_seconds ≡ none)
          × All (λ k. is_claimable workflow_ids locked k ≡ false) db.jobs)
        ⊎ ((j : Job) × Finds j
            × (claim_next db worker workflow_ids locked token now lease_seconds
                ≡ some (claim_of j, record db { jobs = put_job (claim_of j) db.jobs })))
  unfolding claim_next
  claim_next-cases keys = elim (Option-cases (oldest (is_claimable workflow_ids locked) db.jobs)) [
    | inl e ↦ inl (
      rw (e, claim_next, claim_found) refl,
      oldest-none (is_claimable workflow_ids locked) db.jobs e,
    )
    | inr (j, e) ↦ inr (
      j,
      record {
        found = oldest-find_job (is_claimable workflow_ids locked) db.jobs keys e;
        claimable = oldest-test (is_claimable workflow_ids locked) db.jobs e;
        first = oldest-first (is_claimable workflow_ids locked) db.jobs e;
      },
      rw (e, claim_next, claim_found) refl,
    )
  ]

-- A row that is written back under its id, with its last sequence number, keeps the log dense.
pub put_job-LogIsDense :
    (db : Db) (row : Job) {old : Job}
    → find_job row.id db.jobs ≡ some old
    → row.last_event_seq ≡ old.last_event_seq
    → LogIsDense db
    → LogIsDense (record db { jobs = put_job row db.jobs })
put_job-LogIsDense db row {old} found same dense id =
    rw (find_job-put_job row id db.jobs found) (elim (Bool-cases (row.id == id)) [
      | inl own ↦ rw own (
          dense id
          ∙ ap (λ k. upto (last_seq (find_job k db.jobs))) (sym ((==_iff row.id id).0 own))
          ∙ ap (λ o. upto (last_seq o)) found
          ∙ ap upto (sym same))
      | inr other ↦ rw other (dense id)
    ])

module _ (env : Env) (settings : UploadSettings) (world : World) (registry : Registry)
    (v : WorldIsValid world) where
  claimed-WorldIsValid :
      (node : WorkerNode) (ids : List String) (locked : ℕ → Bool) (token : ℕ) (j : Job)
      → Finds world.db node.id ids locked token env.now env.lease_seconds j
      → WorldIsValid (record world {
        db = record world.db {
          jobs = put_job (claim_row node.id token env.now env.lease_seconds j) world.db.jobs;
        };
      })
  unfolding claim_row
  claimed-WorldIsValid node ids locked token j f = record {
    keys = put_job-KeysDistinct _ world.db.jobs v.keys;
    rows =
        All-put_job RowIsValid _ world.db.jobs
          (claim_row-RowIsValid node.id token env.now env.lease_seconds j
            (is_claimable-queued ids locked j f.claimable).0
            (All-find_job RowIsValid j.id world.db.jobs v.rows f.found))
          v.rows;
    log =
        put_job-LogIsDense world.db (claim_row node.id token env.now env.lease_seconds j) f.found
          refl v.log;
    recorded = v.recorded;
  }

  answer_with-WorldIsValid :
      (job : Job) (db : Db) (d : Option WorkflowDefinition)
      → WorldIsValid (record world { db = db })
      → WorldIsValid (answer_with env settings world job db d).1
  unfolding answer_with
  answer_with-WorldIsValid job db none w = v
  answer_with-WorldIsValid job db (some d) w = w

  answer-WorldIsValid :
      (node : WorkerNode) (ids : List String) (locked : ℕ → Bool) (token : ℕ)
      → WorldIsValid
          (answer env settings world registry
            (claim_next world.db node.id ids locked token env.now env.lease_seconds)).1
  unfolding answer claim_row
  answer-WorldIsValid node ids locked token =
      elim (claim_next-cases world.db node.id ids locked token env.now env.lease_seconds v.keys) [
        | inl (none_left, _) ↦ rw (none_left, answer) v
        | inr (j, f, taken) ↦
            rw (taken, answer)
              (answer_with-WorldIsValid _ _ (get registry j.workflow_id)
                (claimed-WorldIsValid node ids locked token j f))
      ]

  claim_as-WorldIsValid :
      (r : ClaimRequest) (node : WorkerNode)
      → WorldIsValid (claim_as env settings world registry r node).1
  unfolding claim_as
  claim_as-WorldIsValid r node =
      elim (Bool-cases (is_empty (wanted_workflows registry node r.workflows r.runtimes))) [
        | inl e ↦ rw (e, claim_as) v
        | inr e ↦
            rw (e, claim_as)
              (answer-WorldIsValid node (wanted_workflows registry node r.workflows r.runtimes)
                r.locked r.token)
      ]

  pub claim_job-WorldIsValid :
      (r : ClaimRequest) → WorldIsValid (claim_job env settings world registry r).1
  unfolding claim_job
  claim_job-WorldIsValid r = elim (Option-cases (find_worker r.worker_id world.db.workers)) [
    | inl e ↦ rw (e, claim_job) v
    | inr (node, e) ↦ rw (e, claim_job) (claim_as-WorldIsValid r node)
  ]

-- The three answers that a registered node gets when it may claim some workflow.
module _ (env : Env) (settings : UploadSettings) (world : World) (registry : Registry)
    (r : ClaimRequest) (node : WorkerNode) where
  abbrev pub wanted : List String
  wanted = wanted_workflows registry node r.workflows r.runtimes

  abbrev pub Oldest : Job → Type 0
  Oldest = Finds world.db node.id wanted r.locked r.token env.now env.lease_seconds

  abbrev pub row_of : Job → Job
  row_of j = claim_row node.id r.token env.now env.lease_seconds j

  abbrev pub db_of : Job → Db
  db_of j = record world.db { jobs = put_job (row_of j) world.db.jobs }

  -- The answer to a claim, and the tables after it, by what is in the tables before it.
  pub data Answered : Claim × World → Type 0 where
    nothing_left :
        All (λ k. is_claimable wanted r.locked k ≡ false) world.db.jobs → Answered (nothing, world)
    definition_gone :
        (j : Job)
        → Oldest j
        → get registry j.workflow_id ≡ none
        → Answered (tool_unavailable, world)
    handed_out :
        (j : Job) (d : WorkflowDefinition)
        → Oldest j
        → get registry j.workflow_id ≡ some d
        → Answered (
          claimed (claimed_job env settings (db_of j) (row_of j) d),
          record world { db = db_of j },
        )

  Answered-answer_with :
      (j : Job) (d : Option WorkflowDefinition)
      → Oldest j
      → get registry j.workflow_id ≡ d
      → Answered (answer_with env settings world (row_of j) (db_of j) d)
  unfolding answer_with
  Answered-answer_with j none f e = definition_gone j f e
  Answered-answer_with j (some d) f e = handed_out j d f e

  -- In a table with distinct ids, a registered node with some workflow to run is handed the oldest
  -- job that it may run and that nobody else holds, and only that row changes; or it is told that
  -- there is nothing, and there is no such job; or that job's definition is gone, and the world is
  -- left as it was.
  pub claim_job-Answered :
      KeysDistinct world.db.jobs
      → find_worker r.worker_id world.db.workers ≡ some node
      → is_empty wanted ≡ false
      → Answered (claim_job env settings world registry r)
  unfolding claim_job claim_as answer claim_row
  claim_job-Answered keys found some_wanted =
      elim (claim_next-cases world.db node.id wanted r.locked r.token env.now env.lease_seconds
        keys) [
          | inl (none_left, all) ↦
              rw (found, claim_job, some_wanted, claim_as, none_left, answer) (nothing_left all)
          | inr (j, f, taken) ↦
              rw (found, claim_job, some_wanted, claim_as, taken, answer)
                (Answered-answer_with j (get registry j.workflow_id) f refl)
        ]
