-- ===== src/Protocol/Recovery.antt =====
-- The reaper: what requeue_expired_leases does to each row, and that the tables stay valid.
use mathlib.Core.List.{Perm}
use zolexai.Prelude.{
  ◌⊎◌, ◌↔◌, ◌==◌, length-perm, any-perm, ℕ, ◌≤◌, ◌<◌, ◌≡◌, refl, sym, ap, ◌∙◌, Bool, true, false,
  Option, none, some, List, [], ◌∷◌, arith, Option-cases, Bool-cases, inl, inr, ltb, leb, ltb→lt,
  leb→le, if◌then◌else◌, length, take, take-all, select,
}
use mathlib.Core.Path.{subst}
use zolexai.Job.{Job, is_terminal, queued, failed, max_attempts_exceeded}
use zolexai.Database.{
  find_job, update_where, requeues, requeue_row, exhausts, exhaust_row, lease_expired, has_id,
  requeue_expired_leases,
}
use zolexai.Database.Rows.{find_job-update_where, All-update_where, update_where-KeysDistinct}
use zolexai.Database.Log.{upto, last_seq}
use zolexai.Database.Validity.{RowIsValid, requeue_row-RowIsValid, exhaust_row-RowIsValid}
use zolexai.Service.{World, Env}
use zolexai.Service.Invariant.{WorldIsValid}
use zolexai.Service.Finality.{RowEvolves}
use zolexai.Protocol.{reap_leases}

-- What the reaper leaves of a row: one that lost its worker goes back to the queue if it has an
-- attempt left, and fails if it has none; any other row is as it was.
abbrev pub reaped : ℕ → List Job → Job → Job
reaped now chosen j =
    if requeues now chosen j then requeue_row j else if exhausts now j then exhaust_row now j else j

-- The rows of the subquery.
abbrev pub expired_rows : (List Job → List Job) → ℕ → ℕ → List Job → List Job
expired_rows row_order now limit jobs = take limit (row_order (select (lease_expired now) jobs))

-- A requeued row has no lease, so the second statement never sees it.
exhausts-requeue_row : (now : ℕ) (j : Job) → exhausts now (requeue_row j) ≡ false
unfolding exhausts requeue_row lease_expired
exhausts-requeue_row now j = refl

id-requeue_row : (j : Job) → (requeue_row j).id ≡ j.id
unfolding requeue_row
id-requeue_row j = refl

id-exhaust_row : (now : ℕ) (j : Job) → (exhaust_row now j).id ≡ j.id
unfolding exhaust_row
id-exhaust_row now j = refl

two_passes :
    (now : ℕ) (chosen : List Job) (j : Job)
    → (let k : Job = if requeues now chosen j then requeue_row j else j in
        if exhausts now k then exhaust_row now k else k)
      ≡ reaped now chosen j
two_passes now chosen j = elim (Bool-cases (requeues now chosen j)) [
  | inl t ↦ rw (t, exhausts-requeue_row now j) refl
  | inr t ↦ rw t refl
]

unfoldable pub map_row : (Job → Job) → Option Job → Option Job
map_row f none = none
map_row f (some j) = some (f j)

pub reap_leases-find_job :
    (env : Env) (world : World) (limit id : ℕ)
    → find_job id (reap_leases env world limit).1.db.jobs
      ≡ map_row
          (reaped env.now (expired_rows env.row_order env.now limit world.db.jobs))
          (find_job id world.db.jobs)
unfolding reap_leases requeue_expired_leases map_row
reap_leases-find_job env world limit id =
    let now = env.now in
    let jobs = world.db.jobs in
    let chosen = expired_rows env.row_order now limit jobs in
    rw
      (
        find_job-update_where (exhausts now) (exhaust_row now) (id-exhaust_row now) id
            (update_where (requeues now chosen) requeue_row jobs),
        find_job-update_where (requeues now chosen) requeue_row id-requeue_row id jobs,
      )
      (elim (Option-cases (find_job id jobs)) [
        | inl e ↦ rw e refl
        | inr (j, e) ↦ rw e (ap some (two_passes now chosen j))
      ])

requeues-attempts :
    (now : ℕ) (chosen : List Job) (j : Job)
    → requeues now chosen j ≡ true
    → j.attempt_count < j.max_attempts
unfolding requeues
requeues-attempts now chosen j h = ground arith

last_seq-reaped :
    (now : ℕ) (chosen : List Job) (o : Option Job)
    → last_seq (map_row (reaped now chosen) o) ≡ last_seq o
unfolding map_row requeue_row exhaust_row
last_seq-reaped now chosen none = refl
last_seq-reaped now chosen (some j) = ground arith

pub reap_leases-WorldIsValid :
    (env : Env) (world : World) (limit : ℕ)
    → WorldIsValid world
    → WorldIsValid (reap_leases env world limit).1
unfolding reap_leases requeue_expired_leases
reap_leases-WorldIsValid env world limit v =
    let now = env.now in
    let jobs = world.db.jobs in
    let chosen = expired_rows env.row_order now limit jobs in
    let requeued = update_where (requeues now chosen) requeue_row jobs in
    record {
      keys =
          update_where-KeysDistinct (exhausts now) (exhaust_row now) (id-exhaust_row now) requeued (
            update_where-KeysDistinct (requeues now chosen) requeue_row id-requeue_row jobs v.keys);
      rows =
          All-update_where RowIsValid (exhausts now) (exhaust_row now)
            (λ j t w. exhaust_row-RowIsValid now j w) requeued
            (All-update_where RowIsValid (requeues now chosen) requeue_row
              (λ j t w. requeue_row-RowIsValid j (requeues-attempts now chosen j t) w) jobs v.rows);
      log = λ id.
          v.log id
          ∙ sym (
              ap upto (
                ap last_seq (reap_leases-find_job env world limit id)
                ∙ last_seq-reaped now chosen (find_job id jobs)));
      recorded = v.recorded;
    }

has_id-select :
    (test : Job → Bool) (id : ℕ) (jobs : List Job) {j : Job}
    → find_job id jobs ≡ some j
    → test j ≡ true
    → has_id j.id (select test jobs) ≡ true
unfolding find_job
has_id-select test id [] found t = ground arith
has_id-select test id (k ∷ ks) {j} found t = ground (arith, has_id-select test id ks {j = j})

reaped-lease_expired :
    (now : ℕ) (chosen : List Job) (j : Job)
    → (lease_expired now j ≡ true → has_id j.id chosen ≡ true)
    → lease_expired now (reaped now chosen j) ≡ false
unfolding requeues exhausts lease_expired requeue_row exhaust_row is_terminal
reaped-lease_expired now chosen j h = ground arith

-- The lease ended before now, and the job is not over.
abbrev pub Expired : ℕ → Job → Type 0
Expired now j = (t : ℕ) × (j.lease_expires_at ≡ some t) × (t < now) × (is_terminal j.status ≡ false)

lease_expired_iff : (now : ℕ) (j : Job) → (lease_expired now j ≡ true) ↔ Expired now j
unfolding lease_expired
lease_expired_iff now j = elim (Option-cases j.lease_expires_at) [
  | inl e ↦ rw e (λ h. cc h, λ h. cc h.1)
  | inr (t, e) ↦
      rw e (λ h. (t, refl, ground (arith, h), ground (arith, h)), λ h. ground (arith, h.2, h.3))
]

-- Back in the queue without a holder and from the start, with its attempts.
pub record IsRequeued (j k : Job) : Type 0 where
  pub status : k.status ≡ queued
  pub worker : k.worker_id ≡ none
  pub token : k.lease_token ≡ none
  pub lease : k.lease_expires_at ≡ none
  pub progress : k.progress ≡ 0
  pub attempts : k.attempt_count ≡ j.attempt_count
  pub evolves : RowEvolves j k

-- Failed for having no attempt left, without a lease.
pub record IsExhausted (now : ℕ) (j k : Job) : Type 0 where
  pub status : k.status ≡ failed
  pub token : k.lease_token ≡ none
  pub lease : k.lease_expires_at ≡ none
  pub error : k.error_code ≡ some max_attempts_exceeded
  pub ended : k.completed_at ≡ some now
  pub evolves : RowEvolves j k

-- What becomes of a row, by whether the subquery yielded it.
abbrev pub Reaps : ℕ → Bool → Job → Job → Type 0
Reaps now picked j k =
    (Expired now j × (j.attempt_count < j.max_attempts) × (picked ≡ true) × IsRequeued j k)
    ⊎ ((Expired now j × (j.max_attempts ≤ j.attempt_count) × IsExhausted now j k)
        ⊎ (((¬ Expired now j) ⊎ ((j.attempt_count < j.max_attempts) × (picked ≡ false))) × (k ≡ j)))

requeue_row-IsRequeued : (now : ℕ) (j : Job) → Expired now j → IsRequeued j (requeue_row j)
unfolding requeue_row
requeue_row-IsRequeued now j h = record {
  status = refl;
  worker = refl;
  token = refl;
  lease = refl;
  progress = refl;
  attempts = refl;
  evolves = ground (arith, h.3);
}

exhaust_row-IsExhausted :
    (now : ℕ) (j : Job) → Expired now j → IsExhausted now j (exhaust_row now j)
unfolding exhaust_row
exhaust_row-IsExhausted now j h = record {
  status = refl;
  token = refl;
  lease = refl;
  error = refl;
  ended = refl;
  evolves = ground (arith, h.3);
}

reaped-Reaps :
    (now : ℕ) (chosen : List Job) (j : Job) → Reaps now (has_id j.id chosen) j (reaped now chosen j)
unfolding requeues exhausts
reaped-Reaps now chosen j = elim (Bool-cases (lease_expired now j)) [
  | inr fresh ↦
      let alive : ¬ Expired now j = λ h. cc (fresh, (lease_expired_iff now j).1 h) in
      rw fresh (inr (inr (inl alive, refl)))
  | inl late ↦
      let expired = (lease_expired_iff now j).0 late in
      elim (Bool-cases (ltb j.attempt_count j.max_attempts)) [
        | inl left ↦
            let more = ltb→lt j.attempt_count j.max_attempts left in
            elim (Bool-cases (has_id j.id chosen)) [
              | inl picked ↦
                  rw (late, left, picked)
                    (inl (expired, more, refl, requeue_row-IsRequeued now j expired))
              | inr passed ↦
                  let some_left : leb j.max_attempts j.attempt_count ≡ false =
                    ground (arith, more) in
                  rw (late, left, passed, some_left) (inr (inr (inr (more, refl), refl)))
            ]
        | inr used ↦
            let spent : leb j.max_attempts j.attempt_count ≡ true = ground (arith, used) in
            rw (late, used, spent)
              (inr (
                inl (
                  expired,
                  leb→le j.max_attempts j.attempt_count spent,
                  exhaust_row-IsExhausted now j expired,
                )))
      ]
]

-- The reaper leaves a row under every id that had one. The row of a job whose lease ended before now
-- and that is not over goes back to the queue without a worker, a lease or progress and with its
-- attempts, if it has an attempt left and is among at most `limit` rows that the database picked of
-- the expired ones; it fails for having used its attempts, without a lease, if none is left, picked
-- or not. Any other row, also an expired one with attempts that was not picked, is as it was.
pub reap_leases-Reaps :
    (env : Env) (world : World) (limit id : ℕ) {j : Job}
    → find_job id world.db.jobs ≡ some j
    → (k : Job) × (find_job id (reap_leases env world limit).1.db.jobs ≡ some k)
      × Reaps env.now (has_id j.id (expired_rows env.row_order env.now limit world.db.jobs)) j k
unfolding map_row
reap_leases-Reaps env world limit id {j} e =
    let chosen = expired_rows env.row_order env.now limit world.db.jobs in
    (
      reaped env.now chosen j,
      reap_leases-find_job env world limit id ∙ ap (map_row (reaped env.now chosen)) e,
      reaped-Reaps env.now chosen j,
    )

-- A run that is allowed at least as many rows as have expired leaves no row with an expired lease,
-- in whatever order the database yields the expired rows.
pub reap_leases-clears :
    (env : Env) (world : World) (limit id : ℕ) {j : Job}
    → Perm
        (select (lease_expired env.now) world.db.jobs)
        (env.row_order (select (lease_expired env.now) world.db.jobs))
    → length (select (lease_expired env.now) world.db.jobs) ≤ limit
    → find_job id (reap_leases env world limit).1.db.jobs ≡ some j
    → lease_expired env.now j ≡ false
unfolding map_row
reap_leases-clears env world limit id {j} order enough found =
    let now = env.now in
    let jobs = world.db.jobs in
    let chosen = expired_rows env.row_order now limit jobs in
    elim (Option-cases (find_job id jobs)) [
      | inl e ↦ cc (found, reap_leases-find_job env world limit id, e)
      | inr (k, e) ↦
          let same : some (reaped now chosen k) ≡ some j =
            sym (reap_leases-find_job env world limit id ∙ ap (map_row (reaped now chosen)) e)
            ∙ found in
          let picked : lease_expired now k ≡ true → has_id k.id chosen ≡ true = λ t.
            let expired = select (lease_expired now) jobs in
            let fits : length (env.row_order expired) ≤ limit =
              subst (λ n. n ≤ limit) (length-perm order) enough in
            rw (take-all limit (env.row_order expired) fits) (
              sym (any-perm (λ r. r.id == k.id) order)
              ∙ has_id-select (lease_expired now) id jobs e t) in
          subst (λ x. lease_expired now x ≡ false) (cc same)
            (reaped-lease_expired now chosen k picked)
    ]
