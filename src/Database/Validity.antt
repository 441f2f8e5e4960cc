-- ===== src/Database/Validity.antt =====
-- What holds of the tables between two transactions.
use zolexai.Prelude.{
  ℕ, String, ◌+◌, ◌≤◌, ◌<◌, ◌≡◌, refl, ap, ◌∙◌, ◌≢◌, inl, inr, true, false, none, some, List, [],
  ◌∷◌, ◌++◌, arith, ◌==◌, is_some, All, Some, Bool-cases, ==_iff,
}
use native.Mathlib.Numerals.{add-one}
use mathlib.Core.Path.{subst}
use zolexai.Job.{queued, is_terminal, Job, Event, EventType, Payload}
use zolexai.Database.{Db, find_job, append_event, next_seq, claim_row, requeue_row, exhaust_row}
use zolexai.Database.Rows.{find_job-put_job}
use zolexai.Database.Log.{seqs, upto, last_seq, seqs-append}

-- A row: its progress is a percentage, its attempts are within their bound; a queued row has an
-- attempt left and no lease, and any other active row has a worker and a lease that expires.
pub record RowIsValid (j : Job) : Type 0 where
  pub progress_range : j.progress ≤ 100
  pub attempts_bounded : j.attempt_count ≤ j.max_attempts
  pub queued_free :
      j.status ≡ queued
      → (j.attempt_count < j.max_attempts)
        × (j.worker_id ≡ none)
        × (j.lease_token ≡ none)
        × (j.lease_expires_at ≡ none)
  pub active_leased :
      is_terminal j.status ≡ false
      → j.status ≢ queued
      → (is_some j.worker_id ≡ true)
        × (is_some j.lease_token ≡ true)
        × (is_some j.lease_expires_at ≡ true)

-- The events of each job are numbered 1, 2, … up to the last number of its row.
abbrev pub LogIsDense : Db → Type 0
LogIsDense db = (id : ℕ) → seqs id db.events ≡ upto (last_seq (find_job id db.jobs))

-- Each of the published events is in the log.
abbrev pub AllRecorded : List Event → List Event → Type 0
AllRecorded events channel = All (λ e. Some (λ f. f ≡ e) events) channel

upto-suc : (n : ℕ) → upto n ++ (n + 1) ∷ [] ≡ upto (n + 1)
unfolding upto
upto-suc n = rw add-one refl

module _ (db : Db) (row : Job) (event_type : EventType) (message : String) (payload : Payload)
    (now : ℕ) where
  pub append_event-LogIsDense :
      {old : Job}
      → find_job row.id db.jobs ≡ some old
      → old.last_event_seq ≡ row.last_event_seq
      → LogIsDense db
      → LogIsDense (append_event db row event_type message payload now).0
  unfolding append_event
  append_event-LogIsDense {old} found same dense id =
      rw (seqs-append, find_job-put_job (next_seq row) id db.jobs found)
        (elim (Bool-cases (row.id == id)) [
          | inl own ↦ rw (own, own_seqs own) (upto-suc row.last_event_seq)
          | inr other ↦ rw other (dense id)
        ])
    where
      own_seqs : (row.id == id) ≡ true → seqs id db.events ≡ upto row.last_event_seq
      own_seqs own =
          subst (λ k. seqs k db.events ≡ upto row.last_event_seq) ((==_iff row.id id).0 own)
            (dense row.id ∙ ap (λ o. upto (last_seq o)) found ∙ ap upto same)

-- A claim, a requeue and an exhaustion of rows in the states in which they happen.
pub claim_row-RowIsValid :
    (worker token now lease_seconds : ℕ) (j : Job)
    → j.status ≡ queued
    → RowIsValid j
    → RowIsValid (claim_row worker token now lease_seconds j)
unfolding claim_row is_terminal
claim_row-RowIsValid worker token now lease_seconds j q v = ground arith

pub requeue_row-RowIsValid :
    (j : Job) → j.attempt_count < j.max_attempts → RowIsValid j → RowIsValid (requeue_row j)
unfolding requeue_row is_terminal
requeue_row-RowIsValid j more v = ground arith

pub exhaust_row-RowIsValid : (now : ℕ) (j : Job) → RowIsValid j → RowIsValid (exhaust_row now j)
unfolding exhaust_row is_terminal
exhaust_row-RowIsValid now j v = ground arith

pub next_seq-RowIsValid : (j : Job) → RowIsValid j → RowIsValid (next_seq j)
unfolding next_seq
next_seq-RowIsValid j v = ground arith
