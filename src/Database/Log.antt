-- ===== src/Database/Log.antt =====
-- The sequence numbers of a job's events.
use zolexai.Prelude.{
  ℕ, zero, suc, ◌≡◌, refl, Option, none, some, List, [], ◌∷◌, ◌++◌, arith, ◌==◌, if◌then◌else◌,
}
use zolexai.Job.{Job, Event}

-- The numbers of one job's events, in the order of the log.
unfoldable pub seqs : ℕ → List Event → List ℕ
seqs id [] = []
seqs id (e ∷ es) = let rest = seqs id es in if e.job_id == id then e.seq ∷ rest else rest

-- 1, 2, …, n
unfoldable pub upto : ℕ → List ℕ
upto zero = []
upto (suc n) = upto n ++ suc n ∷ []

-- The last number that was given out; 0 for a job that does not exist.
abbrev pub last_seq : Option Job → ℕ
last_seq none = 0
last_seq (some j) = j.last_event_seq

pub seqs-append :
    (id : ℕ) (es : List Event) (e : Event)
    → seqs id (es ++ e ∷ []) ≡ (if e.job_id == id then seqs id es ++ e.seq ∷ [] else seqs id es)
unfolding seqs
seqs-append id [] e = refl
seqs-append id (x ∷ xs) e = ground (arith, seqs-append id xs e)
