-- ===== src/Examples/Pages.antt =====
-- A history of two jobs, followed by pages of one.
use zolexai.Prelude.{◌≡◌, refl, List, [], ◌∷◌, none, arith}
use zolexai.Job.{Job}
use zolexai.Database.{find_job}
use zolexai.History.{Filter, matches, newest_first, newer, insert_row}
use zolexai.History.Pages.{walk, walk-history}
use zolexai.Examples.{waiting, finished}

abbrev jobs : List Job
jobs = waiting ∷ record finished { id = 2; created_at = 950 } ∷ []

abbrev everything : Filter
everything = record { user_id = 5; statuses = []; workflow_id = none }

walk-history_example :
    walk 3 jobs everything 1 none ≡ record finished { id = 2; created_at = 950 } ∷ waiting ∷ []
unfolding find_job matches newest_first newer insert_row
walk-history_example =
    walk-history jobs everything 1 (refl, (refl, tt)) (omega arith) 3 (omega arith)
