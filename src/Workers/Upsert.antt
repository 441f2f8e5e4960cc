-- ===== src/Workers/Upsert.antt =====
-- A node keeps its identity over restarts, and staleness agrees with the count of live nodes.
use zolexai.Prelude.{ℕ, not, ◌≡◌, ◌∙◌, refl, List, [], ◌∷◌, arith, count_if}
use zolexai.Workers.{WorkerNode, mark_stale_offline, count_online, flag_stale, is_offline}

stays_online :
    (now stale_after : ℕ) (workers : List WorkerNode)
    → count_online now stale_after (flag_stale now stale_after workers)
      ≡ count_online now stale_after workers
unfolding count_online flag_stale
stays_online now stale_after [] = refl
stays_online now stale_after (w ∷ ws) = ground (arith, stays_online now stale_after ws)

all_online :
    (now stale_after : ℕ) (workers : List WorkerNode)
    → count_online now stale_after workers
      ≡ count_if (λ w. not (is_offline w.status)) (flag_stale now stale_after workers)
unfolding count_online flag_stale
all_online now stale_after [] = refl
all_online now stale_after (w ∷ ws) = ground (arith, all_online now stale_after ws)

-- After the reaper flagged the silent nodes, the nodes that are not offline are exactly those that
-- count as online, with the same allowance.
count_online-mark_stale_offline :
    (now stale_after : ℕ) (workers : List WorkerNode)
    → let (flagged, after) = mark_stale_offline now stale_after workers in
      (count_online now stale_after after ≡ count_online now stale_after workers)
      × (count_online now stale_after after ≡ count_if (λ w. not (is_offline w.status)) after)
unfolding mark_stale_offline
count_online-mark_stale_offline now stale_after workers = (
  stays_online now stale_after workers,
  stays_online now stale_after workers ∙ all_online now stale_after workers,
)
