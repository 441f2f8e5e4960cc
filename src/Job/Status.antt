-- ===== src/Job/Status.antt =====
-- Which moves `can_transition` allows: those of a strict order with three maximal elements.
use zolexai.Prelude.{◌<◌, ◌≡◌, ◌↔◌, ◌⊎◌, true, false, arith}
use zolexai.Job.{JobStatus, is_terminal, rank, can_transition, same_status}

pub same_status→eq : (a b : JobStatus) → same_status a b ≡ true → a ≡ b
same_status→eq a b h = ground arith

-- A move is allowed exactly when it stays, or leaves an active status for a terminal one or
-- for one of higher rank.
can_transition_iff :
    (current target : JobStatus)
    → (can_transition current target ≡ true) ↔ (
        (current ≡ target)
        ⊎ ((is_terminal current ≡ false)
            × ((is_terminal target ≡ true) ⊎ (rank current < rank target))))
unfolding can_transition
can_transition_iff current target = ground arith

-- A legal move followed by a legal move is a legal move, and two statuses that can each move to
-- the other are one.
pub can_transition_order :
    (a b c : JobStatus)
    → can_transition a b ≡ true
    → (can_transition b c ≡ true → can_transition a c ≡ true) × (can_transition b a ≡ true → a ≡ b)
unfolding can_transition
can_transition_order a b c h = (λ k. ground arith, λ k. ground arith)
