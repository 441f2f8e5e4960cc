-- ===== src/Limits/Window.antt =====
-- How many requests a fixed window lets through.
use zolexai.Prelude.{
  ℕ, suc, ◌+◌, ◌-◌, ◌<◌, ◌≡◌, true, Option, none, some, List, [], ◌∷◌, arith, All, if◌then◌else◌,
  length, min,
}
use zolexai.Limits.{Counter, check_request_rate}

-- How many of a sequence of requests, by their times, are let through.
admitted : ℕ → ℕ → Option Counter → List ℕ → ℕ
admitted limit window key [] = 0
admitted limit window key (now ∷ times) =
    let rest = admitted limit window (check_request_rate true now limit window key).1 times in
    if (check_request_rate true now limit window key).0 then suc rest else rest

admitted_from :
    (limit window : ℕ) (c : Counter) (times : List ℕ)
    → All (λ t. t < c.expires_at) times
    → admitted limit window (some c) times ≡ min (length times) (limit - c.count)
unfolding admitted check_request_rate
admitted_from limit window c [] h = ground arith
admitted_from limit window c (t ∷ ts) h =
    ground (arith, admitted_from limit window (record c { count = c.count + 1 }) ts h.1)

-- Of requests that all come within `window` of the first, which begins a window, exactly the first
-- `limit` are let through.
admitted_in_window :
    (limit window now : ℕ) (times : List ℕ)
    → All (λ t. t < now + window) times
    → admitted limit window none (now ∷ times) ≡ min (length (now ∷ times)) limit
unfolding admitted check_request_rate
admitted_in_window limit window now times h =
    ground
      (arith, admitted_from limit window (record { count = 1; expires_at = now + window }) times h)
