-- ===== src/Idempotency.antt =====
-- apps/api/app/services/idempotency.py: the reservations of idempotency keys in Redis.
use zolexai.Prelude.{ℕ, ◌+◌, String, ◌&&◌, Option, none, some, ◌==◌, ◌≈◌, ltb, if◌then◌else◌}

-- A key in flight, or the job that it made.
pub data Holder : Type 0 where
  pending : Holder
  made : ℕ → Holder

pub record Reservation : Type 0 where
  pub holder : Holder
  pub expires_at : ℕ

-- The keys of Redis by user and key.
abbrev pub Keys : Type 0
Keys = ℕ → String → Option Reservation

-- `GET`: a key past its lifetime is gone.
unfoldable pub holder_of : ℕ → Option Reservation → Option Holder
holder_of now none = none
holder_of now (some r) = if ltb now r.expires_at then some r.holder else none

unfoldable pub set_key : ℕ → String → Option Reservation → Keys → Keys
set_key user key value keys u k = if (u == user) && (k ≈ key) then value else keys u k

unfoldable pub reserve_with : ℕ → ℕ → ℕ → String → Keys → Option Holder → Option Holder × Keys
unfolding set_key
reserve_with now ttl user key keys none =
    (none, set_key user key (some (record { holder = pending; expires_at = now + ttl })) keys)
reserve_with now ttl user key keys (some h) = (some h, keys)

-- `SET NX`: nothing if the caller won the key, else who holds it.
unfoldable pub reserve : ℕ → ℕ → ℕ → String → Keys → Option Holder × Keys
unfolding reserve_with holder_of
reserve now ttl user key keys = reserve_with now ttl user key keys (holder_of now (keys user key))

unfoldable pub complete : ℕ → ℕ → ℕ → String → ℕ → Keys → Keys
unfolding set_key
complete now ttl user key job keys =
    set_key user key (some (record { holder = made job; expires_at = now + ttl })) keys

unfoldable pub release : ℕ → String → Keys → Keys
unfolding set_key
release user key keys = set_key user key none keys
