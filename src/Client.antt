-- ===== src/Client.antt =====
-- apps/worker/worker/core/client.py: the worker's client of the API.
pub mod Details
pub mod Attempts
use zolexai.Prelude.{
  ℕ, zero, suc, ◌+◌, ◌-◌, ◌*◌, ◌/◌, Bool, true, false, List, [], ◌∷◌, ◌++◌, leb, if◌then◌else◌,
  length, take, drop,
}

-- What is put where the middle of a diagnostic was: its 15 characters.
abbrev pub marker : List ℕ
marker =
    b'\n' ∷ 32 ∷ 32 ∷ 8230 ∷ b'[' ∷ b't' ∷ b'r' ∷ b'i' ∷ b'm' ∷ b'm' ∷ b'e' ∷ b'd' ∷ b']' ∷ 8230
    ∷ b'\n' ∷ []

-- `room` and `head`
abbrev pub room_for : ℕ → ℕ
room_for limit = limit - length marker

abbrev pub head_for : ℕ → ℕ
head_for limit = room_for limit * 2 / 5

-- On the characters of a text.
unfoldable pub fit_detail : ℕ → List ℕ → List ℕ
fit_detail limit detail =
    if leb (length detail) limit
    then detail
    else take (head_for limit) detail
      ++ marker
      ++ drop (length detail - (room_for limit - head_for limit)) detail

-- What one POST comes to: a response with its status code, or an exception of the HTTP client.
pub data Outcome : Type 0 where
  response : ℕ → Outcome
  connect_error connect_timeout pool_timeout read_error remote_protocol_error : Outcome
  write_error read_timeout write_timeout other_error : Outcome

-- `_RETRYABLE`
abbrev pub is_retryable : Outcome → Bool
is_retryable connect_error = true
is_retryable connect_timeout = true
is_retryable pool_timeout = true
is_retryable read_error = true
is_retryable remote_protocol_error = true
is_retryable write_error = true
is_retryable _ = false

pub data Sent : Type 0 where
  answered : ℕ → Sent
  unavailable : Sent

abbrev pub sent_of : Outcome → Sent
sent_of (response code) = answered code
sent_of _ = unavailable

-- `_send`: what is left of the attempts, and what the POSTs will come to. The answer, and how many
-- POSTs were made.
unfoldable pub send : ℕ → (ℕ → Outcome) → ℕ → Sent × ℕ
send zero outcomes k = (unavailable, k)
send (suc left) outcomes k =
    let again = send left outcomes (suc k) in
    if is_retryable (outcomes k) then again else (sent_of (outcomes k), suc k)

abbrev pub transport_attempts : ℕ
transport_attempts = 3

-- `_post`: a 5xx is an outage, a 4xx is data that says so.
pub data Posted : Type 0 where
  ok rejected : ℕ → Posted
  api_unavailable : Posted

abbrev pub read_response : Sent → Posted
read_response unavailable = api_unavailable
read_response (answered code) =
    if leb 500 code then api_unavailable else if leb 400 code then rejected code else ok code

unfoldable pub post : Bool → (ℕ → Outcome) → Posted × ℕ
unfolding send
post retry outcomes =
    let (sent, made) = send (if retry then transport_attempts else 1) outcomes 0 in
    (read_response sent, made)

-- The calls of the client.
pub data Endpoint : Type 0 where
  register heartbeat claim report_progress report_complete report_failure : Endpoint

unfoldable pub request : Endpoint → (ℕ → Outcome) → Posted × ℕ
unfolding post
request register outcomes = post true outcomes
request heartbeat outcomes = post true outcomes
request claim outcomes = post false outcomes
request report_progress outcomes = post true outcomes
request report_complete outcomes = post true outcomes
request report_failure outcomes = post true outcomes
