-- ===== src/Client/Attempts.antt =====
-- How often a request is posted, and what its answer is.
use mathlib.Core.Path.{subst}
use zolexai.Prelude.{
  ◌⊎◌, inl, inr, ◌==◌, ==_iff, leb→le, ap, ◌∙◌, Bool-cases, ℕ, zero, suc, ◌+◌, ◌-◌, ◌≤◌, ◌<◌, ◌≡◌,
  refl, sym, Bool, true, false, arith, leb, if◌then◌else◌,
}
use zolexai.Client.{
  Outcome, response, connect_error, connect_timeout, pool_timeout, read_error,
  remote_protocol_error, write_error, read_timeout, write_timeout, other_error, is_retryable, Sent,
  unavailable, unavailable, sent_of, send, Posted, ok, rejected, api_unavailable, read_response,
  post, Endpoint, register, heartbeat, claim, report_progress, report_complete, report_failure,
  request,
}

-- The connection was not made, or it broke.
abbrev pub TransportFailed : Outcome → Type 0
TransportFailed (response code) = ⊥
TransportFailed read_timeout = ⊥
TransportFailed write_timeout = ⊥
TransportFailed other_error = ⊥
TransportFailed _ = Unit

-- How many times a call may be posted.
abbrev pub allowed : Endpoint → ℕ
allowed claim = 1
allowed _ = 3

-- How the client reports the end of a call's last POST.
abbrev pub Answers : Outcome → Posted → Type 0
Answers (response code) posted =
    ((code < 400) × (posted ≡ ok code))
    ⊎ (((400 ≤ code) × (code < 500) × (posted ≡ rejected code))
        ⊎ ((500 ≤ code) × (posted ≡ api_unavailable)))
Answers _ posted = posted ≡ api_unavailable

is_retryable-TransportFailed : (o : Outcome) → is_retryable o ≡ true → TransportFailed o
is_retryable-TransportFailed (response code) h = cc h
is_retryable-TransportFailed read_timeout h = cc h
is_retryable-TransportFailed write_timeout h = cc h
is_retryable-TransportFailed other_error h = cc h
is_retryable-TransportFailed connect_error h = tt
is_retryable-TransportFailed connect_timeout h = tt
is_retryable-TransportFailed pool_timeout h = tt
is_retryable-TransportFailed read_error h = tt
is_retryable-TransportFailed remote_protocol_error h = tt
is_retryable-TransportFailed write_error h = tt

TransportFailed-is_retryable : (o : Outcome) → TransportFailed o → is_retryable o ≡ true
TransportFailed-is_retryable (response code) f = absurd f
TransportFailed-is_retryable read_timeout f = absurd f
TransportFailed-is_retryable write_timeout f = absurd f
TransportFailed-is_retryable other_error f = absurd f
TransportFailed-is_retryable connect_error f = refl
TransportFailed-is_retryable connect_timeout f = refl
TransportFailed-is_retryable pool_timeout f = refl
TransportFailed-is_retryable read_error f = refl
TransportFailed-is_retryable remote_protocol_error f = refl
TransportFailed-is_retryable write_error f = refl

is_retryable-sent_of : (o : Outcome) → is_retryable o ≡ true → sent_of o ≡ unavailable
is_retryable-sent_of (response code) h = cc h
is_retryable-sent_of read_timeout h = refl
is_retryable-sent_of write_timeout h = refl
is_retryable-sent_of other_error h = refl
is_retryable-sent_of connect_error h = refl
is_retryable-sent_of connect_timeout h = refl
is_retryable-sent_of pool_timeout h = refl
is_retryable-sent_of read_error h = refl
is_retryable-sent_of remote_protocol_error h = refl
is_retryable-sent_of write_error h = refl

read_response-Answers : (o : Outcome) → Answers o (read_response (sent_of o))
read_response-Answers (response code) = elim (Bool-cases (leb 500 code)) [
  | inl outage ↦ rw outage (inr (inr (leb→le 500 code outage, refl)))
  | inr below ↦ elim (Bool-cases (leb 400 code)) [
    | inl refused ↦
        rw (below, refused) (inr (inl (leb→le 400 code refused, ground (arith, below), refl)))
    | inr fine ↦ rw (below, fine) (inl (ground (arith, fine), refl))
  ]
]
read_response-Answers read_timeout = refl
read_response-Answers write_timeout = refl
read_response-Answers other_error = refl
read_response-Answers connect_error = refl
read_response-Answers connect_timeout = refl
read_response-Answers pool_timeout = refl
read_response-Answers read_error = refl
read_response-Answers remote_protocol_error = refl
read_response-Answers write_error = refl

-- The POSTs of a call from the k-th on, with the end of the last one.
record Repeats (left k : ℕ) (outcomes : ℕ → Outcome) (sent : Sent) (made : ℕ) : Type 0 where
  begins : k < made
  bounded : made ≤ k + left
  after_failures : (i : ℕ) → k ≤ i → i + 1 < made → TransportFailed (outcomes i)
  answer : sent ≡ sent_of (outcomes (made - 1))
  persists : (made ≡ k + left) ⊎ ¬ TransportFailed (outcomes (made - 1))

last : (k : ℕ) → suc k - 1 ≡ k
last k = omega arith

once :
    (left k : ℕ) (outcomes : ℕ → Outcome)
    → is_retryable (outcomes k) ≡ false
    → Repeats (suc left) k outcomes (sent_of (outcomes k)) (suc k)
once left k outcomes ended = record {
  begins = omega arith;
  bounded = omega arith;
  after_failures = λ i low high. absurd (omega (arith, low, high));
  answer = ap (λ i. sent_of (outcomes i)) (sym (last k));
  persists = inr λ f. cc (
    ended,
    TransportFailed-is_retryable (outcomes k)
        (subst (λ i. TransportFailed (outcomes i)) (last k) f),
  );
}

given_up :
    (k : ℕ) (outcomes : ℕ → Outcome)
    → is_retryable (outcomes k) ≡ true
    → Repeats 1 k outcomes unavailable (suc k)
given_up k outcomes failed = record {
  begins = omega arith;
  bounded = omega arith;
  after_failures = λ i low high. absurd (omega (arith, low, high));
  answer = sym (ap (λ i. sent_of (outcomes i)) (last k) ∙ is_retryable-sent_of (outcomes k) failed);
  persists = inl (omega arith);
}

once_more :
    (left k : ℕ) (outcomes : ℕ → Outcome) (sent : Sent) (made : ℕ)
    → is_retryable (outcomes k) ≡ true
    → Repeats (suc left) (suc k) outcomes sent made
    → Repeats (suc (suc left)) k outcomes sent made
once_more left k outcomes sent made failed later = record {
  begins = omega (arith, later.begins);
  bounded = omega (arith, later.bounded);
  after_failures = λ i low high. elim (Bool-cases (i == k)) [
    | inl same ↦
        subst (λ x. TransportFailed (outcomes x)) (sym ((==_iff i k).0 same))
          (is_retryable-TransportFailed (outcomes k) failed)
    | inr other ↦ later.after_failures i (ground (arith, low, ==_iff i k)) high
  ];
  answer = later.answer;
  persists = elim later.persists [ inl all ↦ inl (omega (arith, all)) | inr ended ↦ inr ended ];
}

send-Repeats :
    (left : ℕ) (outcomes : ℕ → Outcome) (k : ℕ)
    → Repeats (suc left) k outcomes (send (suc left) outcomes k).0 (send (suc left) outcomes k).1
unfolding send
send-Repeats zero outcomes k = elim (Bool-cases (is_retryable (outcomes k))) [
  | inl failed ↦ rw (failed, send) (given_up k outcomes failed)
  | inr ended ↦ rw (ended, send) (once zero k outcomes ended)
]
send-Repeats (suc left) outcomes k = elim (Bool-cases (is_retryable (outcomes k))) [
  | inl failed ↦
      let later = send (suc left) outcomes (suc k) in
      rw (failed, send)
        (once_more left k outcomes later.0 later.1 failed (send-Repeats left outcomes (suc k)))
  | inr ended ↦ rw (ended, send) (once (suc left) k outcomes ended)
]

-- What a call has done after a number of POSTs.
abbrev pub Posts : ℕ → (ℕ → Outcome) → Posted × ℕ → Type 0
Posts most outcomes (posted, made) =
    (1 ≤ made)
    × (made ≤ most)
    × ((i : ℕ) → i + 1 < made → TransportFailed (outcomes i))
    × ((made ≡ most) ⊎ ¬ TransportFailed (outcomes (made - 1)))
    × Answers (outcomes (made - 1)) posted

Repeats-Posts :
    (left : ℕ) (outcomes : ℕ → Outcome) (sent : Sent) (made : ℕ)
    → Repeats left 0 outcomes sent made
    → Posts left outcomes (read_response sent, made)
Repeats-Posts left outcomes sent made r = (
  r.begins,
  omega (arith, r.bounded),
  λ i high. r.after_failures i (omega arith) high,
  elim r.persists [ inl all ↦ inl (omega (arith, all)) | inr ended ↦ inr ended ],
  subst (λ x. Answers (outcomes (made - 1)) (read_response x)) (sym r.answer)
      (read_response-Answers (outcomes (made - 1))),
)

post-Posts :
    (retry : Bool) (outcomes : ℕ → Outcome)
    → Posts (if retry then 3 else 1) outcomes (post retry outcomes)
unfolding post
post-Posts true outcomes =
    let sent = send 3 outcomes 0 in
    Repeats-Posts 3 outcomes sent.0 sent.1 (send-Repeats 2 outcomes 0)
post-Posts false outcomes =
    let sent = send 1 outcomes 0 in
    Repeats-Posts 1 outcomes sent.0 sent.1 (send-Repeats 0 outcomes 0)

-- A claim is posted exactly once and every other call from one to three times. It is posted again
-- exactly while that limit allows it and the connection was not made or broke (errors and timeouts
-- of connecting and of the pool, errors of reading, of writing and of the remote protocol), so never
-- after a response or a timeout of reading or writing. Its answer is that of the last POST: the
-- response below 400, a rejection from 400 to 499, and else that the API is unavailable.
pub request-Posts :
    (endpoint : Endpoint) (outcomes : ℕ → Outcome)
    → Posts (allowed endpoint) outcomes (request endpoint outcomes)
unfolding request
request-Posts register outcomes = post-Posts true outcomes
request-Posts heartbeat outcomes = post-Posts true outcomes
request-Posts claim outcomes = post-Posts false outcomes
request-Posts report_progress outcomes = post-Posts true outcomes
request-Posts report_complete outcomes = post-Posts true outcomes
request-Posts report_failure outcomes = post-Posts true outcomes
