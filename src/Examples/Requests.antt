-- ===== src/Examples/Requests.antt =====
-- Submissions, streams and uploads at concrete inputs.
use zolexai.Prelude.{
  ◌+◌, ℕ, String, ◌≡◌, ◌⊎◌, refl, ◌≤◌, true, Option, none, some, List, [], ◌∷◌, arith, map,
}
use zolexai.Job.{
  JobStatus, queued, completed, generating, EventType, Event, Job, empty, Asset, upload, pending,
  ready, video, is_terminal,
}
use zolexai.Registry.{
  prompt_required, problems, prompt_problems, duration_problems, choice_problems, lyrics_problems,
  mode_problems, validate_request, get, lookup, sort_texts,
}
use zolexai.Limits.{check_request_rate, check_generation_concurrency}
use zolexai.Database.{
  append_event, find_by_idempotency_key, is_active, find_job, count_active_for_user, next_seq,
  list_events,
}
use zolexai.Database.Log.{seqs, upto}
use zolexai.Service.{record_event, World, not_found}
use zolexai.Service.Invariant.{WorldIsValid}
use zolexai.Service.Finality.{RowEvolves}
use zolexai.Service.Creation.{
  Request, insert_and_announce, violates_unique, Created, bad_parameters, create, new_row,
}
use zolexai.Service.Creation.Guards.{Outcome, create-Outcome, row_for}
use zolexai.Service.Creation.Validity.{create-WorldIsValid}
use zolexai.Protocol.Runs.{here}
use zolexai.Idempotency.{Keys, reserve, reserve_with, holder_of}
use zolexai.Generations.{
  reserved, settle, create_generation, cancel_generation, stream_generation_events, accepted,
  refused, repeated,
}
use zolexai.Generations.Retries.{retry_repeats, refusal_frees_key}
use zolexai.Generations.Ownership.{other_users_job}
use zolexai.Stream.{live, quiet, stream_job_events}
use zolexai.Stream.Order.{Rising, delivered, of_job, stream_job_events-Rising}
use zolexai.Stream.Lossless.{until_terminal, stream_job_events-lossless}
use zolexai.Storage.{
  max_size_bytes, find_asset_for_user, confirm_upload, confirm, find_asset, put_asset,
  sanitize_filename,
}
use zolexai.Storage.Uploads.{Vouched, confirm-Vouched}
use zolexai.Storage.Names.{all_safe, sanitize_filename-safe}
use zolexai.Text.{strip, lstrip, rstrip, is_space, text_length}
use zolexai.Examples.{song, env, registry, user, request, running, world_of, holding}

create-Outcome_example :
    Outcome env registry 2 user request
      (some "k2")
      (holding running)
      (create env (holding running) registry 2 user request (some "k2"))
create-Outcome_example = create-Outcome env registry 2 user request (some "k2") (holding running)

abbrev no_keys : Keys
no_keys u k = none

abbrev submitted : zolexai.Generations.Submitted × World × Keys
submitted = create_generation env 86400 registry 1 user request (some "k1") (world_of []) no_keys

abbrev made : Job
made = next_seq (row_for env registry 1 user request (some "k1") (world_of []) song)

empty-WorldIsValid : WorldIsValid (world_of [])
unfolding find_job seqs upto
empty-WorldIsValid = record { keys = tt; rows = tt; log = λ id. refl; recorded = tt }

retry_repeats_example :
    (k : Job) × RowEvolves made k
    × (create_generation env 86400 registry 2 user request (some "k1") submitted.1 submitted.2
        ≡ (repeated k, submitted.1, submitted.2))
unfolding create_generation reserved reserve reserve_with holder_of settle create check_request_rate
    validate_request problems prompt_problems duration_problems choice_problems lyrics_problems
    mode_problems zolexai.Registry.input_problems zolexai.Service.Creation.input_problems get lookup
    strip lstrip rstrip is_space insert_and_announce violates_unique find_job
    find_by_idempotency_key check_generation_concurrency count_active_for_user is_active is_terminal
    record_event append_event
retry_repeats_example =
    retry_repeats env env 86400 registry 1 2 user request "k1" (world_of []) submitted.1 no_keys
      made refl refl
      (create-WorldIsValid env (omega arith) registry 1 user request (some "k1") (world_of [])
        empty-WorldIsValid)
      here refl (omega arith)

abbrev silent : Request
silent = record request { prompt = "" }

refusal_frees_key_example :
    ((create_generation env 86400 registry 1 user silent (some "k1") (world_of []) no_keys).1.db
      ≡ (world_of []).db)
    × ((create_generation env 86400 registry 1 user silent (some "k1") (world_of []) no_keys).2 5
          "k1"
        ≡ none)
unfolding create_generation reserved reserve reserve_with holder_of settle create check_request_rate
    validate_request problems prompt_problems duration_problems choice_problems lyrics_problems
    mode_problems zolexai.Registry.input_problems zolexai.Service.Creation.input_problems get lookup
    strip lstrip rstrip is_space
refusal_frees_key_example =
    refusal_frees_key env 86400 registry 1 user silent "k1" (world_of []) no_keys
      (bad_parameters (prompt_required ∷ [])) refl refl

other_users_job_example :
    (cancel_generation env (holding running) 1 (record user { id = 6 })
      ≡ (not_found, holding running))
    × (stream_generation_events (holding running) 1 (record user { id = 6 }) 0 [] ≡ none)
unfolding find_job
other_users_job_example =
    other_users_job env (holding running) 1 (record user { id = 6 }) 0 [] running (refl, tt) refl
      (λ e. ground arith)

abbrev event : ℕ → JobStatus → Event
event n status = record {
  job_id = 1;
  seq = n;
  event_type = EventType.progress;
  status = status;
  progress = 0;
  message = "";
  payload = empty;
  created_at = 1000 + n;
}

abbrev first_two : List Event
first_two = event 1 queued ∷ event 2 generating ∷ []

abbrev last_one : List Event
last_one = event 3 completed ∷ []

stream_job_events-Rising_example : Rising 1 (
    delivered (
      stream_job_events 1 1 first_two
        (live (event 3 completed) ∷ quiet ∷ live (event 2 generating) ∷ [])))
unfolding seqs upto
stream_job_events-Rising_example =
    stream_job_events-Rising 1 1 2 first_two
      (live (event 3 completed) ∷ quiet ∷ live (event 2 generating) ∷ []) refl

stream_job_events-lossless_example :
    stream_job_events 1 1
      (event 1 queued ∷ event 2 generating ∷ [])
      (map live (of_job 1 (event 2 generating ∷ event 3 completed ∷ [])))
    ≡ map some (
        until_terminal
          (list_events 1 1 (event 1 queued ∷ event 2 generating ∷ event 3 completed ∷ [])))
unfolding seqs upto
stream_job_events-lossless_example =
    stream_job_events-lossless 1 1 (event 1 queued ∷ []) (event 2 generating ∷ []) last_one 3 refl

abbrev clip : Asset
clip = record {
  id = 4;
  user_id = 5;
  kind = video;
  source = upload;
  status = pending;
  storage_key = "users/5/uploads/4/clip.mp4";
  content_type = "video/mp4";
  size_bytes = some 10;
  original_filename = "clip.mp4";
  duration_seconds = none;
  width = none;
  height = none;
  created_at = 990;
}

abbrev stat : String → Option ℕ
stat key = some 12

confirm-Vouched_example :
    (find_asset 4 (clip ∷ []) ≡ some (record clip { size_bytes = some 12; status = ready }))
    ⊎ Vouched stat (record clip { size_bytes = some 12; status = ready })
unfolding confirm find_asset put_asset confirm_upload find_asset_for_user max_size_bytes
confirm-Vouched_example =
    confirm-Vouched stat (clip ∷ []) none none none 4 5 4
      {a = record clip { size_bytes = some 12; status = ready }} refl

sanitize_filename-safe_example :
    (all_safe (sanitize_filename "../a b.mp4") ≡ true)
    × (1 ≤ text_length (sanitize_filename "../a b.mp4"))
    × (text_length (sanitize_filename "../a b.mp4") ≤ 120)
sanitize_filename-safe_example = sanitize_filename-safe "../a b.mp4"
