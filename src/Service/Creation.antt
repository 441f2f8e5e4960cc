-- ===== src/Service/Creation.antt =====
-- `GenerationService.create`: the guards in their order, the Director lineage of an extension, and
-- the insert. The row is inserted by the flush in `create_job`, before the `try` around the commit,
-- so what the database refuses there is raised as it is.
pub mod Guards
pub mod Effects
pub mod Validity
use mathlib.Core.List.{flat_map}
use zolexai.Prelude.{
  ℕ, ◌+◌, ◌*◌, String, Bool, true, false, not, ◌&&◌, ◌||◌, Option, none, some, List, [], ◌∷◌, ◌++◌,
  map, ◌==◌, ◌≈◌, ltb, if◌then◌else◌, or_text, or_default, any, is_some,
}
use zolexai.Text.{codes, strip, lower, without_suffix, all_digits, digits_value, same_codes}
use zolexai.Job.{
  JobStatus, queued, Lineage, Params, Job, JobInput, AssetKind, EventType, Payload, empty, Asset,
}
use zolexai.Workflow.{WorkflowDefinition, InputSpec, input_for}
use zolexai.Registry.{
  Registry, Problem, Verdict, valid, unsupported_workflow, invalid, validate_request,
}
use zolexai.Database.{
  Db, find_job, find_by_idempotency_key, producing_job_for_asset, append_row, next_seq,
}
use zolexai.Queue.{notify_job_available}
use zolexai.Limits.{User, Counter, check_request_rate, check_generation_concurrency}
use zolexai.Storage.{find_asset_for_user, is_ready}
use zolexai.Service.{Env, World, Redis, publish_event, record_event}

pub record Request : Type 0 where
  pub workflow_id : String
  pub prompt : String
  pub parameters : Params
  pub inputs : List (String × ℕ)

pub data MediaProblem : Type 0 where
  media_not_found not_processed : String → MediaProblem
  wrong_kind : String → AssetKind → AssetKind → MediaProblem

abbrev kind_number : AssetKind → ℕ
kind_number AssetKind.video = 0
kind_number AssetKind.image = 1
kind_number AssetKind.audio = 2

check_kind : String → Asset → Option InputSpec → List MediaProblem
check_kind role file none = []
check_kind role file (some spec) =
    if kind_number file.kind == kind_number spec.kind
    then []
    else wrong_kind role spec.kind file.kind ∷ []

check_media : WorkflowDefinition → String → Option Asset → List MediaProblem
unfolding check_kind
check_media d role none = media_not_found role ∷ []
check_media d role (some file) =
    if not (is_ready file.status)
    then not_processed role ∷ []
    else check_kind role file (input_for role d.inputs)

-- `_validate_inputs`
unfoldable pub input_problems :
    List Asset → ℕ → WorkflowDefinition → List (String × ℕ) → List MediaProblem
unfolding check_media find_asset_for_user
input_problems assets user d [] = []
input_problems assets user d ((role, id) ∷ rest) =
    check_media d role (find_asset_for_user id user assets) ++ input_problems assets user d rest

positive : ℕ → Option ℕ
positive n = if ltb 0 n then some n else none

number : ℕ → List ℕ → Option ℕ
unfolding positive
number unit text = if all_digits text then positive (digits_value 0 text * unit) else none

-- `_duration_seconds`, on the texts that a definition can offer: digits and a unit.
unfoldable pub duration_seconds : Option String → Option ℕ
unfolding number lower
duration_seconds none = none
duration_seconds (some value) =
    let text = lower (strip value) in
    elim (without_suffix b'm' text) [
      | some body ↦ number 60 body
      | none ↦ elim (without_suffix b's' text) [ some body ↦ number 1 body | none ↦ number 1 text ]
    ]

role_asset : String → List (String × ℕ) → Option ℕ
role_asset role [] = none
role_asset role ((r, id) ∷ rest) = if r ≈ role then some id else role_asset role rest

-- The asset of a job's input in the role.
input_asset : ℕ → String → List JobInput → Option ℕ
input_asset job role [] = none
input_asset job role (i ∷ rest) =
    if (i.job_id == job) && (i.role ≈ role) then some i.asset_id else input_asset job role rest

ready_id : Option Asset → Option ℕ
ready_id none = none
ready_id (some file) = if is_ready file.status then some file.id else none

unfoldable pub usable_identity_asset : List Asset → ℕ → Option ℕ → Option ℕ
unfolding ready_id find_asset_for_user
usable_identity_asset assets user none = none
usable_identity_asset assets user (some id) = ready_id (find_asset_for_user id user assets)

is_director_mode : Option String → Bool
unfolding lower
is_director_mode none = false
is_director_mode (some mode) = same_codes (lower (strip mode)) (codes "director")

-- What an extension of an extension inherits.
inherit : ℕ → ℕ → Lineage → Lineage
inherit parent seconds lineage = record lineage {
  prior_seconds = lineage.prior_seconds + seconds;
  parent_job_id = parent;
}

begin_lineage : Job → Option ℕ → Lineage
begin_lineage parent identity = record {
  dialogue_language = or_text (or_default parent.request_params.dialogue_language "") "auto";
  idea = parent.prompt;
  prior_seconds = or_default (duration_seconds parent.request_params.duration) 0;
  source_workflow = parent.workflow_id;
  parent_job_id = parent.id;
  identity_image_asset_id = identity;
}

parent_lineage : Db → Job → Option Lineage
unfolding inherit begin_lineage is_director_mode input_asset duration_seconds
parent_lineage db parent =
    if parent.workflow_id ≈ "extend-video"
    then elim parent.request_params.director_lineage [
      | none ↦ none
      | some l ↦
          some
            (inherit parent.id (or_default (duration_seconds parent.request_params.duration) 0) l)
    ]
    else if is_director_mode parent.request_params.prompt_mode
    then some (begin_lineage parent (input_asset parent.id "source_image" db.inputs))
    else none

with_identity : Db → ℕ → Option Lineage → Option Lineage × Option ℕ
unfolding usable_identity_asset
with_identity db user none = (none, none)
with_identity db user (some l) =
    (some l, usable_identity_asset db.assets user l.identity_image_asset_id)

abbrev lineage_of : Db → ℕ → Option Job → Option Lineage × Option ℕ
lineage_of db user none = (none, none)
lineage_of db user (some parent) = with_identity db user (parent_lineage db parent)

-- The ancestry of an extension's source and its identity image, or nothing.
unfoldable pub director_lineage : Db → ℕ → List (String × ℕ) → Option Lineage × Option ℕ
unfolding parent_lineage with_identity role_asset producing_job_for_asset
director_lineage db user inputs = elim (role_asset "source_video" inputs) [
  | none ↦ (none, none)
  | some source ↦ lineage_of db user (producing_job_for_asset db source user)
]

-- `job_inputs["identity_image"] = asset`
set_role : String → ℕ → List (String × ℕ) → List (String × ℕ)
set_role role id [] = (role, id) ∷ []
set_role role id ((r, i) ∷ rest) =
    if r ≈ role then (r, id) ∷ rest else (r, i) ∷ set_role role id rest

extended_inputs : Option Lineage × Option ℕ → List (String × ℕ) → List (String × ℕ)
unfolding set_role
extended_inputs (some l, some id) inputs = set_role "identity_image" id inputs
extended_inputs _ inputs = inputs

-- The parameters and inputs that are stored with the job.
pub stored : Db → ℕ → WorkflowDefinition → Request → Params × List (String × ℕ)
unfolding director_lineage extended_inputs
stored db user d request =
    let found = director_lineage db user request.inputs in
    if d.id ≈ "extend-video"
    then (
      record request.parameters { director_lineage = found.0 },
      extended_inputs found request.inputs,
    )
    else (record request.parameters { director_lineage = none }, request.inputs)

abbrev holds_key : Db → ℕ → Option String → Bool
holds_key db user none = false
holds_key db user (some key) = is_some (find_by_idempotency_key user key db.jobs)

-- The primary key, and the unique index on the user and the idempotency key.
unfoldable pub violates_unique : Db → ℕ → ℕ → Option String → Bool
unfolding find_job find_by_idempotency_key
violates_unique db id user key = is_some (find_job id db.jobs) || holds_key db user key

unfoldable pub new_row : Env → ℕ → ℕ → WorkflowDefinition → String → Params → Option String → Job
new_row env id user d prompt params key = record {
  id = id;
  user_id = user;
  workflow_id = d.id;
  workflow_version = d.version;
  status = queued;
  progress = 0;
  stage_hint = "Waiting for an available slot…";
  prompt = strip prompt;
  request_params = params;
  error_code = none;
  error_message = none;
  worker_id = none;
  lease_token = none;
  lease_expires_at = none;
  attempt_count = 0;
  max_attempts = env.max_attempts;
  idempotency_key = key;
  last_event_seq = 0;
  created_at = env.now;
  started_at = none;
  completed_at = none;
}

abbrev input_rows : ℕ → List (String × ℕ) → List JobInput
input_rows job inputs = map (λ p. record { job_id = job; asset_id = p.1; role = p.0 }) inputs

-- The job with its inputs.
unfoldable pub create_job : Db → Job → List (String × ℕ) → Db
create_job db job inputs = record db {
  jobs = db.jobs ++ job ∷ [];
  inputs = db.inputs ++ input_rows job.id inputs;
}

pub data Created : Type 0 where
  created : Job → Created
  rate_limited tool_unavailable integrity_error : Created
  bad_parameters : List Problem → Created
  bad_media : List MediaProblem → Created
  too_many_running : ℕ → Created

-- The insert, the first event, the commit and the announcements.
unfoldable pub insert_and_announce :
    Env → World → ℕ → User → WorkflowDefinition → Request → Option String → Created × World
insert_and_announce env world id user d request key =
    let (params, inputs) = stored world.db user.id d request in
    let job = new_row env id user.id d request.prompt params key in
    let (row, world') =
      record_event env world (create_job world.db job inputs) job EventType.status job.stage_hint
        empty in
    let announced : World = record world' {
      redis = record world'.redis { wake = notify_job_available env.redis_up id world'.redis.wake };
    } in
    if violates_unique world.db id user.id key
    then (integrity_error, world)
    else (created row, announced)

abbrev pub check_running :
    Env
    → World
    → ℕ
    → User
    → WorkflowDefinition
    → Request
    → Option String
    → Option ℕ
    → Created × World
check_running env world id user d request key (some running) = (too_many_running running, world)
check_running env world id user d request key none =
    insert_and_announce env world id user d request key

abbrev pub check_inputs :
    Env
    → World
    → ℕ
    → User
    → WorkflowDefinition
    → Request
    → Option String
    → List MediaProblem
    → Created × World
check_inputs env world id user d request key (p ∷ ps) = (bad_media (p ∷ ps), world)
check_inputs env world id user d request key [] =
    check_running env world id user d request key
      (check_generation_concurrency env.default_concurrency_limit world.db.jobs user)

abbrev pub check_verdict :
    Env → World → ℕ → User → Request → Option String → Verdict → Created × World
check_verdict env world id user request key unsupported_workflow = (tool_unavailable, world)
check_verdict env world id user request key (invalid code ps) = (bad_parameters ps, world)
check_verdict env world id user request key (valid d) =
    check_inputs env world id user d request key
      (input_problems world.db.assets user.id d request.inputs)

abbrev pub counted : World → ℕ → Option Counter → World
counted world user counter = record world {
  redis = record world.redis {
    counters = λ u. if u == user then counter else world.redis.counters u;
  };
}

-- `id` is the fresh id of the job. The limit is 30 requests in 60 seconds.
unfoldable pub create :
    Env → World → Registry → ℕ → User → Request → Option String → Created × World
create env world registry id user request key =
    let (admitted, counter) =
      check_request_rate env.redis_up env.now 30 60 (world.redis.counters user.id) in
    let world' = counted world user.id counter in
    if not admitted
    then (rate_limited, world')
    else check_verdict env world' id user request key (
        validate_request registry request.workflow_id request.prompt request.parameters
          (map (λ p. p.0) request.inputs))
