-- ===== src/Examples.antt =====
-- Concrete jobs, worlds and requests, and the theorems applied to them.
pub mod Histories
pub mod Reports
pub mod Requests
pub mod Components
pub mod Pages
pub mod Worker
pub mod Runs
pub mod Deployed
pub mod Shutdown
pub mod Lengths
pub mod Sheets
pub mod Songs
pub mod Scenes
pub mod Plans
use zolexai.Prelude.{
  ℕ, String, ◌≡◌, ◌≤◌, refl, Bool, true, false, Option, none, some, List, [], ◌∷◌, arith, ◌==◌,
  if◌then◌else◌, Bool-cases, inl, inr,
}
use zolexai.Job.{
  Job, JobStatus, queued, assigned, completed, is_terminal, Params, Event, EventType, audio,
  Payload, empty, Asset, AssetSource, AssetStatus, video, upload,
}
use zolexai.Workflow.{
  WorkflowDefinition, WorkflowPublic, PromptSpec, SettingsSpec, CapabilitiesSpec, UiSpec,
  ExecutionSpec, minutes,
}
use zolexai.Registry.{Registry}
use zolexai.Workers.{WorkerNode, WorkerStatus}
use zolexai.Limits.{User}
use zolexai.Database.{Db, find_job}
use zolexai.Database.Log.{seqs, upto, last_seq}
use zolexai.Database.Validity.{RowIsValid}
use zolexai.Service.{World, Redis, Env}
use zolexai.Service.Creation.{Request}
use zolexai.Service.Invariant.{WorldIsValid}
use zolexai.Protocol.{ClaimRequest, UploadSettings}

abbrev pub env : Env
env = record {
  now = 1000;
  redis_up = true;
  lease_seconds = 90;
  max_attempts = 3;
  default_concurrency_limit = 2;
  text_of = λ n. "id";
  row_order = λ rows. rows;
}

abbrev pub settings : UploadSettings
settings = record {
  storage_presign_expiry_seconds = 900;
  job_default_timeout_seconds = 1800;
  worker_upload_grace_seconds = 600;
}

abbrev pub song_public : WorkflowPublic
song_public = record {
  id = "music";
  version = "1.0.0";
  name = "Music";
  category = audio;
  output_type = audio;
  description = "A song";
  short_description = "A song";
  marketing_description = "A song";
  prompt = record { required = true; placeholder = ""; max_length = 100 };
  inputs = [];
  duration_mode = minutes;
  supported_durations = "1m" ∷ "3m" ∷ [];
  supported_aspect_ratios = [];
  supported_quality_levels = [];
  settings = record {
    quality = false;
    motion_strength = false;
    prompt_adherence = false;
    seed = false;
    lyrics = true;
    prompt_modes = false;
  };
  capabilities = record {
    download = true;
    extend = false;
    reuse_settings = true;
    variation = true;
  };
  ui = record { icon = "music"; thumb = "music" };
}

abbrev pub song : WorkflowDefinition
song = record {
  public = song_public;
  execution = record {
    runtime = "mock";
    output_content_type = some "audio/mpeg";
    output_kind = some audio;
    timeout_seconds = none;
  };
}

abbrev pub registry : Registry
registry = record { definitions = song ∷ [] }

abbrev pub params : Params
params = record {
  duration = some "3m";
  aspect_ratio = none;
  quality = none;
  motion_strength = 50;
  prompt_adherence = 50;
  seed = none;
  lyrics = none;
  lyrics_language = none;
  prompt_mode = none;
  dialogue_language = none;
  director_lineage = none;
}

abbrev pub user : User
user = record { id = 5; concurrency_limit = none }

abbrev pub request : Request
request = record { workflow_id = "music"; prompt = "a sea song"; parameters = params; inputs = [] }

abbrev pub waiting : Job
waiting = record {
  id = 1;
  user_id = 5;
  workflow_id = "music";
  workflow_version = "1.0.0";
  status = queued;
  progress = 0;
  stage_hint = "";
  prompt = "a sea song";
  request_params = params;
  error_code = none;
  error_message = none;
  worker_id = none;
  lease_token = none;
  lease_expires_at = none;
  attempt_count = 0;
  max_attempts = 3;
  idempotency_key = some "k1";
  last_event_seq = 0;
  created_at = 900;
  started_at = none;
  completed_at = none;
}

-- The job in the hands of a worker whose lease has run out.
abbrev pub running : Job
running = record waiting {
  status = assigned;
  worker_id = some 7;
  lease_token = some 42;
  lease_expires_at = some 990;
  attempt_count = 1;
}

abbrev pub finished : Job
finished = record waiting { status = completed; progress = 100; attempt_count = 1 }

abbrev pub node : WorkerNode
node = record {
  id = 7;
  name = "n1";
  status = WorkerStatus.online;
  runtime = "mock";
  version = "1";
  workflows = "music" ∷ [];
  runtimes = "mock" ∷ [];
  max_concurrency = 1;
  last_heartbeat_at = some 995;
}

abbrev pub claim_request : ClaimRequest
claim_request = record {
  worker_id = 7;
  workflows = [];
  runtimes = [];
  token = 43;
  locked = λ id. false;
}

abbrev pub world_of : List Job → World
world_of jobs = record {
  db = record {
    jobs = jobs;
    events = [];
    inputs = [];
    outputs = [];
    assets = [];
    workers = node ∷ [];
  };
  redis = record { channel = []; wake = []; counters = λ u. none };
}

abbrev pub holding : Job → World
holding job = world_of (job ∷ [])

holding-log :
    (job : Job) → job.last_event_seq ≡ 0 → (id : ℕ) → [] ≡ upto (last_seq (find_job id (job ∷ [])))
unfolding find_job upto
holding-log job new id = elim (Bool-cases (job.id == id)) [
  | inl t ↦ rw (t, new) refl
  | inr t ↦ rw t refl
]

pub holding-WorldIsValid :
    (job : Job) → RowIsValid job → job.last_event_seq ≡ 0 → WorldIsValid (holding job)
unfolding find_job seqs
holding-WorldIsValid job row new = record {
  keys = (refl, tt);
  rows = (row, tt);
  log = holding-log job new;
  recorded = tt;
}

pub waiting-RowIsValid : RowIsValid waiting
unfolding is_terminal
waiting-RowIsValid = ground arith

pub running-RowIsValid : RowIsValid running
unfolding is_terminal
running-RowIsValid = ground arith

pub finished-RowIsValid : RowIsValid finished
unfolding is_terminal
finished-RowIsValid = ground arith
