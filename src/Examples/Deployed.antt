-- ===== src/Examples/Deployed.antt =====
-- A run against the API that completes its job.
use zolexai.Prelude.{none, some}
use zolexai.Job.{generation_failed, empty}
use zolexai.Deployment.{Reporting}
use zolexai.Examples.{env}

abbrev reporting : Reporting
reporting = record {
  env = λ n. env;
  job_id = 1;
  worker = 7;
  token = 42;
  asset_id = 9;
  output = record {
    key = "outputs/1";
    kind = "audio";
    content_type = "audio/wav";
    size_bytes = some 10;
    duration_seconds = some 30;
    width = none;
    height = none;
  };
  code = generation_failed;
  user_message = "";
  message = λ n. "";
  details = λ n. empty;
}
