-- ===== src/Capture/Settings/Examples.antt =====
-- Tests of the client's configuration, and its theorems at concrete inputs.
use groundcover_go.Base.{◌≡◌, refl, false}
use groundcover_go.Base.Int.{pos, negsuc}
use groundcover_go.Capture.Fingerprint.Message.{trim_space, trim_left, trim_right}
use groundcover_go.Capture.Title.{is_space}
use groundcover_go.Capture.Settings.{Config, validate, usable, trim_slashes, with_scheme, endpoint}

abbrev minimal : Config
minimal = record {
  dsn = " acme.example/ ";
  max_queue = pos 0;
  max_bytes = negsuc 3;
  batch_size = pos 0;
  flush_interval = pos 0;
  max_batch_bytes = pos 0;
  max_retries = negsuc 0;
  retry_max = pos 0;
  rate_limit_backoff = pos 0;
  stack_depth_max = pos 0;
  disabled = false;
}

endpoint-minimal : endpoint minimal ≡ "https://acme.example/json/rum"
unfolding endpoint with_scheme trim_slashes trim_space trim_left trim_right is_space
endpoint-minimal = refl

-- A DSN of a slash alone is accepted, and its endpoint has neither scheme nor host.
validate-slash : validate (record minimal { dsn = "/" }) ≡ usable
unfolding validate trim_space trim_left trim_right is_space
validate-slash = refl

endpoint-slash : endpoint (record minimal { dsn = "/" }) ≡ "/json/rum"
unfolding endpoint with_scheme trim_slashes trim_space trim_left trim_right is_space
endpoint-slash = refl
