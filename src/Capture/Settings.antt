-- ===== src/Capture/Settings.antt =====
-- config.go: the defaults, the validation and the endpoint of a configuration.
-- Durations are numbers of nanoseconds, of either sign. The fields that hold callbacks, the logger
-- and the HTTP client pass through `withDefaults` unread and are left out.
pub mod Defaults
mod Examples
use text.Mathlib.Text.{◌==◌ as str_eq, starts_with}
use Prim.Native.Char.{Char, code}
use Prim.Native.String.{String, [], ◌∷◌, ◌++◌}
use groundcover_go.Base.{ℕ, ◌*◌, ◌^◌, Bool, true, false, not, ◌&&◌, ◌==◌, if◌then◌else◌}
use groundcover_go.Base.Int.{ℤ, pos, negsuc, is_positive}
use groundcover_go.Transport.Config.{second}
use groundcover_go.Capture.Fingerprint.Message.{trim_space}

pub record Config : Type 0 where
  pub dsn : String
  pub max_queue : ℤ
  pub max_bytes : ℤ
  pub batch_size : ℤ
  pub flush_interval : ℤ
  pub max_batch_bytes : ℤ
  pub max_retries : ℤ
  pub retry_max : ℤ
  pub rate_limit_backoff : ℤ
  pub stack_depth_max : ℤ
  pub disabled : Bool

-- `if x <= 0 { x = default }`
abbrev pub positive_or : ℤ → ℕ → ℤ
positive_or x default = if is_positive x then x else pos default

-- the three cases of `MaxRetries`
abbrev pub retries_or : ℤ → ℤ
retries_or (negsuc n) = pos 0
retries_or (pos n) = if n == 0 then pos 3 else pos n

unfoldable pub with_client_defaults : Config → Config
with_client_defaults c = record c {
  max_queue = positive_or c.max_queue 10000;
  max_bytes = positive_or c.max_bytes (32 * 2 ^ 20);
  batch_size = positive_or c.batch_size 250;
  flush_interval = positive_or c.flush_interval (5 * second);
  max_batch_bytes = positive_or c.max_batch_bytes (512 * 2 ^ 10);
  max_retries = retries_or c.max_retries;
  retry_max = positive_or c.retry_max (30 * second);
  rate_limit_backoff = positive_or c.rate_limit_backoff (30 * second);
  stack_depth_max = positive_or c.stack_depth_max 128;
}

pub data Validity : Type 0 where
  usable missing_dsn : Validity

unfoldable pub validate : Config → Validity
validate c =
    if c.disabled then usable else (if str_eq (trim_space c.dsn) "" then missing_dsn else usable)

-- `strings.TrimRight(s, "/")`
pub trim_slashes : String → String
trim_slashes [] = []
trim_slashes (r ∷ s) = slash_before r (trim_slashes s)
  where
    slash_before : Char → String → String
    slash_before r [] = if code r == 47 then [] else r ∷ []
    slash_before r (q ∷ t) = r ∷ (q ∷ t)

-- the origin: a scheme in front of one that has none
pub with_scheme : String → String
with_scheme dsn =
    if not (str_eq dsn "") && (not (starts_with dsn "http://") && not (starts_with dsn "https://"))
    then "https://" ++ dsn
    else dsn

pub endpoint : Config → String
endpoint c = with_scheme (trim_slashes (trim_space c.dsn)) ++ "/json/rum"
