-- ===== src/Capture/Logger.antt =====
-- logger.go: from a line of the throttled log to one of log/slog. What slog does with a record is
-- no part of it.
use text.Mathlib.Text.{◌==◌ as str_eq}
use Prim.Native.String.{String}
use groundcover_go.Base.{ℕ, ◌≡◌, refl, ◌||◌, Option, none, some, ltb, ◌==◌, if◌then◌else◌}
use groundcover_go.Throttle.{Level as ThrottleLevel}
use groundcover_go.Capture.Event.{Level}

unfoldable pub from_throttle_level : ThrottleLevel → Level
from_throttle_level l =
    if l == 0
    then "debug"
    else (if l == 1
        then "info"
        else (if l == 2 then "warning" else (if l == 3 then "error" else "info")))

pub data SlogLevel : Type 0 where
  level_debug level_info level_warn level_error : SlogLevel

unfoldable pub to_slog_level : Level → SlogLevel
to_slog_level l =
    if str_eq l "debug"
    then level_debug
    else (if str_eq l "info"
        then level_info
        else (if str_eq l "warning"
            then level_warn
            else (if str_eq l "error" || str_eq l "fatal" then level_error else level_info)))

-- a record of log/slog, with its two attributes
pub record SlogRecord : Type 0 where
  pub level : SlogLevel
  pub message : String
  pub component : String
  pub suppressed : Option ℕ

-- `slogLogger.Log`
unfoldable pub slog_log : Level → String → ℕ → SlogRecord
slog_log level msg suppressed = record {
  level = to_slog_level level;
  message = msg;
  component = "groundcover-sdk";
  suppressed = if ltb 0 suppressed then some suppressed else none;
}

-- `loggerSink.Log`: what a logger, if there is one, makes of a line
unfoldable pub sink_log :
    {A : Type 0} → Option (Level → String → ℕ → A) → ThrottleLevel → String → ℕ → Option A
sink_log none level msg suppressed = none
sink_log (some log) level msg suppressed = some (log (from_throttle_level level) msg suppressed)

-- the levels of the throttled log, through both tables
abbrev seen : ThrottleLevel → SlogLevel
seen l = to_slog_level (from_throttle_level l)

levels_kept :
    (seen 0 ≡ level_debug) × (seen 1 ≡ level_info) × (seen 2 ≡ level_warn) × (seen 3 ≡ level_error)
unfolding to_slog_level from_throttle_level
levels_kept = (refl, refl, refl, refl)

reported_once :
    sink_log (some slog_log) 2 "slow" 4
    ≡ some (record {
      level = level_warn;
      message = "slow";
      component = "groundcover-sdk";
      suppressed = some 4;
    })
unfolding sink_log slog_log to_slog_level from_throttle_level
reported_once = refl
