-- ===== src/Throttle.antt =====
-- internal/logthrottle/logthrottle.go: the self-throttling log front-end.
-- Times and durations are numbers of nanoseconds; the zero `time.Time` is 0. The mutex makes each
-- `admit` one step. `now.Sub` is negative only where the clock runs back, and is then below every
-- window, as 0 is.
pub mod Counts
pub mod Limits
mod Examples
use text.Mathlib.Text.{◌==◌ as str_eq}
use Prim.Native.String.{String}
use groundcover_go.Base.{
  ℕ, ◌+◌, ◌-◌, ◌*◌, Bool, true, false, ◌&&◌, ◌||◌, Option, none, some, List, [], ◌∷◌, ltb, leb,
  ◌==◌, if◌then◌else◌,
}
use groundcover_go.Base.Int.{ℤ, pos, is_positive, to_nat}

-- `Level` is an int; its names are 0 to 3.
abbrev pub Level : Type 0
Level = ℕ

unfoldable pub level_string : Level → String
level_string l =
    if l == 0
    then "debug"
    else (if l == 1
        then "info"
        else (if l == 2 then "warn" else (if l == 3 then "error" else "info")))

-- a call site and a level
pub record Key : Type 0 where
  pub file : String
  pub line : ℕ
  pub level : Level

pub same_key : Key → Key → Bool
same_key a b = str_eq a.file b.file && (a.line == b.line && a.level == b.level)

pub record Entry : Type 0 where
  pub next_allowed : ℕ
  pub suppressed : ℕ

pub record Throttler : Type 0 where
  pub window : ℕ
  pub global_window : ℕ
  pub global_cap : ℤ
  pub entries : Key → Option Entry
  pub global_window_start : ℕ
  pub global_count : ℕ

pub record Options : Type 0 where
  pub window : ℤ
  pub global_window : ℤ
  pub global_cap : ℤ

-- `New`, less the clock and the sink
pub new : Options → Throttler
new opts = record {
  window = if is_positive opts.window then to_nat opts.window else 5 * 1000000000;
  global_window = if is_positive opts.global_window then to_nat opts.global_window else 1000000000;
  global_cap = opts.global_cap;
  entries = λ _. none;
  global_window_start = 0;
  global_count = 0;
}

-- `t.entries[k]`, or the new entry that takes the place of a missing one
abbrev pub or_new : Option Entry → Entry
or_new none = record { next_allowed = 0; suppressed = 0 }
or_new (some e) = e

pub put : Throttler → Key → Entry → Throttler
put t k e = record t { entries = λ j. if same_key k j then some e else t.entries j }

-- the first test of `admit`: a new global window
pub roll : Throttler → ℕ → Throttler
roll t now =
    if t.global_window_start == 0 || leb t.global_window (now - t.global_window_start)
    then record t { global_window_start = now; global_count = 0 }
    else t

-- the answer, and the throttler after it
pub admit : Throttler → ℕ → Key → (Bool × ℕ) × Throttler
admit t now k =
    let t' = roll t now in
    let e = or_new (t'.entries k) in
    let refused = put t' k (record e { suppressed = e.suppressed + 1 }) in
    if ltb now e.next_allowed
    then ((false, 0), refused)
    else (if is_positive t.global_cap && leb (to_nat t.global_cap) t'.global_count
        then ((false, 0), refused)
        else (
          (true, e.suppressed),
          put (record t' { global_count = t'.global_count + 1 }) k
              (record { next_allowed = now + t.window; suppressed = 0 }),
        ))

-- a line that reaches the sink
pub record Line : Type 0 where
  pub level : Level
  pub msg : String
  pub suppressed : ℕ

-- `logAt`: the line that `deliver` hands to the sink, if any. A nil sink gets none; what a sink does
-- with it, a panic included, is contained.
pub log_at : Bool → Throttler → ℕ → Key → Level → String → Option Line × Throttler
log_at has_sink t now k level msg =
    let ((emit, suppressed), t') = admit t now k in
    (
      if emit && has_sink
          then some (record { level = level; msg = msg; suppressed = suppressed })
          else none,
      t',
    )

-- A sequence of calls of `admit`, with their times, and the answers.
pub run : Throttler → List (ℕ × Key) → List (Key × Bool × ℕ) × Throttler
run t [] = ([], t)
run t ((now, k) ∷ calls) =
    let ((emit, suppressed), t') = admit t now k in
    let (answers, end) = run t' calls in ((k, emit, suppressed) ∷ answers, end)
