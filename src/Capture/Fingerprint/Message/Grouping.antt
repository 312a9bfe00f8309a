-- ===== src/Capture/Fingerprint/Message/Grouping.antt =====
-- Which messages share a grouping key.
use Prim.Native.String.{String, [], ◌∷◌, ◌++◌}
use text.Mathlib.TextLemmas.{nil-append, cons-append}
use groundcover_go.Base.{◌≡◌, refl, ap, Bool, true, false, ◌&&◌, arith, if◌then◌else◌}
use groundcover_go.Capture.Fingerprint.Digits.{is_digit}
use groundcover_go.Capture.Fingerprint.Message.{normalize_from, trim_space, normalize_message}

-- digits alone
unfoldable pub all_digits : String → Bool
all_digits [] = true
all_digits (r ∷ s) = is_digit r && all_digits s

-- one digit at least, and nothing else
unfoldable pub digit_run : String → Bool
digit_run [] = false
digit_run (r ∷ s) = is_digit r && all_digits s

-- Digits that go on a run leave no trace.
digits_absorbed :
    (d s : String) → all_digits d ≡ true → normalize_from true (d ++ s) ≡ normalize_from true s
unfolding all_digits normalize_from
digits_absorbed [] s h = rw (nil-append s) refl
digits_absorbed (r ∷ d) s h =
    let e : is_digit r ≡ true = ground arith in
    let rest : all_digits d ≡ true = ground arith in
    rw (cons-append r d s, e) (digits_absorbed d s rest)

-- A run comes to the same as a single "0".
run_as_zero :
    (in_digits : Bool) (d s : String)
    → digit_run d ≡ true
    → normalize_from in_digits (d ++ s)
      ≡ (if in_digits then normalize_from true s else "0" ∷ normalize_from true s)
unfolding digit_run normalize_from
run_as_zero in_digits [] s h = ground arith
run_as_zero in_digits (r ∷ d) s h =
    let e : is_digit r ≡ true = ground arith in
    let rest : all_digits d ≡ true = ground arith in
    rw (cons-append r d s, e, digits_absorbed d s rest) refl

runs_alike :
    (in_digits : Bool) (a d e b : String)
    → digit_run d ≡ true
    → digit_run e ≡ true
    → normalize_from in_digits (a ++ (d ++ b)) ≡ normalize_from in_digits (a ++ (e ++ b))
unfolding normalize_from
runs_alike in_digits [] d e b h k =
    rw
      (
        nil-append (d ++ b),
        nil-append (e ++ b),
        run_as_zero in_digits d b h,
        run_as_zero in_digits e b k,
      )
      refl
runs_alike in_digits (r ∷ a) d e b h k =
    rw
      (
        cons-append r a (d ++ b),
        cons-append r a (e ++ b),
        runs_alike true a d e b h k,
        runs_alike false a d e b h k,
      )
      refl

-- Two messages that differ in one run of digits, by its digits or its length, normalize alike.
pub normalize_message_runs :
    (a d e b : String)
    → digit_run d ≡ true
    → digit_run e ≡ true
    → normalize_message (a ++ (d ++ b)) ≡ normalize_message (a ++ (e ++ b))
unfolding normalize_message
normalize_message_runs a d e b h k = ap trim_space (runs_alike false a d e b h k)
