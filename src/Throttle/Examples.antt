-- ===== src/Throttle/Examples.antt =====
-- Tests of the throttler, and its theorems at concrete inputs.
use groundcover_go.Base.{ℕ, ◌+◌, ◌≤◌, ◌≡◌, refl, true, false, List, [], ◌∷◌, none, arith}
use groundcover_go.Base.Int.{pos}
use groundcover_go.Throttle.{
  Key, same_key, Options, new, put, roll, admit, log_at, run, level_string,
}
use groundcover_go.Throttle.Counts.{pending, calls_of, emitted_of, reported_of, run-pending}
use groundcover_go.Throttle.Limits.{emitted, window_quiet, burst_capped}

abbrev options : Options
options = record { window = pos 50; global_window = pos 10; global_cap = pos 2 }

abbrev here : Key
here = record { file = "a.go"; line = 3; level = 3 }

abbrev there : Key
there = record { file = "b.go"; line = 9; level = 3 }

abbrev calls : List (ℕ × Key)
calls = (100, here) ∷ (105, here) ∷ (106, there) ∷ (160, here) ∷ []

answers :
    (run (new options) calls).0
    ≡ (here, true, 0) ∷ (here, false, 0) ∷ (there, true, 0) ∷ (here, true, 1) ∷ []
unfolding run admit roll put new same_key
answers = refl

no_sink : (log_at false (new options) 100 here 3 "x").0 ≡ none
unfolding log_at admit roll put new same_key
no_sink = refl

error_name : level_string 3 ≡ "error"
unfolding level_string
error_name = refl

run-pending_example :
    let (given, end) = run (new options) calls in
    pending (new options) here + calls_of here calls
    ≡ emitted_of here given + reported_of here given + pending end here
run-pending_example = run-pending (new options) calls here

window_quiet_example :
    emitted_of here (run (admit (new options) 100 here).1 ((120, there) ∷ (149, here) ∷ [])).0 ≡ 0
unfolding admit roll put new same_key
window_quiet_example =
    window_quiet (new options) 100 here ((120, there) ∷ (149, here) ∷ []) refl (omega arith)

burst_capped_example :
    (run (new options) ((100, here) ∷ [])).1.global_count
      + emitted (run (run (new options) ((100, here) ∷ [])).1 ((106, there) ∷ [])).0
    ≤ 2
unfolding run admit roll put new same_key
burst_capped_example =
    burst_capped options ((100, here) ∷ []) ((106, there) ∷ []) refl (omega arith) (omega arith)
