-- ===== src/Guard/Contained.antt =====
-- No panic passes a guard.
use groundcover_go.Base.{◌≡◌, refl, Bool, true, false, none, some}
use groundcover_go.Guard.{
  Result, returned, panicked, Act, after_defer, with_value, Handler, report, guarded,
}

module _ {S V : Type 0} where
  -- the state after a handler, if any, has been given a panic in a state
  abbrev pub handled : Handler S V → V → S → S
  handled none v s = s
  handled (some h) v s = (h v s).1

  -- how a guarded run relates to the bare one
  pub data Contained (h : Handler S V) : Result V (Unit {0}) × S → Result V Bool × S → Type 0 where
    went_well : (u : Unit {0}) (s : S) → Contained h (returned u, s) (returned true, s)
    was_caught : (v : V) (s : S) → Contained h (panicked v, s) (returned false, handled h v s)

  report_lem : (h : Handler S V) (v : V) (s : S) → report h v s ≡ (returned tt, handled h v s)
  unfolding report
  report_lem none v s = refl
  report_lem (some h) v s = swallowed (h v s)
    where
      swallowed :
          (r : Result V (Unit {0}) × S)
          → after_defer (λ v s. (returned tt, s)) r ≡ (returned tt, r.1)
      swallowed (returned u, s) = refl
      swallowed (panicked v, s) = refl

  -- Whatever the code and the handler do, panics of the handler included, `Do` returns: true, with
  -- what the code left, if the code returned, and false, with what the handler then left, if it
  -- panicked. A nil handler leaves what the code left.
  pub guarded-Contained :
      (fn : Act S V (Unit {0})) (h : Handler S V) (s : S) → Contained h (fn s) (guarded fn h s)
  unfolding guarded
  guarded-Contained fn h s = caught (fn s)
    where
      caught :
          (r : Result V (Unit {0}) × S)
          → Contained h r (after_defer (λ v s. with_value false (report h v s)) (with_value true r))
      caught (returned u, s) = went_well u s
      caught (panicked v, s) = rw (report_lem h v s) (was_caught v s)
