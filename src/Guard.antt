-- ===== src/Guard.antt =====
-- internal/safeguard/safeguard.go: panics, and the guards against them.
-- A piece of code is a function from the state of the program to what it comes to and the state it
-- leaves; a panic is a value. `debug.Stack` is left out of what a handler is given.
pub mod Contained
mod Examples
use groundcover_go.Base.{Bool, true, false, Option, none, some}

pub data Result (V A : Type 0) : Type 0 where
  returned : A → Result V A
  panicked : V → Result V A

-- code over states `S`, with panic values `V`
abbrev pub Act : Type 0 → Type 0 → Type 0 → Type 0
Act S V A = S → Result V A × S

-- a nil handler, or one that may panic itself
abbrev pub Handler : Type 0 → Type 0 → Type 0
Handler S V = Option (V → Act S V (Unit {0}))

module _ {S V : Type 0} where
  module _ {A : Type 0} where
    -- `defer func() { if r := recover(); r != nil { … } }()` around a piece of code
    abbrev pub after_defer : (V → Act S V A) → Result V A × S → Result V A × S
    after_defer k (returned a, s) = (returned a, s)
    after_defer k (panicked v, s) = k v s

    abbrev pub recovering : Act S V A → (V → Act S V A) → Act S V A
    recovering m k s = after_defer k (m s)

    abbrev pub give : A → Act S V A
    give a s = (returned a, s)

  -- one piece of code, and a value after it
  abbrev pub with_value : {A : Type 0} → A → Result V (Unit {0}) × S → Result V A × S
  with_value a (returned u, s) = (returned a, s)
  with_value a (panicked v, s) = (panicked v, s)

  pub report : Handler S V → V → Act S V (Unit {0})
  report none v = give tt
  report (some h) v = recovering (h v) (λ secondary. give tt)

  -- `Do`
  pub guarded : Act S V (Unit {0}) → Handler S V → Act S V Bool
  guarded fn h = recovering (λ s. with_value true (fn s)) (λ v s. with_value false (report h v s))

  -- `defer Recover(handler)` around a piece of code, which is also what `Go` runs
  pub deferring_recover : Act S V (Unit {0}) → Handler S V → Act S V (Unit {0})
  deferring_recover fn h = recovering fn (λ v. report h v)
