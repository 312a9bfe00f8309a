-- ===== src/Guard/Examples.antt =====
-- The guards at a concrete input: a state that counts the calls of a handler.
use groundcover_go.Base.{ℕ, ◌+◌, ◌≡◌, refl, false, some}
use groundcover_go.Guard.{returned, panicked, Handler, report, guarded}
use groundcover_go.Guard.Contained.{Contained, guarded-Contained}

-- counts, and then panics itself
abbrev clumsy : Handler ℕ ℕ
clumsy = some (λ v s. (panicked v, s + 1))

guarded-clumsy : guarded (λ s. (panicked 7, s)) clumsy 3 ≡ (returned false, 4)
unfolding guarded report
guarded-clumsy = refl

guarded-Contained_example :
    Contained clumsy (panicked 7, 3) (guarded (λ s. (panicked 7, s)) clumsy 3)
guarded-Contained_example = guarded-Contained (λ s. (panicked 7, s)) clumsy 3
