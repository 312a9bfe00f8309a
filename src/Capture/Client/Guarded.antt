-- ===== src/Capture/Client/Guarded.antt =====
-- `fireOnDrop` and `writeDebug` of client.go: callbacks under a guard.
use groundcover_go.Base.{
  ℕ, ◌<◌, ◌^◌, ◌≡◌, refl, Bool, inl, inr, Option, none, some, arith, Bool-cases, if◌then◌else◌,
}
use groundcover_go.Base.Words.{add64}
use groundcover_go.Metrics.{Metrics, inc_panics_recovered}
use groundcover_go.Capture.Client.{call_guarded}

-- whether a callback panics, as a number
abbrev pub panics_on : {A : Type 0} → Option (A → Bool) → A → ℕ
panics_on none a = 0
panics_on (some f) a = if f a then 1 else 0

-- A callback under a guard changes no counter but that of the panics.
pub call_guarded-keeps :
    {A : Type 0} {B : Type 0} (f : Option (A → Bool)) (a : A) (m : Metrics) (field : Metrics → B)
    → ((m : Metrics) → field (inc_panics_recovered m) ≡ field m)
    → field (call_guarded f a m) ≡ field m
unfolding call_guarded
call_guarded-keeps none a m field h = refl
call_guarded-keeps (some f) a m field h = elim (Bool-cases (f a)) [
  | inl p ↦ rw p (h m)
  | inr p ↦ rw p refl
]

pub call_guarded-counts :
    {A : Type 0} (f : Option (A → Bool)) (a : A) (m : Metrics)
    → m.panics_recovered < 2 ^ 64
    → (call_guarded f a m).panics_recovered ≡ add64 m.panics_recovered (panics_on f a)
unfolding call_guarded inc_panics_recovered
call_guarded-counts none a m h = omega (arith, h)
call_guarded-counts (some f) a m h = elim (Bool-cases (f a)) [
  | inl p ↦ rw p refl
  | inr p ↦ rw p (omega (arith, h))
]

pub panics_on-bound : {A : Type 0} (f : Option (A → Bool)) (a : A) → panics_on f a < 2
panics_on-bound none a = omega arith
panics_on-bound (some f) a = ground arith
