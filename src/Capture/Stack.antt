-- ===== src/Capture/Stack.antt =====
-- stacktrace.go: the frames of a stack, and which of them belong to the application. What the
-- runtime finds on the stack is a parameter.
use text.Mathlib.Text.{◌==◌ as str_eq, starts_with, find?}
use Prim.Native.String.{String}
use groundcover_go.Base.{
  ℕ, ◌+◌, ◌≤◌, List, [], ◌∷◌, length, inl, inr, arith, Bool-cases, ◌≡◌, refl, Bool, true, false,
  not, ◌&&◌, none, some, if◌then◌else◌,
}
use groundcover_go.Base.Int.{ℤ, is_positive, to_nat}
use groundcover_go.Capture.Event.{Frame}

-- `strings.Contains`
abbrev pub contains : String → String → Bool
contains s t = elim (find? s t) [ none ↦ false | some i ↦ true ]

is_in_app : String → String → String → Bool
is_in_app function file in_app_prefix =
    if contains file "/vendor/"
    then false
    else (if str_eq in_app_prefix ""
        then not (starts_with function "runtime.") && contains function "."
        else starts_with function in_app_prefix)

-- what `runtime.CallersFrames` tells of a frame
pub record RuntimeFrame : Type 0 where
  pub function : String
  pub file : String
  pub line : ℕ

-- the loop over the frames
pub to_frames : String → List RuntimeFrame → List Frame
to_frames in_app_prefix [] = []
to_frames in_app_prefix (fr ∷ rest) =
    let frames = to_frames in_app_prefix rest in
    if str_eq fr.function "" && str_eq fr.file ""
    then frames
    else record {
      function = fr.function;
      file = fr.file;
      line = fr.line;
      in_app = is_in_app fr.function fr.file in_app_prefix;
    }
      ∷ frames

-- `callers n m` are the frames above the first `n` of the stack, no more than `m`.
pub capture_stack : (ℕ → ℕ → List RuntimeFrame) → ℕ → ℤ → String → List Frame
capture_stack callers skip max_depth in_app_prefix =
    let depth = if is_positive max_depth then to_nat max_depth else 128 in
    to_frames in_app_prefix (callers (skip + 2) depth)

length-to_frames-le : (p : String) (frs : List RuntimeFrame) → length (to_frames p frs) ≤ length frs
unfolding to_frames
length-to_frames-le p [] = omega arith
length-to_frames-le p (fr ∷ rest) = elim (Bool-cases (str_eq fr.function "" && str_eq fr.file "")) [
  | inl e ↦ rw e (omega (arith, length-to_frames-le p rest))
  | inr e ↦ rw e (omega (arith, length-to_frames-le p rest))
]

-- A captured stack has no more frames than its positive bound allows.
pub length-capture_stack-le :
    (callers : ℕ → ℕ → List RuntimeFrame)
    → ((n m : ℕ) → length (callers n m) ≤ m)
    → (skip : ℕ) (max_depth : ℤ) (p : String) → is_positive max_depth ≡ true
    → length (capture_stack callers skip max_depth p) ≤ to_nat max_depth
unfolding capture_stack
length-capture_stack-le callers h skip max_depth p q = rw q (
    omega (
      arith,
      length-to_frames-le p (callers (skip + 2) (to_nat max_depth)),
      h (skip + 2) (to_nat max_depth),
    ))

vendored : is_in_app "acme/shop.Run" "/src/vendor/acme/shop/run.go" "acme" ≡ false
unfolding is_in_app
vendored = refl

own_code : is_in_app "acme/shop.Run" "/src/shop/run.go" "acme/" ≡ true
unfolding is_in_app
own_code = refl
