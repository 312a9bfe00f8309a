-- ===== src/Capture/ErrorType.antt =====
-- errors.go. A text is the list of its bytes. An error is a value of a finite type, so that its
-- chain of `Unwrap` calls ends; `errors.Join` and `fmt.Errorf` give such errors.
pub mod Innermost
use groundcover_go.Base.{
  ℕ, zero, suc, Bool, List, [], ◌∷◌, ◌++◌, Option, none, some, ◌==◌, if◌then◌else◌, replicate, drop,
}

-- what `reflect` tells of a type
pub data GoType : Type 0 where
  pointer_to : GoType → GoType
  -- its name, empty for an anonymous type, its package's path, and its string form
  named : List ℕ → List ℕ → List ℕ → GoType

-- an error's concrete type, and what its `ErrorType` method returns, if it has one
pub record Own : Type 0 where
  pub go_type : GoType
  pub error_type : Option (List ℕ)

mutual
  pub data Error : Type 0 where
    plain : Own → Error
    -- `Unwrap() error`, which may return nil
    wraps : Own → Error → Error
    wraps_nil : Own → Error
    -- `Unwrap() []error`
    joins : Own → Errors → Error

  -- a branch may be nil
  pub data Errors : Type 0 where
    no_errors : Errors
    then_nil : Errors → Errors
    then_error : Error → Errors → Errors

-- `innermostError`, none for a nil branch
unfoldable pub innermost_error : Error → Option Error
innermost_error (plain o) = some (plain o)
innermost_error (wraps o e) = innermost_error e
innermost_error (wraps_nil o) = some (wraps_nil o)
innermost_error (joins o no_errors) = some (joins o no_errors)
innermost_error (joins o (then_nil rest)) = none
innermost_error (joins o (then_error e rest)) = innermost_error e

unfoldable pub own : Error → Own
own (plain o) = o
own (wraps o e) = o
own (wraps_nil o) = o
own (joins o es) = o

-- `strings.LastIndexByte`
abbrev pub later : Option ℕ → Bool → Option ℕ
later (some i) here = some (suc i)
later none here = if here then some 0 else none

unfoldable pub last_index_byte : List ℕ → ℕ → Option ℕ
last_index_byte [] c = none
last_index_byte (x ∷ xs) c = later (last_index_byte xs c) (x == c)

abbrev pub after : Option ℕ → List ℕ → List ℕ
after none p = p
after (some i) p = drop (suc i) p

unfoldable pub last_path_segment : List ℕ → List ℕ
last_path_segment p = after (last_index_byte p b'/') p

-- `strings.TrimPrefix(s, "*")`
abbrev pub trim_star : List ℕ → List ℕ
trim_star [] = []
trim_star (c ∷ cs) = if c == b'*' then cs else c ∷ cs

-- `typeName` behind the stars of the pointers that it has gone through
abbrev pub bare_name : List ℕ → List ℕ → List ℕ → List ℕ
bare_name [] pkg str = trim_star str
bare_name (c ∷ name) [] str = c ∷ name
bare_name (c ∷ name) (d ∷ pkg) str = last_path_segment (d ∷ pkg) ++ (b'.' ∷ c ∷ name)

unfoldable pub type_name_from : ℕ → GoType → List ℕ
type_name_from stars (pointer_to t) = type_name_from (suc stars) t
type_name_from stars (named name pkg str) = replicate stars b'*' ++ bare_name name pkg str

unfoldable pub type_name : GoType → List ℕ
type_name t = type_name_from 0 t

-- the override, if it is not empty, or the reflected type
abbrev pub typed : Option (List ℕ) → GoType → List ℕ
typed none t = type_name t
typed (some []) t = type_name t
typed (some (c ∷ cs)) t = c ∷ cs

abbrev pub of_innermost : Option Error → List ℕ
of_innermost none = b'e' ∷ b'r' ∷ b'r' ∷ b'o' ∷ b'r' ∷ []
of_innermost (some e) = typed (own e).error_type (own e).go_type

-- `errorType`; a nil error has the empty type
unfoldable pub error_type : Option Error → List ℕ
error_type none = []
error_type (some e) = of_innermost (innermost_error e)
