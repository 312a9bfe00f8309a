-- ===== src/Capture/Fingerprint/Message.antt =====
-- `normalizeMessage` of fingerprint.go.
pub mod Grouping
use Prim.Native.String.{String, [], ◌∷◌}
use Prim.Native.Char.{Char}
use groundcover_go.Base.{Bool, true, false, if◌then◌else◌}
use groundcover_go.Capture.Fingerprint.Digits.{is_digit}
use groundcover_go.Capture.Title.{is_space}

-- the loop, with `inDigits`
pub normalize_from : Bool → String → String
normalize_from in_digits [] = []
normalize_from in_digits (r ∷ msg) =
    if is_digit r
    then (if in_digits then normalize_from true msg else "0" ∷ normalize_from true msg)
    else r ∷ normalize_from false msg

-- `strings.TrimSpace`, at the end and at the front
unfoldable pub trim_right : String → String
trim_right [] = []
trim_right (r ∷ s) = prepend r (trim_right s)
  where
    prepend : Char → String → String
    prepend r [] = if is_space r then [] else r ∷ []
    prepend r (q ∷ t) = r ∷ (q ∷ t)

unfoldable pub trim_left : String → String
trim_left [] = []
trim_left (r ∷ s) = if is_space r then trim_left s else r ∷ s

unfoldable pub trim_space : String → String
trim_space s = trim_left (trim_right s)

pub normalize_message : String → String
normalize_message msg = trim_space (normalize_from false msg)
