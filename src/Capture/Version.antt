-- ===== src/Capture/Version.antt =====
-- version.go: the reading of a module's version.
use text.Mathlib.Text.{◌==◌ as str_eq}
use Prim.Native.Char.{code}
use Prim.Native.String.{String, [], ◌∷◌}
use groundcover_go.Base.{◌||◌, ◌==◌, if◌then◌else◌}

-- `strings.TrimPrefix(v, "v")`
abbrev pub trim_v : String → String
trim_v [] = []
trim_v (r ∷ s) = if code r == 118 then s else r ∷ s

pub normalize_module_version : String → String
normalize_module_version v = if str_eq v "" || str_eq v "(devel)" then "" else trim_v v
