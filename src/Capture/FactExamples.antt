-- ===== src/Capture/FactExamples.antt =====
-- Identifiers, error types and resources: the theorems at concrete inputs.
use text.Mathlib.Text.{◌==◌ as str_eq}
use groundcover_go.Base.{ℕ, ◌≡◌, refl, none, some, List, [], ◌∷◌, arith, tabulate, if◌then◌else◌}
use groundcover_go.Capture.Attributes.{get}
use groundcover_go.Capture.Attributes.Lookup.{first_of}
use groundcover_go.Capture.Event.{Event}
use groundcover_go.Capture.Wire.{build_metadata, is_session_level_key, is_sdk_managed_key}
use groundcover_go.Capture.Wire.Managed.{pick, managed}
use groundcover_go.Capture.Identifiers.{new_uuid}
use groundcover_go.Capture.Identifiers.Decoded.{Decoded, new_uuid_roundtrip}
use groundcover_go.Capture.ErrorType.{
  Own, pointer_to, named, Error, plain, wraps, joins, then_error, then_nil, no_errors, error_type,
}
use groundcover_go.Capture.ErrorType.Innermost.{Classified, error_type-Classified}
use groundcover_go.Capture.Resource.{Host, ServiceConfig, detect_resource}
use groundcover_go.Capture.Resource.Detected.{known, detect_resource_lem}

-- 16 random bytes: 200, 201, …
abbrev drawn : List ℕ
drawn = tabulate (λ i. i) 200 16

new_uuid_roundtrip_example : Decoded drawn (new_uuid (some drawn))
new_uuid_roundtrip_example = new_uuid_roundtrip drawn refl (omega arith)

-- a `*fs.PathError` of the package io/fs
abbrev path_error : Own
path_error = record {
  go_type =
      pointer_to (named (b'P' ∷ b'E' ∷ []) (b'i' ∷ b'o' ∷ b'/' ∷ b'f' ∷ b's' ∷ []) (b'f' ∷ []));
  error_type = none;
}

-- a wrapper that names a type of its own
abbrev relabelling : Own
relabelling = record { go_type = named (b'W' ∷ []) [] []; error_type = some (b'x' ∷ []) }

-- the wrapper behind a join that has another branch besides
abbrev wrapped : Error
wrapped = joins relabelling (then_error (wraps relabelling (plain path_error)) (then_nil no_errors))

error_type-Classified_example : Classified (error_type (some wrapped)) wrapped
error_type-Classified_example = error_type-Classified wrapped

-- a pod whose only variables are the service's name and the namespace
abbrev pod : Host
pod = record {
  getenv = λ k. if str_eq k "NAMESPACE" then "prod" else "";
  hostname = "h1";
  build_info = none;
  module_path = "github.com/groundcover-com/groundcover-go";
  runtime_version = "go1.24";
  goos = "linux";
  goarch = "amd64";
  num_cpu = "4";
  gomaxprocs = "4";
  now = 0;
}

abbrev shop : ServiceConfig
shop = record { service_name = "shop"; env = ""; release = "1.2" }

detect_resource_lem_example :
    (get (detect_resource shop pod).attrs "host.name" ≡ pick (known shop pod) "host.name" none)
    × ((e : Event)
        → get (build_metadata e (detect_resource shop pod).attrs) "host.name"
          ≡ pick (managed e) "host.name" (
              first_of
                (if is_session_level_key "host.name"
                  then none
                  else pick (known shop pod) "host.name" none)
                (if is_sdk_managed_key "host.name" then none else get e.attributes "host.name")))
detect_resource_lem_example = detect_resource_lem shop pod "host.name"
