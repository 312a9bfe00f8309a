-- ===== src/Capture/Resource/Detected.antt =====
-- What the resource of a service says, and what of it reaches an event.
use text.Mathlib.Text.{◌==◌ as str_eq}
use Prim.Native.String.{String}
use groundcover_go.Base.{
  ◌≡◌, refl, ap, ◌∙◌, Bool-cases, inl, inr, Option, none, some, List, [], ◌∷◌, if◌then◌else◌,
}
use groundcover_go.Capture.Attributes.{Value, Attributes, string, get}
use groundcover_go.Capture.Attributes.Lookup.{first_of}
use groundcover_go.Capture.Event.{Event}
use groundcover_go.Capture.Wire.{
  is_session_level_key, is_sdk_managed_key, set_if_non_empty, build_metadata,
}
use groundcover_go.Capture.Wire.Managed.{pick, non_empty, managed, row, set_row, build_metadata_lem}
use groundcover_go.Capture.Resource.{
  Host, ServiceConfig, version, sdk_name, service_name_of, env_of, release_of, namespace_of,
  cluster_of, first_non_empty, runtime_attributes, detected_attributes, detect_resource,
}

-- The first of the texts that is not empty, as a value; none if all are.
abbrev pub first_text : List String → Option Value
first_text [] = none
first_text (v ∷ vals) = first_of (non_empty v) (first_text vals)

-- the keys of the resource, and their values on a host, the sources of each in their precedence
abbrev pub known : ServiceConfig → Host → List (String × Option Value)
known cfg host =
    let env = host.getenv in
    (
      "k8s.cluster.name",
      first_text (env "GC_CLUSTER" ∷ env "CLUSTER_NAME" ∷ env "K8S_CLUSTER_NAME" ∷ []),
    )
    ∷ ("k8s.node.name", first_text (env "NODE_NAME" ∷ []))
    ∷ (
      "k8s.namespace.name",
      first_text (env "POD_NAMESPACE" ∷ env "NAMESPACE" ∷ env "K8S_NAMESPACE" ∷ []),
    )
    ∷ ("k8s.pod.name", first_text (env "POD_NAME" ∷ env "HOSTNAME" ∷ []))
    ∷ ("k8s.pod.uid", first_text (env "POD_UID" ∷ []))
    ∷ ("host.name", first_text (host.hostname ∷ []))
    ∷ (
      "deployment.environment.name",
      first_text (cfg.env ∷ env "GC_ENV" ∷ env "DEPLOYMENT_ENVIRONMENT" ∷ []),
    )
    ∷ ("service.version", first_text (cfg.release ∷ env "GC_RELEASE" ∷ []))
    ∷ (
      "service.name",
      first_text (cfg.service_name ∷ env "OTEL_SERVICE_NAME" ∷ env "GC_SERVICE_NAME" ∷ []),
    )
    ∷ ("process.runtime.gomaxprocs", some (string host.gomaxprocs))
    ∷ ("host.num_cpu", some (string host.num_cpu))
    ∷ ("host.arch", some (string host.goarch))
    ∷ ("os.type", some (string host.goos))
    ∷ ("process.runtime.version", some (string host.runtime_version))
    ∷ ("process.runtime.name", some (string "go"))
    ∷ ("telemetry.sdk.version", some (string (version host)))
    ∷ ("telemetry.sdk.language", some (string "go"))
    ∷ ("telemetry.sdk.name", some (string sdk_name))
    ∷ []

-- `firstNonEmpty` finds that text.
first_text_lem : (vals : List String) → non_empty (first_non_empty vals) ≡ first_text vals
unfolding first_non_empty
first_text_lem [] = refl
first_text_lem (v ∷ vals) = elim (Bool-cases (str_eq v "")) [
  | inl e ↦ rw e (first_text_lem vals)
  | inr e ↦ rw (e, e) refl
]

-- one text by itself
one_text_lem : (v : String) → non_empty v ≡ first_text (v ∷ [])
one_text_lem v = elim (Bool-cases (str_eq v "")) [ inl e ↦ rw e refl | inr e ↦ rw e refl ]

-- one `putIfSet`
put_row :
    (md : Attributes) (j k v : String) (o rest : Option Value)
    → non_empty v ≡ o
    → get md k ≡ rest
    → get (set_if_non_empty md j v) k ≡ first_of (if str_eq j k then o else none) rest
put_row md j k v o rest e h =
    row md j k v rest h ∙ ap (λ x. first_of (if str_eq j k then x else none) rest) e

get-detected_attributes :
    (cfg : ServiceConfig) (host : Host) (k : String)
    → get (detected_attributes cfg host) k ≡ pick (known cfg host) k none
unfolding detected_attributes runtime_attributes get service_name_of env_of release_of namespace_of
    cluster_of
get-detected_attributes cfg host k = put_row _ _ k _ _ _ (first_text_lem _) (
    put_row _ _ k _ _ _ (one_text_lem _) (
      put_row _ _ k _ _ _ (first_text_lem _) (
        put_row _ _ k _ _ _ (first_text_lem _) (
          put_row _ _ k _ _ _ (one_text_lem _) (
            put_row _ _ k _ _ _ (one_text_lem _) (
              put_row _ _ k _ _ _ (first_text_lem _) (
                put_row _ _ k _ _ _ (first_text_lem _) (
                  put_row _ _ k _ _ _ (first_text_lem _) (
                    set_row _ _ k _ _ (
                      set_row _ _ k _ _ (
                        set_row _ _ k _ _ (
                          set_row _ _ k _ _ (
                            set_row _ _ k _ _ (
                              set_row _ _ k _ _ (
                                set_row _ _ k _ _
                                  (set_row _ _ k _ _ (set_row _ _ k _ _ refl)))))))))))))))))

-- The detected resource has, at each key of the list above, the value named there, if it is not
-- empty, and at any other key nothing. On an event, such a value stands under the keys of the SDK and over the caller's
-- attributes, unless the key travels with the session.
pub detect_resource_lem :
    (cfg : ServiceConfig) (host : Host) (k : String)
    → (get (detect_resource cfg host).attrs k ≡ pick (known cfg host) k none)
      × ((e : Event)
          → get (build_metadata e (detect_resource cfg host).attrs) k
            ≡ pick (managed e) k (
                first_of
                  (if is_session_level_key k then none else pick (known cfg host) k none)
                  (if is_sdk_managed_key k then none else get e.attributes k)))
unfolding detect_resource
detect_resource_lem cfg host k = (
  get-detected_attributes cfg host k,
  λ e.
      build_metadata_lem e (detected_attributes cfg host) k
      ∙ rw (get-detected_attributes cfg host k) refl,
)
