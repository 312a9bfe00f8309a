-- ===== src/Capture/Resource.antt =====
-- resource.go, and `Version` of version.go. The host is a parameter: the environment's variables,
-- where one that is not set is empty, and what the runtime says of itself. The map of attributes
-- is one whose values are texts.
pub mod Detected
use text.Mathlib.Text.{◌==◌ as str_eq}
use Prim.Native.String.{String, ◌++◌}
use groundcover_go.Base.{ℕ, ◌&&◌, not, Option, none, some, List, [], ◌∷◌, if◌then◌else◌}
use groundcover_go.Capture.Attributes.{Attributes, string, empty, set}
use groundcover_go.Capture.Wire.{set_if_non_empty}
use groundcover_go.Capture.Version.{normalize_module_version}

pub record Module : Type 0 where
  pub path : String
  pub version : String

pub record BuildInfo : Type 0 where
  pub main : Module
  pub deps : List Module

pub record Host : Type 0 where
  pub getenv : String → String
  pub hostname : String
  pub build_info : Option BuildInfo
  -- the import path of the SDK's root package
  pub module_path : String
  pub runtime_version : String
  pub goos : String
  pub goarch : String
  -- in decimal, as `strconv.Itoa` prints them
  pub num_cpu : String
  pub gomaxprocs : String
  pub now : ℕ

-- what a configuration says of the service
pub record ServiceConfig : Type 0 where
  pub service_name : String
  pub env : String
  pub release : String

pub record Resource : Type 0 where
  pub service_name : String
  pub env : String
  pub release : String
  pub namespace : String
  pub cluster : String
  pub attrs : Attributes
  pub user_agent : String
  pub main_module : String
  pub start_time : ℕ

abbrev pub sdk_name : String
sdk_name = "groundcover-go"

abbrev pub dev_version : String
dev_version = "dev"

-- the version of a module if it is the one looked for and has one, or else another answer
unfoldable pub version_at : String → Module → String → String
version_at mp m rest =
    let v = normalize_module_version m.version in
    if str_eq m.path mp && not (str_eq v "") then v else rest

-- the loop over the dependencies, and the main module after it
unfoldable pub version_among : String → List Module → Module → String
version_among mp [] main = version_at mp main dev_version
version_among mp (dep ∷ deps) main = version_at mp dep (version_among mp deps main)

abbrev pub version_in : String → Option BuildInfo → String
version_in mp none = dev_version
version_in mp (some bi) = version_among mp bi.deps bi.main

unfoldable pub version : Host → String
version host =
    if str_eq host.module_path "" then dev_version else version_in host.module_path host.build_info

unfoldable pub first_non_empty : List String → String
first_non_empty [] = ""
first_non_empty (v ∷ vals) = if str_eq v "" then first_non_empty vals else v

abbrev pub main_path : Option BuildInfo → String
main_path none = ""
main_path (some bi) = bi.main.path

unfoldable pub runtime_attributes : Host → Attributes
runtime_attributes host =
    let m₁ = set empty "telemetry.sdk.name" (string sdk_name) in
    let m₂ = set m₁ "telemetry.sdk.language" (string "go") in
    let m₃ = set m₂ "telemetry.sdk.version" (string (version host)) in
    let m₄ = set m₃ "process.runtime.name" (string "go") in
    let m₅ = set m₄ "process.runtime.version" (string host.runtime_version) in
    let m₆ = set m₅ "os.type" (string host.goos) in
    let m₇ = set m₆ "host.arch" (string host.goarch) in
    let m₈ = set m₇ "host.num_cpu" (string host.num_cpu) in
    set m₈ "process.runtime.gomaxprocs" (string host.gomaxprocs)

unfoldable pub service_name_of : ServiceConfig → Host → String
service_name_of cfg host =
    first_non_empty
      (cfg.service_name ∷ host.getenv "OTEL_SERVICE_NAME" ∷ host.getenv "GC_SERVICE_NAME" ∷ [])

unfoldable pub env_of : ServiceConfig → Host → String
env_of cfg host =
    first_non_empty (cfg.env ∷ host.getenv "GC_ENV" ∷ host.getenv "DEPLOYMENT_ENVIRONMENT" ∷ [])

unfoldable pub release_of : ServiceConfig → Host → String
release_of cfg host = first_non_empty (cfg.release ∷ host.getenv "GC_RELEASE" ∷ [])

unfoldable pub namespace_of : Host → String
namespace_of host =
    first_non_empty
      (host.getenv "POD_NAMESPACE" ∷ host.getenv "NAMESPACE" ∷ host.getenv "K8S_NAMESPACE" ∷ [])

unfoldable pub cluster_of : Host → String
cluster_of host =
    first_non_empty
      (host.getenv "GC_CLUSTER" ∷ host.getenv "CLUSTER_NAME" ∷ host.getenv "K8S_CLUSTER_NAME" ∷ [])

-- the nine `putIfSet`
unfoldable pub detected_attributes : ServiceConfig → Host → Attributes
detected_attributes cfg host =
    let m₁ = set_if_non_empty (runtime_attributes host) "service.name" (service_name_of cfg host) in
    let m₂ = set_if_non_empty m₁ "service.version" (release_of cfg host) in
    let m₃ = set_if_non_empty m₂ "deployment.environment.name" (env_of cfg host) in
    let m₄ = set_if_non_empty m₃ "host.name" host.hostname in
    let m₅ = set_if_non_empty m₄ "k8s.pod.uid" (host.getenv "POD_UID") in
    let pod_name = first_non_empty (host.getenv "POD_NAME" ∷ host.getenv "HOSTNAME" ∷ []) in
    let m₆ = set_if_non_empty m₅ "k8s.pod.name" pod_name in
    let m₇ = set_if_non_empty m₆ "k8s.namespace.name" (namespace_of host) in
    let m₈ = set_if_non_empty m₇ "k8s.node.name" (host.getenv "NODE_NAME") in
    set_if_non_empty m₈ "k8s.cluster.name" (cluster_of host)

unfoldable pub detect_resource : ServiceConfig → Host → Resource
detect_resource cfg host = record {
  service_name = service_name_of cfg host;
  env = env_of cfg host;
  release = release_of cfg host;
  namespace = namespace_of host;
  cluster = cluster_of host;
  attrs = detected_attributes cfg host;
  user_agent = sdk_name ++ ("/" ++ version host);
  main_module = main_path host.build_info;
  start_time = host.now;
}
