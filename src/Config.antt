-- ===== src/Config.antt =====
-- pkg/config/config.go: the configuration of the controllers. `F` is Go's float32, on which nothing here
-- computes; a duration is in milliseconds.
use kubemirror.Prelude.{ℕ, String, Bool, Option, none, List}
use kubemirror.ResourceType.{ResourceType}

pub record LeaderElectionConfig : Type 0 where
  pub resource_name : String
  pub resource_namespace : String
  pub lease_duration : ℕ
  pub renew_deadline : ℕ
  pub retry_period : ℕ
  pub enabled : Bool

pub record Config (F : Type 0) : Type 0 where
  pub metrics_bind_address : String
  pub health_probe_bind_address : String
  pub watch_namespaces : List String
  pub excluded_namespaces : List String
  pub mirrored_resource_types : List ResourceType
  pub denied_resource_types : List String
  pub leader_election : LeaderElectionConfig
  pub reconcile_interval : ℕ
  pub worker_threads : ℕ
  pub rate_limit_burst : ℕ
  pub memory_limit_mb : ℕ
  pub debounce_duration : ℕ
  pub max_targets_per_resource : ℕ
  pub rate_limit_qps : F
  pub require_namespace_opt_in : Bool
  pub enable_all_keyword : Bool
  pub dry_run : Bool
  pub verify_source_freshness : Bool

-- Validate; `none` is no error
unfoldable pub validate : {F : Type 0} → Config F → Option String
validate c = none
