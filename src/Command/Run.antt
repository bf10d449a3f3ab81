-- ===== src/Command/Run.antt =====
-- cmd/kubemirror/main.go from the flags to the run of the manager: the defaults of the flags, the
-- configuration made of them, and the steps of the start, each of which may end the program.
use kubemirror.Prelude.{
  ℕ, ◌*◌, String, Bool, true, false, not, Option, none, some, List, [], ◌∷◌, if◌then◌else◌,
}
use kubemirror.Constants.{leader_election_id}
use kubemirror.ResourceType.{ResourceType}
use kubemirror.Config.{Config}
use kubemirror.DynamicManager
use kubemirror.DynamicManager.Loop
use kubemirror.DynamicManager.Loop.{Tick}
use kubemirror.Discovery.Manager.{Manager}
use kubemirror.Command.{Flags, mirrored_resources, register_all}

-- the other flags; `G` is Go's float64, and a duration is in milliseconds
pub record RuntimeFlags (G : Type 0) : Type 0 where
  pub metrics_bind_address : String
  pub health_probe_bind_address : String
  pub leader_elect : Bool
  pub leader_election_id : String
  pub discovery_interval : ℕ
  pub worker_threads : ℕ
  pub rate_limit_qps : G
  pub rate_limit_burst : ℕ
  pub resync_period : ℕ
  pub watcher_scan_interval : ℕ

abbrev seconds : ℕ → ℕ
seconds n = n * 1000

abbrev minutes : ℕ → ℕ
minutes n = n * 60000

-- the defaults of the flags
unfoldable pub default_flags : Flags
default_flags = record {
  excluded_namespaces = "";
  included_namespaces = "";
  resource_types = "";
  max_targets = 100;
  verify_source_freshness = false;
  lazy_watcher_init = false;
}

-- `fifty` is the constant 50.0
unfoldable pub default_runtime_flags : {G : Type 0} → G → RuntimeFlags G
default_runtime_flags fifty = record {
  metrics_bind_address = ":8080";
  health_probe_bind_address = ":8081";
  leader_elect = false;
  leader_election_id = leader_election_id;
  discovery_interval = minutes 5;
  worker_threads = 5;
  rate_limit_qps = fifty;
  rate_limit_burst = 100;
  resync_period = minutes 10;
  watcher_scan_interval = minutes 5;
}

-- `cfg` with its types; a field that main does not name is its zero value
unfoldable pub new_config :
    {F G : Type 0} → (G → F) → Flags → RuntimeFlags G → List ResourceType → Config F
new_config to_float32 flags runtime types = record {
  metrics_bind_address = "";
  health_probe_bind_address = "";
  watch_namespaces = [];
  excluded_namespaces = [];
  mirrored_resource_types = types;
  denied_resource_types = [];
  leader_election = record {
    resource_name = runtime.leader_election_id;
    resource_namespace = "";
    lease_duration = seconds 15;
    renew_deadline = seconds 10;
    retry_period = seconds 2;
    enabled = runtime.leader_elect;
  };
  reconcile_interval = 0;
  worker_threads = runtime.worker_threads;
  rate_limit_burst = runtime.rate_limit_burst;
  memory_limit_mb = 0;
  debounce_duration = 500;
  max_targets_per_resource = flags.max_targets;
  rate_limit_qps = to_float32 runtime.rate_limit_qps;
  require_namespace_opt_in = false;
  enable_all_keyword = true;
  dry_run = false;
  verify_source_freshness = flags.verify_source_freshness;
}

-- the check of makeCacheSyncChecker, by whether the caches are synced in its time; `none` is no error
unfoldable pub cache_sync_error : Bool → Option String
cache_sync_error synced = if not synced then some "informer caches not synced" else none

-- what main keeps: the state of controller-runtime's manager, and in the lazy mode that of the dynamic
-- one
pub record Started (M : Type 0) : Type 0 where
  pub manager : M
  pub dynamic : Option DynamicManager.Manager

-- a step of the setup; true is success
unfoldable pub run_steps : {M : Type 0} → List (M → M × Bool) → M → Option M
run_steps [] m = some m
run_steps (step ∷ rest) m =
    let w = step m in let later = run_steps rest w.0 in if not w.1 then none else later

-- The setups of controller-runtime's manager: of the two controllers of a type, of that of namespaces
-- with its types, of the two probes, and its run.
pub record Setups (M : Type 0) : Type 0 where
  pub setup_source : M → ResourceType → M × Bool
  pub setup_mirror : M → ResourceType → M × Bool
  pub setup_namespaces : List ResourceType → M → M × Bool
  pub add_healthz_check : M → M × Bool
  pub add_readyz_check : M → M × Bool
  pub start_manager : M → M × Bool

module _ {M : Type 0} (setups : Setups M) where
  open setups use {
    setup_source, setup_mirror, setup_namespaces, add_healthz_check, add_readyz_check,
    start_manager,
  }

  -- the choice between the lazy and the eager mode; `first` is the first scan, the later ones come with
  -- the ticks
  unfoldable pub register :
      {G : Type 0} → Flags → RuntimeFlags G → Tick → List ResourceType → M → Option (Started M)
  unfolding DynamicManager.Loop.start DynamicManager.new_manager register_all
  register flags runtime first types m =
      if flags.lazy_watcher_init
      then (let w =
            DynamicManager.Loop.start setup_source setup_mirror first []
              (DynamicManager.new_manager types runtime.watcher_scan_interval) m in
          some (record { manager = w.1; dynamic = some w.0 }))
      else elim (register_all setup_source setup_mirror types m) [
        | none ↦ none
        | some m' ↦ some (record { manager = m'; dynamic = none })
      ]

  -- the controller of namespaces, the probes, and the run
  unfoldable pub finish : List ResourceType → Started M → Option (Started M)
  unfolding run_steps
  finish types started =
      elim (run_steps
        (setup_namespaces types ∷ add_healthz_check ∷ add_readyz_check ∷ start_manager ∷ [])
        started.manager) [ none ↦ none | some m ↦ some (record started { manager = m }) ]

  -- main behind the making of the manager; `none` is an exit with 1. `discovering`, `polls` and
  -- `discovered` are whether the discovery starts, its states during the wait, and the one after it.
  unfoldable pub start_up :
      {G : Type 0}
      → Flags
      → RuntimeFlags G
      → Bool
      → List Manager
      → Manager
      → Tick
      → M
      → Option (Started M)
  unfolding mirrored_resources register finish
  start_up flags runtime discovering polls discovered first m =
      elim (mirrored_resources flags discovering polls discovered) [
        | none ↦ none
        | some types ↦ elim (register flags runtime first types m) [
          | none ↦ none
          | some started ↦ finish types started
        ]
      ]
