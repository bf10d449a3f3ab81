-- ===== src/Command/Tests.antt =====
-- A start with an exclusion and two types, on the cluster of the samples.
use mathlib.Core.List.Permᴰ
use kubemirror.Prelude.{ℕ, suc, ◌≤◌, String, true, false, some, [], ◌∷◌, ◌≡◌, refl}
use kubemirror.Object.{unstructured, meta_of}
use kubemirror.Hash.{needs_sync}
use kubemirror.Mirror.{is_managed_by_us, get_source_reference}
use kubemirror.ResourceType.{ResourceType}
use kubemirror.DynamicManager.Registry.{
  Ledger, add_entry, no_entries, source_entries, mirror_entries,
}
use kubemirror.SourceReconciler.{Settings}
use kubemirror.Command.{Flags, source_settings, transform_func, mirrored_resources}
use kubemirror.Command.Run.{RuntimeFlags, Started, Setups, default_runtime_flags, start_up}
use kubemirror.Command.Controllers.{start_up-le, entering_setups}
use kubemirror.Discovery.Manager.{Manager}
use kubemirror.DynamicManager.{fully_registered}
use kubemirror.DynamicManager.Loop.{Tick}
use kubemirror.Command.Startup.{needs_sync-transform_func, occurrences}
use kubemirror.Samples.{source, mirror_in}

abbrev flags : Flags
flags = record {
  excluded_namespaces = "app-2";
  included_namespaces = "";
  resource_types = "Secret.v1";
  max_targets = 100;
  verify_source_freshness = false;
  lazy_watcher_init = false;
}

abbrev started : Settings
started =
    source_settings (λ content. some "digest") (λ object context. some object) (λ keys. keys) flags

needs_sync-transform_func_example :
    let cached = meta_of (transform_func (unstructured (mirror_in "app-1"))) in
    (is_managed_by_us cached ≡ is_managed_by_us (mirror_in "app-1").meta)
    × (get_source_reference cached ≡ get_source_reference (mirror_in "app-1").meta)
    × (needs_sync
          (λ content. some "digest")
          (transform_func (unstructured source))
          cached.annotations
        ≡ needs_sync
            (λ content. some "digest")
            (unstructured source)
            (mirror_in "app-1").meta.annotations)
needs_sync-transform_func_example =
    needs_sync-transform_func (λ content. some "digest") (unstructured source) (mirror_in "app-1")

-- a manager that counts the calls of its setups
abbrev setups : Setups ℕ
setups = record {
  setup_source = λ m rt. (suc m, true);
  setup_mirror = λ m rt. (suc m, true);
  setup_namespaces = λ rts m. (suc m, true);
  add_healthz_check = λ m. (suc m, true);
  add_readyz_check = λ m. (suc m, true);
  start_manager = λ m. (suc m, true);
}

-- the lazy mode with the flag of types, on a cluster that uses the type
abbrev lazy_flags : Flags
lazy_flags = record flags { lazy_watcher_init = true }

abbrev secret_type : ResourceType
secret_type = record { group = ""; version = "v1"; kind = "Secret" }

abbrev first_scan : Tick
first_scan = record { listed = λ rt. some 1; order = λ found. found }

abbrev nothing_found : Manager
nothing_found = record { current_resources = []; interval = 300000 }

-- six calls: one source and one mirror setup, that of namespaces, two checks, and the run
abbrev running : Started (Ledger ℕ)
running = record {
  manager = record {
    manager = 6;
    sources = add_entry true secret_type (λ j. 0);
    mirrors = add_entry true secret_type (λ j. 0);
  };
  dynamic = some (record {
    registration_state = ("Secret.v1", fully_registered) ∷ [];
    active = ("Secret.v1", secret_type) ∷ [];
    available = secret_type ∷ [];
    scan_interval = 300000;
    started = false;
  });
}

-- the rate as its text
abbrev rate : String
rate = "50.0"

abbrev runtime : RuntimeFlags String
runtime = record {
  metrics_bind_address = ":8080";
  health_probe_bind_address = ":8081";
  leader_elect = false;
  leader_election_id = "kubemirror-controller-leader";
  discovery_interval = 300000;
  worker_threads = 5;
  rate_limit_qps = rate;
  rate_limit_burst = 100;
  resync_period = 600000;
  watcher_scan_interval = 300000;
}

by_default : default_runtime_flags rate ≡ runtime
unfolding default_runtime_flags
by_default = refl

lazy_start :
    start_up
      (entering_setups setups)
      lazy_flags
      runtime
      false
      []
      nothing_found
      first_scan
      (no_entries 0)
    ≡ some running
unfolding start_up
lazy_start = refl

flag_types : mirrored_resources lazy_flags false [] nothing_found ≡ some (secret_type ∷ [])
unfolding mirrored_resources
flag_types = refl

-- the flag of types is not ignored in the lazy mode: nothing is set up for config maps
start_up-le_example :
    (source_entries running.manager "ConfigMap.v1" ≤ occurrences "ConfigMap.v1" (secret_type ∷ []))
    × (mirror_entries running.manager "ConfigMap.v1"
        ≤ occurrences "ConfigMap.v1" (secret_type ∷ []))
start_up-le_example =
    start_up-le setups lazy_flags runtime false [] nothing_found first_scan (secret_type ∷ []) 0
      running "ConfigMap.v1" (λ m. ∣ Permᴰ.refl m ∣₁) flag_types lazy_start
