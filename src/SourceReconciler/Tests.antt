-- ===== src/SourceReconciler/Tests.antt =====
-- Reconciliations in a cluster in memory.
pub mod Whole
use kubemirror.Prelude.{
  ◌*◌, ◌≤◌, ◌≡◌, refl, true, false, String, some, none, List, [], ◌∷◌, arith, length, contains,
}
use kubemirror.Prelude.Dict.{read, insert, lookup}
use kubemirror.CircuitBreaker.{
  CircuitBreaker, Config, open_state, minute, timed_out, state_of, resource_key,
}
use kubemirror.Filter.{is_allowed}
use kubemirror.Object.{Unstructured, Object, unstructured}
use kubemirror.Hash.{compute_content_hash}
use kubemirror.Mirror.{
  Result, ok, update_mirror, is_managed_by_us, is_mirror_resource, get_source_reference,
}
use kubemirror.Cluster.{found, missing, list_namespaces, list_namespaces_with_labels}
use kubemirror.SourceReconciler.{
  limit_targets, cleanup_orphaned_mirrors, delete_all_mirrors, reconcile_mirror, requeue_after,
  get_source_with_freshness, is_own_mirror,
}
use kubemirror.SourceReconciler.Reconcile.{Request, World, reconcile}
use kubemirror.SourceReconciler.Writes.{
  is_orphan, cleanup_orphaned_mirrors-keeps, delete_all_mirrors-clears,
}
use kubemirror.SourceReconciler.Orphans.{cleanup_orphaned_mirrors-clears}
use kubemirror.SourceReconciler.Mirrors.{
  reconcile_mirror-unmanaged, reconcile_mirror-quiet, resolve_targets-le,
}
use kubemirror.Object.{meta_of}
use mathlib.Core.List.{Perm}
use kubemirror.Filter.{NamespaceFilter, resolve_target_namespaces}
use kubemirror.SourceReconciler.Limit.{rotate, limit_targets-rotate}
use kubemirror.Mirror.{make_mirror}
use kubemirror.SourceReconciler.Watch.{
  deleted, mirror_delete_predicate, map_mirror_to_source, map_mirror_to_source-make_mirror,
}
use kubemirror.Samples.{
  Objects, memory, memory-IsLocal, settings, source, mirror_in, foreign, key_at, cluster, targets,
  cluster-targets,
}

cleanup_orphaned_mirrors-keeps_example :
    (cleanup_orphaned_mirrors memory settings source [] cluster).1 (key_at "app-2") ≡ found foreign
unfolding is_orphan is_own_mirror is_managed_by_us read
cleanup_orphaned_mirrors-keeps_example =
    cleanup_orphaned_mirrors-keeps memory settings source [] memory-IsLocal (key_at "app-2") cluster
      refl

-- the mirror in app-1 after an update
abbrev unstructured_of : Result Object → Unstructured
unstructured_of (ok (unstructured u)) = u
unstructured_of other = source

abbrev updated : Unstructured
updated = unstructured_of (
    update_mirror settings.transform settings.digest (unstructured (mirror_in "app-1"))
      (unstructured source) "now")

abbrev updated_cluster : Objects
updated_cluster k = found updated

reconcile_mirror-quiet_example :
    reconcile_mirror memory settings source "app-1" updated_cluster ≡ (none, updated_cluster)
unfolding update_mirror compute_content_hash get_source_with_freshness is_managed_by_us read
reconcile_mirror-quiet_example =
    reconcile_mirror-quiet memory settings source updated (unstructured (mirror_in "app-1")) "app-1"
      "now" updated_cluster refl refl refl refl

resolve_targets-le_example : length targets ≤ 2
resolve_targets-le_example =
    resolve_targets-le memory settings source cluster targets (omega arith) cluster-targets

map_mirror_to_source-make_mirror_example :
    (mirror_delete_predicate
        (deleted (meta_of (make_mirror (unstructured source) "app-1" "h" "now")))
      ≡ true)
    × (map_mirror_to_source (meta_of (make_mirror (unstructured source) "app-1" "h" "now"))
        ≡ ("prod", "token") ∷ [])
map_mirror_to_source-make_mirror_example =
    map_mirror_to_source-make_mirror (unstructured source) "app-1" "h" "now" (λ e. cc e) (λ e. cc e)

abbrev open_filter : NamespaceFilter
open_filter = record { excluded_namespaces = []; included_patterns = [] }

limit_targets-rotate_example :
    ((xs : List String) → Perm (rotate xs) xs)
    × ((ns : String) × (contains
            (limit_targets 1 (
              resolve_target_namespaces [] [] [] "prod" open_filter
                (λ xs. xs)
                ("app-1" ∷ "app-2" ∷ [])))
            ns
          ≡ true)
        × (contains
              (limit_targets 1 (
                resolve_target_namespaces [] [] [] "prod" open_filter rotate
                  ("app-1" ∷ "app-2" ∷ [])))
              ns
            ≡ false))
unfolding resolve_target_namespaces is_allowed insert lookup
limit_targets-rotate_example =
    limit_targets-rotate [] [] [] "prod" open_filter ("app-1" ∷ "app-2" ∷ []) 1 (omega arith)
      (omega arith)
