-- ===== src/SourceReconciler/Tests/Whole.antt =====
-- Whole reconciliations in a cluster in memory that keeps what is written.
use mathlib.Core.List.Permᴰ
use kubemirror.Prelude.{String, ◌≡◌, ◌≢◌, refl, none, some, [], ◌∷◌, if◌then◌else◌}
use kubemirror.Prelude.Dict.{read, insert}
use kubemirror.PathMatch.{path_match}
use kubemirror.Filter.{validate_pattern, resolve_target_namespaces, matches_pattern, is_allowed}
use kubemirror.Object.{Unstructured}
use kubemirror.Cluster.{NamespaceInfo, found, missing, key_in}
use kubemirror.Mirror.{create_mirror, is_managed_by_us, is_mirror_resource, get_source_reference}
use kubemirror.SourceReconciler.{
  resolve_targets, is_own_mirror, is_enabled_for_mirroring, requeue, done,
  get_source_with_freshness,
}
use kubemirror.Cluster.{list_namespaces, list_namespaces_with_labels}
use kubemirror.SourceReconciler.Writes.{is_orphan}
use kubemirror.SourceReconciler.Reconcile.{has_finalizer, Request, World, key_of, reconcile}
use kubemirror.SourceReconciler.Paths.{IsLive}
use kubemirror.SourceReconciler.Settling.{reconcile-settles}
use kubemirror.SourceReconciler.Foreign.{reconcile-keeps_unmanaged}
use kubemirror.SourceReconciler.Fate.{is_empty, reconcile-orphan}
use kubemirror.SourceReconciler.Release.{Released, reconcile-frees, reconcile-releases}
use kubemirror.Cluster.Laws.{accepted}
use kubemirror.SourceReconciler.Presence.{Stands}
use kubemirror.SourceReconciler.Complete.{reconcile-mirrors}
use kubemirror.Samples.{settings, source, source_meta, mirror_in, foreign, key_at, targets}
use kubemirror.Samples.Store.{
  store, set_at, contents, store-IsLocal, store-IsTight, store-IsReliable, store-IsClearing,
  store-IsFresh, store-IsSteady, store-IsKeyed, store-IsStoring, store-IsLasting,
}

abbrev request : Request
request = record { api_version = "v1"; kind = "Secret"; namespace = "prod"; name = "token" }

abbrev world_of : Unstructured → World store
world_of u = record { server = set_at (key_at "prod") (some u) contents; breaker = none }

-- the source before its first reconciliation
abbrev new_source : Unstructured
new_source = record source { meta = record source_meta { finalizers = [] } }

reconcile-settles_example :
    (reconcile store settings request (reconcile store settings request (world_of new_source)).1).0
    ≢ requeue
unfolding reconcile read
reconcile-settles_example =
    reconcile-settles store settings store-IsKeyed store-IsStoring request (world_of new_source)
      refl

source-IsLive : IsLive source
unfolding is_enabled_for_mirroring is_mirror_resource read
source-IsLive = record { present = refl; enabled = refl; no_mirror = refl }

reconcile-keeps_unmanaged_example :
    store.get (key_at "app-2") (reconcile store settings request (world_of source)).1.server
    ≡ found foreign
unfolding is_managed_by_us get_source_with_freshness read
reconcile-keeps_unmanaged_example =
    reconcile-keeps_unmanaged store settings store-IsLocal store-IsTight store-IsKeyed store-IsFresh
      source refl (key_at "app-2") foreign refl (λ e. cc e) request (world_of source) source-IsLive
      refl refl

-- the source with another annotation of targets
abbrev aimed : String → Unstructured
aimed patterns = record source {
  meta = record source_meta {
    annotations =
        ("kubemirror.raczylo.com/sync", "true")
        ∷ ("kubemirror.raczylo.com/target-namespaces", patterns)
        ∷ [];
  };
}

aimed-IsLive : (patterns : String) → IsLive (aimed patterns)
unfolding is_enabled_for_mirroring is_mirror_resource read
aimed-IsLive patterns = record { present = refl; enabled = refl; no_mirror = refl }

app_2_done : (reconcile store settings request (world_of (aimed "app-2"))).0 ≡ done
unfolding reconcile read validate_pattern path_match list_namespaces_with_labels
    resolve_target_namespaces matches_pattern is_allowed insert is_managed_by_us
app_2_done = refl

app_2_targets :
    resolve_targets store settings (aimed "app-2") (world_of (aimed "app-2")).server
    ≡ some ("app-2" ∷ [])
unfolding resolve_targets read validate_pattern path_match list_namespaces_with_labels
    resolve_target_namespaces matches_pattern is_allowed insert
app_2_targets = refl

abbrev listed : NamespaceInfo
listed = record {
  every = "prod" ∷ "app-1" ∷ "app-2" ∷ [];
  allow_mirrors = "app-1" ∷ [];
  opt_out = "app-2" ∷ [];
}

reconcile-orphan_example :
    store.get
      (key_in (aimed "app-2") "app-1")
      (reconcile store settings request (world_of (aimed "app-2"))).1.server
    ≡ (if is_empty ("app-2" ∷ []) then found (mirror_in "app-1") else missing)
unfolding has_finalizer get_source_with_freshness list_namespaces_with_labels is_orphan
    is_own_mirror is_managed_by_us get_source_reference read
reconcile-orphan_example =
    reconcile-orphan store settings store-IsLocal store-IsReliable store-IsClearing store-IsTight
      store-IsKeyed store-IsSteady (aimed "app-2") refl "app-1" (found (mirror_in "app-1"))
      (accepted (mirror_in "app-1") refl (λ s got. refl)) request ("app-2" ∷ [])
      (world_of (aimed "app-2")) listed (aimed-IsLive "app-2") refl refl (λ e. cc (app_2_done, e))
      app_2_targets refl refl refl refl

-- with no target left the orphan in app-1 stays
no_target :
    reconcile store settings request (world_of (aimed "zz-*")) ≡ (done, world_of (aimed "zz-*"))
unfolding reconcile read validate_pattern path_match list_namespaces_with_labels
    resolve_target_namespaces matches_pattern is_allowed insert is_managed_by_us
no_target = refl

abbrev disabled : Unstructured
disabled = record source { meta = record source_meta { labels = [] } }

disabled_done : (reconcile store settings request (world_of disabled)).0 ≡ done
unfolding reconcile read list_namespaces
disabled_done = refl

reconcile-releases_example :
    store.get
      (key_in disabled "app-1")
      (reconcile store settings request (world_of disabled)).1.server
    ≡ missing
unfolding has_finalizer get_source_with_freshness list_namespaces is_enabled_for_mirroring
    is_mirror_resource read
reconcile-releases_example =
    reconcile-releases store settings store-IsLocal store-IsReliable store-IsClearing store-IsTight
      store-IsKeyed store-IsStoring disabled ("prod" ∷ "app-1" ∷ "app-2" ∷ []) "app-1" request
      (world_of disabled) (accepted (mirror_in "app-1") refl (λ s got. refl)) refl refl refl refl
      refl refl (λ e. cc (disabled_done, e)) refl

reconcile-frees_example : Released store settings (key_of request) (
  (reconcile store settings request (world_of disabled)).0,
  (reconcile store settings request (world_of disabled)).1.server,
)
unfolding has_finalizer get_source_with_freshness list_namespaces is_enabled_for_mirroring
    is_mirror_resource read
reconcile-frees_example =
    reconcile-frees store settings store-IsKeyed store-IsStoring disabled
      ("prod" ∷ "app-1" ∷ "app-2" ∷ []) request (world_of disabled) refl refl refl refl
      (λ e. cc (disabled_done, e)) refl

-- the mirror in app-1 is still to be made
abbrev unmirrored : World store
unmirrored = record { server = set_at (key_at "app-1") none contents; breaker = none }

unmirrored_done : (reconcile store settings request unmirrored).0 ≡ done
unfolding reconcile read validate_pattern path_match list_namespaces_with_labels
    resolve_target_namespaces matches_pattern is_allowed insert is_managed_by_us create_mirror
unmirrored_done = refl

unmirrored_targets : resolve_targets store settings source unmirrored.server ≡ some targets
unfolding resolve_targets read validate_pattern path_match list_namespaces_with_labels
    resolve_target_namespaces matches_pattern is_allowed insert
unmirrored_targets = refl

reconcile-mirrors_example :
    Stands
      (store.get (key_in source "app-1") (reconcile store settings request unmirrored).1.server)
unfolding has_finalizer get_source_with_freshness read
reconcile-mirrors_example =
    reconcile-mirrors store settings store-IsLocal store-IsTight store-IsKeyed store-IsLasting
      (λ keys. ∣ Permᴰ.refl keys ∣₁) source refl request targets "app-1" unmirrored source-IsLive
      refl refl unmirrored_targets refl refl unmirrored_done
