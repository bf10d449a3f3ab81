-- ===== src/NamespaceReconciler/Tests.antt =====
-- An event of a namespace that is no target of the source any more.
use kubemirror.Prelude.{◌≡◌, refl, some, false, if◌then◌else◌, contains}
use kubemirror.Prelude.Dict.{read, insert}
use kubemirror.Mirror.{is_mirror_resource}
use kubemirror.SourceReconciler.{Settings, cleanup_one, reconcile_mirror, resolve_targets}
use kubemirror.SourceReconciler.Limit.{rotate, rotate-Perm}
use kubemirror.Filter.{validate_pattern, resolve_target_namespaces, matches_pattern, is_allowed}
use kubemirror.PathMatch.{path_match}
use kubemirror.Cluster.{list_namespaces_with_labels}
use mathlib.Core.List.Permᴰ
use kubemirror.NamespaceReconciler.{reconcile_source}
use kubemirror.NamespaceReconciler.Agreement.{reconcile_source-agrees}
use kubemirror.Samples.{memory, settings, source, cluster, targets}

-- a bound that cuts no target off
abbrev roomy : Settings
roomy = record settings { max_targets_per_resource = 3 }

roomy-targets : resolve_targets memory roomy source cluster ≡ some targets
unfolding resolve_targets read validate_pattern path_match list_namespaces_with_labels
    resolve_target_namespaces matches_pattern is_allowed insert
roomy-targets = refl

reconcile_source-agrees_example :
    (reconcile_source memory (record roomy { order = rotate }) "app-1" source cluster).1 ≡ (
      if contains targets "app-1"
      then (reconcile_mirror memory
          (record roomy { has_api_reader = false })
          source
          "app-1"
          cluster).1
      else (cleanup_one memory roomy source targets "app-1" cluster).1)
unfolding is_mirror_resource read
reconcile_source-agrees_example =
    reconcile_source-agrees memory roomy rotate (λ keys. ∣ Permᴰ.refl keys ∣₁) rotate-Perm source
      "app-1" targets cluster refl refl roomy-targets refl refl
