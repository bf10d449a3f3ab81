-- ===== src/System/Tests.antt =====
-- Three calls in a cluster in memory: for a mirror, for its source, and for a namespace.
use kubemirror.Prelude.{◌≡◌, refl, none, [], ◌∷◌}
use kubemirror.Prelude.Dict.{read, lookup}
use kubemirror.Mirror.{is_managed_by_us, is_mirror_resource}
use mathlib.Core.List.Permᴰ
use kubemirror.Filter.{is_allowed}
use kubemirror.System.Excluded.{Reach-excluded}
use kubemirror.Cluster.{found, missing}
use kubemirror.SourceReconciler.{get_source_with_freshness, is_enabled_for_mirroring}
use kubemirror.SourceReconciler.Reconcile.{World, Request, reconcile}
use kubemirror.NamespaceReconciler.{Counts, reconcile_sources}
use kubemirror.MirrorReconciler
use kubemirror.MirrorReconciler.{managed_by_predicate}
use kubemirror.System.{source_event, namespace_event, mirror_event, Reach, here, next}
use kubemirror.System.Foreign.{Reach-keeps}
use kubemirror.Samples.{settings, source, mirror_in, foreign, key_at}
use kubemirror.Samples.Store.{
  store, contents, store-IsReliable, store-IsLocal, store-IsTight, store-IsKeyed, store-IsFresh,
}

abbrev request : Request
request = record { api_version = "v1"; kind = "Secret"; namespace = "prod"; name = "token" }

abbrev at_first : World store
at_first = record { server = contents; breaker = none }

abbrev counts : Counts
counts = record { reconciled_count = 0; error_count = 0 }

abbrev checked : World store
checked = record at_first {
  server = (MirrorReconciler.reconcile store (key_at "app-1") contents).1;
}

abbrev mirrored : World store
mirrored = (reconcile store settings request checked).1

abbrev at_last : World store
at_last = record mirrored {
  server = (reconcile_sources store settings "app-2" (source ∷ []) counts mirrored.server).1;
}

three_calls : Reach store settings at_first at_last
unfolding MirrorReconciler.reconcile managed_by_predicate get_source_with_freshness
    is_enabled_for_mirroring is_mirror_resource read lookup
three_calls =
    next mirrored at_last
      (next checked mirrored
        (next at_first checked here (mirror_event (key_at "app-1") (mirror_in "app-1") refl refl))
        (source_event (λ keys. keys) request source (λ keys. ∣ Permᴰ.refl keys ∣₁) refl
          (record { present = refl; enabled = refl; no_mirror = refl }) refl))
      (namespace_event (λ keys. keys) "app-2" (source ∷ []) counts (λ keys. ∣ Permᴰ.refl keys ∣₁)
        (refl, tt))

Reach-keeps_example : store.get (key_at "app-2") at_last.server ≡ found foreign
unfolding is_managed_by_us is_enabled_for_mirroring read
Reach-keeps_example =
    Reach-keeps store settings store-IsLocal store-IsTight store-IsKeyed store-IsFresh
      (key_at "app-2") foreign refl refl at_first at_last three_calls refl

Reach-excluded_example : store.get (key_at "kube-system") at_last.server ≡ missing
unfolding is_allowed lookup
Reach-excluded_example =
    Reach-excluded store settings store-IsLocal store-IsReliable store-IsTight store-IsKeyed
      store-IsFresh (key_at "kube-system") refl at_first at_last three_calls refl
