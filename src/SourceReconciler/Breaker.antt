-- ===== src/SourceReconciler/Breaker.antt =====
-- Which objects Reconcile of pkg/controller/source_reconciler.go passes over before it asks the circuit
-- breaker.
use kubemirror.Prelude.{◌≡◌, refl, true}
use kubemirror.Object.{Unstructured}
use kubemirror.Mirror.{is_mirror_resource}
use kubemirror.Cluster.{Client, found}
use kubemirror.SourceReconciler.{Settings, done, get_source_with_freshness}
use kubemirror.SourceReconciler.Reconcile.{World, Request, key_of, reconcile, reconcile_found}

module _ (c : Client) (r : Settings) (req : Request) (w : World c) (source : Unstructured)
    (there : get_source_with_freshness c r (key_of req) w.server ≡ found source) where
  -- An object that carries the mirror label is never reconciled as a source: nothing is written,
  -- the breaker is not asked, and no error is returned.
  pub reconcile-mirror : is_mirror_resource source.meta ≡ true → reconcile c r req w ≡ (done, w)
  unfolding reconcile reconcile_found
  reconcile-mirror mirror = rw (there, reconcile) (rw (mirror, reconcile_found) refl)
