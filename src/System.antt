-- ===== src/System.antt =====
-- The three reconcilers of pkg/controller on one cluster: the calls of their handlers, one after the other
-- in any order, as steps on the state that they share.
pub mod Foreign
pub mod Excluded
pub mod Tests
use mathlib.Core.List.{Perm}
use kubemirror.Prelude.{String, ◌≡◌, true, List, All}
use kubemirror.Object.{Unstructured}
use kubemirror.Cluster.{Key, found, Client}
use kubemirror.SourceReconciler.{Settings, get_source_with_freshness}
use kubemirror.SourceReconciler.Reconcile.{World, Request, key_of, reconcile}
use kubemirror.SourceReconciler.Paths.{IsLive}
use kubemirror.SourceReconciler.Locality.{IsPlain}
use kubemirror.NamespaceReconciler.{Counts, reconcile_sources}
use kubemirror.MirrorReconciler
use kubemirror.MirrorReconciler.{managed_by_predicate}

-- Go walks over a map in some order of its keys.
abbrev pub IsShuffle : (List String → List String) → Type 0
IsShuffle order = (xs : List String) → Perm (order xs) xs

-- A call of a handler: for a source that is live, for the sources of a type at an event of a namespace,
-- or for a mirror whose event the watch lets through. No source has transformation rules. Each call
-- walks over its maps of targets in an order of its own.
pub data Step (c : Client) (r : Settings) (w : World c) : World c → Type 0 where
  source_event :
      (order : List String → List String) (req : Request) (source : Unstructured)
      → IsShuffle order
      → get_source_with_freshness c r (key_of req) w.server ≡ found source
      → IsLive source
      → IsPlain source
      → Step c r w (reconcile c (record r { order = order }) req w).1
  namespace_event :
      (order : List String → List String) (ns : String) (sources : List Unstructured) (n : Counts)
      → IsShuffle order
      → All IsPlain sources
      → Step c r w (record w {
        server = (reconcile_sources c (record r { order = order }) ns sources n w.server).1;
      })
  mirror_event :
      (k : Key) (mirror : Unstructured)
      → c.get k w.server ≡ found mirror
      → managed_by_predicate mirror.meta ≡ true
      → Step c r w (record w { server = (MirrorReconciler.reconcile c k w.server).1 })

-- any number of calls
pub data Reach (c : Client) (r : Settings) (w : World c) : World c → Type 0 where
  here : Reach c r w w
  next : (v u : World c) → Reach c r w v → Step c r v u → Reach c r w u
