-- ===== src/MirrorReconciler/Orphans.antt =====
-- When Reconcile of pkg/controller/mirror_reconciler.go deletes a mirror.
use kubemirror.Prelude.{
  String, ◌≡◌, refl, Bool, true, false, not, ◌==◌, none, some, if◌then◌else◌, arith,
}
use kubemirror.Object.{Unstructured}
use kubemirror.Cluster.{Key, Fetch, found, missing, failed, Client}
use kubemirror.MirrorReconciler.{source_named, at, check_source, reconcile}

-- Whether a mirror that recorded `uid` has lost its source: there is none, or there is another one
-- under its name that is not about to be deleted.
unfoldable pub has_lost : String → Fetch → Bool
has_lost uid missing = true
has_lost uid (failed e) = false
has_lost uid (found source) = elim source.meta.deletion_timestamp [
  | some t ↦ false
  | none ↦ not (source.meta.uid == uid)
]

module _ (c : Client) where
  check_source-exact :
      (k : Key) (uid : String) (f : Fetch) (s : c.S)
      → (check_source c k uid f s).1 ≡ (if has_lost uid f then (c.delete k s).1 else s)
  unfolding check_source has_lost
  check_source-exact k uid missing s = refl
  check_source-exact k uid (failed e) s = refl
  check_source-exact k uid (found source) s = ground arith

  -- A mirror that names its source is deleted exactly if that source is gone, or if another one
  -- with another UID stands in its place and is not being deleted; otherwise nothing is written.
  pub reconcile-exact :
      (k : Key) (s : c.S) (mirror : Unstructured) (ns name uid : String)
      → c.get k s ≡ found mirror
      → source_named mirror.meta ≡ some (ns, name, uid)
      → (reconcile c k s).1
        ≡ (if has_lost uid (c.get (at k ns name) s) then (c.delete k s).1 else s)
  unfolding reconcile
  reconcile-exact k s mirror ns name uid there named =
      rw (there, reconcile)
        (rw (named, reconcile) (check_source-exact k uid (c.get (at k ns name) s) s))
