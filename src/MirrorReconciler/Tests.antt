-- ===== src/MirrorReconciler/Tests.antt =====
-- The check of a mirror that was just made, and of one whose source was replaced.
use kubemirror.Prelude.{◌≡◌, refl, false, if◌then◌else◌}
use kubemirror.Object.{unstructured}
use kubemirror.Mirror.{create_unstructured_mirror, make_mirror}
use kubemirror.MirrorReconciler.{reconcile, at}
use kubemirror.MirrorReconciler.Orphans.{has_lost}
use kubemirror.MirrorReconciler.Made.{reconcile-make_mirror}
use kubemirror.Cluster.{found}
use kubemirror.Samples.{Objects, memory, cluster, key_at, source}
use kubemirror.Cluster.Store.{same_key}

abbrev made_cluster : Objects
made_cluster k =
    if same_key k (key_at "app-1")
    then found (create_unstructured_mirror source "app-1" "digest" "now")
    else cluster k

reconcile-make_mirror_example : (reconcile memory (key_at "app-1") made_cluster).1 ≡ (
    if has_lost "u1" (memory.get (at (key_at "app-1") "prod" "token") made_cluster)
    then (memory.delete (key_at "app-1") made_cluster).1
    else made_cluster)
unfolding make_mirror
reconcile-make_mirror_example =
    reconcile-make_mirror memory (key_at "app-1") made_cluster (unstructured source) "app-1"
      "digest" "now" (create_unstructured_mirror source "app-1" "digest" "now") refl refl

-- the source is there, so the mirror stays
kept : has_lost "u1" (memory.get (at (key_at "app-1") "prod" "token") made_cluster) ≡ false
unfolding has_lost
kept = refl
