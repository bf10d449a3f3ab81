-- ===== src/MirrorReconciler/Made.antt =====
-- The builder of mirrors, pkg/controller/mirror.go, and the reconciler that removes them,
-- pkg/controller/mirror_reconciler.go: which of the mirrors that the one makes the other deletes.
use kubemirror.Prelude.{String, ◌≡◌, refl, ap, ◌∙◌, some, if◌then◌else◌, arith}
use kubemirror.Prelude.Dict.{lookup, lookup-insert_all}
use kubemirror.Constants.{
  annotation_source_namespace, annotation_source_name, annotation_source_uid,
}
use kubemirror.Object.{Meta, Unstructured, Object, secret, config_map, unstructured, meta_of}
use kubemirror.Mirror.{
  build_mirror_annotations, filter_kube_mirror_metadata, create_unstructured_mirror, make_mirror,
}
use kubemirror.Mirror.Ownership.{reference-build}
use kubemirror.Cluster.{Key, found, Client}
use kubemirror.MirrorReconciler.{source_named, at, reconcile}
use kubemirror.MirrorReconciler.Orphans.{has_lost, reconcile-exact}

-- what the builder writes stands in the annotations of the mirror
annotated :
    (source : Object) (ns hash now key value : String)
    → lookup key (build_mirror_annotations (meta_of source) hash now) ≡ some value
    → lookup key (meta_of (make_mirror source ns hash now)).annotations ≡ some value
unfolding make_mirror create_unstructured_mirror
annotated (secret s) ns hash now key value e = e
annotated (config_map c) ns hash now key value e = e
annotated (unstructured u) ns hash now key value e = ground (
  arith,
  e,
  lookup-insert_all key (build_mirror_annotations u.meta hash now)
      (filter_kube_mirror_metadata u.meta.annotations),
)

source_named-make_mirror :
    (source : Object) (ns hash now : String) (m : Meta)
    → m.annotations ≡ (meta_of (make_mirror source ns hash now)).annotations
    → source_named m
      ≡ some ((meta_of source).namespace, (meta_of source).name, (meta_of source).uid)
unfolding source_named
source_named-make_mirror source ns hash now m same =
    let (a, b, c) = reference-build (meta_of source) hash now in
    let at_key : (key value : String)
        → lookup key (build_mirror_annotations (meta_of source) hash now) ≡ some value
        → lookup key m.annotations ≡ some value =
      λ key value e. ap (lookup key) same ∙ annotated source ns hash now key value e in
    rw
      (
        at_key annotation_source_namespace _ a,
        at_key annotation_source_name _ b,
        at_key annotation_source_uid _ c,
        source_named,
      )
      refl

-- An object whose annotations are those that CreateMirror gave it is deleted by the reconciler of
-- mirrors exactly if its source is gone, or if there is another object under the source's namespace and
-- name that has another UID and is not being deleted. While the source is there nothing is written.
pub reconcile-make_mirror :
    (c : Client) (k : Key) (s : c.S) (source : Object) (ns hash now : String)
    (mirror : Unstructured)
    → c.get k s ≡ found mirror
    → mirror.meta.annotations ≡ (meta_of (make_mirror source ns hash now)).annotations
    → (reconcile c k s).1 ≡ (
        if has_lost
          (meta_of source).uid
          (c.get (at k (meta_of source).namespace (meta_of source).name) s)
        then (c.delete k s).1
        else s)
reconcile-make_mirror c k s source ns hash now mirror there made =
    reconcile-exact c k s mirror (meta_of source).namespace (meta_of source).name
      (meta_of source).uid there (source_named-make_mirror source ns hash now mirror.meta made)
