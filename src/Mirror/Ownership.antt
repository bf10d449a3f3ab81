-- ===== src/Mirror/Ownership.antt =====
-- What marks a mirror, pkg/controller/mirror.go: it is managed, names its source, and is never
-- taken for a source.
use kubemirror.Prelude.{◌≡◌, ◌≢◌, refl, String, true, some, [], arith, eq_iff}
use kubemirror.Prelude.Dict.{lookup, read, read_lem, dict_laws, lookup-insert_all}
use kubemirror.Constants.{
  label_enabled, annotation_source_namespace, annotation_source_name, annotation_source_uid,
}
use kubemirror.Object.{Meta, Unstructured, Object, secret, config_map, unstructured, meta_of}
use kubemirror.Mirror.{
  build_mirror_annotations, make_mirror, create_unstructured_mirror, filter_kube_mirror_metadata,
  is_managed_by_us, is_mirror_resource, get_source_reference, mirror_meta,
}

-- The mirror carries the marks, the reference to its source, and nothing that belongs to the source
-- alone.
pub record IsMirrorOf (source : Meta) (ns : String) (m : Meta) : Type 0 where
  pub managed : is_managed_by_us m ≡ true
  pub marked : is_mirror_resource m ≡ true
  pub not_enabled : read label_enabled m.labels ≡ ""
  pub refers : get_source_reference m ≡ some (source.namespace, source.name, source.uid)
  pub placed : m.namespace ≡ ns
  pub named : m.name ≡ source.name
  pub no_finalizers : m.finalizers ≡ []
  pub no_owners : m.owner_references ≡ []

pub reference-build :
    (source : Meta) (hash now : String)
    → (lookup annotation_source_namespace (build_mirror_annotations source hash now)
        ≡ some source.namespace)
      × (lookup annotation_source_name (build_mirror_annotations source hash now)
          ≡ some source.name)
      × (lookup annotation_source_uid (build_mirror_annotations source hash now) ≡ some source.uid)
unfolding build_mirror_annotations
reference-build source hash now =
    (simp dict_laws (ground arith), simp dict_laws (ground arith), simp dict_laws (ground arith))

reference_of :
    (m : Meta) (namespace name uid : String)
    → lookup annotation_source_namespace m.annotations ≡ some namespace
    → lookup annotation_source_name m.annotations ≡ some name
    → lookup annotation_source_uid m.annotations ≡ some uid
    → namespace ≢ ""
    → name ≢ ""
    → get_source_reference m ≡ some (namespace, name, uid)
unfolding get_source_reference
reference_of m namespace name uid a b c p q = ground (
  arith,
  read_lem annotation_source_namespace m.annotations,
  read_lem annotation_source_name m.annotations,
  read_lem annotation_source_uid m.annotations,
  eq_iff namespace "",
  eq_iff name "",
)

unstructured-IsMirrorOf :
    (u : Unstructured) (ns hash now : String)
    → u.meta.namespace ≢ ""
    → u.meta.name ≢ ""
    → IsMirrorOf u.meta ns (create_unstructured_mirror u ns hash now).meta
unfolding create_unstructured_mirror filter_kube_mirror_metadata
unstructured-IsMirrorOf u ns hash now p q =
    let (a, b, c) = reference-build u.meta hash now in
    let over : (k v : String)
        → lookup k (build_mirror_annotations u.meta hash now) ≡ some v
        → lookup k (create_unstructured_mirror u ns hash now).meta.annotations ≡ some v =
      λ k v e. ground (
        arith,
        e,
        lookup-insert_all k (build_mirror_annotations u.meta hash now)
            (filter_kube_mirror_metadata u.meta.annotations),
      ) in
    record {
      managed = unfold is_managed_by_us in simp dict_laws (ground arith);
      marked = unfold is_mirror_resource in simp dict_laws (ground arith);
      not_enabled = simp dict_laws (ground arith);
      refers =
          reference_of (create_unstructured_mirror u ns hash now).meta u.meta.namespace u.meta.name
            u.meta.uid (over annotation_source_namespace _ a) (over annotation_source_name _ b)
            (over annotation_source_uid _ c) p q;
      placed = refl;
      named = refl;
      no_finalizers = refl;
      no_owners = refl;
    }

typed-IsMirrorOf :
    (source : Meta) (ns hash now : String)
    → source.namespace ≢ ""
    → source.name ≢ ""
    → IsMirrorOf source ns (mirror_meta source ns (build_mirror_annotations source hash now))
typed-IsMirrorOf source ns hash now p q =
    let (a, b, c) = reference-build source hash now in
    let m = mirror_meta source ns (build_mirror_annotations source hash now) in
    record {
      managed = unfold is_managed_by_us read in refl;
      marked = unfold is_mirror_resource read in refl;
      not_enabled = unfold read in refl;
      refers = reference_of m source.namespace source.name source.uid a b c p q;
      placed = refl;
      named = refl;
      no_finalizers = refl;
      no_owners = refl;
    }

-- The mirror that CreateMirror makes, before any transformation, of a source with a namespace
-- and a name: it is marked and managed, refers to the namespace, name and UID of its source,
-- stands in the target namespace under the name of the source, and carries no finalizer, no
-- owner and no enabled label, whatever labels the source has.
pub make_mirror-IsMirrorOf :
    (source : Object) (ns hash now : String)
    → (meta_of source).namespace ≢ ""
    → (meta_of source).name ≢ ""
    → IsMirrorOf (meta_of source) ns (meta_of (make_mirror source ns hash now))
unfolding make_mirror
make_mirror-IsMirrorOf (unstructured u) ns hash now p q = unstructured-IsMirrorOf u ns hash now p q
make_mirror-IsMirrorOf (secret s) ns hash now p q = typed-IsMirrorOf s.meta ns hash now p q
make_mirror-IsMirrorOf (config_map c) ns hash now p q = typed-IsMirrorOf c.meta ns hash now p q
