-- ===== src/Mirror.antt =====
-- pkg/controller/mirror.go: making a mirror, bringing it up to date, and telling what is a mirror.
--
-- `digest` is the hash of pkg/hash. `transform` stands for Transformer.Transform under the default
-- options, applied to the object whose annotations carry the rules: it gives the object back or
-- fails. `now` is the formatted time. A function that changes its mirror in place gives the new
-- mirror back; after an error no caller uses the mirror.
pub mod Ownership
pub mod Sync
pub mod Rejection
pub mod Tests
use package.text.Mathlib.Text.{starts_with}
use kubemirror.Prelude.{
  ℕ, String, Bool, true, false, not, ◌&&◌, ◌||◌, ◌==◌, Option, none, some, List, [], ◌∷◌,
  if◌then◌else◌, ltb,
}
use kubemirror.Prelude.Dict.{Dict, lookup, insert, delete, insert_all, filter_keys, read}
use kubemirror.Prelude.Decimal.{decimal}
use kubemirror.Prelude.Lists.{contains}
use kubemirror.Constants.{
  domain_prefix, label_managed_by, label_mirror, annotation_source_namespace,
  annotation_source_name, annotation_source_uid, annotation_source_generation,
  annotation_source_content_hash, annotation_source_resource_version, annotation_last_sync_time,
  annotation_transform, annotation_transform_strict, controller_name,
}
use kubemirror.Object.{
  Value, text, obj, Fields, end, field, Meta, Secret, ConfigMap, Unstructured, Object, secret,
  config_map, unstructured, meta_of, with_annotations,
}
use kubemirror.Hash.{Content, compute_content_hash}
use kubemirror.Transformer.{TransformContext}

pub data Failure : Type 0 where
  hash_failed : Failure
  source_not_secret : Failure
  source_not_config_map : Failure
  source_not_unstructured : Failure
  transformation_failed : Failure

pub data Result {ℓ} (A : Type ℓ) : Type ℓ where
  ok : A → Result A
  err : Failure → Result A

infixl 5 ◌>>=◌
abbrev pub ◌>>=◌ {ℓ κ} : {A : Type ℓ} {B : Type κ} → Result A → (A → Result B) → Result B
ok a >>= f = f a
err e >>= f = err e

abbrev pub or_fail {ℓ} : {A : Type ℓ} → Option A → Failure → Result A
or_fail none e = err e
or_fail (some a) e = ok a

unfoldable pub build_mirror_annotations : Meta → String → String → Dict String
build_mirror_annotations source source_hash now =
    let a = insert annotation_source_namespace source.namespace (
      insert annotation_source_name source.name (
        insert annotation_source_uid source.uid (
          insert annotation_source_content_hash source_hash
            (insert annotation_last_sync_time now [])))) in
    let b =
      if ltb 0 source.generation
      then insert annotation_source_generation (decimal source.generation) a
      else a in
    if not (source.resource_version == "")
    then insert annotation_source_resource_version source.resource_version b
    else b

-- the metadata of a mirror of a typed object: nothing but what is written here
abbrev pub mirror_meta : Meta → String → Dict String → Meta
mirror_meta source target_namespace annotations = record {
  name = source.name;
  namespace = target_namespace;
  uid = "";
  resource_version = "";
  generation = 0;
  labels = (label_managed_by, controller_name) ∷ (label_mirror, "true") ∷ [];
  annotations = annotations;
  finalizers = [];
  owner_references = [];
  creation_timestamp = none;
  deletion_timestamp = none;
}

unfoldable pub create_secret_mirror : Secret → String → String → String → Secret
unfolding build_mirror_annotations
create_secret_mirror source target_namespace source_hash now = record {
  meta =
      mirror_meta source.meta target_namespace
        (build_mirror_annotations source.meta source_hash now);
  secret_type = source.secret_type;
  contents = source.contents;
  string_data = [];
}

unfoldable pub create_config_map_mirror : ConfigMap → String → String → String → ConfigMap
unfolding build_mirror_annotations
create_config_map_mirror source target_namespace source_hash now = record {
  meta =
      mirror_meta source.meta target_namespace
        (build_mirror_annotations source.meta source_hash now);
  contents = source.contents;
  binary_data = source.binary_data;
}

unfoldable pub filter_kube_mirror_metadata : Dict String → Dict String
filter_kube_mirror_metadata = filter_keys (λ k. not (starts_with k domain_prefix))

unfoldable pub create_unstructured_mirror : Unstructured → String → String → String → Unstructured
unfolding build_mirror_annotations filter_kube_mirror_metadata
create_unstructured_mirror source target_namespace source_hash now = record source {
  meta = record source.meta {
    namespace = target_namespace;
    labels =
        insert label_mirror "true" (
          insert label_managed_by controller_name (filter_kube_mirror_metadata source.meta.labels));
    annotations =
        insert_all (build_mirror_annotations source.meta source_hash now)
          (filter_kube_mirror_metadata source.meta.annotations);
    resource_version = "";
    uid = "";
    generation = 0;
    creation_timestamp = none;
    finalizers = [];
    owner_references = [];
  };
  fields = delete "status" source.fields;
}

unfoldable pub update_mirror_annotations : Dict String → Meta → String → String → Dict String
update_mirror_annotations annotations source source_hash now =
    let a =
      insert annotation_last_sync_time now
        (insert annotation_source_content_hash source_hash annotations) in
    let b =
      if ltb 0 source.generation
      then insert annotation_source_generation (decimal source.generation) a
      else a in
    if not (source.resource_version == "")
    then insert annotation_source_resource_version source.resource_version b
    else b

abbrev pub skip_fields : List String
skip_fields =
    "metadata" ∷ "status" ∷ "apiVersion" ∷ "kind" ∷ "managedFields" ∷ "selfLink" ∷ "resourceVersion"
    ∷ "generation" ∷ "creationTimestamp" ∷ "deletionTimestamp" ∷ "deletionGracePeriodSeconds"
    ∷ "uid" ∷ "ownerReferences" ∷ "finalizers" ∷ []

-- `for key, value := range s.Object { if !skipFields[key] { m.Object[key] = value } }`
unfoldable pub copy_fields : Dict Value → Dict Value → Dict Value
copy_fields source mirror =
    insert_all (filter_keys (λ k. not (contains skip_fields k)) source) mirror

-- The values are the source's own in the code, which the mirror then shares; here they are copies.
unfoldable pub update_unstructured_mirror :
    Unstructured → Unstructured → String → String → Unstructured
unfolding copy_fields update_mirror_annotations
update_unstructured_mirror mirror source source_hash now = record mirror {
  fields = copy_fields source.fields mirror.fields;
  meta = record mirror.meta {
    annotations = update_mirror_annotations mirror.meta.annotations source.meta source_hash now;
    finalizers = [];
    owner_references = [];
  };
}

-- the type switch of UpdateMirror
unfoldable pub update_content : Object → Object → String → String → Result Object
unfolding update_unstructured_mirror update_mirror_annotations
update_content (secret m) (secret s) source_hash now = ok (
    secret (record m {
      contents = s.contents;
      secret_type = s.secret_type;
      meta = record m.meta {
        annotations = update_mirror_annotations m.meta.annotations s.meta source_hash now;
      };
    }))
update_content (secret m) source source_hash now = err source_not_secret
update_content (config_map m) (config_map s) source_hash now = ok (
    config_map (record m {
      contents = s.contents;
      binary_data = s.binary_data;
      meta = record m.meta {
        annotations = update_mirror_annotations m.meta.annotations s.meta source_hash now;
      };
    }))
update_content (config_map m) source source_hash now = err source_not_config_map
update_content (unstructured m) (unstructured s) source_hash now =
    ok (unstructured (update_unstructured_mirror m s source_hash now))
update_content (unstructured m) source source_hash now = err source_not_unstructured

-- convertToStringMap and convertToByteMap: only texts have a place in a JSON document, so the
-- case of bytes does not arise and the two agree.
unfoldable pub convert_to_string_map : Fields → Dict String
convert_to_string_map end = []
convert_to_string_map (field k v rest) =
    let others = convert_to_string_map rest in elim v [ text s ↦ (k, s) ∷ others | other ↦ others ]

-- `unstructured.NestedMap(obj, key)` with the error dropped
unfoldable pub nested_map : String → Dict Value → Option Fields
nested_map key fields = elim (lookup key fields) [
  | none ↦ none
  | some (obj fs) ↦ some fs
  | some other ↦ none
]

-- the data that a typed mirror takes over, where the transformed object has it
unfoldable pub data_or : String → Dict Value → Dict String → Dict String
unfolding nested_map convert_to_string_map
data_or key fields old = elim (nested_map key fields) [
  | none ↦ old
  | some fs ↦ convert_to_string_map fs
]

-- a transformed object that is unstructured is copied back into the mirror
unfoldable pub copy_back : Object → Object → Object
unfolding data_or
copy_back (secret m) (unstructured t) = secret (record m {
  contents = data_or "data" t.fields m.contents;
  meta = record m.meta { labels = t.meta.labels; annotations = t.meta.annotations };
})
copy_back (config_map m) (unstructured t) = config_map (record m {
  contents = data_or "data" t.fields m.contents;
  binary_data = data_or "binaryData" t.fields m.binary_data;
  meta = record m.meta { labels = t.meta.labels; annotations = t.meta.annotations };
})
copy_back (unstructured m) (unstructured t) = unstructured t
copy_back mirror transformed = transformed

unfoldable pub build_transform_context : Object → Object → String → TransformContext
build_transform_context source mirror target_namespace = record {
  target_namespace = target_namespace;
  source_namespace = (meta_of source).namespace;
  source_name = (meta_of source).name;
  target_name = (meta_of mirror).name;
  context_labels = (meta_of source).labels;
  context_annotations = (meta_of source).annotations;
}

-- the type switch of CreateMirror
unfoldable pub make_mirror : Object → String → String → String → Object
unfolding create_secret_mirror create_config_map_mirror create_unstructured_mirror
make_mirror (secret s) target_namespace source_hash now =
    secret (create_secret_mirror s target_namespace source_hash now)
make_mirror (config_map c) target_namespace source_hash now =
    config_map (create_config_map_mirror c target_namespace source_hash now)
make_mirror (unstructured u) target_namespace source_hash now =
    unstructured (create_unstructured_mirror u target_namespace source_hash now)

-- the annotations that the mirror carries while it is transformed
abbrev pub rules_on : Dict String → String → Dict String → Dict String
rules_on source rules mirror =
    let m = insert annotation_transform rules mirror in
    elim (lookup annotation_transform_strict source) [
      | none ↦ m
      | some strict ↦ insert annotation_transform_strict strict m
    ]

module _ (transform : Object → TransformContext → Option Object) where
  -- the part of applyTransformations behind its early returns
  unfoldable pub transform_by : String → Object → Object → String → Result Object
  unfolding build_transform_context
  transform_by rules source mirror target_namespace =
      let carrier =
        with_annotations mirror
          (rules_on (meta_of source).annotations rules (meta_of mirror).annotations) in
      elim (transform carrier (build_transform_context source carrier target_namespace)) [
        | none ↦ err transformation_failed
        | some t ↦ ok (
            with_annotations t (
              delete annotation_transform_strict
                (delete annotation_transform (meta_of t).annotations)))
      ]

  unfoldable pub apply_transformations : Object → Object → String → Result Object
  unfolding transform_by
  apply_transformations source mirror target_namespace =
      let rules = read annotation_transform (meta_of source).annotations in
      if rules == "" then ok mirror else transform_by rules source mirror target_namespace

  module _ (digest : Content → Option String) where
    unfoldable pub create_mirror : Object → String → String → Result Object
    unfolding make_mirror apply_transformations compute_content_hash
    create_mirror source target_namespace now = do
      source_hash ← or_fail (compute_content_hash digest source) hash_failed
      let mirror = make_mirror source target_namespace source_hash now
      apply_transformations source mirror target_namespace

    unfoldable pub update_mirror : Object → Object → String → Result Object
    unfolding update_content apply_transformations compute_content_hash copy_back
    update_mirror mirror source now = do
      source_hash ← or_fail (compute_content_hash digest source) hash_failed
      updated ← update_content mirror source source_hash now
      transformed ← apply_transformations source updated (meta_of updated).namespace
      ok (copy_back updated transformed)

unfoldable pub is_managed_by_us : Meta → Bool
is_managed_by_us m = read label_managed_by m.labels == controller_name

unfoldable pub is_mirror_resource : Meta → Bool
is_mirror_resource m = read label_mirror m.labels == "true"

-- the namespace, the name and the UID of the source, where the mirror names one
unfoldable pub get_source_reference : Meta → Option (String × String × String)
get_source_reference m =
    let namespace = read annotation_source_namespace m.annotations in
    let name = read annotation_source_name m.annotations in
    if namespace == "" || name == ""
    then none
    else some (namespace, name, read annotation_source_uid m.annotations)
