-- ===== src/Mirror/Tests.antt =====
-- The mirror of a concrete source.
use kubemirror.Prelude.{
  ◌≡◌, refl, false, Option, some, none, String, [], ◌∷◌, if◌then◌else◌, inl, inr,
}
use kubemirror.Prelude.Dict.{Dict, read, lookup, insert}
use kubemirror.Object.{Fields, end, field, text, Object, unstructured, secret, meta_of}
use kubemirror.Hash.{Content, needs_sync, compute_content_hash}
use kubemirror.Mirror.{Result, ok, err, make_mirror, create_mirror, update_mirror, TransformContext}
use kubemirror.Mirror.{transformation_failed, convert_to_string_map, apply_transformations}
use kubemirror.Mirror.Rejection.{
  transform_object, asks_strict, without_rules, carrier_of, apply_transformations-rejects,
}
use kubemirror.Transformer.Apply.{Library, timed_out}
use kubemirror.Mirror.Sync.{needs_sync-update_mirror, needs_sync-create_mirror}
use kubemirror.Mirror.Ownership.{IsMirrorOf, make_mirror-IsMirrorOf}
use kubemirror.Samples.{source, source_meta, mirror_in}

abbrev digest : Content → Option String
digest content = some "digest"

abbrev transform : Object → TransformContext → Option Object
transform object context = some object

abbrev token : Object
token = secret (record {
  meta = source_meta;
  secret_type = "Opaque";
  contents = ("password", "x") ∷ [];
  string_data = [];
})

abbrev of_result : Result Object → Object
of_result (ok o) = o
of_result (err e) = token

abbrev created : Object
created = of_result (create_mirror transform digest token "app-1" "now")

abbrev updated : Object
updated =
    of_result (
      update_mirror transform digest (unstructured (mirror_in "app-1")) (unstructured source) "now")

needs_sync-update_mirror_example :
    needs_sync digest (unstructured source) (meta_of updated).annotations ≡ some false
unfolding update_mirror compute_content_hash read
needs_sync-update_mirror_example =
    needs_sync-update_mirror digest transform (unstructured (mirror_in "app-1"))
      (unstructured source) updated "now" refl refl

needs_sync-create_mirror_example :
    needs_sync digest token (meta_of created).annotations ≡ some false
unfolding create_mirror compute_content_hash read
needs_sync-create_mirror_example =
    needs_sync-create_mirror digest transform token created "app-1" "now" refl refl

make_mirror-IsMirrorOf_example :
    IsMirrorOf source_meta "app-1" (meta_of (make_mirror token "app-1" "digest" "now"))
make_mirror-IsMirrorOf_example =
    make_mirror-IsMirrorOf token "app-1" "digest" "now" (λ e. cc e) (λ e. cc e)

abbrev with_rules : Object
with_rules = unstructured (record source {
  meta = record source_meta { annotations = ("kubemirror.raczylo.com/transform", "{") ∷ [] };
})

abbrev plain : Object
plain = unstructured (mirror_in "app-1")

-- a tree of nothing but the annotations
abbrev fields_of : Dict String → Fields
fields_of [] = end
fields_of ((k, v) ∷ rest) = field k (text v) (fields_of rest)

abbrev annotations_only : Object → Option Fields
annotations_only o = some (fields_of (meta_of o).annotations)

-- no text is YAML here
abbrev no_yaml : Library
no_yaml = record {
  unmarshal = λ yaml. none;
  render = λ timeout template context. timed_out;
  get_annotations = convert_to_string_map;
  nested_map = λ u path. some none;
  set_nested_map = λ u m path. (false, u);
  remove_nested_field = λ u path. u;
}

apply_transformations-rejects_example :
    apply_transformations
      (transform_object no_yaml annotations_only (λ u. plain))
      with_rules
      plain
      "app-1"
    ≡ (if asks_strict (meta_of with_rules).annotations
        then err transformation_failed
        else ok (without_rules (carrier_of with_rules plain "{")))
unfolding lookup insert convert_to_string_map
apply_transformations-rejects_example =
    apply_transformations-rejects no_yaml annotations_only (λ u. plain) with_rules plain "app-1" "{"
      (fields_of (meta_of (carrier_of with_rules plain "{")).annotations) refl (λ e. cc e)
      (inr (inl refl)) refl refl (λ k. refl)
