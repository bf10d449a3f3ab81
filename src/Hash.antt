-- ===== src/Hash.antt =====
-- pkg/hash/content.go: the content that is hashed, and when a mirror needs a sync.
--
-- `digest` stands for json.Marshal, SHA-256 and the hexadecimal print, in one: it may fail. It is
-- an argument of what uses it.
use kubemirror.Prelude.{
  ℕ, String, Bool, true, not, ◌&&◌, ◌==◌, Option, none, some, [], ◌∷◌, if◌then◌else◌, ltb,
}
use kubemirror.Prelude.Dict.{Dict, lookup, insert, read}
use kubemirror.Prelude.Decimal.{decimal}
use kubemirror.Constants.{
  annotation_transform, annotation_source_generation, annotation_source_content_hash,
}
use kubemirror.Object.{
  Value, obj, Secret, ConfigMap, Unstructured, Object, secret, config_map, unstructured, meta_of,
}

-- what a value of the hashed map can be
pub data Entry : Type 0 where
  plain_text : String → Entry
  byte_map : Dict String → Entry
  text_map : Dict String → Entry
  tree : Value → Entry

abbrev pub Content : Type 0
Content = Dict Entry

-- the annotation's value goes into the content where the annotation is there
unfoldable pub with_transform : Dict String → Content → Content
with_transform annotations content = elim (lookup annotation_transform annotations) [
  | none ↦ content
  | some transform ↦ insert "transform" (plain_text transform) content
]

unfoldable pub extract_secret_content : Secret → Content
unfolding with_transform
extract_secret_content s = with_transform s.meta.annotations (
    ("type", plain_text s.secret_type)
    ∷ ("data", byte_map s.contents)
    ∷ ("stringData", text_map s.string_data)
    ∷ [])

unfoldable pub extract_config_map_content : ConfigMap → Content
unfolding with_transform
extract_config_map_content c =
    with_transform c.meta.annotations
      (("data", text_map c.contents) ∷ ("binaryData", byte_map c.binary_data) ∷ [])

-- the fields that stand for content where there is no spec
unfoldable pub content_fields : Dict Value → Content
content_fields [] = []
content_fields ((key, value) ∷ rest) =
    let others = content_fields rest in
    if not (key == "metadata")
      && not (key == "status")
      && not (key == "apiVersion")
      && not (key == "kind")
    then (key, tree value) ∷ others
    else others

-- `unstructured.NestedMap(obj, "spec")`: a spec that is no map is an error
unfoldable pub spec_content : Dict Value → Option Content
unfolding content_fields
spec_content fields = elim (lookup "spec" fields) [
  | none ↦ some (content_fields fields)
  | some (obj spec) ↦ some (("spec", tree (obj spec)) ∷ [])
  | some other ↦ none
]

unfoldable pub extract_unstructured_content : Unstructured → Option Content
unfolding spec_content with_transform
extract_unstructured_content u = elim (spec_content u.fields) [
  | none ↦ none
  | some content ↦ some (with_transform u.meta.annotations content)
]

unfoldable pub extract_content : Object → Option Content
unfolding extract_secret_content extract_config_map_content extract_unstructured_content
extract_content (secret s) = some (extract_secret_content s)
extract_content (config_map c) = some (extract_config_map_content c)
extract_content (unstructured u) = extract_unstructured_content u

unfoldable pub get_generation : Object → ℕ
get_generation o = (meta_of o).generation

module _ (digest : Content → Option String) where
  unfoldable pub compute_content_hash : Object → Option String
  unfolding extract_content
  compute_content_hash o = elim (extract_content o) [ none ↦ none | some content ↦ digest content ]

  -- the content hash layer of NeedsSync
  unfoldable pub hash_differs : Object → Dict String → Option Bool
  unfolding compute_content_hash
  hash_differs source target_annotations = elim (compute_content_hash source) [
    | none ↦ none
    | some source_hash ↦
        some (not (source_hash == read annotation_source_content_hash target_annotations))
  ]

  -- `none` is an error. The target itself is not read, only its annotations.
  unfoldable pub needs_sync : Object → Dict String → Option Bool
  unfolding hash_differs get_generation
  needs_sync source target_annotations =
      if ltb 0 (get_generation source)
        && not (
            decimal (get_generation source) == read annotation_source_generation target_annotations)
      then some true
      else hash_differs source target_annotations
