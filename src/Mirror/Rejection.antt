-- ===== src/Mirror/Rejection.antt =====
-- The builder of mirrors with the transformer of pkg/transformer, pkg/controller/mirror.go: what comes
-- of rules that the transformer's checks reject.
use kubemirror.Prelude.{
  String, Bool, true, false, ◌||◌, ◌==◌, Option, none, some, if◌then◌else◌, ◌≡◌, ◌≢◌, refl, ap, ◌∙◌,
  arith, Option-cases, inl, inr, eq-false_of_ne,
}
use kubemirror.Prelude.Dict.{
  Dict, lookup, insert, delete, read, read_lem, value_or_empty, lookup-insert,
}
use kubemirror.Constants.{annotation_transform, annotation_transform_strict}
use kubemirror.Object.{Fields, Object, secret, config_map, unstructured, meta_of, with_annotations}
use kubemirror.Transformer.{TransformContext}
use kubemirror.Transformer.Apply.{
  Library, default_transform_options, Outcome, failed, original, transformed, is_strict_mode,
  transform,
}
use kubemirror.Transformer.Apply.Rejected.{IsBad, transform-rejects}
use kubemirror.Mirror.{
  transformation_failed, ok, err, rules_on, build_transform_context, transform_by,
  apply_transformations,
}

-- The transformer as the builder calls it: `to_tree` is the conversion to the tree of an object, which
-- may fail, and `of_tree` the unstructured object of a tree.
module _ (lib : Library) (to_tree : Object → Option Fields) (of_tree : Fields → Object) where
  abbrev pub object_of : Object → Outcome → Option Object
  object_of o failed = none
  object_of o original = some o
  object_of o (transformed u) = some (of_tree u)

  unfoldable pub transform_object : Object → TransformContext → Option Object
  unfolding transform
  transform_object o context =
      object_of o (transform default_transform_options lib (to_tree o) context)

-- the strict annotation of a source
abbrev pub says_strict : Option String → Bool
says_strict o = elim o [ none ↦ false | some value ↦ value == "true" || value == "1" ]

abbrev pub asks_strict : Dict String → Bool
asks_strict a = says_strict (lookup annotation_transform_strict a)

-- the mirror with the rules on it
abbrev pub carrier_of : Object → Object → String → Object
carrier_of source mirror rules =
    with_annotations mirror
      (rules_on (meta_of source).annotations rules (meta_of mirror).annotations)

-- and without them
abbrev pub without_rules : Object → Object
without_rules o =
    with_annotations o
      (delete annotation_transform_strict (delete annotation_transform (meta_of o).annotations))

annotations_of : (o : Object) (a : Dict String) → (meta_of (with_annotations o a)).annotations ≡ a
annotations_of (secret s) a = refl
annotations_of (config_map c) a = refl
annotations_of (unstructured u) a = refl

rules_there :
    (source : Dict String) (rules : String) (mirror : Dict String)
    → lookup annotation_transform (rules_on source rules mirror) ≡ some rules
rules_there source rules mirror = elim (Option-cases (lookup annotation_transform_strict source)) [
  | inl e ↦
      rw (e, rules_on)
        (ground (arith, lookup-insert annotation_transform annotation_transform rules mirror))
  | inr (strict, e) ↦
      rw (e, rules_on)
        (ground (
          arith,
          lookup-insert annotation_transform_strict annotation_transform strict
              (insert annotation_transform rules mirror),
          lookup-insert annotation_transform annotation_transform rules mirror,
        ))
]

strict_there :
    (source : Dict String) (rules : String) (mirror : Dict String)
    → lookup annotation_transform_strict mirror ≡ none
    → lookup annotation_transform_strict (rules_on source rules mirror)
      ≡ lookup annotation_transform_strict source
strict_there source rules mirror h =
    elim (Option-cases (lookup annotation_transform_strict source)) [
      | inl e ↦
          rw (e, rules_on)
            (ground (
              arith,
              h,
              lookup-insert annotation_transform annotation_transform_strict rules mirror,
            ))
      | inr (strict, e) ↦
          rw (e, rules_on)
            (ground (
              arith,
              lookup-insert annotation_transform_strict annotation_transform_strict strict
                  (insert annotation_transform rules mirror),
            ))
    ]

module _ (lib : Library) (to_tree : Object → Option Fields) (of_tree : Fields → Object) where
  called :
      (source mirror : Object) (ns yaml : String) (b : Bool)
      → transform_object lib to_tree of_tree
          (carrier_of source mirror yaml)
          (build_transform_context source (carrier_of source mirror yaml) ns)
        ≡ (if b then none else some (carrier_of source mirror yaml))
      → transform_by (transform_object lib to_tree of_tree) yaml source mirror ns ≡ (
          if b
          then err transformation_failed
          else ok (without_rules (carrier_of source mirror yaml)))
  unfolding transform_by
  called source mirror ns yaml true h = rw (h, transform_by) refl
  called source mirror ns yaml false h = rw (h, transform_by) refl

  strict_here :
      (source mirror : Object) (yaml : String) (u : Fields)
      → lookup annotation_transform_strict (meta_of mirror).annotations ≡ none
      → ((k : String)
          → lookup k (lib.get_annotations u)
            ≡ lookup k (meta_of (carrier_of source mirror yaml)).annotations)
      → is_strict_mode default_transform_options lib u ≡ asks_strict (meta_of source).annotations
  unfolding is_strict_mode
  strict_here source mirror yaml u unstrict kept =
      let s : Dict String = (meta_of source).annotations in
      let m : Dict String = (meta_of mirror).annotations in
      ap says_strict (
        kept annotation_transform_strict
        ∙ ap (lookup annotation_transform_strict) (annotations_of mirror (rules_on s yaml m))
        ∙ strict_there s yaml m unstrict)

  object_of_if :
      (o : Object) (b : Bool)
      → object_of lib to_tree of_tree o (if b then failed else original)
        ≡ (if b then none else some o)
  object_of_if o true = refl
  object_of_if o false = refl

  rejects :
      (source mirror : Object) (ns yaml : String) (u : Fields)
      → yaml ≢ ""
      → IsBad default_transform_options lib
          (build_transform_context source (carrier_of source mirror yaml) ns)
          yaml
      → lookup annotation_transform_strict (meta_of mirror).annotations ≡ none
      → to_tree (carrier_of source mirror yaml) ≡ some u
      → ((k : String)
          → lookup k (lib.get_annotations u)
            ≡ lookup k (meta_of (carrier_of source mirror yaml)).annotations)
      → transform_object lib to_tree of_tree
          (carrier_of source mirror yaml)
          (build_transform_context source (carrier_of source mirror yaml) ns)
        ≡ (if asks_strict (meta_of source).annotations
            then none
            else some (carrier_of source mirror yaml))
  unfolding transform_object
  rejects source mirror ns yaml u full bad unstrict converted kept =
      let carrier : Object = carrier_of source mirror yaml in
      let context : TransformContext = build_transform_context source carrier ns in
      let s : Dict String = (meta_of source).annotations in
      let m : Dict String = (meta_of mirror).annotations in
      let found : lookup annotation_transform (lib.get_annotations u) ≡ some yaml =
        kept annotation_transform
        ∙ ap (lookup annotation_transform) (annotations_of mirror (rules_on s yaml m))
        ∙ rules_there s yaml m in
      ap
        (λ t.
          object_of lib to_tree of_tree carrier (transform default_transform_options lib t context))
        converted
      ∙ ap (object_of lib to_tree of_tree carrier)
          (transform-rejects default_transform_options lib context u yaml found full bad)
      ∙ object_of_if carrier (is_strict_mode default_transform_options lib u)
      ∙ ap (λ b. if b then none else some carrier) (strict_here source mirror yaml u unstrict kept)

  -- A source whose rules the transformer rejects, since they are too large, cannot be parsed, are too
  -- many or hold an invalid one, gets no mirror where its strict annotation is "true" or "1"; else it
  -- gets the mirror as it was built, without the annotations of a transformation. This is for a mirror
  -- that has no strict annotation of its own, and a conversion that keeps the annotations.
  pub apply_transformations-rejects :
      (source mirror : Object) (ns yaml : String) (u : Fields)
      → lookup annotation_transform (meta_of source).annotations ≡ some yaml
      → yaml ≢ ""
      → IsBad default_transform_options lib
          (build_transform_context source (carrier_of source mirror yaml) ns)
          yaml
      → lookup annotation_transform_strict (meta_of mirror).annotations ≡ none
      → to_tree (carrier_of source mirror yaml) ≡ some u
      → ((k : String)
          → lookup k (lib.get_annotations u)
            ≡ lookup k (meta_of (carrier_of source mirror yaml)).annotations)
      → apply_transformations (transform_object lib to_tree of_tree) source mirror ns ≡ (
          if asks_strict (meta_of source).annotations
          then err transformation_failed
          else ok (without_rules (carrier_of source mirror yaml)))
  unfolding apply_transformations
  apply_transformations-rejects source mirror ns yaml u there full bad unstrict converted kept =
      let rules : read annotation_transform (meta_of source).annotations ≡ yaml =
        read_lem annotation_transform (meta_of source).annotations ∙ ap value_or_empty there in
      let f : Object → TransformContext → Option Object = transform_object lib to_tree of_tree in
      ap (λ t. if t == "" then ok mirror else transform_by f t source mirror ns) rules
      ∙ rw (eq-false_of_ne yaml "" full) (
          called source mirror ns yaml (asks_strict (meta_of source).annotations)
            (rejects source mirror ns yaml u full bad unstrict converted kept))
