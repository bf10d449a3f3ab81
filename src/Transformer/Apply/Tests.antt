-- ===== src/Transformer/Apply/Tests.antt =====
-- Transformations of a Secret, with simple functions in place of those of other packages.
use kubemirror.Prelude.{
  String, Bool, true, false, ◌==◌, Option, none, some, List, [], ◌∷◌, if◌then◌else◌, is_some, ◌≡◌,
  ◌⊎◌, inr, refl,
}
use kubemirror.Prelude.Text.{codes}
use kubemirror.Object.{Value, null, number, text, obj, arr, Fields, end, field, nil, cons}
use kubemirror.Mirror.{convert_to_string_map}
use kubemirror.Transformer.{Rule, TransformContext}
use kubemirror.Transformer.Path.{parse_path, is_array_index}
use kubemirror.Transformer.Tree.{set_in, set_nested_field}
use kubemirror.Transformer.Tree.Laws.{get_path, diverge}
use kubemirror.Transformer.Tree.Segments.{is_leaf, same_place}
use kubemirror.Transformer.Tree.Writes.{set_in-diverge, written_text, set_nested_field-is_leaf}
use kubemirror.Transformer.Apply.{
  Library, rendered, default_transform_options, root_of, is_for, apply_rule, failed, transformed,
  apply_rules,
}
use kubemirror.Transformer.Apply.Outcomes.{tree_after, IsFatal, apply_rules-tree_after}
use kubemirror.Transformer.Apply.Locality.{IsLocal, root_of_lem, set_in-is_map, apply_rules-diverge}
use kubemirror.Transformer.Apply.Checked.{apply_rule-get_path}

abbrev secret_tree : String → Fields
secret_tree yaml = field "apiVersion" (text "v1") (
    field "kind" (text "Secret") (
      field "metadata"
        (obj (
          field "name" (text "token") (
            field "annotations" (obj (field "kubemirror.raczylo.com/transform" (text yaml) end))
              end)))
        (field "data" (obj (field "user" (text "cm9vdA==") end))
          (field "ports" (arr (cons (number "80") nil)) end))))

-- a rule for the namespaces with a prefix
abbrev value_at : String → String → Rule
value_at path value = record {
  value = some value;
  template = none;
  merge = none;
  namespace_pattern = some (codes "app-*");
  path = path;
  delete = false;
}

abbrev other_rule : Rule
other_rule = record {
  value = none;
  template = some "{{.TargetNamespace}}";
  merge = none;
  namespace_pattern = some (codes "test");
  path = "data.user";
  delete = false;
}

abbrev no_path_rule : Rule
no_path_rule = value_at "" "x"

abbrev context : TransformContext
context = record {
  context_labels = [];
  context_annotations = [];
  target_namespace = "app-1";
  source_namespace = "prod";
  source_name = "token";
  target_name = "token";
}

abbrev texts_of : Option Value → List (String × String)
texts_of (some (obj fs)) = convert_to_string_map fs
texts_of other = []

abbrev map_of : Option Value → Option (Option Fields)
map_of none = some none
map_of (some (obj fs)) = some (some fs)
map_of other = none

abbrev put_in : Value → Fields → List String → Bool × Fields
put_in value u [] = (true, u)
put_in value u (s ∷ rest) =
    let w = set_in value value s rest (obj u) in (is_some w.0, root_of u w.1)

-- a field that is removed holds null here
abbrev simple : Library
simple = record {
  unmarshal = λ yaml.
      if yaml == "one"
      then some (value_at "data.user" "admin" ∷ [])
      else if yaml == "bad"
      then some (value_at "data.user" "admin" ∷ no_path_rule ∷ [])
      else none;
  render = λ timeout template c. rendered c.target_namespace;
  get_annotations = λ u. texts_of (get_path ("metadata" ∷ "annotations" ∷ []) (obj u));
  nested_map = λ u p. map_of (get_path p (obj u));
  set_nested_map = λ u m p. put_in (obj m) u p;
  remove_nested_field = λ u p. (put_in null u p).1;
}

put_in_local :
    (value : Value) (u : Fields) (p q : List String)
    → diverge p q ≡ true
    → get_path q (obj (put_in value u p).1) ≡ get_path q (obj u)
unfolding diverge
put_in_local value u [] q d = cc d
put_in_local value u (s ∷ rest) [] d = cc d
put_in_local value u (s ∷ rest) (t ∷ q) d =
    rw (root_of_lem u (set_in value value s rest (obj u)).1 (set_in-is_map value value s rest u))
      (set_in-diverge value value s rest t q (obj u) d)

simple-IsLocal : IsLocal simple
simple-IsLocal = record {
  set_is_local = λ u m p q d. put_in_local (obj m) u p q d;
  remove_is_local = λ u p q d. put_in_local null u p q d;
}

encoded :
    written_text (secret_tree "one") ("data" ∷ "user" ∷ []) ("data" ∷ "user" ∷ []) "admin"
    ≡ "YWRtaW4="
unfolding written_text is_array_index
encoded = refl

set_nested_field-is_leaf_example :
    get_path
      ("data" ∷ "user" ∷ [])
      (set_nested_field (secret_tree "one") ("ports" ∷ "[1]" ∷ []) "81").1
    ≡ some (text "cm9vdA==")
unfolding set_nested_field is_leaf get_path
set_nested_field-is_leaf_example =
    set_nested_field-is_leaf (secret_tree "one") ("ports" ∷ "[1]" ∷ []) ("data" ∷ "user" ∷ []) "81"
      (text "cm9vdA==") (λ e. cc e) refl refl

apply_rules-tree_after_example :
    (IsFatal default_transform_options simple context
        (value_at "data.user" "admin" ∷ [])
        (secret_tree "one")
      × (apply_rules default_transform_options simple
            (value_at "data.user" "admin" ∷ [])
            context
            (secret_tree "one")
          ≡ failed))
    ⊎ ((¬ (
          IsFatal default_transform_options simple context
            (value_at "data.user" "admin" ∷ [])
            (secret_tree "one")))
        × (apply_rules default_transform_options simple
              (value_at "data.user" "admin" ∷ [])
              context
              (secret_tree "one")
            ≡ transformed (
                tree_after default_transform_options simple context
                  (value_at "data.user" "admin" ∷ [])
                  (secret_tree "one"))))
apply_rules-tree_after_example =
    apply_rules-tree_after default_transform_options simple context
      (value_at "data.user" "admin" ∷ []) (secret_tree "one")

apply_rules-diverge_example :
    get_path ("kind" ∷ []) (
      obj (
        tree_after default_transform_options simple context
          (value_at "data.user" "admin" ∷ [])
          (secret_tree "one")))
    ≡ get_path ("kind" ∷ []) (obj (secret_tree "one"))
unfolding diverge parse_path apply_rules tree_after same_place
apply_rules-diverge_example =
    apply_rules-diverge default_transform_options simple simple-IsLocal context ("kind" ∷ [])
      (value_at "data.user" "admin" ∷ []) (secret_tree "one")
      (tree_after default_transform_options simple context (value_at "data.user" "admin" ∷ [])
        (secret_tree "one"))
      (inr refl, tt) refl

apply_rule-get_path_example :
    get_path (parse_path "data.user") (
      obj
        (apply_rule default_transform_options simple
          (secret_tree "one")
          (value_at "data.user" "admin")
          context).1)
    ≡ some (
        text (
          written_text
            (secret_tree "one")
            (parse_path "data.user")
            (parse_path "data.user")
            "admin"))
unfolding apply_rule is_for
apply_rule-get_path_example =
    apply_rule-get_path default_transform_options simple context (secret_tree "one")
      (value_at "data.user" "admin") "admin" refl refl refl
