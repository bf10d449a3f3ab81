-- ===== src/Transformer/Apply.antt =====
-- Transform of pkg/transformer/transformer.go: from the annotation of an object to the object that the
-- rules make of it.
pub mod Outcomes
pub mod Rejected
pub mod Locality
pub mod Checked
pub mod Tests
use kubemirror.Prelude.{
  ℕ, suc, ◌+◌, ◌*◌, String, Bool, true, false, not, ◌&&◌, ◌||◌, ◌==◌, Option, none, some, List, [],
  ◌∷◌, if◌then◌else◌, ltb, leb, is_some, length,
}
use kubemirror.Prelude.Dict.{Dict, lookup}
use kubemirror.Constants.{annotation_transform, annotation_transform_strict}
use kubemirror.Object.{Value, text, obj, Fields, end, field}
use kubemirror.Transformer.{
  Rule, TransformContext, RuleError, RuleType, value_rule, template_rule, merge_rule, delete_rule,
  unknown_rule, validate, rule_type, matches_namespace_pattern,
}
use kubemirror.Transformer.Path.{parse_path}
use kubemirror.Transformer.Base64.{bytes_of}
use kubemirror.Transformer.Tree.{SetError, put_field, set_nested_field}

pub record TransformOptions : Type 0 where
  pub strict : Bool
  pub max_rules : ℕ
  pub max_rule_size : ℕ
  pub template_timeout : ℕ

-- the timeout in nanoseconds
abbrev pub default_transform_options : TransformOptions
default_transform_options = record {
  strict = false;
  max_rules = 50;
  max_rule_size = 10 * 1024;
  template_timeout = 100 * 1000000;
}

-- what comes of a template within a time
pub data Rendered : Type 0 where
  parse_failed : Rendered
  timed_out : Rendered
  execution_failed : Rendered
  rendered : String → Rendered

-- The functions of other packages. `unmarshal` is the YAML parser on the rules' type, `render` a
-- template's parse and execution, and the others are those of the unstructured package:
-- `nested_map` gives an error (`none`), no map, or a map; `set_nested_map` says whether it failed
-- and gives the tree as it stands then.
pub record Library : Type 0 where
  pub unmarshal : String → Option (List Rule)
  pub render : ℕ → String → TransformContext → Rendered
  pub get_annotations : Fields → Dict String
  pub nested_map : Fields → List String → Option (Option Fields)
  pub set_nested_map : Fields → Fields → List String → Bool × Fields
  pub remove_nested_field : Fields → List String → Fields

-- the errors of parseTransformRules and validateRules
pub data RulesError : Type 0 where
  rules_too_large : RulesError
  rules_unparsable : RulesError
  too_many_rules : RulesError
  invalid_rule : ℕ → RuleError → RulesError

pub data Parsed : Type 0 where
  parsed : List Rule → Parsed
  unparsed : RulesError → Parsed

-- the errors of applyRule
pub data ApplyError : Type 0 where
  unknown_type : ApplyError
  nil_value : ApplyError
  nil_template : ApplyError
  nil_merge : ApplyError
  no_segments : ApplyError
  template_unparsable : ApplyError
  template_timeout_passed : ApplyError
  template_failed : ApplyError
  existing_not_read : ApplyError
  map_not_set : ApplyError
  field_not_set : SetError → ApplyError

-- an error or none, and the tree as it stands
abbrev pub Step : Type 0
Step = Option ApplyError × Fields

-- the tree of an object stays a map
abbrev pub root_of : Fields → Value → Fields
root_of root (obj fs) = fs
root_of root other = root

abbrev pub after_set : Fields → Option SetError × Value → Step
after_set root (none, v) = (none, root_of root v)
after_set root (some e, v) = (some (field_not_set e), root_of root v)

-- `for k, v := range from { into[k] = v }`
unfoldable pub put_all : Fields → Fields → Fields
unfolding put_field
put_all end into = into
put_all (field k v rest) into = put_all rest (put_field k v into)

unfoldable pub apply_value_rule : Fields → Rule → Step
unfolding parse_path set_nested_field
apply_value_rule u rule = elim rule.value [
  | none ↦ (some nil_value, u)
  | some value ↦ elim (parse_path rule.path) [
    | [] ↦ (some no_segments, u)
    | segment ∷ rest ↦ after_set u (set_nested_field u (segment ∷ rest) value)
  ]
]

-- whether a rule is for the target's namespace
unfoldable pub is_for : TransformContext → Rule → Bool
unfolding matches_namespace_pattern bytes_of
is_for context rule =
    matches_namespace_pattern rule.namespace_pattern (bytes_of context.target_namespace)

-- the merged map, from the one that is there, where there is one
unfoldable pub merged_map : Option Fields → Fields → Fields
unfolding put_all
merged_map none merge = put_all merge end
merged_map (some existing) merge = put_all merge (put_all existing end)

-- what Transform returns: an error, its argument, or a tree
pub data Outcome : Type 0 where
  failed : Outcome
  original : Outcome
  transformed : Fields → Outcome

module _ (options : TransformOptions) (lib : Library) where
  unfoldable pub apply_template_rule : Fields → Rule → TransformContext → Step
  unfolding parse_path set_nested_field
  apply_template_rule u rule context = elim rule.template [
    | none ↦ (some nil_template, u)
    | some template ↦ elim (lib.render options.template_timeout template context) [
      | parse_failed ↦ (some template_unparsable, u)
      | timed_out ↦ (some template_timeout_passed, u)
      | execution_failed ↦ (some template_failed, u)
      | rendered result ↦ after_set u (set_nested_field u (parse_path rule.path) result)
    ]
  ]

  -- a failed SetNestedMap is an error
  unfoldable pub set_map : Fields → Fields → List String → Step
  set_map u merged path =
      let w = lib.set_nested_map u merged path in (if w.0 then some map_not_set else none, w.1)

  unfoldable pub apply_merge_rule : Fields → Rule → Step
  unfolding parse_path merged_map set_map
  apply_merge_rule u rule = elim rule.merge [
    | none ↦ (some nil_merge, u)
    | some merge ↦ elim (parse_path rule.path) [
      | [] ↦ (some no_segments, u)
      | segment ∷ rest ↦ elim (lib.nested_map u (segment ∷ rest)) [
        | none ↦ (some existing_not_read, u)
        | some existing ↦ set_map u (merged_map existing merge) (segment ∷ rest)
      ]
    ]
  ]

  unfoldable pub apply_delete_rule : Fields → Rule → Step
  unfolding parse_path
  apply_delete_rule u rule = elim (parse_path rule.path) [
    | [] ↦ (some no_segments, u)
    | segment ∷ rest ↦ (none, lib.remove_nested_field u (segment ∷ rest))
  ]

  -- the switch on the type
  unfoldable pub apply_typed : RuleType → Fields → Rule → TransformContext → Step
  unfolding apply_value_rule apply_template_rule apply_merge_rule apply_delete_rule
  apply_typed value_rule u rule context = apply_value_rule u rule
  apply_typed template_rule u rule context = apply_template_rule u rule context
  apply_typed merge_rule u rule context = apply_merge_rule u rule
  apply_typed delete_rule u rule context = apply_delete_rule u rule
  apply_typed unknown_rule u rule context = (some unknown_type, u)

  unfoldable pub apply_rule : Fields → Rule → TransformContext → Step
  unfolding is_for rule_type apply_typed
  apply_rule u rule context =
      if not (is_for context rule) then (none, u) else apply_typed (rule_type rule) u rule context

  unfoldable pub is_strict_mode : Fields → Bool
  unfolding lookup
  is_strict_mode u =
      if options.strict
      then true
      else elim (lookup annotation_transform_strict (lib.get_annotations u)) [
        | none ↦ false
        | some value ↦ value == "true" || value == "1"
      ]

  unfoldable pub parse_transform_rules : Fields → Parsed
  unfolding lookup bytes_of
  parse_transform_rules u = elim (lookup annotation_transform (lib.get_annotations u)) [
    | none ↦ parsed []
    | some yaml ↦
        if yaml == ""
        then parsed []
        else if ltb options.max_rule_size (length (bytes_of yaml))
        then unparsed rules_too_large
        else elim (lib.unmarshal yaml) [
          | none ↦ unparsed rules_unparsable
          | some rules ↦ parsed rules
        ]
  ]

  -- the loop of validateRules; rules are counted from 1
  unfoldable pub validate_each : ℕ → List Rule → Option RulesError
  unfolding validate
  validate_each n [] = none
  validate_each n (rule ∷ rest) =
      let later = validate_each (suc n) rest in
      elim (validate rule) [ none ↦ later | some e ↦ some (invalid_rule n e) ]

  unfoldable pub validate_rules : List Rule → Option RulesError
  unfolding validate_each
  validate_rules rules =
      if ltb options.max_rules (length rules) then some too_many_rules else validate_each 1 rules

  -- the loop over the rules; strictness is asked of the tree as the failed rule left it
  unfoldable pub apply_rules : List Rule → TransformContext → Fields → Outcome
  unfolding apply_rule is_strict_mode
  apply_rules [] context u = transformed u
  apply_rules (rule ∷ rest) context u =
      let w = apply_rule u rule context in
      let later = apply_rules rest context w.1 in
      if is_some w.0 && is_strict_mode w.1 then failed else later

  abbrev pub rejected : Fields → Outcome
  rejected u = if is_strict_mode u then failed else original

  unfoldable pub transform_tree : TransformContext → Fields → Outcome
  unfolding is_strict_mode parse_transform_rules validate_rules apply_rules
  transform_tree context u = elim (parse_transform_rules u) [
    | unparsed e ↦ rejected u
    | parsed [] ↦ original
    | parsed (rule ∷ rest) ↦ elim (validate_rules (rule ∷ rest)) [
      | some e ↦ rejected u
      | none ↦ apply_rules (rule ∷ rest) context u
    ]
  ]

  -- Transform, on the tree that the conversion to unstructured gives; `none` is its error
  unfoldable pub transform : Option Fields → TransformContext → Outcome
  unfolding transform_tree
  transform none context = failed
  transform (some u) context = transform_tree context u
