-- ===== src/Transformer/Apply/Locality.antt =====
-- What the rules of a transformation leave alone, for applyRule of pkg/transformer/transformer.go.
use kubemirror.Prelude.{
  String, Bool, true, false, Option, none, some, List, [], ◌∷◌, if◌then◌else◌, All, ◌≡◌, ◌⊎◌, inl,
  inr, refl, sym, ap, ◌∙◌, Bool-cases, Option-cases, List-cases,
}
use kubemirror.Object.{Value, null, boolean, number, text, obj, arr, Fields}
use kubemirror.Transformer.{
  Rule, TransformContext, RuleType, value_rule, template_rule, merge_rule, delete_rule,
  unknown_rule, rule_type,
}
use kubemirror.Transformer.Path.{Scanned, is_array_index, parse_array_index, parse_path}
use kubemirror.Transformer.Tree.{
  SetError, step_into, put_at, put_key, write_at, set_in, is_secret_data_field, set_nested_field,
}
use kubemirror.Transformer.Base64.{base64_encode}
use kubemirror.Transformer.Tree.Laws.{get_path, diverge, open_or, child_of}
use kubemirror.Transformer.Tree.Writes.{
  set_nested_field-diverge, end_open, end_wrong, set_in_open, set_in_wrong, last_value,
}
use kubemirror.Transformer.Apply.{
  TransformOptions, Library, Rendered, parse_failed, timed_out, execution_failed, rendered,
  template_unparsable, template_timeout_passed, template_failed, Step, root_of, after_set,
  apply_value_rule, merged_map, apply_template_rule, set_map, apply_merge_rule, apply_delete_rule,
  apply_typed, is_for, apply_rule, transformed, apply_rules,
}
use kubemirror.Transformer.Apply.Outcomes.{tree_after, apply_rules-tree_after}

-- What the unstructured package documents of its writes: they reach one field of nested maps, and
-- what diverges from the path to it is read as before.
pub record IsLocal (lib : Library) : Type 0 where
  pub set_is_local :
      (u m : Fields) (p q : List String)
      → diverge p q ≡ true
      → get_path q (obj (lib.set_nested_map u m p).1) ≡ get_path q (obj u)
  pub remove_is_local :
      (u : Fields) (p q : List String)
      → diverge p q ≡ true
      → get_path q (obj (lib.remove_nested_field u p)) ≡ get_path q (obj u)

abbrev pub is_map : Value → Bool
is_map (obj fs) = true
is_map null = false
is_map (boolean b) = false
is_map (number n) = false
is_map (text t) = false
is_map (arr xs) = false

pub root_of_lem : (u : Fields) (v : Value) → is_map v ≡ true → obj (root_of u v) ≡ v
root_of_lem u (obj fs) h = refl
root_of_lem u null h = cc h
root_of_lem u (boolean b) h = cc h
root_of_lem u (number n) h = cc h
root_of_lem u (text t) h = cc h
root_of_lem u (arr xs) h = cc h

map_kind :
    (a : Bool) (i : Option Scanned) (s : String) (value : Value) (fs : Fields)
    → is_map (if a then put_at i value (obj fs) else put_key s value (obj fs)) ≡ true
unfolding put_at put_key
map_kind true none s value fs = refl
map_kind true (some i) s value fs = refl
map_kind false i s value fs = refl

write_at-is_map :
    (s : String) (value : Value) (fs : Fields) → is_map (write_at s value (obj fs)) ≡ true
unfolding write_at
write_at-is_map s value fs = map_kind (is_array_index s) (parse_array_index s) s value fs

pub set_in-is_map :
    (keyed plain : Value) (s : String) (rest : List String) (fs : Fields)
    → is_map (set_in keyed plain s rest (obj fs)).1 ≡ true
set_in-is_map keyed plain s [] fs = elim (open_or s (obj fs)) [
  | inl o ↦
      rw (end_open keyed plain s (obj fs) o) (write_at-is_map s (last_value keyed plain s []) fs)
  | inr (e, w) ↦ rw (end_wrong keyed plain s (obj fs) e w) refl
]
set_in-is_map keyed plain s (next ∷ rest) fs = elim (open_or s (obj fs)) [
  | inl o ↦
      rw (set_in_open keyed plain s next rest (obj fs) o) (
        write_at-is_map s (set_in keyed plain next rest (child_of next (step_into s (obj fs)))).1
          fs)
  | inr (e, w) ↦ rw (set_in_wrong keyed plain s next rest (obj fs) e w) refl
]

-- the root of a tree stays a map
pub set_nested_field-root_of :
    (u : Fields) (path : List String) (value : String)
    → obj (root_of u (set_nested_field u path value).1) ≡ (set_nested_field u path value).1
unfolding set_nested_field
set_nested_field-root_of u [] value = refl
set_nested_field-root_of u (s ∷ rest) value =
    root_of_lem u (set_nested_field u (s ∷ rest) value).1 (
      set_in-is_map
        (text (if is_secret_data_field u (s ∷ rest) then base64_encode value else value))
        (text value) s rest u)

pub after_set_tree : (u : Fields) (w : Option SetError × Value) → (after_set u w).1 ≡ root_of u w.1
after_set_tree u (none, v) = refl
after_set_tree u (some e, v) = refl

-- a text that is set, read at a path that diverges
after_set-diverge :
    (u : Fields) (p q : List String) (value : String)
    → diverge p q ≡ true
    → get_path q (obj (after_set u (set_nested_field u p value)).1) ≡ get_path q (obj u)
after_set-diverge u p q value d =
    rw (after_set_tree u (set_nested_field u p value), set_nested_field-root_of u p value)
      (set_nested_field-diverge u p q value d)

module _ (options : TransformOptions) (lib : Library) (local : IsLocal lib)
    (context : TransformContext) (q : List String) (u : Fields) (rule : Rule)
    (apart : diverge (parse_path rule.path) q ≡ true) where
  apart_by : (p : List String) → parse_path rule.path ≡ p → diverge p q ≡ true
  apart_by p h = sym (ap (λ l. diverge l q) h) ∙ apart

  -- a rule leaves what its path diverges from
  abbrev Leaves : Step → Type 0
  Leaves w = get_path q (obj w.1) ≡ get_path q (obj u)

  apply_value_rule-Leaves : Leaves (apply_value_rule u rule)
  unfolding apply_value_rule
  apply_value_rule-Leaves = elim (Option-cases rule.value) [
    | inl e ↦ rw (e, apply_value_rule) refl
    | inr (value, e) ↦ elim (List-cases (parse_path rule.path)) [
      | inl p ↦ rw (e, apply_value_rule) (rw p refl)
      | inr (s, rest, p) ↦
          rw (e, apply_value_rule)
            (rw p (after_set-diverge u (s ∷ rest) q value (apart_by (s ∷ rest) p)))
    ]
  ]

  rendered-Leaves :
      (r : Rendered)
      → Leaves (elim r as (λ r. Step) [
        | parse_failed ↦ (some template_unparsable, u)
        | timed_out ↦ (some template_timeout_passed, u)
        | execution_failed ↦ (some template_failed, u)
        | rendered result ↦ after_set u (set_nested_field u (parse_path rule.path) result)
      ])
  rendered-Leaves parse_failed = refl
  rendered-Leaves timed_out = refl
  rendered-Leaves execution_failed = refl
  rendered-Leaves (rendered result) = after_set-diverge u (parse_path rule.path) q result apart

  apply_template_rule-Leaves : Leaves (apply_template_rule options lib u rule context)
  unfolding apply_template_rule
  apply_template_rule-Leaves = elim (Option-cases rule.template) [
    | inl e ↦ rw (e, apply_template_rule) refl
    | inr (template, e) ↦
        rw (e, apply_template_rule)
          (rendered-Leaves (lib.render options.template_timeout template context))
  ]

  apply_merge_rule-Leaves : Leaves (apply_merge_rule options lib u rule)
  unfolding set_map apply_merge_rule
  apply_merge_rule-Leaves = elim (Option-cases rule.merge) [
    | inl e ↦ rw (e, apply_merge_rule) refl
    | inr (merge, e) ↦ elim (List-cases (parse_path rule.path)) [
      | inl p ↦ rw (e, apply_merge_rule) (rw p refl)
      | inr (s, rest, p) ↦ elim (Option-cases (lib.nested_map u (s ∷ rest))) [
        | inl n ↦ rw (e, apply_merge_rule) (rw p (rw n refl))
        | inr (existing, n) ↦
            rw (e, apply_merge_rule)
              (rw p (
                rw n (
                  local.set_is_local u (merged_map existing merge) (s ∷ rest) q
                    (apart_by (s ∷ rest) p))))
      ]
    ]
  ]

  apply_delete_rule-Leaves : Leaves (apply_delete_rule options lib u rule)
  unfolding apply_delete_rule
  apply_delete_rule-Leaves = elim (List-cases (parse_path rule.path)) [
    | inl p ↦ rw (p, apply_delete_rule) refl
    | inr (s, rest, p) ↦
        rw (p, apply_delete_rule) (local.remove_is_local u (s ∷ rest) q (apart_by (s ∷ rest) p))
  ]

  apply_typed-Leaves : (t : RuleType) → Leaves (apply_typed options lib t u rule context)
  unfolding apply_typed
  apply_typed-Leaves value_rule = apply_value_rule-Leaves
  apply_typed-Leaves template_rule = apply_template_rule-Leaves
  apply_typed-Leaves merge_rule = apply_merge_rule-Leaves
  apply_typed-Leaves delete_rule = apply_delete_rule-Leaves
  apply_typed-Leaves unknown_rule = refl

module _ (options : TransformOptions) (lib : Library) (local : IsLocal lib)
    (context : TransformContext) (q : List String) where
  apply_rule_leaves :
      (u : Fields) (rule : Rule)
      → (is_for context rule ≡ false) ⊎ (diverge (parse_path rule.path) q ≡ true)
      → get_path q (obj (apply_rule options lib u rule context).1) ≡ get_path q (obj u)
  unfolding apply_rule
  apply_rule_leaves u rule (inl other) = rw other refl
  apply_rule_leaves u rule (inr apart) = elim (Bool-cases (is_for context rule)) [
    | inl same ↦
        rw same (apply_typed-Leaves options lib local context q u rule apart (rule_type rule))
    | inr other ↦ rw other refl
  ]

  -- the rules for the target's namespace have paths that diverge from q
  abbrev pub IsApart : Rule → Type 0
  IsApart rule = (is_for context rule ≡ false) ⊎ (diverge (parse_path rule.path) q ≡ true)

  tree_after_leaves :
      (rules : List Rule) (u : Fields)
      → All IsApart rules
      → get_path q (obj (tree_after options lib context rules u)) ≡ get_path q (obj u)
  unfolding tree_after
  tree_after_leaves [] u h = refl
  tree_after_leaves (rule ∷ rest) u (a, h) =
      tree_after_leaves rest (apply_rule options lib u rule context).1 h
      ∙ apply_rule_leaves u rule a

  -- What the rules make of a tree is read as before at a path, where every rule that is for the
  -- target's namespace writes at a path that goes to another place of some map or array on the way,
  -- whether rules fail or not.
  pub apply_rules-diverge :
      (rules : List Rule) (u v : Fields)
      → All IsApart rules
      → apply_rules options lib rules context u ≡ transformed v
      → get_path q (obj v) ≡ get_path q (obj u)
  apply_rules-diverge rules u v h e = elim (apply_rules-tree_after options lib context rules u) [
    | inl (fatal, f) ↦ cc (sym e ∙ f)
    | inr (sound, t) ↦
        let same : v ≡ tree_after options lib context rules u = cc (sym e ∙ t) in
        ap (λ w. get_path q (obj w)) same ∙ tree_after_leaves rules u h
  ]
