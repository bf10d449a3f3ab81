-- ===== src/Transformer/Apply/Checked.antt =====
-- What the checks of a rule (pkg/transformer/types.go) give to its application
-- (pkg/transformer/transformer.go).
use kubemirror.Prelude.{
  String, Bool, true, false, Option, none, some, List, [], ◌∷◌, if◌then◌else◌, is_some, ◌≡◌, ◌≢◌,
  inl, inr, refl, sym, ap, ◌∙◌, Bool-cases, Option-cases, List-cases,
}
use kubemirror.Object.{Value, text, obj, Fields}
use kubemirror.Transformer.{
  Rule, TransformContext, value_rule, template_rule, merge_rule, delete_rule, unknown_rule,
  rule_type, validate,
}
use kubemirror.Transformer.Path.{parse_path}
use kubemirror.Transformer.Rules.{validate-rule_type}
use kubemirror.Transformer.Tree.{SetError, set_nested_field}
use kubemirror.Transformer.Tree.Laws.{get_path}
use kubemirror.Transformer.Tree.Writes.{written_text, set_nested_field-get_path}
use kubemirror.Transformer.Apply.{
  TransformOptions, Library, Rendered, parse_failed, timed_out, execution_failed, rendered,
  ApplyError, unknown_type, no_segments, nil_value, nil_template, nil_merge, Step, after_set,
  merged_map, map_not_set, template_unparsable, template_timeout_passed, template_failed,
  apply_value_rule, apply_template_rule, set_map, apply_merge_rule, apply_delete_rule, apply_typed,
  is_for, apply_rule,
}
use kubemirror.Transformer.Apply.Locality.{set_nested_field-root_of, after_set_tree}

-- the errors of a rule whose action is not set
abbrev pub is_unset : Option ApplyError → Bool
is_unset (some unknown_type) = true
is_unset (some nil_value) = true
is_unset (some nil_template) = true
is_unset (some nil_merge) = true
is_unset other = false

after_set_fine : (u : Fields) (w : Option SetError × Value) → is_unset (after_set u w).0 ≡ false
after_set_fine u (none, v) = refl
after_set_fine u (some e, v) = refl

after_set-none : (u : Fields) (w : Option SetError × Value) → (after_set u w).0 ≡ none → w.0 ≡ none
after_set-none u (none, v) h = refl
after_set-none u (some e, v) h = cc h

some_fine : (b : Bool) → is_unset (if b then some map_not_set else none) ≡ false
some_fine true = refl
some_fine false = refl

module _ (options : TransformOptions) (lib : Library) (context : TransformContext) (u : Fields)
    (rule : Rule) where
  value_fine : is_some rule.value ≡ true → is_unset (apply_value_rule u rule).0 ≡ false
  unfolding apply_value_rule
  value_fine h = elim (Option-cases rule.value) [
    | inl e ↦ cc (sym h ∙ ap is_some e)
    | inr (value, e) ↦ elim (List-cases (parse_path rule.path)) [
      | inl p ↦ rw (e, apply_value_rule) (rw p refl)
      | inr (s, rest, p) ↦
          rw (e, apply_value_rule) (rw p (after_set_fine u (set_nested_field u (s ∷ rest) value)))
    ]
  ]

  rendered_fine :
      (r : Rendered)
      → is_unset
          (elim r as (λ r. Step) [
            | parse_failed ↦ (some template_unparsable, u)
            | timed_out ↦ (some template_timeout_passed, u)
            | execution_failed ↦ (some template_failed, u)
            | rendered result ↦ after_set u (set_nested_field u (parse_path rule.path) result)
          ]).0
        ≡ false
  rendered_fine parse_failed = refl
  rendered_fine timed_out = refl
  rendered_fine execution_failed = refl
  rendered_fine (rendered result) =
      after_set_fine u (set_nested_field u (parse_path rule.path) result)

  template_fine :
      is_some rule.template ≡ true
      → is_unset (apply_template_rule options lib u rule context).0 ≡ false
  unfolding apply_template_rule
  template_fine h = elim (Option-cases rule.template) [
    | inl e ↦ cc (sym h ∙ ap is_some e)
    | inr (template, e) ↦
        rw (e, apply_template_rule)
          (rendered_fine (lib.render options.template_timeout template context))
  ]

  merge_fine : is_some rule.merge ≡ true → is_unset (apply_merge_rule options lib u rule).0 ≡ false
  unfolding set_map apply_merge_rule
  merge_fine h = elim (Option-cases rule.merge) [
    | inl e ↦ cc (sym h ∙ ap is_some e)
    | inr (merge, e) ↦ elim (List-cases (parse_path rule.path)) [
      | inl p ↦ rw (e, apply_merge_rule) (rw p refl)
      | inr (s, rest, p) ↦ elim (Option-cases (lib.nested_map u (s ∷ rest))) [
        | inl n ↦ rw (e, apply_merge_rule) (rw p (rw n refl))
        | inr (existing, n) ↦
            rw (e, apply_merge_rule)
              (rw p
                (rw n (some_fine (lib.set_nested_map u (merged_map existing merge) (s ∷ rest)).0)))
      ]
    ]
  ]

  delete_fine : is_unset (apply_delete_rule options lib u rule).0 ≡ false
  unfolding apply_delete_rule
  delete_fine = elim (List-cases (parse_path rule.path)) [
    | inl p ↦ rw (p, apply_delete_rule) refl
    | inr (s, rest, p) ↦ rw (p, apply_delete_rule) refl
  ]

  -- the switch, by what is set
  switch_fine :
      (v t m d : Bool)
      → is_some rule.value ≡ v
      → is_some rule.template ≡ t
      → is_some rule.merge ≡ m
      → (if v
          then value_rule
          else if t
          then template_rule
          else if m
          then merge_rule
          else if d
          then delete_rule
          else unknown_rule)
        ≢ unknown_rule
      → is_unset
          (apply_typed options lib
            (if v
              then value_rule
              else if t
              then template_rule
              else if m
              then merge_rule
              else if d
              then delete_rule
              else unknown_rule)
            u
            rule
            context).0
        ≡ false
  unfolding apply_typed
  switch_fine true t m d hv ht hm k = value_fine hv
  switch_fine false true m d hv ht hm k = template_fine ht
  switch_fine false false true d hv ht hm k = merge_fine hm
  switch_fine false false false true hv ht hm k = delete_fine
  switch_fine false false false false hv ht hm k = absurd (k refl)

  -- A rule that Validate accepts never meets the errors for a rule of no known type, or with no
  -- value, no template or no map, whatever the object and the target.
  pub apply_rule-validate :
      validate rule ≡ none → is_unset (apply_rule options lib u rule context).0 ≡ false
  unfolding apply_rule rule_type
  apply_rule-validate ok = elim (Bool-cases (is_for context rule)) [
    | inl same ↦
        rw (same, apply_rule)
          (let (path, one, known) = validate-rule_type rule ok in
            switch_fine (is_some rule.value) (is_some rule.template) (is_some rule.merge)
              rule.delete refl refl refl known)
    | inr other ↦ rw (other, apply_rule) refl
  ]

  abbrev along : String → List String → Step
  along value [] = (some no_segments, u)
  along value (segment ∷ rest) = after_set u (set_nested_field u (segment ∷ rest) value)

  value_along :
      (value : String)
      → rule.value ≡ some value
      → apply_value_rule u rule ≡ along value (parse_path rule.path)
  unfolding apply_value_rule
  value_along value e = elim (List-cases (parse_path rule.path)) [
    | inl p ↦ rw (e, apply_value_rule) (rw p refl)
    | inr (s, rest, p) ↦ rw (e, apply_value_rule) (rw p refl)
  ]

  as_value :
      (value : String)
      → rule.value ≡ some value
      → is_for context rule ≡ true
      → apply_rule options lib u rule context ≡ along value (parse_path rule.path)
  unfolding apply_rule rule_type apply_typed
  as_value value e same =
      let kind : rule_type rule ≡ value_rule = rw (e, rule_type) refl in
      rw (same, apply_rule)
        (ap (λ t. apply_typed options lib t u rule context) kind ∙ value_along value e)

  set_value :
      (value s : String) (rest : List String)
      → (after_set u (set_nested_field u (s ∷ rest) value)).0 ≡ none
      → get_path (s ∷ rest) (obj (after_set u (set_nested_field u (s ∷ rest) value)).1)
        ≡ some (text (written_text u (s ∷ rest) (s ∷ rest) value))
  set_value value s rest h =
      rw
        (
          after_set_tree u (set_nested_field u (s ∷ rest) value),
          set_nested_field-root_of u (s ∷ rest) value,
        )
        (set_nested_field-get_path u (s ∷ rest) value
          (after_set-none u (set_nested_field u (s ∷ rest) value) h))

  -- A value rule that is for the target's namespace and returns no error has its text at its path
  -- afterwards: in the data of a Secret, but not in an array there, the base64 encoding of it.
  pub apply_rule-get_path :
      (value : String)
      → rule.value ≡ some value
      → is_for context rule ≡ true
      → (apply_rule options lib u rule context).0 ≡ none
      → get_path (parse_path rule.path) (obj (apply_rule options lib u rule context).1)
        ≡ some (text (written_text u (parse_path rule.path) (parse_path rule.path) value))
  apply_rule-get_path value e same h = elim (List-cases (parse_path rule.path)) [
    | inl p ↦ cc (sym h ∙ ap (λ w. w.0) (as_value value e same ∙ ap (along value) p))
    | inr (s, rest, p) ↦
        let run : apply_rule options lib u rule context
            ≡ after_set u (set_nested_field u (s ∷ rest) value) =
          as_value value e same ∙ ap (along value) p in
        rw (run, p) (set_value value s rest (sym (ap (λ w. w.0) run) ∙ h))
  ]
