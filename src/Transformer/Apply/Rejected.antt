-- ===== src/Transformer/Apply/Rejected.antt =====
-- The rules that Transform of pkg/transformer/transformer.go rejects before it applies any.
use kubemirror.Prelude.{
  ℕ, suc, ◌<◌, String, none, some, List, [], ◌∷◌, ◌++◌, if◌then◌else◌, ltb, length, ◌≡◌, ◌≢◌, ◌⊎◌,
  inl, inr, refl, ap, ◌∙◌, arith, Bool-cases, Option-cases, eq-false_of_ne,
}
use kubemirror.Prelude.Dict.{lookup}
use kubemirror.Constants.{annotation_transform}
use kubemirror.Object.{Fields}
use kubemirror.Transformer.{Rule, TransformContext, validate}
use kubemirror.Transformer.Base64.{bytes_of}
use kubemirror.Transformer.Apply.{
  TransformOptions, Library, RulesError, rules_too_large, rules_unparsable, too_many_rules,
  invalid_rule, parsed, unparsed, failed, original, is_strict_mode, parse_transform_rules,
  validate_each, validate_rules, rejected, transform_tree, transform,
}

module _ (options : TransformOptions) (lib : Library) (context : TransformContext) where
  -- the rules of an annotation that none of the checks passes: too many bytes, no YAML, too many
  -- rules, or a rule that Validate rejects
  abbrev pub IsBad : String → Type 0
  IsBad yaml =
      (options.max_rule_size < length (bytes_of yaml))
      ⊎ ((lib.unmarshal yaml ≡ none)
          ⊎ ((rules : List Rule) × (lib.unmarshal yaml ≡ some rules)
              × ((options.max_rules < length rules)
                  ⊎ ((before : List Rule) × (rule : Rule) × (after : List Rule) × (rules
                        ≡ before ++ rule ∷ after)
                      × (validate rule ≢ none)))))

  validate_each_bad :
      (n : ℕ) (before : List Rule) (rule : Rule) (after : List Rule)
      → validate rule ≢ none
      → (e : RulesError) × (validate_each options lib n (before ++ rule ∷ after) ≡ some e)
  unfolding validate_each
  validate_each_bad n [] rule after h = elim (Option-cases (validate rule)) [
    | inl ok ↦ absurd (h ok)
    | inr (e, bad) ↦ (invalid_rule n e, rw (bad, validate_each) refl)
  ]
  validate_each_bad n (first ∷ before) rule after h = elim (Option-cases (validate first)) [
    | inl ok ↦
        let (e, bad) = validate_each_bad (suc n) before rule after h in
        (e, rw (ok, validate_each) bad)
    | inr (e, bad) ↦ (invalid_rule n e, rw (bad, validate_each) refl)
  ]

  validate_rules_bad :
      (rules : List Rule)
      → ((options.max_rules < length rules)
          ⊎ ((before : List Rule) × (rule : Rule) × (after : List Rule) × (rules
                ≡ before ++ rule ∷ after)
              × (validate rule ≢ none)))
      → (e : RulesError) × (validate_rules options lib rules ≡ some e)
  unfolding validate_rules
  validate_rules_bad rules (inl many) = (too_many_rules, ground (arith, many))
  validate_rules_bad rules (inr (before, rule, after, split, h)) =
      elim (Bool-cases (ltb options.max_rules (length rules))) [
        | inl many ↦ (too_many_rules, rw many refl)
        | inr few ↦
            let (e, bad) = validate_each_bad 1 before rule after h in
            (e, rw few (ap (validate_each options lib 1) split ∙ bad))
      ]

  transform_unparsed :
      (u : Fields) (e : RulesError)
      → parse_transform_rules options lib u ≡ unparsed e
      → transform_tree options lib context u ≡ rejected options lib u
  unfolding transform_tree
  transform_unparsed u e h = rw (h, transform_tree) refl

  transform_invalid :
      (u : Fields) (rule : Rule) (rest : List Rule) (e : RulesError)
      → parse_transform_rules options lib u ≡ parsed (rule ∷ rest)
      → validate_rules options lib (rule ∷ rest) ≡ some e
      → transform_tree options lib context u ≡ rejected options lib u
  unfolding transform_tree
  transform_invalid u rule rest e h k = rw (h, transform_tree) (rw k refl)

  -- the text of the annotation, past the early returns
  parse_found :
      (u : Fields) (yaml : String)
      → lookup annotation_transform (lib.get_annotations u) ≡ some yaml
      → yaml ≢ ""
      → parse_transform_rules options lib u ≡ (
          if ltb options.max_rule_size (length (bytes_of yaml))
          then unparsed rules_too_large
          else elim (lib.unmarshal yaml) [
            | none ↦ unparsed rules_unparsable
            | some rules ↦ parsed rules
          ])
  unfolding parse_transform_rules
  parse_found u yaml found full =
      rw (found, parse_transform_rules) (rw (eq-false_of_ne yaml "" full) refl)

  empty_valid : (e : RulesError) → validate_rules options lib [] ≢ some e
  unfolding validate_rules validate_each
  empty_valid e h = ground (arith, h)

  -- An annotation of rules that is too large, that cannot be parsed, or that has too many rules or an
  -- invalid one, has no rule applied: Transform fails in strict mode and else returns its argument.
  pub transform-rejects :
      (u : Fields) (yaml : String)
      → lookup annotation_transform (lib.get_annotations u) ≡ some yaml
      → yaml ≢ ""
      → IsBad yaml
      → transform options lib (some u) context
        ≡ (if is_strict_mode options lib u then failed else original)
  unfolding transform
  transform-rejects u yaml found full (inl large) =
      transform_unparsed u rules_too_large (parse_found u yaml found full ∙ ground (arith, large))
  transform-rejects u yaml found full (inr (inl bad)) =
      elim (Bool-cases (ltb options.max_rule_size (length (bytes_of yaml)))) [
        | inl large ↦
            transform_unparsed u rules_too_large (parse_found u yaml found full ∙ rw large refl)
        | inr small ↦
            transform_unparsed u rules_unparsable
              (parse_found u yaml found full ∙ rw small (rw bad refl))
      ]
  transform-rejects u yaml found full (inr (inr ([], read, bad))) =
      let (e, h) = validate_rules_bad [] bad in absurd (empty_valid e h)
  transform-rejects u yaml found full (inr (inr (rule ∷ rest, read, bad))) =
      elim (Bool-cases (ltb options.max_rule_size (length (bytes_of yaml)))) [
        | inl large ↦
            transform_unparsed u rules_too_large (parse_found u yaml found full ∙ rw large refl)
        | inr small ↦
            let (e, h) = validate_rules_bad (rule ∷ rest) bad in
            transform_invalid u rule rest e
              (parse_found u yaml found full ∙ rw small (rw read refl)) h
      ]
