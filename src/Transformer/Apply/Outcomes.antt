-- ===== src/Transformer/Apply/Outcomes.antt =====
-- What the loop of Transform over the rules returns, pkg/transformer/transformer.go.
use kubemirror.Prelude.{
  true, false, ◌&&◌, none, List, [], ◌∷◌, ◌++◌, if◌then◌else◌, is_some, select, ◌≡◌, ◌⊎◌, inl, inr,
  refl, sym, ap, ◌∙◌, Bool-cases, and-eq-true,
}
use kubemirror.Object.{Fields}
use kubemirror.Transformer.{Rule, TransformContext}
use kubemirror.Transformer.Apply.{
  TransformOptions, Library, Step, Outcome, failed, transformed, is_for, apply_rule, is_strict_mode,
  apply_rules,
}

module _ (options : TransformOptions) (lib : Library) (context : TransformContext) where
  -- the tree after the rules, each of them applied to what the one before it left, failed or not
  unfoldable pub tree_after : List Rule → Fields → Fields
  tree_after [] u = u
  tree_after (rule ∷ rest) u = tree_after rest (apply_rule options lib u rule context).1

  -- some rule fails, and the tree that it leaves is in strict mode
  abbrev pub IsFatal : List Rule → Fields → Type 0
  IsFatal rules u =
      (before : List Rule) × (rule : Rule) × (after : List Rule) × (rules ≡ before ++ rule ∷ after)
      × (is_some (apply_rule options lib (tree_after before u) rule context).0 ≡ true)
      × (is_strict_mode options lib (tree_after (before ++ rule ∷ []) u) ≡ true)

  run_cons_fatal :
      (rule : Rule) (rest : List Rule) (u : Fields)
      → is_some (apply_rule options lib u rule context).0 ≡ true
      → is_strict_mode options lib (apply_rule options lib u rule context).1 ≡ true
      → apply_rules options lib (rule ∷ rest) context u ≡ failed
  unfolding apply_rules
  run_cons_fatal rule rest u h k = rw (h, k) refl

  run_cons :
      (rule : Rule) (rest : List Rule) (u : Fields)
      → (is_some (apply_rule options lib u rule context).0
          && is_strict_mode options lib (apply_rule options lib u rule context).1)
        ≡ false
      → apply_rules options lib (rule ∷ rest) context u
        ≡ apply_rules options lib rest context (apply_rule options lib u rule context).1
  unfolding apply_rules
  run_cons rule rest u h = rw h refl

  -- the two ways out of the loop
  ends :
      (rules : List Rule) (u : Fields)
      → ((apply_rules options lib rules context u ≡ failed) × IsFatal rules u)
        ⊎ (apply_rules options lib rules context u ≡ transformed (tree_after rules u))
  unfolding tree_after apply_rules
  ends [] u = inr refl
  ends (rule ∷ rest) u =
      let w : Step = apply_rule options lib u rule context in
      elim (Bool-cases (is_some w.0 && is_strict_mode options lib w.1)) [
        | inl h ↦
            let (fails, strict) = and-eq-true (is_some w.0) (is_strict_mode options lib w.1) h in
            inl (run_cons_fatal rule rest u fails strict, ([], rule, rest, refl, fails, strict))
        | inr h ↦ elim (ends rest w.1) [
          | inl (stops, (before, bad, after, split, fails, strict)) ↦ inl (
            run_cons rule rest u h ∙ stops,
            (rule ∷ before, bad, after, ap (λ l. rule ∷ l) split, fails, strict),
          )
          | inr goes ↦ inr (run_cons rule rest u h ∙ goes)
        ]
      ]

  fatal_fails :
      (before : List Rule) (rule : Rule) (after : List Rule) (u : Fields)
      → is_some (apply_rule options lib (tree_after before u) rule context).0 ≡ true
      → is_strict_mode options lib (tree_after (before ++ rule ∷ []) u) ≡ true
      → apply_rules options lib (before ++ rule ∷ after) context u ≡ failed
  unfolding tree_after
  fatal_fails [] rule after u h k = run_cons_fatal rule after u h k
  fatal_fails (first ∷ before) rule after u h k =
      let w : Step = apply_rule options lib u first context in
      elim (Bool-cases (is_some w.0 && is_strict_mode options lib w.1)) [
        | inl f ↦
            let (fails, strict) = and-eq-true (is_some w.0) (is_strict_mode options lib w.1) f in
            run_cons_fatal first (before ++ rule ∷ after) u fails strict
        | inr n ↦
            run_cons first (before ++ rule ∷ after) u n ∙ fatal_fails before rule after w.1 h k
      ]

  -- The loop over the rules fails exactly if some rule fails and leaves a tree in strict mode. Else it
  -- gives the tree that all the rules make in their order, what a failed rule wrote included.
  pub apply_rules-tree_after :
      (rules : List Rule) (u : Fields)
      → (IsFatal rules u × (apply_rules options lib rules context u ≡ failed))
        ⊎ ((¬ (IsFatal rules u))
            × (apply_rules options lib rules context u ≡ transformed (tree_after rules u)))
  apply_rules-tree_after rules u = elim (ends rules u) [
    | inl (stops, fatal) ↦ inl (fatal, stops)
    | inr goes ↦ inr (
      (λ (before, rule, after, split, fails, strict). cc (
          sym goes
          ∙ ap (λ l. apply_rules options lib l context u) split
          ∙ fatal_fails before rule after u fails strict)),
      goes,
    )
  ]

  skipped :
      (rule : Rule) (u : Fields)
      → is_for context rule ≡ false
      → apply_rule options lib u rule context ≡ (none, u)
  unfolding apply_rule
  skipped rule u h = rw h refl

  run_skipped :
      (rule : Rule) (rest : List Rule) (u : Fields)
      → is_for context rule ≡ false
      → apply_rules options lib (rule ∷ rest) context u ≡ apply_rules options lib rest context u
  unfolding apply_rules
  run_skipped rule rest u h = rw (skipped rule u h) refl

  -- Rules for other namespaces make no difference: neither to the tree nor to a failure.
  pub apply_rules-select :
      (rules : List Rule) (u : Fields)
      → apply_rules options lib rules context u
        ≡ apply_rules options lib (select (is_for context) rules) context u
  unfolding apply_rules
  apply_rules-select [] u = refl
  apply_rules-select (rule ∷ rest) u = elim (Bool-cases (is_for context rule)) [
    | inl same ↦
        let w : Step = apply_rule options lib u rule context in
        let kept : select (is_for context) (rule ∷ rest) ≡ rule ∷ select (is_for context) rest =
          rw same refl in
        ap (λ (t : Outcome). if is_some w.0 && is_strict_mode options lib w.1 then failed else t)
          (apply_rules-select rest w.1)
        ∙ ap (λ l. apply_rules options lib l context u) (sym kept)
    | inr other ↦
        let left : select (is_for context) (rule ∷ rest) ≡ select (is_for context) rest =
          rw other refl in
        run_skipped rule rest u other
        ∙ apply_rules-select rest u
        ∙ ap (λ l. apply_rules options lib l context u) (sym left)
  ]
