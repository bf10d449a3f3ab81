-- ===== src/Transformer/Rules.antt =====
-- The checks of a rule, pkg/transformer/types.go.
use kubemirror.Prelude.{
  ℕ, ◌+◌, Bool, true, false, ◌≡◌, ◌≢◌, none, some, ◌==◌, arith, is_some, nat_eq, ltb, if◌then◌else◌,
}
use kubemirror.Transformer.{
  Rule, one_if, action_count, validate, rule_type, value_rule, template_rule, merge_rule,
  delete_rule, unknown_rule, empty_path, no_action, several_actions,
}

-- one action that is set gives a type that is known
known :
    (v t m d : Bool)
    → one_if v + one_if t + one_if m + one_if d ≡ 1
    → (if v
        then value_rule
        else if t
        then template_rule
        else if m
        then merge_rule
        else if d
        then delete_rule
        else unknown_rule)
      ≢ unknown_rule
unfolding one_if
known true t m d h = λ e. cc e
known false true m d h = λ e. cc e
known false false true d h = λ e. cc e
known false false false true h = λ e. cc e
known false false false false h = λ e. ground (arith, h)

accepted :
    (b : Bool) (n : ℕ)
    → (if b
        then some empty_path
        else if nat_eq n 0
        then some no_action
        else if ltb 1 n
        then some several_actions
        else none)
      ≡ none
    → (b ≡ false) × (n ≡ 1)
accepted b n h = ground (arith, h)

one_action : (r : Rule) → validate r ≡ none → ((r.path == "") ≡ false) × (action_count r ≡ 1)
unfolding validate
one_action r h = accepted (r.path == "") (action_count r) h

-- A rule that Validate accepts has a path and just one action, and so a known type.
pub validate-rule_type :
    (r : Rule)
    → validate r ≡ none
    → ((r.path == "") ≡ false) × (action_count r ≡ 1) × (rule_type r ≢ unknown_rule)
unfolding validate action_count one_if rule_type
validate-rule_type r h =
    let (path, one) = one_action r h in
    (path, one, known (is_some r.value) (is_some r.template) (is_some r.merge) r.delete one)
