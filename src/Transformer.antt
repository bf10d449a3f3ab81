-- ===== src/Transformer.antt =====
-- pkg/transformer: the rules of a transformation and their checks (types.go), and which rules apply
-- to a namespace (transformer.go). The texts that the glob walks are given by their bytes.
pub mod Path
pub mod Base64
pub mod Tree
pub mod Apply
pub mod Glob
pub mod Rules
pub mod Tests
use kubemirror.Prelude.{
  ℕ, suc, ◌+◌, String, Bool, true, false, not, ◌&&◌, ◌||◌, ◌==◌, Option, none, some, List, [], ◌∷◌,
  if◌then◌else◌, nat_eq, ltb, leb, is_some, length,
}
use kubemirror.Prelude.Dict.{Dict}
use kubemirror.Object.{Fields}

pub record Rule : Type 0 where
  pub value : Option String
  pub template : Option String
  pub merge : Option Fields
  pub namespace_pattern : Option (List ℕ)
  pub path : String
  pub delete : Bool

-- what a template can read
pub record TransformContext : Type 0 where
  pub context_labels : Dict String
  pub context_annotations : Dict String
  pub target_namespace : String
  pub source_namespace : String
  pub source_name : String
  pub target_name : String

-- the errors of Validate
pub data RuleError : Type 0 where
  empty_path : RuleError
  no_action : RuleError
  several_actions : RuleError

-- `actionCount++` where an action is set
unfoldable pub one_if : Bool → ℕ
one_if true = 1
one_if false = 0

unfoldable pub action_count : Rule → ℕ
unfolding one_if
action_count r =
    one_if (is_some r.value)
    + one_if (is_some r.template)
    + one_if (is_some r.merge)
    + one_if r.delete

-- Validate; `none` is no error
unfoldable pub validate : Rule → Option RuleError
unfolding action_count
validate r =
    if r.path == ""
    then some empty_path
    else if nat_eq (action_count r) 0
    then some no_action
    else if ltb 1 (action_count r)
    then some several_actions
    else none

pub data RuleType : Type 0 where
  unknown_rule : RuleType
  value_rule : RuleType
  template_rule : RuleType
  merge_rule : RuleType
  delete_rule : RuleType

unfoldable pub rule_type : Rule → RuleType
rule_type r =
    if is_some r.value
    then value_rule
    else if is_some r.template
    then template_rule
    else if is_some r.merge
    then merge_rule
    else if r.delete
    then delete_rule
    else unknown_rule

unfoldable pub type_text : RuleType → String
type_text value_rule = "value"
type_text template_rule = "template"
type_text merge_rule = "merge"
type_text delete_rule = "delete"
type_text unknown_rule = "unknown"

-- `==` of two texts
unfoldable pub same_bytes : List ℕ → List ℕ → Bool
same_bytes [] [] = true
same_bytes [] (y ∷ ys) = false
same_bytes (x ∷ xs) [] = false
same_bytes (x ∷ xs) (y ∷ ys) = nat_eq x y && same_bytes xs ys

-- the case of a star: what is left of the pattern is tried at every rest of the text
unfoldable pub at_some_rest : (List ℕ → Bool) → List ℕ → Bool
at_some_rest matches [] = matches []
at_some_rest matches (x ∷ text) =
    let later = at_some_rest matches text in if matches (x ∷ text) then true else later

-- matchGlobRecursive on what is left of the pattern and of the text at its two indices
unfoldable pub match_glob_recursive : List ℕ → List ℕ → Bool
unfolding at_some_rest
match_glob_recursive [] [] = true
match_glob_recursive [] (x ∷ text) = false
match_glob_recursive (c ∷ pattern) [] =
    if nat_eq c b'*' then at_some_rest (match_glob_recursive pattern) [] else false
match_glob_recursive (c ∷ pattern) (x ∷ text) =
    let rest = match_glob_recursive pattern text in
    if nat_eq c b'*'
    then at_some_rest (match_glob_recursive pattern) (x ∷ text)
    else if nat_eq c b'?' || nat_eq c x
    then rest
    else false

unfoldable pub match_glob : List ℕ → List ℕ → Bool
unfolding same_bytes match_glob_recursive
match_glob pattern text =
    if same_bytes pattern text
    then true
    else if same_bytes pattern (b'*' ∷ [])
    then true
    else match_glob_recursive pattern text

-- matchesNamespacePattern, on the rule's pattern
unfoldable pub matches_namespace_pattern : Option (List ℕ) → List ℕ → Bool
unfolding match_glob
matches_namespace_pattern none target = true
matches_namespace_pattern (some []) target = true
matches_namespace_pattern (some (c ∷ pattern)) target = match_glob (c ∷ pattern) target
