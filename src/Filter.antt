-- ===== src/Filter.antt =====
-- pkg/filter/namespace.go: namespace filters, validation of patterns, and the resolution of target
-- namespaces.
--
-- A Go map from names to true is a dictionary of Booleans. Go walks a map in an unspecified order:
-- `order` stands for the order in which the runtime hands out the keys.
pub mod Targets
pub mod Tests
use kubemirror.Prelude.{
  ℕ, String, Bool, true, false, not, ◌&&◌, ◌||◌, Option, none, some, List, [], ◌∷◌, ◌==◌,
  if◌then◌else◌, is_some,
}
use kubemirror.Prelude.Dict.{Dict, lookup, insert}
use kubemirror.Prelude.Text.{trim_space, split, has_code}
use kubemirror.Constants.{target_namespaces_all, target_namespaces_all_labeled}
use kubemirror.PathMatch.{path_match}

pub data PatternError : Type 0 where
  empty_pattern : PatternError
  invalid_glob : String → PatternError

unfoldable pub validate_pattern : String → Option PatternError
validate_pattern pattern =
    if pattern == ""
    then some empty_pattern
    else if pattern == target_namespaces_all || pattern == target_namespaces_all_labeled
    then none
    else elim (path_match pattern "test") [ none ↦ some (invalid_glob pattern) | some m ↦ none ]

pub record PatternValidationResult : Type 0 where
  pub error : Option PatternError
  pub pattern : String
  pub valid : Bool

unfoldable pub validation : String → PatternValidationResult
validation pattern =
    let err = validate_pattern pattern in
    record { error = err; pattern = pattern; valid = not (is_some err) }

-- the loop of ValidatePatterns; the Boolean is `allValid`
unfoldable pub validate_patterns : List String → List PatternValidationResult × Bool
unfolding validation
validate_patterns [] = ([], true)
validate_patterns (pattern ∷ rest) =
    let (results, all_valid) = validate_patterns rest in
    let r = validation pattern in (r ∷ results, r.valid && all_valid)

unfoldable pub invalid_patterns : List PatternValidationResult → List PatternValidationResult
invalid_patterns [] = []
invalid_patterns (r ∷ rs) = let rest = invalid_patterns rs in if r.valid then rest else r ∷ rest

-- `m[name]` of a map of Booleans
abbrev pub member : String → Dict Bool → Bool
member name m = elim (lookup name m) [ none ↦ false | some b ↦ b ]

-- `for _, ns := range names { m[ns] = true }`
unfoldable pub mark : List String → Dict Bool → Dict Bool
mark [] m = m
mark (name ∷ names) m = mark names (insert name true m)

pub record NamespaceFilter : Type 0 where
  pub excluded_namespaces : Dict Bool
  pub included_patterns : List String

unfoldable pub new_namespace_filter : List String → List String → NamespaceFilter
unfolding mark
new_namespace_filter excluded included = record {
  excluded_namespaces = mark excluded [];
  included_patterns = included;
}

unfoldable pub matches_pattern : String → String → Bool
unfolding path_match
matches_pattern namespace pattern =
    if namespace == pattern
    then true
    else elim (path_match pattern namespace) [ none ↦ false | some matched ↦ matched ]

unfoldable pub matches_some : String → List String → Bool
unfolding matches_pattern
matches_some namespace [] = false
matches_some namespace (pattern ∷ patterns) =
    let rest = matches_some namespace patterns in
    if matches_pattern namespace pattern then true else rest

unfoldable pub is_allowed : NamespaceFilter → String → Bool
unfolding matches_some
is_allowed nf namespace =
    if member namespace nf.excluded_namespaces then false else elim nf.included_patterns [
      | [] ↦ true
      | pattern ∷ patterns ↦ matches_some namespace (pattern ∷ patterns)
    ]

-- the parts of a split text, trimmed, without the empty ones
unfoldable pub trimmed_parts : List String → List String
unfolding trim_space
trimmed_parts [] = []
trimmed_parts (part ∷ parts) =
    let rest = trimmed_parts parts in let p = trim_space part in if p == "" then rest else p ∷ rest

unfoldable pub parse_target_namespaces : String → List String
unfolding trim_space split trimmed_parts
parse_target_namespaces value =
    if value == ""
    then []
    else let v = trim_space value in
      if v == target_namespaces_all || v == target_namespaces_all_labeled
      then v ∷ []
      else trimmed_parts (split b',' v)

-- `for _, ns := range names { if test(ns) { m[ns] = true } }`
unfoldable pub mark_where : (String → Bool) → List String → Dict Bool → Dict Bool
mark_where test [] m = m
mark_where test (name ∷ names) m =
    mark_where test names (if test name then insert name true m else m)

unfoldable pub keys : Dict Bool → List String
keys [] = []
keys ((name, b) ∷ m) = name ∷ keys m

module _ (all_namespaces allow_mirrors opt_out : List String) (source : String)
    (nf : NamespaceFilter) where
  -- the round of the loop for one pattern
  unfoldable pub add_targets : String → Dict Bool → Dict Bool
  unfolding mark mark_where has_code
  add_targets pattern m =
      let opt_out_map = mark opt_out [] in
      if pattern == target_namespaces_all
      then mark_where (λ ns. not (ns == source) && is_allowed nf ns && not (member ns opt_out_map))
          all_namespaces m
      else if pattern == target_namespaces_all_labeled
      then mark_where (λ ns. not (ns == source) && is_allowed nf ns) allow_mirrors m
      else if has_code b'*' pattern || has_code b'?' pattern
      then mark_where (λ ns. matches_pattern ns pattern && not (ns == source) && is_allowed nf ns)
          all_namespaces m
      else if not (pattern == source) && is_allowed nf pattern
      then insert pattern true m
      else m

  unfoldable pub target_map : List String → Dict Bool → Dict Bool
  unfolding add_targets
  target_map [] m = m
  target_map (pattern ∷ patterns) m = target_map patterns (add_targets pattern m)

  unfoldable pub resolve_target_namespaces : (List String → List String) → List String → List String
  unfolding target_map keys
  resolve_target_namespaces order [] = []
  resolve_target_namespaces order (pattern ∷ patterns) =
      order (keys (target_map (pattern ∷ patterns) []))
