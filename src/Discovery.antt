-- ===== src/Discovery.antt =====
-- pkg/discovery: the types of resources that a cluster offers, which of them can be mirrored, and
-- what changed since the last discovery.
pub mod Kinds
pub mod Manager
pub mod Exact
pub mod Changes
pub mod Tests
use kubemirror.Prelude.{
  String, Bool, true, false, not, ◌&&◌, ◌||◌, ◌==◌, Option, none, some, List, [], ◌∷◌, ◌++◌, map,
  if◌then◌else◌, contains,
}
use kubemirror.Prelude.Text.{has_code}
use kubemirror.Prelude.Dict.{Dict, lookup, insert}
use kubemirror.ResourceType.{ResourceType, to_text}
use Kinds.{denied_kinds, high_cardinality_kinds}

-- the fields of metav1.APIResource and metav1.APIResourceList that the code reads
pub record ApiResource : Type 0 where
  pub name : String
  pub namespaced : Bool
  pub kind : String
  pub verbs : List String

pub record ApiResourceList : Type 0 where
  pub group_version : String
  pub api_resources : List ApiResource

pub record GroupVersion : Type 0 where
  pub group : String
  pub version : String

abbrev pub required_verbs : List String
required_verbs = "get" ∷ "list" ∷ "watch" ∷ "create" ∷ "update" ∷ "delete" ∷ []

-- the loop over the required verbs
unfoldable pub all_in : List String → List String → Bool
all_in verbs [] = true
all_in verbs (v ∷ required) =
    let rest = all_in verbs required in if contains verbs v then rest else false

unfoldable pub supports_required_verbs : List String → Bool
unfolding all_in
supports_required_verbs verbs = all_in verbs required_verbs

unfoldable pub is_denied_resource_type : String → Bool
unfolding denied_kinds
is_denied_resource_type kind = contains denied_kinds kind

unfoldable pub is_high_cardinality_resource : String → Bool
unfolding high_cardinality_kinds
is_high_cardinality_resource kind = contains high_cardinality_kinds kind

-- the variables of DiscoverMirrorableResources
pub record Found : Type 0 where
  pub resources : List ResourceType
  pub seen : List String

-- the end of the loop's body, for a type that passes the guards
unfoldable pub add_found : ResourceType → Found → Found
unfolding to_text
add_found rt found =
    let key = to_text rt in
    if contains found.seen key
    then found
    else record { resources = found.resources ++ (rt ∷ []); seen = key ∷ found.seen }

-- the body of the inner loop; the warning is a log entry
unfoldable pub visit_resource : GroupVersion → ApiResource → Found → Found
unfolding has_code supports_required_verbs is_denied_resource_type add_found
visit_resource gv r found =
    if has_code b'/' r.name
    then found
    else if not r.namespaced
    then found
    else if not (supports_required_verbs r.verbs)
    then found
    else if is_denied_resource_type r.kind
    then found
    else add_found (record { group = gv.group; version = gv.version; kind = r.kind }) found

unfoldable pub visit_resources : GroupVersion → List ApiResource → Found → Found
unfolding visit_resource
visit_resources gv [] found = found
visit_resources gv (r ∷ rest) found = visit_resources gv rest (visit_resource gv r found)

-- the answer of ServerGroupsAndResources: the lists, and whether there was an error and if it is
-- of the kind that IsGroupDiscoveryFailedError accepts
pub data Answer : Type 0 where
  complete : List ApiResourceList → Answer
  group_failed : List ApiResourceList → Answer
  failed : Answer

-- `parse_group_version` is schema.ParseGroupVersion; `none` is an error
module _ (parse_group_version : String → Option GroupVersion) where
  unfoldable pub visit_lists : List ApiResourceList → Found → Found
  unfolding visit_resources
  visit_lists [] found = found
  visit_lists (l ∷ rest) found = visit_lists rest (elim (parse_group_version l.group_version) [
    | none ↦ found
    | some gv ↦ visit_resources gv l.api_resources found
  ])

  unfoldable pub discover_mirrorable_resources : Answer → Option (List ResourceType)
  unfolding visit_lists
  discover_mirrorable_resources (complete lists) =
      some ((visit_lists lists (record { resources = []; seen = [] })).resources)
  discover_mirrorable_resources (group_failed lists) =
      some ((visit_lists lists (record { resources = []; seen = [] })).resources)
  discover_mirrorable_resources failed = none

-- the two loops of detectChanges that fill a map
unfoldable pub keyed : List ResourceType → Dict ResourceType → Dict ResourceType
unfolding insert to_text
keyed [] m = m
keyed (rt ∷ rest) m = keyed rest (insert (to_text rt) rt m)

-- the entries of a map whose key another map lacks
unfoldable pub missing_in : Dict ResourceType → Dict ResourceType → List ResourceType
unfolding lookup
missing_in other [] = []
missing_in other ((key, rt) ∷ rest) =
    let others = missing_in other rest in
    elim (lookup key other) [ none ↦ rt ∷ others | some found ↦ others ]

-- detectChanges: the added and the removed types; a run over a Go map may visit them in any order
unfoldable pub detect_changes :
    (Dict ResourceType → Dict ResourceType)
    → List ResourceType
    → List ResourceType
    → List ResourceType × List ResourceType
unfolding keyed missing_in
detect_changes order old new =
    let old_map = keyed old [] in
    let new_map = keyed new [] in
    (missing_in old_map (order new_map), missing_in new_map (order old_map))

unfoldable pub resource_types_to_strings : List ResourceType → List String
unfolding to_text
resource_types_to_strings rts = map to_text rts
