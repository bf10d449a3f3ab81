-- ===== src/Cluster.antt =====
-- The cluster as the controllers of pkg/controller see it: the client of controller-runtime, which
-- is not part of the repository, as an interface, and the namespace lister of
-- pkg/controller/namespace_lister.go over it.
--
-- A client has a state of its own. A read goes to the cache (`get`, `list_cached`) or to the API
-- server (`api_get`, `list_fresh`), and either may fail or be behind. A write gives back the error,
-- if there is one, and the state after it.
pub mod Laws
pub mod Store
use kubemirror.Prelude.{
  ℕ, String, Bool, true, false, ◌==◌, Option, none, some, List, [], ◌∷◌, if◌then◌else◌, ◌≡◌, select,
  is_some,
}
use kubemirror.Prelude.Dict.{Dict, lookup, read}
use kubemirror.Constants.{label_allow_mirrors}
use kubemirror.Object.{Meta, Unstructured, Object, secret, config_map, unstructured, meta_of}

-- what identifies an object: its type, its namespace and its name
pub record Key : Type 0 where
  pub api_version : String
  pub kind : String
  pub namespace : String
  pub name : String

pub data ApiError : Type 0 where
  not_found : ApiError
  other_error : String → ApiError

pub data Fetch : Type 0 where
  found : Unstructured → Fetch
  missing : Fetch
  failed : String → Fetch

-- an item of a `corev1.NamespaceList`
pub record Namespace : Type 0 where
  pub name : String
  pub labels : Dict String

pub record Client : Type 1 where
  pub S : Type 0
  pub get : Key → S → Fetch
  pub api_get : Key → S → Fetch
  pub list_cached : S → Option (List Namespace)
  pub list_fresh : S → Option (List Namespace)
  -- the objects of a type that have the enabled label, with any value
  pub list_enabled : String → String → S → Option (List Unstructured)
  pub create : Object → S → Option ApiError × S
  pub update : Object → S → Option ApiError × S
  pub delete : Key → S → Option ApiError × S
  -- the formatted time and the time in nanoseconds
  pub time_stamp : S → String
  pub nanos : S → ℕ

-- the object of a source's type and name in a namespace
abbrev pub key_in : Unstructured → String → Key
key_in source ns = record {
  api_version = source.api_version;
  kind = source.kind;
  namespace = ns;
  name = source.meta.name;
}

pub record NamespaceInfo : Type 0 where
  pub every : List String
  pub allow_mirrors : List String
  pub opt_out : List String

-- `append(names, ns.Name)` over the items
unfoldable pub names_of : List Namespace → List String
names_of [] = []
names_of (ns ∷ rest) = ns.name ∷ names_of rest

-- the loop of ListNamespacesWithLabels
unfoldable pub categorize : List Namespace → NamespaceInfo
categorize [] = record { every = []; allow_mirrors = []; opt_out = [] }
categorize (ns ∷ rest) =
    let info = categorize rest in
    let value = read label_allow_mirrors ns.labels in
    record {
      every = ns.name ∷ info.every;
      allow_mirrors = if value == "true" then ns.name ∷ info.allow_mirrors else info.allow_mirrors;
      opt_out = if value == "false" then ns.name ∷ info.opt_out else info.opt_out;
    }

abbrev pub is_label : String → Option String → Bool
is_label value none = false
is_label value (some v) = v == value

-- the items that the selector `client.MatchingLabels{allow-mirrors: value}` leaves
unfoldable pub with_allow_mirrors : String → List Namespace → List Namespace
with_allow_mirrors value [] = []
with_allow_mirrors value (ns ∷ rest) =
    let others = with_allow_mirrors value rest in
    if is_label value (lookup label_allow_mirrors ns.labels) then ns ∷ others else others

module _ (c : Client) (has_api_reader : Bool) where
  open c use {S, list_cached, list_fresh}

  unfoldable pub get_reader : S → Option (List Namespace)
  get_reader s = if has_api_reader then list_fresh s else list_cached s

  unfoldable pub list_namespaces : S → Option (List String)
  unfolding names_of
  list_namespaces s = elim (list_cached s) [ none ↦ none | some items ↦ some (names_of items) ]

  unfoldable pub list_allow_mirrors_namespaces : S → Option (List String)
  unfolding names_of with_allow_mirrors get_reader
  list_allow_mirrors_namespaces s = elim (get_reader s) [
    | none ↦ none
    | some items ↦ some (names_of (with_allow_mirrors "true" items))
  ]

  unfoldable pub list_opt_out_namespaces : S → Option (List String)
  unfolding names_of with_allow_mirrors get_reader
  list_opt_out_namespaces s = elim (get_reader s) [
    | none ↦ none
    | some items ↦ some (names_of (with_allow_mirrors "false" items))
  ]

  unfoldable pub list_namespaces_with_labels : S → Option NamespaceInfo
  unfolding categorize get_reader
  list_namespaces_with_labels s = elim (get_reader s) [
    | none ↦ none
    | some items ↦ some (categorize items)
  ]
