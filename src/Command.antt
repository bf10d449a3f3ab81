-- ===== src/Command.antt =====
-- cmd/kubemirror/main.go: what the flags make of the configuration and of the namespace filter, which
-- types are mirrored, what the cache keeps of an object, and the registration of all controllers at
-- the start. Addresses, rates, leases, logging and the manager itself are controller-runtime's.
pub mod Startup
pub mod Run
pub mod Controllers
pub mod Tests
use kubemirror.Prelude.{
  ℕ, String, Bool, true, false, not, ◌&&◌, ◌==◌, Option, none, some, List, [], ◌∷◌, ◌++◌,
  if◌then◌else◌,
}
use kubemirror.Prelude.Dict.{Dict, delete}
use kubemirror.Constants.{default_excluded_namespaces}
use kubemirror.Object.{Object, secret, config_map, unstructured, Meta}
use kubemirror.Hash.{Content}
use kubemirror.Transformer.{TransformContext}
use kubemirror.Filter.{NamespaceFilter, parse_target_namespaces, new_namespace_filter}
use kubemirror.ResourceType.{ResourceType, parse_resource_types}
use kubemirror.Discovery.Manager.{Manager, get_current_resources, wait_for_initial_discovery}
use kubemirror.SourceReconciler.{Settings}

-- the flags that the modelled parts depend on
pub record Flags : Type 0 where
  pub excluded_namespaces : String
  pub included_namespaces : String
  pub resource_types : String
  pub max_targets : ℕ
  pub verify_source_freshness : Bool
  pub lazy_watcher_init : Bool

-- `if flag != "" { list = filter.ParseTargetNamespaces(flag) }`
unfoldable pub list_of_flag : String → List String
unfolding parse_target_namespaces
list_of_flag flag = if not (flag == "") then parse_target_namespaces flag else []

unfoldable pub all_excluded : Flags → List String
unfolding list_of_flag
all_excluded flags = default_excluded_namespaces ++ list_of_flag flags.excluded_namespaces

unfoldable pub namespace_filter : Flags → NamespaceFilter
unfolding all_excluded list_of_flag new_namespace_filter
namespace_filter flags =
    new_namespace_filter (all_excluded flags) (list_of_flag flags.included_namespaces)

-- the fields of the reconciler of sources that main fills; the digest, the transformer and the order
-- of Go's maps are not its own
unfoldable pub source_settings :
    (Content → Option String)
    → (Object → TransformContext → Option Object)
    → (List String → List String)
    → Flags
    → Settings
unfolding namespace_filter
source_settings digest transform order flags = record {
  verify_source_freshness = flags.verify_source_freshness;
  max_targets_per_resource = flags.max_targets;
  has_api_reader = true;
  filter = namespace_filter flags;
  digest = digest;
  transform = transform;
  order = order;
}

-- the types that the flag names; `none` is an exit
unfoldable pub types_of_flag : Flags → Option (List ResourceType)
unfolding parse_resource_types
types_of_flag flags =
    if not (flags.resource_types == "") then parse_resource_types flags.resource_types else some []

-- The types that the discovery's manager holds after the wait: whether it started, its states at the
-- ticks of the wait, and its state then. `none` is an exit.
unfoldable pub discovered_types : Bool → List Manager → Manager → Option (List ResourceType)
unfolding wait_for_initial_discovery get_current_resources
discovered_types started polls m =
    if not started
    then none
    else if not (wait_for_initial_discovery polls)
    then none
    else some (get_current_resources m)

unfoldable pub mirrored_resources :
    Flags → Bool → List Manager → Manager → Option (List ResourceType)
unfolding types_of_flag discovered_types
mirrored_resources flags started polls m = elim (types_of_flag flags) [
  | none ↦ none
  | some types ↦ if flags.resource_types == "" then discovered_types started polls m else some types
]

-- the annotations that the cache keeps; managed fields are no part of the model's metadata
unfoldable pub kept_annotations : Dict String → Dict String
unfolding delete
kept_annotations annotations =
    delete "deployment.kubernetes.io/revision"
      (delete "kubectl.kubernetes.io/last-applied-configuration" annotations)

-- transformFunc
unfoldable pub transform_func : Object → Object
unfolding kept_annotations
transform_func (unstructured u) =
    unstructured
      (record u { meta = record u.meta { annotations = kept_annotations u.meta.annotations } })
transform_func (secret s) = secret s
transform_func (config_map c) = config_map c

-- `M` is the state of the controller-runtime manager; true is success.
module _ {M : Type 0} (setup_source setup_mirror : M → ResourceType → M × Bool) where
  -- the loop of the eager mode; `none` is an exit
  unfoldable pub register_all : List ResourceType → M → Option M
  register_all [] m = some m
  register_all (rt ∷ rest) m =
      let source = setup_source m rt in
      let mirror = setup_mirror source.0 rt in
      let later = register_all rest mirror.0 in
      if not source.1 then none else if not mirror.1 then none else later
