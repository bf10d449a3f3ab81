-- ===== src/NamespaceReconciler.antt =====
-- pkg/controller/namespace_reconciler.go: what an event of a namespace does for the sources.
-- Logging is left out; the fields that it shares with a source's reconciler are `Settings`.
pub mod Agreement
pub mod Foreign
pub mod Tests
use Prim.Native.String.{◌++◌}
use kubemirror.Prelude.{
  ℕ, ◌+◌, String, Bool, true, false, not, ◌==◌, Option, none, some, List, [], ◌∷◌, if◌then◌else◌,
  ltb, contains, is_some,
}
use kubemirror.Prelude.Dict.{Dict, read}
use kubemirror.Constants.{annotation_sync, annotation_target_namespaces, label_allow_mirrors}
use kubemirror.Filter.{is_allowed}
use kubemirror.Object.{Unstructured}
use kubemirror.Mirror.{is_mirror_resource}
use kubemirror.ResourceType.{ResourceType}
use kubemirror.Cluster.{Key, found, missing, failed, Client, key_in, list_namespaces_with_labels}
use kubemirror.Filter.{parse_target_namespaces, validate_patterns, resolve_target_namespaces}
use kubemirror.SourceReconciler.{
  Settings, is_own_mirror, failed_write, reconcile_mirror, limit_targets, valid_patterns,
}

-- what one source's round counts as
pub data Round : Type 0 where
  skipped : Round
  reconciled : Round
  errored : Round

pub record Counts : Type 0 where
  pub reconciled_count : ℕ
  pub error_count : ℕ

unfoldable pub count_round : Round → Counts → Counts
count_round skipped n = n
count_round reconciled n = record n { reconciled_count = n.reconciled_count + 1 }
count_round errored n = record n { error_count = n.error_count + 1 }

-- the answer of Reconcile, the delay in seconds
pub data Outcome : Type 0 where
  done : Outcome
  get_failed : Outcome
  some_failed : ℕ → Outcome
  requeue_after : ℕ → Outcome

unfoldable pub outcome_of : Counts → Outcome
outcome_of n = if ltb 0 n.error_count then some_failed n.error_count else requeue_after 3

-- the texts that a GroupVersionKind of a resource type has in a list
unfoldable pub api_version_of : ResourceType → String
api_version_of rt = if rt.group == "" then rt.version else rt.group ++ ("/" ++ rt.version)

module _ (c : Client) (r : Settings) where
  open c use {S, get, delete, list_enabled}
  open r use {filter}

  -- the end of resolveTargetNamespaces, on the patterns that are valid
  unfoldable pub resolve_valid : Unstructured → List String → S → Option (List String)
  unfolding limit_targets resolve_target_namespaces
  resolve_valid source [] s = some []
  resolve_valid source (pattern ∷ patterns) s =
      elim (list_namespaces_with_labels c r.has_api_reader s) [
        | none ↦ none
        | some info ↦ some (
            limit_targets r.max_targets_per_resource (
              resolve_target_namespaces info.every info.allow_mirrors info.opt_out
                source.meta.namespace filter r.order (pattern ∷ patterns)))
      ]

  -- the patterns of the annotation, of which the invalid ones are dropped
  unfoldable pub resolve_patterns : Unstructured → List String → S → Option (List String)
  unfolding resolve_valid validate_patterns valid_patterns
  resolve_patterns source [] s = some []
  resolve_patterns source (pattern ∷ patterns) s =
      let (results, all_valid) = validate_patterns (pattern ∷ patterns) in
      resolve_valid source (if all_valid then pattern ∷ patterns else valid_patterns results) s

  -- resolveTargetNamespaces; a missing annotation reads as an empty one
  unfoldable pub resolve_targets : Unstructured → S → Option (List String)
  unfolding resolve_patterns parse_target_namespaces
  resolve_targets source s =
      let annotation = read annotation_target_namespaces source.meta.annotations in
      if annotation == ""
      then some []
      else resolve_patterns source (parse_target_namespaces annotation) s

  -- where the namespace is no target: a mirror of this source that is there is deleted
  unfoldable pub remove_orphan : Unstructured → String → S → Round × S
  unfolding is_own_mirror
  remove_orphan source ns s =
      let key = key_in source ns in
      elim (get key s) [
        | missing ↦ (skipped, s)
        | failed e ↦ (errored, s)
        | found mirror ↦
            if not (is_own_mirror source mirror)
            then (skipped, s)
            else (let w = delete key s in (if failed_write w then errored else reconciled, w.1))
      ]

  -- reconcileMirror: that of a source reconciler that has no APIReader
  unfoldable pub create_mirror_in : Unstructured → String → S → Round × S
  unfolding reconcile_mirror
  create_mirror_in source ns s =
      let w = reconcile_mirror c (record r { has_api_reader = false }) source ns s in
      (if is_some w.0 then errored else reconciled, w.1)

  -- the body of the loop over the sources of a type
  unfoldable pub reconcile_source : String → Unstructured → S → Round × S
  unfolding resolve_targets remove_orphan create_mirror_in
  reconcile_source ns source s =
      if not (read annotation_sync source.meta.annotations == "true")
      then (skipped, s)
      else if is_mirror_resource source.meta
      then (skipped, s)
      else elim (resolve_targets source s) [
        | none ↦ (errored, s)
        | some targets ↦
            if contains targets ns then create_mirror_in source ns s else remove_orphan source ns s
      ]

  unfoldable pub reconcile_sources : String → List Unstructured → Counts → S → Counts × S
  unfolding reconcile_source count_round
  reconcile_sources ns [] n s = (n, s)
  reconcile_sources ns (source ∷ rest) n s =
      let round = reconcile_source ns source s in
      reconcile_sources ns rest (count_round round.0 n) round.1

  -- reconcileResourceType; `none` is an error of the list
  unfoldable pub reconcile_resource_type : ResourceType → String → S → Option Counts × S
  unfolding reconcile_sources api_version_of
  reconcile_resource_type rt ns s = elim (list_enabled (api_version_of rt) rt.kind s) [
    | none ↦ (none, s)
    | some items ↦
        let done_with =
          reconcile_sources ns items (record { reconciled_count = 0; error_count = 0 }) s in
        (some done_with.0, done_with.1)
  ]

  -- the loop of Reconcile over the types
  unfoldable pub add_counts : Option Counts → Counts → Counts
  add_counts none n = record n { error_count = n.error_count + 1 }
  add_counts (some k) n = record {
    reconciled_count = n.reconciled_count + k.reconciled_count;
    error_count = n.error_count + k.error_count;
  }

  unfoldable pub reconcile_types : List ResourceType → String → Counts → S → Counts × S
  unfolding reconcile_resource_type add_counts
  reconcile_types [] ns n s = (n, s)
  reconcile_types (rt ∷ rest) ns n s =
      let one = reconcile_resource_type rt ns s in
      reconcile_types rest ns (add_counts one.0 n) one.1

  -- `get_namespace` is the read of the namespace itself: its name, or `none` where there is none,
  -- or an error
  unfoldable pub reconcile : Option (Option String) → List ResourceType → S → Outcome × S
  unfolding is_allowed reconcile_types outcome_of
  reconcile none types s = (get_failed, s)
  reconcile (some none) types s = (done, s)
  reconcile (some (some ns)) types s =
      if not (is_allowed filter ns)
      then (done, s)
      else (let all =
            reconcile_types types ns (record { reconciled_count = 0; error_count = 0 }) s in
          (outcome_of all.0, all.1))

-- an event of a namespace, by the labels that its object has
pub data Event : Type 0 where
  created : Event
  updated : Dict String → Dict String → Event
  deleted : Event
  generic : Event

-- the filter of SetupWithManager; predicate.Funcs lets an event through that has no function
unfoldable pub namespace_predicate : Event → Bool
unfolding read
namespace_predicate created = true
namespace_predicate (updated old new) =
    not (read label_allow_mirrors old == read label_allow_mirrors new)
namespace_predicate deleted = false
namespace_predicate generic = true
