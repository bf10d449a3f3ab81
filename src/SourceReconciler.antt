-- ===== src/SourceReconciler.antt =====
-- pkg/controller/source_reconciler.go: the reconciliation of one source.
--
-- The client is an interface (Cluster.antt). Logging changes nothing and is left out. The two reads
-- of the circuit breaker for a log line change no state that is found later. `Settings` holds the
-- reconciler's fields that are not the client: the filter, the flag and the bound of its Config,
-- whether it has an APIReader, and what the rest of the program or the runtime provides: the
-- digest of pkg/hash, the transformer, and the order in which Go walks a map.
pub mod Reconcile
pub mod Writes
pub mod Orphans
pub mod Mirrors
pub mod Limit
pub mod Breaker
pub mod Watch
pub mod Reads
pub mod Paths
pub mod Locality
pub mod Foreign
pub mod Excluded
pub mod Steady
pub mod Fate
pub mod Release
pub mod Presence
pub mod Complete
pub mod Settling
pub mod Tests
use kubemirror.Prelude.{
  ℕ, ◌*◌, String, Bool, true, false, not, ◌&&◌, ◌||◌, ◌==◌, Option, none, some, List, [], ◌∷◌,
  if◌then◌else◌, ltb, length, take, contains, is_some, ◌+◌,
}
use kubemirror.Prelude.Dict.{Dict, lookup, insert, read}
use kubemirror.Prelude.Decimal.{decimal}
use kubemirror.Constants.{
  label_enabled, annotation_sync, annotation_sync_status, annotation_target_namespaces,
  finalizer_name,
}
use kubemirror.CircuitBreaker.{
  CircuitBreaker, minute, allow_request, record_success, record_failure,
}
use kubemirror.Filter.{
  NamespaceFilter, PatternValidationResult, parse_target_namespaces, validate_patterns,
  resolve_target_namespaces,
}
use kubemirror.Object.{Meta, Unstructured, Object, unstructured}
use kubemirror.Hash.{Content, needs_sync}
use kubemirror.Transformer.{TransformContext}
use kubemirror.Mirror.{
  create_mirror, update_mirror, is_managed_by_us, is_mirror_resource, get_source_reference, Result,
  ok, err,
}
use kubemirror.Cluster.{
  Key, ApiError, not_found, other_error, Fetch, found, missing, failed, Client, NamespaceInfo,
  key_in, list_namespaces, list_namespaces_with_labels,
}

pub record Settings : Type 0 where
  pub verify_source_freshness : Bool
  pub max_targets_per_resource : ℕ
  pub has_api_reader : Bool
  pub filter : NamespaceFilter
  pub digest : Content → Option String
  pub transform : Object → TransformContext → Option Object
  -- the walk over the map of targets, in one call of a handler
  pub order : List String → List String

-- the errors that Reconcile returns
pub data Failure : Type 0 where
  get_failed : Failure
  existing_get_failed : Failure
  sync_check_failed : Failure
  mirror_update_failed : Failure
  cluster_update_failed : Failure
  mirror_create_failed : Failure
  cluster_create_failed : Failure
  verification_failed : Failure
  list_failed : Failure
  finalizer_failed : Failure
  status_failed : Failure
  some_mirrors_failed : ℕ → ℕ → Failure

-- `ctrl.Result` with the error
pub data Outcome : Type 0 where
  done : Outcome
  requeue : Outcome
  requeue_after : ℕ → Outcome
  failure : Failure → Outcome

unfoldable pub is_enabled_for_mirroring : Meta → Bool
is_enabled_for_mirroring m =
    read label_enabled m.labels == "true" && read annotation_sync m.annotations == "true"

unfoldable pub remove_string : List String → String → List String
remove_string [] s = []
remove_string (item ∷ slice) s =
    let rest = remove_string slice s in if not (item == s) then item ∷ rest else rest

-- the patterns of the valid results
unfoldable pub valid_patterns : List PatternValidationResult → List String
valid_patterns [] = []
valid_patterns (r ∷ rs) = let rest = valid_patterns rs in if r.valid then r.pattern ∷ rest else rest

-- the patterns that resolveTargetNamespaces goes on with
unfoldable pub usable_patterns : List String → List String
unfolding validate_patterns valid_patterns
usable_patterns patterns =
    let (results, all_valid) = validate_patterns patterns in
    if all_valid then patterns else valid_patterns results

-- `targets[:max]`, where a bound is set and passed
unfoldable pub limit_targets : ℕ → List String → List String
limit_targets max targets =
    if ltb 0 max && ltb max (length targets) then take max targets else targets

-- whether an object is managed by kubemirror and names this source
unfoldable pub is_own_mirror : Unstructured → Unstructured → Bool
is_own_mirror source mirror =
    is_managed_by_us mirror.meta && elim (get_source_reference mirror.meta) [
      | none ↦ false
      | some (ns, name, uid) ↦ ns == source.meta.namespace && name == source.meta.name
    ]

-- a write with its error
abbrev pub failed_write {ℓ} : {S : Type ℓ} → Option ApiError × S → Bool
failed_write w = is_some w.0

module _ (c : Client) (r : Settings) where
  open c use {S, get, api_get, create, update, delete, time_stamp, nanos}
  open r use {
    verify_source_freshness, max_targets_per_resource, has_api_reader, filter, digest, transform,
    order,
  }

  -- the comparison of resource versions; a failed direct read falls back to the cached object
  unfoldable pub fresher : Key → Unstructured → S → Unstructured
  fresher key cached s = elim (api_get key s) [
    | found fresh ↦
        if cached.meta.resource_version == fresh.meta.resource_version then cached else fresh
    | missing ↦ cached
    | failed e ↦ cached
  ]

  unfoldable pub get_source_with_freshness : Key → S → Fetch
  unfolding fresher
  get_source_with_freshness key s = elim (get key s) [
    | found cached ↦
        found (if verify_source_freshness && has_api_reader then fresher key cached s else cached)
    | missing ↦ missing
    | failed e ↦ failed e
  ]

  -- reconcileMirror where a mirror exists
  unfoldable pub sync_existing : Unstructured → Unstructured → S → Option Failure × S
  sync_existing source existing s =
      if not (is_managed_by_us existing.meta)
      then (none, s)
      else elim (needs_sync digest (unstructured source) existing.meta.annotations) [
        | none ↦ (some sync_check_failed, s)
        | some false ↦ (none, s)
        | some true ↦
            elim (update_mirror transform digest (unstructured existing) (unstructured source)
              (time_stamp s)) [
                | err e ↦ (some mirror_update_failed, s)
                | ok updated ↦
                    let w = update updated s in
                    (if failed_write w then some cluster_update_failed else none, w.1)
              ]
      ]

  -- the read after a create
  unfoldable pub verify_created : Key → S → Option Failure
  verify_created key s = elim (get key s) [
    | found u ↦ none
    | missing ↦ some verification_failed
    | failed e ↦ some verification_failed
  ]

  -- reconcileMirror where there is no mirror yet
  unfoldable pub create_missing : Unstructured → String → S → Option Failure × S
  unfolding verify_created
  create_missing source target s =
      elim (create_mirror transform digest (unstructured source) target (time_stamp s)) [
        | err e ↦ (some mirror_create_failed, s)
        | ok mirror ↦
            let w = create mirror s in
            (
              if failed_write w
                  then some cluster_create_failed
                  else verify_created (key_in source target) w.1,
              w.1,
            )
      ]

  unfoldable pub reconcile_mirror : Unstructured → String → S → Option Failure × S
  unfolding fresher sync_existing create_missing
  reconcile_mirror source target s =
      let key = key_in source target in
      elim (get key s) [
        | failed e ↦ (some existing_get_failed, s)
        | missing ↦ create_missing source target s
        | found cached ↦
            let existing =
              if verify_source_freshness && has_api_reader then fresher key cached s else cached in
            sync_existing source existing s
      ]

  -- the loop of deleteAllMirrors; an error of a delete is logged and passed over
  unfoldable pub delete_in : Unstructured → List String → S → S
  delete_in source [] s = s
  delete_in source (ns ∷ rest) s =
      delete_in source rest
        (if ns == source.meta.namespace then s else (delete (key_in source ns) s).1)

  unfoldable pub delete_all_mirrors : Unstructured → S → Option Failure × S
  unfolding delete_in
  delete_all_mirrors source s = elim (list_namespaces c has_api_reader s) [
    | none ↦ (some list_failed, s)
    | some all ↦ (none, delete_in source all s)
  ]

  -- one round of cleanupOrphanedMirrors: what it deletes, and whether that is counted
  unfoldable pub cleanup_one : Unstructured → List String → String → S → Bool × S
  unfolding is_own_mirror
  cleanup_one source targets ns s =
      if ns == source.meta.namespace
      then (false, s)
      else if contains targets ns
      then (false, s)
      else let key = key_in source ns in
        elim (get key s) [
          | missing ↦ (false, s)
          | failed e ↦ (false, s)
          | found mirror ↦
              if not (is_own_mirror source mirror)
              then (false, s)
              else (let w = delete key s in (not (failed_write w), w.1))
        ]

  unfoldable pub cleanup_in : Unstructured → List String → List String → ℕ → S → ℕ × S
  unfolding cleanup_one
  cleanup_in source targets [] n s = (n, s)
  cleanup_in source targets (ns ∷ rest) n s =
      let (deleted, s') = cleanup_one source targets ns s in
      cleanup_in source targets rest (if deleted then n + 1 else n) s'

  -- the number of deleted mirrors; `none` is an error
  unfoldable pub cleanup_orphaned_mirrors : Unstructured → List String → S → Option ℕ × S
  unfolding cleanup_in
  cleanup_orphaned_mirrors source targets s =
      elim (list_namespaces_with_labels c has_api_reader s) [
        | none ↦ (none, s)
        | some info ↦ let (n, s') = cleanup_in source targets info.every 0 s in (some n, s')
      ]

  -- resolveTargetNamespaces behind the checks of the annotation
  unfoldable pub targets_of : Unstructured → List String → S → Option (List String)
  unfolding limit_targets
  targets_of source [] s = some []
  targets_of source (pattern ∷ patterns) s = elim (list_namespaces_with_labels c has_api_reader s) [
    | none ↦ none
    | some info ↦ some (
        limit_targets max_targets_per_resource (
          resolve_target_namespaces info.every info.allow_mirrors info.opt_out source.meta.namespace
            filter order (pattern ∷ patterns)))
  ]

  -- An annotation that is missing or empty has no patterns. `none` is an error.
  unfoldable pub resolve_targets : Unstructured → S → Option (List String)
  unfolding usable_patterns targets_of parse_target_namespaces
  resolve_targets source s =
      targets_of source
        (usable_patterns
          (parse_target_namespaces (read annotation_target_namespaces source.meta.annotations)))
        s
