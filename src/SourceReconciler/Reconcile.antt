-- ===== src/SourceReconciler/Reconcile.antt =====
-- Reconcile of pkg/controller/source_reconciler.go: the whole handler.
use kubemirror.Prelude.{
  ℕ, ◌+◌, ◌*◌, String, Bool, not, Option, none, some, List, [], ◌∷◌, ◌++◌, if◌then◌else◌, ltb,
  length, contains,
}
use kubemirror.Prelude.Dict.{insert}
use kubemirror.Prelude.Decimal.{decimal}
use kubemirror.Prelude.Text.{concat}
use kubemirror.Constants.{annotation_sync_status, finalizer_name}
use kubemirror.CircuitBreaker.{
  CircuitBreaker, minute, allow_request, record_success, record_failure,
}
use kubemirror.Object.{Unstructured, unstructured}
use kubemirror.Mirror.{is_mirror_resource}
use kubemirror.Cluster.{Key, found, missing, failed, Client}
use kubemirror.SourceReconciler.{
  Settings, Failure, get_failed, list_failed, finalizer_failed, status_failed, some_mirrors_failed,
  Outcome, done, requeue, requeue_after, failure, failed_write, is_enabled_for_mirroring,
  remove_string, get_source_with_freshness, reconcile_mirror, delete_all_mirrors,
  cleanup_orphaned_mirrors, resolve_targets,
}

-- the fixed part of the text of an error
unfoldable pub failure_text : Failure → String
failure_text (some_mirrors_failed errors total) =
    concat ("failed to reconcile " ∷ decimal errors ∷ "/" ∷ decimal total ∷ " mirrors" ∷ [])
failure_text list_failed = "failed to list namespaces"
failure_text status_failed = "failed to update sync status"
failure_text other = "failed to reconcile"

unfoldable pub has_finalizer : Unstructured → Bool
has_finalizer source = contains source.meta.finalizers finalizer_name

abbrev pub with_finalizers : Unstructured → List String → Unstructured
with_finalizers source finalizers = record source {
  meta = record source.meta { finalizers = finalizers };
}

-- the annotation that updateLastSyncStatus writes
unfoldable pub with_sync_status : Unstructured → ℕ → ℕ → Unstructured
with_sync_status source reconciled errors = record source {
  meta = record source.meta {
    annotations =
        insert annotation_sync_status
          (concat ("reconciled:" ∷ decimal reconciled ∷ ",errors:" ∷ decimal errors ∷ []))
          source.meta.annotations;
  };
}

-- the state that the cluster keeps, and the breaker, where the reconciler has one
pub record World (c : Client) : Type 0 where
  pub server : c.S
  pub breaker : Option CircuitBreaker

pub record Request : Type 0 where
  pub api_version : String
  pub kind : String
  pub namespace : String
  pub name : String

abbrev pub key_of : Request → Key
key_of req = record {
  api_version = req.api_version;
  kind = req.kind;
  namespace = req.namespace;
  name = req.name;
}

module _ (c : Client) (r : Settings) where
  -- the removal of the finalizer
  unfoldable pub remove_finalizer : Unstructured → c.S → Outcome × c.S
  unfolding remove_string
  remove_finalizer source s =
      let w =
        c.update
          (unstructured
            (with_finalizers source (remove_string source.meta.finalizers finalizer_name)))
          s in
      (if failed_write w then failure finalizer_failed else done, w.1)

  -- the mirrors first, then the finalizer: of a source that is deleted, and of one that is disabled
  unfoldable pub release : Unstructured → c.S → Outcome × c.S
  unfolding remove_finalizer has_finalizer delete_all_mirrors
  release source s =
      if not (has_finalizer source)
      then (done, s)
      else let (e, s') = delete_all_mirrors c r source s in
        elim e [ some f ↦ (failure f, s') | none ↦ remove_finalizer source s' ]

  unfoldable pub add_finalizer : Unstructured → c.S → Outcome × c.S
  add_finalizer source s =
      let w =
        c.update
          (unstructured (with_finalizers source (source.meta.finalizers ++ finalizer_name ∷ [])))
          s in
      (if failed_write w then failure finalizer_failed else requeue, w.1)

  -- the loop over the target namespaces, with the counts of successes and errors
  unfoldable pub reconcile_all : Unstructured → List String → ℕ → ℕ → c.S → ℕ × ℕ × c.S
  unfolding reconcile_mirror
  reconcile_all source [] reconciled errors s = (reconciled, errors, s)
  reconcile_all source (target ∷ targets) reconciled errors s =
      let (e, s') = reconcile_mirror c r source target s in
      reconcile_all source targets (elim e [ none ↦ reconciled + 1 | some f ↦ reconciled ])
        (elim e [ none ↦ errors | some f ↦ errors + 1 ]) s'

  unfoldable pub update_last_sync_status : Unstructured → ℕ → ℕ → c.S → Option Failure × c.S
  unfolding with_sync_status
  update_last_sync_status source reconciled errors s =
      let w = c.update (unstructured (with_sync_status source reconciled errors)) s in
      (if failed_write w then some status_failed else none, w.1)

  unfoldable pub breaker_failure : Request → Failure → World c → World c
  unfolding record_failure failure_text
  breaker_failure req f w = record w {
    breaker = elim w.breaker [
      | none ↦ none
      | some cb ↦
          some
            (record_failure cb (c.nanos w.server) req.namespace req.name req.kind
              (failure_text f)).2
    ];
  }

  unfoldable pub breaker_success : Request → World c → World c
  unfolding record_success
  breaker_success req w = record w {
    breaker = elim w.breaker [
      | none ↦ none
      | some cb ↦ some (record_success cb (c.nanos w.server) req.namespace req.name req.kind).1
    ];
  }

  -- an error that is recorded with the breaker and returned
  abbrev fail_with : Request → Failure → World c → Outcome × World c
  fail_with req f w = (failure f, breaker_failure req f w)

  -- Reconcile from the loop over the targets on
  unfoldable pub reconcile_targets :
      Request → Unstructured → List String → World c → Outcome × World c
  unfolding reconcile_all cleanup_orphaned_mirrors update_last_sync_status breaker_success
      breaker_failure
  reconcile_targets req source targets w =
      let (reconciled, errors, s₁) = reconcile_all source targets 0 0 w.server in
      let (orphans, s₂) = cleanup_orphaned_mirrors c r source targets s₁ in
      let (e, s₃) = update_last_sync_status source reconciled errors s₂ in
      let w' : World c = record w { server = s₃ } in
      elim e [
        | some f ↦ fail_with req f w'
        | none ↦
            if ltb 0 errors
            then fail_with req (some_mirrors_failed errors (length targets)) w'
            else (done, breaker_success req w')
      ]

  -- Reconcile of a source that is enabled and has its finalizer
  unfoldable pub reconcile_enabled : Request → Unstructured → World c → Outcome × World c
  unfolding reconcile_targets resolve_targets
  reconcile_enabled req source w = elim (resolve_targets c r source w.server) [
    | none ↦ fail_with req list_failed w
    | some [] ↦ (done, w)
    | some (target ∷ targets) ↦ reconcile_targets req source (target ∷ targets) w
  ]

  -- an outcome that leaves the breaker alone
  abbrev pub on_server : World c → Outcome × c.S → Outcome × World c
  on_server w (o, s) = (o, record w { server = s })

  -- Reconcile behind the check of the breaker
  unfoldable pub reconcile_allowed : Request → Unstructured → World c → Outcome × World c
  unfolding release add_finalizer reconcile_enabled has_finalizer is_enabled_for_mirroring
  reconcile_allowed req source w = elim source.meta.deletion_timestamp [
    | some t ↦ on_server w (release source w.server)
    | none ↦
        if not (is_enabled_for_mirroring source.meta)
        then on_server w (release source w.server)
        else if not (has_finalizer source)
        then on_server w (add_finalizer source w.server)
        else reconcile_enabled req source w
  ]

  -- Reconcile of a source that was found
  unfoldable pub reconcile_found : Request → Unstructured → World c → Outcome × World c
  unfolding reconcile_allowed allow_request is_mirror_resource
  reconcile_found req source w =
      if is_mirror_resource source.meta then (done, w) else elim w.breaker [
        | none ↦ reconcile_allowed req source w
        | some cb ↦
            let (allowed, cb') =
              allow_request cb (c.nanos w.server) req.namespace req.name req.kind in
            let w' : World c = record w { breaker = some cb' } in
            if allowed then reconcile_allowed req source w' else (requeue_after (5 * minute), w')
      ]

  unfoldable pub reconcile : Request → World c → Outcome × World c
  unfolding reconcile_found get_source_with_freshness
  reconcile req w = elim (get_source_with_freshness c r (key_of req) w.server) [
    | missing ↦ (done, w)
    | failed e ↦ (failure get_failed, w)
    | found source ↦ reconcile_found req source w
  ]
