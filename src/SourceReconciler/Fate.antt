-- ===== src/SourceReconciler/Fate.antt =====
-- What Reconcile of pkg/controller/source_reconciler.go as a whole does with the orphans of a source:
-- it removes them where the source has a target left, and keeps them where it has none.
use kubemirror.Prelude.{
  ◌*◌, String, ◌≡◌, ◌≢◌, sym, ap, ◌∙◌, Bool, true, false, ◌==◌, some, List, [], ◌∷◌, arith,
  if◌then◌else◌, contains,
}
use kubemirror.CircuitBreaker.{minute}
use kubemirror.Object.{Unstructured, unstructured}
use kubemirror.Cluster.{
  Fetch, found, missing, failed, Client, NamespaceInfo, key_in, list_namespaces_with_labels,
}
use kubemirror.Cluster.Laws.{IsLocal, IsReliable, IsClearing, IsDeletable}
use kubemirror.Cluster.Store.{IsTight, IsKeyed, IsSteady}
use kubemirror.SourceReconciler.{
  Settings, Outcome, requeue_after, get_source_with_freshness, cleanup_orphaned_mirrors,
  resolve_targets,
}
use kubemirror.SourceReconciler.Reconcile.{
  World, Request, key_of, has_finalizer, with_sync_status, reconcile_all, update_last_sync_status,
  reconcile_targets, reconcile_enabled, reconcile,
}
use kubemirror.SourceReconciler.Writes.{is_orphan}
use kubemirror.SourceReconciler.Orphans.{cleanup_orphaned_mirrors-clears}
use kubemirror.SourceReconciler.Locality.{IsPlain, other_namespace, reconcile_all-keeps}
use kubemirror.SourceReconciler.Steady.{labels-reconcile_all}
use kubemirror.SourceReconciler.Paths.{
  IsLive, Passed, delayed, passed, allowed-full, reconcile-Passed, targets-server,
}

abbrev pub is_empty : List String → Bool
is_empty [] = true
is_empty (x ∷ xs) = false

orphan_place :
    (source : Unstructured) (targets : List String) (ns : String) (f : Fetch)
    → is_orphan source targets (key_in source ns) f ≡ true
    → (contains targets ns ≡ false) × ((ns == source.meta.namespace) ≡ false)
unfolding is_orphan
orphan_place source targets ns missing h = cc h
orphan_place source targets ns (failed e) h = cc h
orphan_place source targets ns (found mirror) h = (ground (arith, h), ground (arith, h))

module _ (c : Client) (r : Settings) (local : IsLocal c) (reliable : IsReliable c)
    (clearing : IsClearing c) (tight : IsTight c) (keys : IsKeyed c) (steady : IsSteady c)
    (source : Unstructured) (plain : IsPlain source) (ns : String) (orphaned : Fetch)
    (deletable : IsDeletable c (key_in source ns) orphaned) where
  targets-clears :
      (req : Request) (targets : List String) (w : World c) (info : NamespaceInfo)
      → list_namespaces_with_labels c r.has_api_reader w.server ≡ some info
      → contains info.every ns ≡ true
      → c.get (key_in source ns) w.server ≡ orphaned
      → is_orphan source targets (key_in source ns) orphaned ≡ true
      → c.get (key_in source ns) (reconcile_targets c r req source targets w).1.server ≡ missing
  unfolding with_sync_status update_last_sync_status
  targets-clears req targets w info listed there got orphan =
      let (outside, elsewhere) = orphan_place source targets ns orphaned orphan in
      let (n, e, s₁) = reconcile_all c r source targets 0 0 w.server in
      let still =
        reconcile_all-keeps c r source plain tight keys (key_in source ns) targets 0 0 w.server
          outside
        ∙ got in
      let listed₁ = labels-reconcile_all c r steady source targets 0 0 w.server info listed in
      let (deleted, s₂) = cleanup_orphaned_mirrors c r source targets s₁ in
      ap (c.get (key_in source ns)) (targets-server c r req source w targets)
      ∙ tight.update_local (unstructured (with_sync_status source n e)) (key_in source ns) s₂
          (λ same. other_namespace source ns source.meta.namespace elsewhere (sym same))
      ∙ cleanup_orphaned_mirrors-clears c r source targets local reliable clearing ns orphaned
          deletable orphan info s₁ listed₁ there still

  enabled-orphan :
      (req : Request) (targets : List String) (w : World c) (info : NamespaceInfo)
      → resolve_targets c r source w.server ≡ some targets
      → list_namespaces_with_labels c r.has_api_reader w.server ≡ some info
      → contains info.every ns ≡ true
      → c.get (key_in source ns) w.server ≡ orphaned
      → is_orphan source targets (key_in source ns) orphaned ≡ true
      → c.get (key_in source ns) (reconcile_enabled c r req source w).1.server
        ≡ (if is_empty targets then orphaned else missing)
  unfolding reconcile_enabled
  enabled-orphan req [] w info resolved listed there got orphan =
      rw (resolved, reconcile_enabled) got
  enabled-orphan req (t ∷ ts) w info resolved listed there got orphan =
      rw (resolved, reconcile_enabled) (targets-clears req (t ∷ ts) w info listed there got orphan)

  Passed-orphan :
      (req : Request) (targets : List String) (w : World c) (info : NamespaceInfo)
      (end : Outcome × World c)
      → IsLive source
      → has_finalizer source ≡ true
      → end.0 ≢ requeue_after (5 * minute)
      → Passed r req source w end
      → resolve_targets c r source w.server ≡ some targets
      → list_namespaces_with_labels c r.has_api_reader w.server ≡ some info
      → contains info.every ns ≡ true
      → c.get (key_in source ns) w.server ≡ orphaned
      → is_orphan source targets (key_in source ns) orphaned ≡ true
      → c.get (key_in source ns) end.1.server ≡ (if is_empty targets then orphaned else missing)
  Passed-orphan req targets w info end live has prompt (delayed a b) resolved listed there got
        orphan =
      absurd (prompt a)
  Passed-orphan req targets w info end live has prompt (passed w' same path) resolved listed there
        got orphan =
      let here : c.get (key_in source ns) w'.server ≡ c.get (key_in source ns) w.server =
        ap (c.get (key_in source ns)) same in
      ap (λ (x : Outcome × World c). c.get (key_in source ns) x.1.server)
        (path ∙ allowed-full c r req source w' live has)
      ∙ enabled-orphan req targets w' info (ap (resolve_targets c r source) same ∙ resolved)
          (ap (list_namespaces_with_labels c r.has_api_reader) same ∙ listed) there (here ∙ got)
          orphan

  -- The fate of an orphan, a mirror of the source in a listed namespace that is no target of it, in a
  -- whole Reconcile of the source, which is enabled, not being deleted, no mirror itself, has its
  -- finalizer and is not held back by the breaker: with a target left the orphan is gone, with none it
  -- stands as before. The orphan has no finalizers and the API server accepts its delete; nothing is
  -- said of an orphan whose delete fails. The mirrors of the source are not transformed; the client's
  -- writes are local, its deletes make nothing appear and clear what has no finalizers where they
  -- succeed, it reads an object under its key, and no write changes the namespaces.
  pub reconcile-orphan :
      (req : Request) (targets : List String) (w : World c) (info : NamespaceInfo)
      → IsLive source
      → has_finalizer source ≡ true
      → get_source_with_freshness c r (key_of req) w.server ≡ found source
      → (reconcile c r req w).0 ≢ requeue_after (5 * minute)
      → resolve_targets c r source w.server ≡ some targets
      → list_namespaces_with_labels c r.has_api_reader w.server ≡ some info
      → contains info.every ns ≡ true
      → c.get (key_in source ns) w.server ≡ orphaned
      → is_orphan source targets (key_in source ns) orphaned ≡ true
      → c.get (key_in source ns) (reconcile c r req w).1.server
        ≡ (if is_empty targets then orphaned else missing)
  reconcile-orphan req targets w info live has read prompt =
      Passed-orphan req targets w info (reconcile c r req w) live has prompt
        (reconcile-Passed c r req source w read live.no_mirror)
