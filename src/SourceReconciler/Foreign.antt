-- ===== src/SourceReconciler/Foreign.antt =====
-- What Reconcile of pkg/controller/source_reconciler.go does to objects that kubemirror does not
-- manage: nothing, while the source is live.
use kubemirror.Prelude.{
  String, ◌≡◌, ◌≢◌, refl, ap, ◌∙◌, false, Option, none, some, List, [], ◌∷◌, arith, Bool-cases, inl,
  inr, ◌+◌, ℕ,
}
use kubemirror.Object.{Unstructured, unstructured}
use kubemirror.Mirror.{is_managed_by_us}
use kubemirror.Cluster.{Key, found, Client}
use kubemirror.Cluster.Laws.{IsLocal}
use kubemirror.Cluster.Store.{key_of_object, IsTight, IsFresh, IsKeyed}
use kubemirror.SourceReconciler.{
  Settings, Outcome, is_own_mirror, get_source_with_freshness, reconcile_mirror,
  cleanup_orphaned_mirrors, resolve_targets,
}
use kubemirror.SourceReconciler.Reconcile.{
  World, Request, key_of, has_finalizer, add_finalizer, reconcile_all, with_sync_status,
  reconcile_targets, reconcile_enabled, reconcile_allowed, reconcile,
}
use kubemirror.SourceReconciler.Writes.{is_orphan, cleanup_orphaned_mirrors-keeps}
use kubemirror.SourceReconciler.Reads.{source-fresh}
use kubemirror.SourceReconciler.Locality.{IsPlain, reconcile_mirror-keeps_unmanaged}
use kubemirror.SourceReconciler.Paths.{
  IsLive, Passed, delayed, passed, allowed-bare, allowed-full, reconcile-Passed, targets-server,
}

unmanaged_orphan :
    (source foreign : Unstructured) (targets : List String) (k : Key)
    → is_managed_by_us foreign.meta ≡ false
    → is_orphan source targets k (found foreign) ≡ false
unfolding is_orphan is_own_mirror
unmanaged_orphan source foreign targets k unmanaged = ground (arith, unmanaged)

module _ (c : Client) (r : Settings) (local : IsLocal c) (tight : IsTight c) (keys : IsKeyed c)
    (fresh : IsFresh c) (source : Unstructured) (plain : IsPlain source) (k : Key)
    (foreign : Unstructured) (unmanaged : is_managed_by_us foreign.meta ≡ false)
    (apart : key_of_object (unstructured source) ≢ k) where
  mirror-keeps :
      (target : String) (s : c.S)
      → c.get k s ≡ found foreign
      → c.get k (reconcile_mirror c r source target s).1 ≡ found foreign
  mirror-keeps target s there =
      reconcile_mirror-keeps_unmanaged c r source plain tight keys k foreign target s unmanaged
        (λ j got. source-fresh c r j s fresh foreign got) there

  all-keeps :
      (targets : List String) (n e : ℕ) (s : c.S)
      → c.get k s ≡ found foreign
      → c.get k (reconcile_all c r source targets n e s).2 ≡ found foreign
  unfolding reconcile_all
  all-keeps [] n e s there = there
  all-keeps (target ∷ targets) n e s there =
      let w = reconcile_mirror c r source target s in
      all-keeps targets (elim (w.0) [ none ↦ n + 1 | some f ↦ n ])
        (elim (w.0) [ none ↦ e | some f ↦ e + 1 ]) w.1 (mirror-keeps target s there)

  targets-keeps :
      (req : Request) (targets : List String) (w : World c)
      → c.get k w.server ≡ found foreign
      → c.get k (reconcile_targets c r req source targets w).1.server ≡ found foreign
  unfolding reconcile_targets
  targets-keeps req targets w there =
      let (n, e, s₁) = reconcile_all c r source targets 0 0 w.server in
      let after_all = all-keeps targets 0 0 w.server there in
      let (found_orphans, s₂) = cleanup_orphaned_mirrors c r source targets s₁ in
      let kept : is_orphan source targets k (c.get k s₁) ≡ false =
        ap (is_orphan source targets k) after_all
        ∙ unmanaged_orphan source foreign targets k unmanaged in
      let after_cleanup = cleanup_orphaned_mirrors-keeps c r source targets local k s₁ kept in
      ap (c.get k) (targets-server c r req source w targets)
      ∙ tight.update_local (unstructured (with_sync_status source n e)) k s₂ apart
      ∙ after_cleanup
      ∙ after_all

  live-keeps :
      (req : Request) (w : World c)
      → IsLive source
      → c.get k w.server ≡ found foreign
      → c.get k (reconcile_allowed c r req source w).1.server ≡ found foreign
  unfolding add_finalizer reconcile_enabled
  live-keeps req w live there = elim (Bool-cases (has_finalizer source)) [
    | inr bare ↦
        ap (λ (x : Outcome × World c). c.get k x.1.server) (allowed-bare c r req source w live bare)
        ∙ tight.update_local _ k w.server apart
        ∙ there
    | inl has ↦
        ap (λ (x : Outcome × World c). c.get k x.1.server) (allowed-full c r req source w live has)
        ∙ by_targets (resolve_targets c r source w.server) refl
  ]
    where
      by_targets :
          (o : Option (List String))
          → resolve_targets c r source w.server ≡ o
          → c.get k (reconcile_enabled c r req source w).1.server ≡ found foreign
      by_targets none e = rw (e, reconcile_enabled) there
      by_targets (some []) e = rw (e, reconcile_enabled) there
      by_targets (some (t ∷ ts)) e = rw (e, reconcile_enabled) (targets-keeps req (t ∷ ts) w there)

  Passed-keeps :
      (req : Request) (w : World c) (end : Outcome × World c)
      → IsLive source
      → c.get k w.server ≡ found foreign
      → Passed r req source w end
      → c.get k end.1.server ≡ found foreign
  Passed-keeps req w end live there (delayed a b) = rw b there
  Passed-keeps req w end live there (passed w' same path) =
      ap (λ (x : Outcome × World c). c.get k x.1.server) path
      ∙ live-keeps req w' live (ap (c.get k) same ∙ there)

  -- A whole Reconcile of a source that is enabled, not being deleted and no mirror itself leaves an
  -- object that kubemirror does not manage as it is, wherever it stands and whatever its name, in a
  -- target namespace too. The mirrors of the source are not transformed, the cache is up to date, and
  -- the client's writes are local.
  pub reconcile-keeps_unmanaged :
      (req : Request) (w : World c)
      → IsLive source
      → get_source_with_freshness c r (key_of req) w.server ≡ found source
      → c.get k w.server ≡ found foreign
      → c.get k (reconcile c r req w).1.server ≡ found foreign
  reconcile-keeps_unmanaged req w live read there =
      Passed-keeps req w (reconcile c r req w) live there
        (reconcile-Passed c r req source w read live.no_mirror)
