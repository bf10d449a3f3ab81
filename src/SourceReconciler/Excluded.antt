-- ===== src/SourceReconciler/Excluded.antt =====
-- What Reconcile of pkg/controller/source_reconciler.go makes appear in a namespace that the filter does
-- not allow: nothing.
use mathlib.Core.List.{Perm}
use kubemirror.Prelude.{
  String, false, ◌⊎◌, Option, none, some, List, [], ◌∷◌, ◌≡◌, ◌≢◌, refl, sym, ap, ◌∙◌, inl, inr,
  true-false, contains, Bool-cases,
}
use kubemirror.Prelude.Dict.{read}
use kubemirror.Object.{Unstructured, unstructured}
use kubemirror.Filter.{is_allowed}
use kubemirror.Cluster.{Key, found, missing, Client}
use kubemirror.Cluster.Laws.{IsLocal, IsReliable}
use kubemirror.Cluster.Store.{key_of_object, IsTight, IsKeyed, IsFresh}
use kubemirror.SourceReconciler.{
  Settings, Outcome, get_source_with_freshness, resolve_targets, cleanup_orphaned_mirrors,
}
use kubemirror.SourceReconciler.Reconcile.{
  World, Request, key_of, has_finalizer, with_sync_status, add_finalizer, reconcile_all,
  update_last_sync_status, reconcile_targets, reconcile_enabled, reconcile_allowed, reconcile,
}
use kubemirror.SourceReconciler.Reads.{source-cases, source-keyed}
use kubemirror.SourceReconciler.Mirrors.{resolve_targets-allowed}
use kubemirror.SourceReconciler.Locality.{IsPlain, reconcile_all-keeps}
use kubemirror.SourceReconciler.Orphans.{cleanup_orphaned_mirrors-missing}
use kubemirror.SourceReconciler.Paths.{
  IsLive, Passed, delayed, passed, allowed-bare, allowed-full, reconcile-Passed, targets-server,
}

module _ (c : Client) (r : Settings) (local : IsLocal c) (reliable : IsReliable c)
    (tight : IsTight c) (keys : IsKeyed c) (fresh : IsFresh c)
    (shuffles : (xs : List String) → Perm (r.order xs) xs) (k : Key)
    (excluded : is_allowed r.filter k.namespace ≡ false) where
  -- the namespace is no target of any source
  pub no_target :
      (source : Unstructured) (s : c.S) (targets : List String)
      → resolve_targets c r source s ≡ some targets
      → contains targets k.namespace ≡ false
  no_target source s targets resolved = elim (Bool-cases (contains targets k.namespace)) [
    | inr outside ↦ outside
    | inl there ↦ absurd (
        true-false (
          sym (resolve_targets-allowed c r source s targets k.namespace shuffles resolved there).1
          ∙ excluded))
  ]

  module _ (source : Unstructured) (plain : IsPlain source)
      (apart : key_of_object (unstructured source) ≢ k) where
    targets-missing :
        (req : Request) (targets : List String) (w : World c)
        → contains targets k.namespace ≡ false
        → c.get k w.server ≡ missing
        → c.get k (reconcile_targets c r req source targets w).1.server ≡ missing
    unfolding update_last_sync_status with_sync_status
    targets-missing req targets w outside gone =
        let (n, e, s₁) = reconcile_all c r source targets 0 0 w.server in
        let (deleted, s₂) = cleanup_orphaned_mirrors c r source targets s₁ in
        ap (c.get k) (targets-server c r req source w targets)
        ∙ tight.update_local (unstructured (with_sync_status source n e)) k s₂ apart
        ∙ cleanup_orphaned_mirrors-missing c r source targets local reliable k s₁
            (reconcile_all-keeps c r source plain tight keys k targets 0 0 w.server outside ∙ gone)

    live-missing :
        (req : Request) (w : World c)
        → IsLive source
        → c.get k w.server ≡ missing
        → c.get k (reconcile_allowed c r req source w).1.server ≡ missing
    unfolding add_finalizer reconcile_enabled
    live-missing req w live gone = elim (Bool-cases (has_finalizer source)) [
      | inr bare ↦
          ap (λ (x : Outcome × World c). c.get k x.1.server)
            (allowed-bare c r req source w live bare)
          ∙ tight.update_local _ k w.server apart
          ∙ gone
      | inl has ↦
          ap (λ (x : Outcome × World c). c.get k x.1.server)
            (allowed-full c r req source w live has)
          ∙ by_targets (resolve_targets c r source w.server) refl
    ]
      where
        by_targets :
            (o : Option (List String))
            → resolve_targets c r source w.server ≡ o
            → c.get k (reconcile_enabled c r req source w).1.server ≡ missing
        by_targets none e = rw (e, reconcile_enabled) gone
        by_targets (some []) e = rw (e, reconcile_enabled) gone
        by_targets (some (t ∷ ts)) e =
            rw (e, reconcile_enabled)
              (targets-missing req (t ∷ ts) w (no_target source w.server (t ∷ ts) e) gone)

    Passed-missing :
        (req : Request) (w : World c) (end : Outcome × World c)
        → IsLive source
        → c.get k w.server ≡ missing
        → Passed r req source w end
        → c.get k end.1.server ≡ missing
    Passed-missing req w end live gone (delayed a b) = ap (c.get k) b ∙ gone
    Passed-missing req w end live gone (passed w' same path) =
        ap (λ (x : Outcome × World c). c.get k x.1.server) path
        ∙ live-missing req w' live (ap (c.get k) same ∙ gone)

  read_there :
      (u : Unstructured) (j : Key) (s : c.S)
      → (c.get j s ≡ found u) ⊎ (c.api_get j s ≡ found u)
      → c.get j s ≡ found u
  read_there u j s (inl cached) = cached
  read_there u j s (inr api) = sym (fresh j s) ∙ api

  source-apart :
      (source : Unstructured) (j : Key) (s : c.S)
      → c.get k s ≡ missing
      → get_source_with_freshness c r j s ≡ found source
      → key_of_object (unstructured source) ≢ k
  source-apart source j s gone read same =
      let at_key : j ≡ k = sym (source-keyed c r j s keys source read) ∙ same in
      let got : found source ≡ missing =
        sym (read_there source j s (source-cases c r j s source read))
        ∙ (ap (λ i. c.get i s) at_key ∙ gone) in
      cc got

  -- a whole Reconcile of a live source makes nothing appear there
  pub reconcile-missing :
      (source : Unstructured) (plain : IsPlain source) (req : Request) (w : World c)
      → IsLive source
      → get_source_with_freshness c r (key_of req) w.server ≡ found source
      → c.get k w.server ≡ missing
      → c.get k (reconcile c r req w).1.server ≡ missing
  reconcile-missing source plain req w live read gone =
      Passed-missing source plain (source-apart source (key_of req) w.server gone read) req w
        (reconcile c r req w) live gone (reconcile-Passed c r req source w read live.no_mirror)
