-- ===== src/System/Foreign.antt =====
-- What any sequence of calls of the three reconcilers of pkg/controller does to an object that is neither
-- a mirror nor a source.
use kubemirror.Prelude.{
  String, true, false, ◌⊎◌, ◌≡◌, ◌≢◌, refl, sym, ap, ◌∙◌, arith, inl, inr, true-false, Option-cases,
}
use kubemirror.Prelude.Dict.{read, read_lem}
use kubemirror.Constants.{label_managed_by}
use kubemirror.Object.{Meta, Unstructured, unstructured}
use kubemirror.Mirror.{is_managed_by_us}
use kubemirror.Cluster.{Key, Fetch, found, missing, failed, Client}
use kubemirror.Cluster.Laws.{IsLocal}
use kubemirror.Cluster.Store.{key_of_object, IsTight, IsKeyed, IsFresh}
use kubemirror.SourceReconciler.{Settings, get_source_with_freshness, is_enabled_for_mirroring}
use kubemirror.SourceReconciler.Reconcile.{World, key_of}
use kubemirror.SourceReconciler.Reads.{source-cases, source-keyed}
use kubemirror.SourceReconciler.Paths.{IsLive}
use kubemirror.SourceReconciler.Foreign.{reconcile-keeps_unmanaged}
use kubemirror.NamespaceReconciler.Foreign.{reconcile_sources-keeps_unmanaged}
use kubemirror.MirrorReconciler
use kubemirror.MirrorReconciler.{
  source_named, delete_mirror, check_source, at, managed_by_predicate,
}
use kubemirror.System.{Step, source_event, namespace_event, mirror_event, Reach, here, next}

managed_by_predicate-is_managed_by_us :
    (m : Meta) → managed_by_predicate m ≡ true → is_managed_by_us m ≡ true
unfolding managed_by_predicate is_managed_by_us
managed_by_predicate-is_managed_by_us m h = ground (arith, h, read_lem label_managed_by m.labels)

module _ (c : Client) (r : Settings) (local : IsLocal c) (tight : IsTight c) (keys : IsKeyed c)
    (fresh : IsFresh c) (k : Key) (foreign : Unstructured)
    (unmanaged : is_managed_by_us foreign.meta ≡ false)
    (no_source : is_enabled_for_mirroring foreign.meta ≡ false) where
  check-keeps :
      (j : Key) (uid : String) (f : Fetch) (s : c.S)
      → j ≢ k
      → c.get k (MirrorReconciler.check_source c j uid f s).1 ≡ c.get k s
  unfolding check_source delete_mirror
  check-keeps j uid missing s apart = local.delete_local j k s apart
  check-keeps j uid (failed e) s apart = refl
  check-keeps j uid (found source) s apart = ground (arith, local.delete_local j k s apart)

  -- a call for a mirror deletes nothing but that mirror
  mirror-keeps :
      (j : Key) (mirror : Unstructured) (s : c.S)
      → c.get j s ≡ found mirror
      → j ≢ k
      → c.get k (MirrorReconciler.reconcile c j s).1 ≡ c.get k s
  unfolding MirrorReconciler.reconcile
  mirror-keeps j mirror s there apart = elim (Option-cases (source_named mirror.meta)) [
    | inl no_reference ↦
        rw (there, MirrorReconciler.reconcile) (rw (no_reference, MirrorReconciler.reconcile) refl)
    | inr ((ns, name, uid), named) ↦
        rw (there, MirrorReconciler.reconcile)
          (rw (named, MirrorReconciler.reconcile)
            (check-keeps j uid (c.get (at j ns name) s) s apart))
  ]

  other_mirror :
      (j : Key) (mirror : Unstructured) (s : c.S)
      → c.get k s ≡ found foreign
      → c.get j s ≡ found mirror
      → managed_by_predicate mirror.meta ≡ true
      → j ≢ k
  other_mirror j mirror s there got managed same =
      let e : mirror ≡ foreign = cc (got, there, ap (λ i. c.get i s) same) in
      true-false (
        sym (managed_by_predicate-is_managed_by_us mirror.meta managed)
        ∙ (ap (λ (x : Unstructured). is_managed_by_us x.meta) e ∙ unmanaged))

  read_there :
      (u : Unstructured) (j : Key) (s : c.S)
      → (c.get j s ≡ found u) ⊎ (c.api_get j s ≡ found u)
      → c.get j s ≡ found u
  read_there u j s (inl cached) = cached
  read_there u j s (inr api) = sym (fresh j s) ∙ api

  other_source :
      (source : Unstructured) (j : Key) (s : c.S)
      → c.get k s ≡ found foreign
      → get_source_with_freshness c r j s ≡ found source
      → IsLive source
      → key_of_object (unstructured source) ≢ k
  other_source source j s there read live same =
      let at_key : j ≡ k = sym (source-keyed c r j s keys source read) ∙ same in
      let got : c.get j s ≡ found source =
        read_there source j s (source-cases c r j s source read) in
      let e : source ≡ foreign = cc (got, there, ap (λ i. c.get i s) at_key) in
      true-false (
        sym live.enabled
        ∙ (ap (λ (x : Unstructured). is_enabled_for_mirroring x.meta) e ∙ no_source))

module _ (c : Client) (r : Settings) (local : IsLocal c) (tight : IsTight c) (keys : IsKeyed c)
    (fresh : IsFresh c) (k : Key) (foreign : Unstructured)
    (unmanaged : is_managed_by_us foreign.meta ≡ false)
    (no_source : is_enabled_for_mirroring foreign.meta ≡ false) where
  step-keeps :
      (w v : World c)
      → Step c r w v
      → c.get k w.server ≡ found foreign
      → c.get k v.server ≡ found foreign
  unfolding get_source_with_freshness
  step-keeps w v (source_event order req source shuffles read live plain) there =
      let apart : key_of_object (unstructured source) ≢ k =
        other_source c (record r { order = order }) local tight keys fresh k foreign unmanaged
          no_source source (key_of req) w.server there read live in
      reconcile-keeps_unmanaged c (record r { order = order }) local tight keys fresh source plain k
        foreign unmanaged apart req w live read there
  step-keeps w v (namespace_event order ns sources n shuffles plain) there =
      reconcile_sources-keeps_unmanaged c (record r { order = order }) local tight keys k foreign
        unmanaged ns sources n w.server plain there
  step-keeps w v (mirror_event j mirror got managed) there =
      mirror-keeps c r local tight keys fresh k foreign unmanaged no_source j mirror w.server got (
        other_mirror c r local tight keys fresh k foreign unmanaged no_source j mirror w.server
          there got managed)
      ∙ there

  -- An object that is neither managed by kubemirror nor enabled as a source stands as it was after any
  -- number of calls of the three reconcilers, in any order: for sources that are enabled and not being
  -- deleted, for namespaces, and for managed objects. No source has transformation rules, the cache is
  -- up to date, an object is read under its key, the client's writes are local, and each call walks over
  -- its maps in any order of their keys.
  pub Reach-keeps :
      (w v : World c)
      → Reach c r w v
      → c.get k w.server ≡ found foreign
      → c.get k v.server ≡ found foreign
  Reach-keeps w _ here there = there
  Reach-keeps w _ (next u v reached step) there =
      step-keeps u v step (Reach-keeps w u reached there)
