-- ===== src/System/Excluded.antt =====
-- What any sequence of calls of the three reconcilers of pkg/controller makes appear in a namespace that
-- the filter does not allow: nothing.
use mathlib.Core.List.{Perm}
use kubemirror.Prelude.{
  String, true, false, Option, none, some, List, [], ◌∷◌, All, ◌≡◌, ◌≢◌, refl, sym, ap, ◌∙◌, arith,
  inl, inr, true-false, contains, Option-cases, Bool-cases,
}
use kubemirror.Prelude.Dict.{read}
use kubemirror.Object.{Unstructured}
use kubemirror.Filter.{is_allowed}
use kubemirror.Cluster.{Key, Fetch, found, missing, failed, Client, key_in}
use kubemirror.Cluster.Laws.{IsLocal, IsReliable}
use kubemirror.Cluster.Store.{IsTight, IsKeyed, IsFresh}
use kubemirror.SourceReconciler.{Settings, is_own_mirror, get_source_with_freshness}
use kubemirror.SourceReconciler.Reconcile.{World}
use kubemirror.SourceReconciler.Locality.{IsPlain, reconcile_mirror-keeps}
use kubemirror.NamespaceReconciler
use kubemirror.NamespaceReconciler.{
  Counts, count_round, remove_orphan, create_mirror_in, reconcile_source, reconcile_sources,
}
use kubemirror.NamespaceReconciler.Agreement.{resolve_targets-agrees}
use kubemirror.MirrorReconciler
use kubemirror.MirrorReconciler.{source_named, delete_mirror, check_source, at}
use kubemirror.SourceReconciler.Excluded.{no_target, reconcile-missing}
use kubemirror.System.{Step, source_event, namespace_event, mirror_event, Reach, here, next}

module _ (c : Client) (r : Settings) (local : IsLocal c) (reliable : IsReliable c)
    (tight : IsTight c) (keys : IsKeyed c) (fresh : IsFresh c)
    (shuffles : (xs : List String) → Perm (r.order xs) xs) (k : Key)
    (excluded : is_allowed r.filter k.namespace ≡ false) where
  orphan-missing :
      (source : Unstructured) (ns : String) (s : c.S)
      → c.get k s ≡ missing
      → c.get k (remove_orphan c r source ns s).1 ≡ missing
  unfolding remove_orphan
  orphan-missing source ns s gone = by_fetch (c.get (key_in source ns) s) refl
    where
      by_fetch :
          (f : Fetch)
          → c.get (key_in source ns) s ≡ f
          → c.get k (remove_orphan c r source ns s).1 ≡ missing
      by_fetch missing e = rw (e, remove_orphan) gone
      by_fetch (failed x) e = rw (e, remove_orphan) gone
      by_fetch (found mirror) e = elim (Bool-cases (is_own_mirror source mirror)) [
        | inr other ↦ rw (e, other, remove_orphan) gone
        | inl own ↦
            rw (e, own, remove_orphan) (reliable.creates_nothing (key_in source ns) k s gone)
      ]

  created-missing :
      (source : Unstructured) (plain : IsPlain source) (ns : String) (s : c.S)
      (targets : List String)
      → NamespaceReconciler.resolve_targets c r source s ≡ some targets
      → contains targets ns ≡ true
      → c.get k s ≡ missing
      → c.get k (create_mirror_in c r source ns s).1 ≡ missing
  unfolding create_mirror_in
  created-missing source plain ns s targets resolved target gone =
      let outside =
        no_target c r local reliable tight keys fresh shuffles k excluded source s targets
          (sym (resolve_targets-agrees c r source s) ∙ resolved) in
      let elsewhere : key_in source ns ≢ k = λ same.
        true-false
          (sym target ∙ (ap (contains targets) (ap (λ (j : Key). j.namespace) same) ∙ outside)) in
      reconcile_mirror-keeps c (record r { has_api_reader = false }) source plain tight keys k ns s
        elsewhere
      ∙ gone

  source-missing :
      (source : Unstructured) (plain : IsPlain source) (ns : String) (s : c.S)
      → c.get k s ≡ missing
      → c.get k (reconcile_source c r ns source s).1 ≡ missing
  unfolding reconcile_source
  source-missing source plain ns s gone =
      by_targets (NamespaceReconciler.resolve_targets c r source s) refl
    where
      by_targets :
          (o : Option (List String))
          → NamespaceReconciler.resolve_targets c r source s ≡ o
          → c.get k (reconcile_source c r ns source s).1 ≡ missing
      by_targets none e = ground (arith, e, gone)
      by_targets (some targets) e = elim (Bool-cases (contains targets ns)) [
        | inl target ↦
            ground (arith, e, target, gone, created-missing source plain ns s targets e target gone)
        | inr outside ↦ ground (arith, e, outside, gone, orphan-missing source ns s gone)
      ]

  sources-missing :
      (ns : String) (sources : List Unstructured) (n : Counts) (s : c.S)
      → All IsPlain sources
      → c.get k s ≡ missing
      → c.get k (reconcile_sources c r ns sources n s).1 ≡ missing
  unfolding reconcile_sources
  sources-missing ns [] n s plain gone = gone
  sources-missing ns (source ∷ rest) n s (plain, plains) gone =
      let round = reconcile_source c r ns source s in
      sources-missing ns rest (count_round round.0 n) round.1 plains
        (source-missing source plain ns s gone)

module _ (c : Client) (reliable : IsReliable c) (k : Key) where
  check-missing :
      (j : Key) (uid : String) (f : Fetch) (s : c.S)
      → c.get k s ≡ missing
      → c.get k (check_source c j uid f s).1 ≡ missing
  unfolding check_source delete_mirror
  check-missing j uid missing s gone = reliable.creates_nothing j k s gone
  check-missing j uid (failed e) s gone = gone
  check-missing j uid (found source) s gone =
      ground (arith, gone, reliable.creates_nothing j k s gone)

  mirror-missing :
      (j : Key) (mirror : Unstructured) (s : c.S)
      → c.get j s ≡ found mirror
      → c.get k s ≡ missing
      → c.get k (MirrorReconciler.reconcile c j s).1 ≡ missing
  unfolding MirrorReconciler.reconcile
  mirror-missing j mirror s there gone = elim (Option-cases (source_named mirror.meta)) [
    | inl no_reference ↦
        rw (there, MirrorReconciler.reconcile) (rw (no_reference, MirrorReconciler.reconcile) gone)
    | inr ((ns, name, uid), named) ↦
        rw (there, MirrorReconciler.reconcile)
          (rw (named, MirrorReconciler.reconcile)
            (check-missing j uid (c.get (at j ns name) s) s gone))
  ]

module _ (c : Client) (r : Settings) (local : IsLocal c) (reliable : IsReliable c)
    (tight : IsTight c) (keys : IsKeyed c) (fresh : IsFresh c) (k : Key)
    (excluded : is_allowed r.filter k.namespace ≡ false) where
  step-missing :
      (w v : World c) → Step c r w v → c.get k w.server ≡ missing → c.get k v.server ≡ missing
  unfolding get_source_with_freshness
  step-missing w v (source_event order req source shuffles read live plain) gone =
      reconcile-missing c (record r { order = order }) local reliable tight keys fresh shuffles k
        excluded source plain req w live read gone
  step-missing w v (namespace_event order ns sources n shuffles plain) gone =
      sources-missing c (record r { order = order }) local reliable tight keys fresh shuffles k
        excluded ns sources n w.server plain gone
  step-missing w v (mirror_event j mirror got managed) gone =
      mirror-missing c reliable k j mirror w.server got gone

  -- In a namespace that the filter does not allow nothing appears: where no object stands at a key
  -- there, none stands at it after any number of calls of the three reconcilers, in any order, whatever
  -- the sources ask for: for sources that are enabled and not being deleted, for namespaces, and for
  -- managed objects. No source has transformation rules, the cache is up to date, the client's writes
  -- are local, a delete makes nothing appear, whether it succeeds or not, the client reads an object
  -- under its key, and each call walks over its maps in any order of their keys.
  pub Reach-excluded :
      (w v : World c) → Reach c r w v → c.get k w.server ≡ missing → c.get k v.server ≡ missing
  Reach-excluded w _ here gone = gone
  Reach-excluded w _ (next u v reached step) gone =
      step-missing u v step (Reach-excluded w u reached gone)
