-- ===== src/NamespaceReconciler/Foreign.antt =====
-- What an event of a namespace does to objects that kubemirror does not manage,
-- pkg/controller/namespace_reconciler.go.
use kubemirror.Prelude.{
  true-false, String, true, false, List, [], ◌∷◌, ◌≡◌, ◌≢◌, refl, sym, ap, ◌∙◌, All, Bool-cases,
  inl, inr, arith,
}
use kubemirror.Object.{Unstructured}
use kubemirror.Mirror.{is_managed_by_us}
use kubemirror.Cluster.{Key, Fetch, found, missing, failed, Client, key_in}
use kubemirror.Cluster.Laws.{IsLocal}
use kubemirror.Cluster.Store.{IsTight, IsKeyed}
use kubemirror.SourceReconciler.{Settings, is_own_mirror, get_source_with_freshness}
use kubemirror.SourceReconciler.Locality.{IsPlain, reconcile_mirror-keeps_unmanaged}
use kubemirror.NamespaceReconciler.{
  Counts, count_round, remove_orphan, create_mirror_in, reconcile_source, reconcile_sources,
}

module _ (c : Client) (r : Settings) (local : IsLocal c) (tight : IsTight c) (keys : IsKeyed c)
    (k : Key) (foreign : Unstructured) (unmanaged : is_managed_by_us foreign.meta ≡ false)
    (ns : String) where
  own_unmanaged :
      (source mirror : Unstructured)
      → is_own_mirror source mirror ≡ true
      → found mirror ≢ found foreign
  unfolding is_own_mirror
  own_unmanaged source mirror own same =
      let managed : is_managed_by_us mirror.meta ≡ true = ground (arith, own) in
      let e : mirror ≡ foreign = cc same in
      true-false (sym managed ∙ (ap (λ (x : Unstructured). is_managed_by_us x.meta) e ∙ unmanaged))

  cached :
      (j : Key) (s : c.S)
      → c.get j s ≡ found foreign
      → get_source_with_freshness c (record r { has_api_reader = false }) j s ≡ found foreign
  unfolding get_source_with_freshness
  cached j s there = rw (there, get_source_with_freshness) (ground arith)

  mirror-keeps :
      (source : Unstructured) (plain : IsPlain source) (s : c.S)
      → c.get k s ≡ found foreign
      → c.get k (create_mirror_in c r source ns s).1 ≡ found foreign
  unfolding create_mirror_in
  mirror-keeps source plain s there =
      reconcile_mirror-keeps_unmanaged c (record r { has_api_reader = false }) source plain tight
        keys k foreign ns s unmanaged (λ j. cached j s) there

  orphan-keeps :
      (source : Unstructured) (s : c.S)
      → c.get k s ≡ found foreign
      → c.get k (remove_orphan c r source ns s).1 ≡ found foreign
  unfolding remove_orphan
  orphan-keeps source s there = by_fetch (c.get (key_in source ns) s) refl
    where
      by_fetch :
          (f : Fetch)
          → c.get (key_in source ns) s ≡ f
          → c.get k (remove_orphan c r source ns s).1 ≡ found foreign
      by_fetch missing e = rw (e, remove_orphan) there
      by_fetch (failed x) e = rw (e, remove_orphan) there
      by_fetch (found mirror) e = elim (Bool-cases (is_own_mirror source mirror)) [
        | inr other ↦ rw (e, other, remove_orphan) there
        | inl own ↦
            let apart : key_in source ns ≢ k = λ same.
              own_unmanaged source mirror own (sym e ∙ (ap (λ j. c.get j s) same ∙ there)) in
            rw (e, own, remove_orphan) (local.delete_local (key_in source ns) k s apart ∙ there)
      ]

  source-keeps :
      (source : Unstructured) (plain : IsPlain source) (s : c.S)
      → c.get k s ≡ found foreign
      → c.get k (reconcile_source c r ns source s).1 ≡ found foreign
  unfolding reconcile_source
  source-keeps source plain s there =
      ground (arith, there, mirror-keeps source plain s there, orphan-keeps source s there)

  -- The round of a namespace's event over any sources of a type leaves an object that kubemirror does
  -- not manage as it is, whatever its name and wherever it stands, in the namespace of the event, too,
  -- and whether that is a target of the source of its name or not. The mirrors of the sources are not
  -- transformed, and the client's writes are local.
  pub reconcile_sources-keeps_unmanaged :
      (sources : List Unstructured) (n : Counts) (s : c.S)
      → All IsPlain sources
      → c.get k s ≡ found foreign
      → c.get k (reconcile_sources c r ns sources n s).1 ≡ found foreign
  unfolding reconcile_sources
  reconcile_sources-keeps_unmanaged [] n s plain there = there
  reconcile_sources-keeps_unmanaged (source ∷ rest) n s (plain, plains) there =
      let round = reconcile_source c r ns source s in
      reconcile_sources-keeps_unmanaged rest (count_round round.0 n) round.1 plains
        (source-keeps source plain s there)
