-- ===== src/SourceReconciler/Steady.antt =====
-- The namespaces that the lister of pkg/controller/namespace_lister.go gives are the same before and
-- after the mirrors are reconciled.
use kubemirror.Prelude.{
  ℕ, ◌+◌, String, ◌≡◌, refl, ap, ◌∙◌, Bool, true, false, ◌&&◌, Option, none, some, List, [], ◌∷◌,
  Bool-cases, inl, inr, if◌then◌else◌,
}
use kubemirror.Object.{Unstructured, Object, unstructured}
use kubemirror.Hash.{needs_sync}
use kubemirror.Mirror.{Result, ok, err, create_mirror, update_mirror, is_managed_by_us}
use kubemirror.Cluster.{
  Fetch, found, missing, failed, Client, key_in, NamespaceInfo, Namespace, categorize, get_reader,
  list_namespaces_with_labels,
}
use kubemirror.Cluster.Store.{IsSteady}
use kubemirror.SourceReconciler.{Settings, fresher, sync_existing, create_missing, reconcile_mirror}
use kubemirror.SourceReconciler.Reconcile.{reconcile_all}

module _ (c : Client) (r : Settings) (source : Unstructured) (P : c.S → Type 0)
    (creates : (o : Object) (s : c.S) → P s → P (c.create o s).1)
    (updates : (o : Object) (s : c.S) → P s → P (c.update o s).1) where
  create_missing-holds :
      (target : String) (s : c.S) → P s → P (create_missing c r source target s).1
  unfolding create_missing
  create_missing-holds target s p =
      by_result (create_mirror r.transform r.digest (unstructured source) target (c.time_stamp s))
        refl
    where
      by_result :
          (m : Result Object)
          → create_mirror r.transform r.digest (unstructured source) target (c.time_stamp s) ≡ m
          → P (create_missing c r source target s).1
      by_result (err x) e = rw (e, create_missing) p
      by_result (ok m) e = rw (e, create_missing) (creates m s p)

  sync_existing-holds :
      (existing : Unstructured) (s : c.S) → P s → P (sync_existing c r source existing s).1
  unfolding sync_existing
  sync_existing-holds existing s p = elim (Bool-cases (is_managed_by_us existing.meta)) [
    | inr unmanaged ↦ rw (unmanaged, sync_existing) p
    | inl managed ↦
        by_need managed (needs_sync r.digest (unstructured source) existing.meta.annotations) refl
  ]
    where
      by_result :
          is_managed_by_us existing.meta ≡ true
          → needs_sync r.digest (unstructured source) existing.meta.annotations ≡ some true
          → (m : Result Object)
          → update_mirror r.transform r.digest
              (unstructured existing)
              (unstructured source)
              (c.time_stamp s)
            ≡ m
          → P (sync_existing c r source existing s).1
      by_result managed need (err x) e = rw (managed, need, e, sync_existing) p
      by_result managed need (ok m) e = rw (managed, need, e, sync_existing) (updates m s p)

      by_need :
          is_managed_by_us existing.meta ≡ true
          → (o : Option Bool)
          → needs_sync r.digest (unstructured source) existing.meta.annotations ≡ o
          → P (sync_existing c r source existing s).1
      by_need managed none e = rw (managed, e, sync_existing) p
      by_need managed (some false) e = rw (managed, e, sync_existing) p
      by_need managed (some true) e =
          by_result managed e
            (update_mirror r.transform r.digest (unstructured existing) (unstructured source)
              (c.time_stamp s))
            refl

  reconcile_mirror-holds :
      (target : String) (s : c.S) → P s → P (reconcile_mirror c r source target s).1
  unfolding reconcile_mirror
  reconcile_mirror-holds target s p = by_fetch (c.get (key_in source target) s) refl
    where
      by_fetch :
          (f : Fetch)
          → c.get (key_in source target) s ≡ f
          → P (reconcile_mirror c r source target s).1
      by_fetch missing e = rw (e, reconcile_mirror) (create_missing-holds target s p)
      by_fetch (failed x) e = rw (e, reconcile_mirror) p
      by_fetch (found cached) e =
          rw (e, reconcile_mirror)
            (sync_existing-holds
              (if r.verify_source_freshness && r.has_api_reader
                then fresher c r (key_in source target) cached s
                else cached)
              s p)

  -- what every create and update keeps is kept by the loop over the targets
  pub reconcile_all-holds :
      (targets : List String) (n e : ℕ) (s : c.S)
      → P s
      → P (reconcile_all c r source targets n e s).2
  unfolding reconcile_all
  reconcile_all-holds [] n e s p = p
  reconcile_all-holds (target ∷ targets) n e s p =
      let w = reconcile_mirror c r source target s in
      reconcile_all-holds targets (elim (w.0) [ none ↦ n + 1 | some f ↦ n ])
        (elim (w.0) [ none ↦ e | some f ↦ e + 1 ]) w.1 (reconcile_mirror-holds target s p)

-- the listing is a function of what its reader gives
labels_from :
    (c : Client) (b : Bool) (s t : c.S)
    → get_reader c b s ≡ get_reader c b t
    → list_namespaces_with_labels c b s ≡ list_namespaces_with_labels c b t
unfolding list_namespaces_with_labels
labels_from c b s t = ap (λ (x : Option (List Namespace)). elim x as (λ x. Option NamespaceInfo) [
  | none ↦ none
  | some items ↦ some (categorize items)
])

module _ (c : Client) (steady : IsSteady c) (o : Object) (s : c.S) where
  reader-create : (b : Bool) → get_reader c b (c.create o s).1 ≡ get_reader c b s
  unfolding get_reader
  reader-create true = steady.create_fresh o s
  reader-create false = steady.create_cached o s

  reader-update : (b : Bool) → get_reader c b (c.update o s).1 ≡ get_reader c b s
  unfolding get_reader
  reader-update true = steady.update_fresh o s
  reader-update false = steady.update_cached o s

-- the list of the namespaces, after the loop over the targets
pub labels-reconcile_all :
    (c : Client) (r : Settings) (steady : IsSteady c) (source : Unstructured)
    (targets : List String) (n e : ℕ) (s : c.S) (info : NamespaceInfo)
    → list_namespaces_with_labels c r.has_api_reader s ≡ some info
    → list_namespaces_with_labels c r.has_api_reader (reconcile_all c r source targets n e s).2
      ≡ some info
labels-reconcile_all c r steady source targets n e s info =
    reconcile_all-holds c r source
      (λ s. list_namespaces_with_labels c r.has_api_reader s ≡ some info)
      (λ o s h.
        labels_from c r.has_api_reader _ s (reader-create c steady o s r.has_api_reader) ∙ h)
      (λ o s h.
        labels_from c r.has_api_reader _ s (reader-update c steady o s r.has_api_reader) ∙ h)
      targets n e s
