-- ===== src/SourceReconciler/Reads.antt =====
-- Where the object comes from that getSourceWithFreshness of pkg/controller/source_reconciler.go gives.
use kubemirror.Prelude.{
  String, ◌≡◌, refl, sym, ap, ◌∙◌, ◌⊎◌, ◌&&◌, ◌==◌, Bool-cases, eq_refl, inl, inr, List,
}
use kubemirror.Object.{Unstructured, unstructured}
use kubemirror.Cluster.{Key, Fetch, found, missing, failed, Client}
use kubemirror.Cluster.Store.{key_of_object, HasFinalizers, kept, gone, unread, IsKeyed, IsFresh}
use kubemirror.SourceReconciler.{Settings, get_source_with_freshness, fresher}

finalizers_of :
    (fs : List String) (u : Unstructured) (f : Fetch)
    → HasFinalizers fs f
    → f ≡ found u
    → u.meta.finalizers ≡ fs
finalizers_of fs u (found v) (kept w e) there =
    let same : v ≡ u = cc there in ap (λ (x : Unstructured). x.meta.finalizers) (sym same) ∙ e
finalizers_of fs u missing gone there = cc there
finalizers_of fs u (failed e) (unread x) there = cc there

module _ (c : Client) (r : Settings) (k : Key) (s : c.S) where
  fresher-cases :
      (cached u : Unstructured) (g : Fetch)
      → c.api_get k s ≡ g
      → fresher c r k cached s ≡ u
      → (cached ≡ u) ⊎ (c.api_get k s ≡ found u)
  unfolding fresher
  fresher-cases cached u missing got e = inl (rw (got, fresher) at e)
  fresher-cases cached u (failed x) got e = inl (rw (got, fresher) at e)
  fresher-cases cached u (found new) got e =
      elim (Bool-cases (cached.meta.resource_version == new.meta.resource_version)) [
        | inl same ↦ inl (rw (got, same, fresher) at e)
        | inr newer ↦ inr (got ∙ ap found (rw (got, newer, fresher) at e))
      ]

  fetch-cases :
      (u : Unstructured) (f : Fetch)
      → c.get k s ≡ f
      → get_source_with_freshness c r k s ≡ found u
      → (c.get k s ≡ found u) ⊎ (c.api_get k s ≡ found u)
  unfolding get_source_with_freshness
  fetch-cases u missing got e =
      let e' : missing ≡ found u = rw (got, get_source_with_freshness) at e in cc e'
  fetch-cases u (failed x) got e =
      let e' : failed x ≡ found u = rw (got, get_source_with_freshness) at e in cc e'
  fetch-cases u (found cached) got e =
      elim (Bool-cases (r.verify_source_freshness && r.has_api_reader)) [
        | inl verified ↦
            let e' : found (fresher c r k cached s) ≡ found u =
              rw (got, verified, get_source_with_freshness) at e in
            elim (fresher-cases cached u (c.api_get k s) refl (cc e')) [
              | inl same ↦ inl (got ∙ ap found same)
              | inr api ↦ inr api
            ]
        | inr unverified ↦
            let e' : found cached ≡ found u =
              rw (got, unverified, get_source_with_freshness) at e in
            inl (got ∙ e')
      ]

  -- what is given is what the cache or the API server reads
  pub source-cases :
      (u : Unstructured)
      → get_source_with_freshness c r k s ≡ found u
      → (c.get k s ≡ found u) ⊎ (c.api_get k s ≡ found u)
  source-cases u = fetch-cases u (c.get k s) refl

  pub source-keyed :
      (keys : IsKeyed c) (u : Unstructured)
      → get_source_with_freshness c r k s ≡ found u
      → key_of_object (unstructured u) ≡ k
  source-keyed keys u h = elim (source-cases u h) [
    | inl cached ↦ keys.keyed k s u cached
    | inr api ↦ keys.api_keyed k s u api
  ]

  pub source-finalizers :
      (fs : List String) (u : Unstructured)
      → HasFinalizers fs (c.get k s)
      → HasFinalizers fs (c.api_get k s)
      → get_source_with_freshness c r k s ≡ found u
      → u.meta.finalizers ≡ fs
  source-finalizers fs u here there h = elim (source-cases u h) [
    | inl cached ↦ finalizers_of fs u (c.get k s) here cached
    | inr api ↦ finalizers_of fs u (c.api_get k s) there api
  ]

  fresh_cached :
      (fresh : IsFresh c) (cached : Unstructured)
      → c.get k s ≡ found cached
      → fresher c r k cached s ≡ cached
  unfolding fresher
  fresh_cached fresh cached got =
      rw (fresh k s ∙ got, fresher) (rw (eq_refl cached.meta.resource_version) refl)

  -- where the cache is up to date, the object that it reads
  pub source-fresh :
      (fresh : IsFresh c) (u : Unstructured)
      → c.get k s ≡ found u
      → get_source_with_freshness c r k s ≡ found u
  unfolding get_source_with_freshness
  source-fresh fresh u got = elim (Bool-cases (r.verify_source_freshness && r.has_api_reader)) [
    | inl verified ↦
        rw (got, verified, get_source_with_freshness) (ap found (fresh_cached fresh u got))
    | inr unverified ↦ rw (got, unverified, get_source_with_freshness) refl
  ]
