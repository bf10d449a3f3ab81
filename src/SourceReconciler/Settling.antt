-- ===== src/SourceReconciler/Settling.antt =====
-- The one outcome that Reconcile of pkg/controller/source_reconciler.go asks to be called again for at
-- once, and why it does so no more than once in a row.
use kubemirror.Prelude.{
  true-false, String, ◌≡◌, ◌≢◌, refl, sym, ap, ◌∙◌, subst, Bool, true, false, Option, none, some,
  List, [], ◌∷◌, ◌++◌, contains, contains-append, eq_refl, arith, Bool-cases, Option-cases, inl,
  inr,
}
use kubemirror.Constants.{finalizer_name}
use kubemirror.Object.{Unstructured, unstructured}
use kubemirror.Mirror.{is_mirror_resource}
use kubemirror.Cluster.{Key, Fetch, found, missing, failed, Client}
use kubemirror.Cluster.Store.{key_of_object, HasFinalizers, IsKeyed, IsStoring}
use kubemirror.SourceReconciler.{
  Settings, Outcome, done, requeue, requeue_after, failure, is_enabled_for_mirroring,
  get_source_with_freshness, delete_all_mirrors, resolve_targets,
}
use kubemirror.SourceReconciler.Reads.{source-keyed, source-finalizers}
use kubemirror.SourceReconciler.Breaker.{reconcile-mirror}
use kubemirror.SourceReconciler.Paths.{Passed, delayed, passed, allowed-bare, reconcile-Passed}
use kubemirror.SourceReconciler.Reconcile.{
  World, Request, key_of, has_finalizer, with_finalizers, remove_finalizer, release, add_finalizer,
  reconcile_targets, reconcile_enabled, reconcile_allowed, reconcile,
}

-- whether an outcome asks for the next call at once
abbrev is_requeue : Outcome → Bool
is_requeue requeue = true
is_requeue done = false
is_requeue (requeue_after n) = false
is_requeue (failure f) = false

-- the source with the finalizer added
abbrev finalized : Unstructured → Unstructured
finalized source = with_finalizers source (source.meta.finalizers ++ finalizer_name ∷ [])

contains-added : (xs : List String) → contains (xs ++ finalizer_name ∷ []) finalizer_name ≡ true
contains-added xs =
    ground (arith, contains-append xs (finalizer_name ∷ []) finalizer_name, eq_refl finalizer_name)

module _ (c : Client) (r : Settings) where
  release-no_requeue :
      (source : Unstructured) (s : c.S) → is_requeue (release c r source s).0 ≡ false
  unfolding release remove_finalizer
  release-no_requeue source s = elim (Bool-cases (has_finalizer source)) [
    | inr bare ↦ rw (bare, release) refl
    | inl has ↦ elim (Option-cases (delete_all_mirrors c r source s).0) [
      | inr (f, e) ↦ rw (has, e, release) refl
      | inl e ↦ rw (has, e, release) (ground arith)
    ]
  ]

  targets-no_requeue :
      (req : Request) (source : Unstructured) (targets : List String) (w : World c)
      → is_requeue (reconcile_targets c r req source targets w).0 ≡ false
  unfolding reconcile_targets
  targets-no_requeue req source targets w = ground arith

  enabled-no_requeue :
      (req : Request) (source : Unstructured) (w : World c)
      → is_requeue (reconcile_enabled c r req source w).0 ≡ false
  unfolding reconcile_enabled
  enabled-no_requeue req source w = by_targets (resolve_targets c r source w.server) refl
    where
      by_targets :
          (o : Option (List String))
          → resolve_targets c r source w.server ≡ o
          → is_requeue (reconcile_enabled c r req source w).0 ≡ false
      by_targets none e = rw (e, reconcile_enabled) refl
      by_targets (some []) e = rw (e, reconcile_enabled) refl
      by_targets (some (t ∷ ts)) e =
          rw (e, reconcile_enabled) (targets-no_requeue req source (t ∷ ts) w)

  -- a source that is to be deleted, is disabled or has its finalizer
  allowed-no_requeue :
      (req : Request) (source : Unstructured) (w : World c)
      → has_finalizer source ≡ true
      → is_requeue (reconcile_allowed c r req source w).0 ≡ false
  unfolding reconcile_allowed
  allowed-no_requeue req source w has =
      ground (arith, has, release-no_requeue source w.server, enabled-no_requeue req source w)

  -- what an immediate requeue says of the write
  pub record IsFinalized (source : Unstructured) (s after : c.S) : Type 0 where
    pub written : (c.update (unstructured (finalized source)) s).0 ≡ none
    pub same : after ≡ (c.update (unstructured (finalized source)) s).1

  add_finalizer-requeue :
      (source : Unstructured) (s : c.S)
      → is_requeue (add_finalizer c r source s).0 ≡ true
      → IsFinalized source s (add_finalizer c r source s).1
  unfolding add_finalizer
  add_finalizer-requeue source s h =
      elim (Option-cases (c.update (unstructured (finalized source)) s).0) [
        | inl ok ↦ record { written = ok; same = refl }
        | inr (x, refused) ↦ cc (rw (refused, add_finalizer) at h)
      ]

  allowed-requeue :
      (req : Request) (source : Unstructured) (w : World c)
      → is_mirror_resource source.meta ≡ false
      → is_requeue (reconcile_allowed c r req source w).0 ≡ true
      → IsFinalized source w.server (reconcile_allowed c r req source w).1.server
  unfolding reconcile_allowed
  allowed-requeue req source w object h = elim (Bool-cases (has_finalizer source)) [
    | inl has ↦ cc (h, allowed-no_requeue req source w has)
    | inr bare ↦ elim (Option-cases source.meta.deletion_timestamp) [
      | inr (t, e) ↦ cc (rw (e, reconcile_allowed) at h, release-no_requeue source w.server)
      | inl e ↦ elim (Bool-cases (is_enabled_for_mirroring source.meta)) [
        | inr disabled ↦
            cc (rw (e, disabled, reconcile_allowed) at h, release-no_requeue source w.server)
        | inl enabled ↦
            let path =
              allowed-bare c r req source w
                (record { present = e; enabled = enabled; no_mirror = object }) bare in
            rw path (add_finalizer-requeue source w.server (rw path at h))
      ]
    ]
  ]

  Passed-requeue :
      (req : Request) (source : Unstructured) (w : World c) (end : Outcome × World c)
      → is_mirror_resource source.meta ≡ false
      → Passed r req source w end
      → is_requeue end.0 ≡ true
      → IsFinalized source w.server end.1.server
  Passed-requeue req source w end object (delayed a b) h = cc (h, ap is_requeue a)
  Passed-requeue req source w end object (passed w' same path) h = rw path (
      subst (λ s. IsFinalized source s (reconcile_allowed c r req source w').1.server) same
        (allowed-requeue req source w' object (rw path at h)))

  Passed-no_requeue :
      (req : Request) (source : Unstructured) (w : World c) (end : Outcome × World c)
      → has_finalizer source ≡ true
      → Passed r req source w end
      → is_requeue end.0 ≡ false
  Passed-no_requeue req source w end has (delayed a b) = ap is_requeue a
  Passed-no_requeue req source w end has (passed w' same path) =
      rw path (allowed-no_requeue req source w' has)

  reconcile-no_requeue :
      (req : Request) (w : World c)
      → ((source : Unstructured)
          → get_source_with_freshness c r (key_of req) w.server ≡ found source
          → has_finalizer source ≡ true)
      → is_requeue (reconcile c r req w).0 ≡ false
  unfolding reconcile
  reconcile-no_requeue req w has =
      by_fetch (get_source_with_freshness c r (key_of req) w.server) refl
    where
      by_fetch :
          (f : Fetch)
          → get_source_with_freshness c r (key_of req) w.server ≡ f
          → is_requeue (reconcile c r req w).0 ≡ false
      by_fetch missing e = rw (e, reconcile) refl
      by_fetch (failed x) e = rw (e, reconcile) refl
      by_fetch (found source) e = elim (Bool-cases (is_mirror_resource source.meta)) [
        | inl mirror ↦
            ap (λ (x : Outcome × World c). is_requeue x.0)
              (reconcile-mirror c r req w source e mirror)
        | inr object ↦
            Passed-no_requeue req source w (reconcile c r req w) (has source e)
              (reconcile-Passed c r req source w e object)
      ]

  reconcile-requeue :
      (req : Request) (w : World c)
      → is_requeue (reconcile c r req w).0 ≡ true
      → (source : Unstructured) × (get_source_with_freshness c r (key_of req) w.server
          ≡ found source)
        × IsFinalized source w.server (reconcile c r req w).1.server
  unfolding reconcile
  reconcile-requeue req w h = by_fetch (get_source_with_freshness c r (key_of req) w.server) refl
    where
      by_fetch :
          (f : Fetch)
          → get_source_with_freshness c r (key_of req) w.server ≡ f
          → (source : Unstructured) × (get_source_with_freshness c r (key_of req) w.server
              ≡ found source)
            × IsFinalized source w.server (reconcile c r req w).1.server
      by_fetch missing e = cc (rw (e, reconcile) at h)
      by_fetch (failed x) e = cc (rw (e, reconcile) at h)
      by_fetch (found source) e = elim (Bool-cases (is_mirror_resource source.meta)) [
        | inl mirror ↦ cc (
          h,
          ap (λ (x : Outcome × World c). is_requeue x.0)
              (reconcile-mirror c r req w source e mirror),
        )
        | inr object ↦ (
          source,
          e,
          Passed-requeue req source w (reconcile c r req w) object
              (reconcile-Passed c r req source w e object) h,
        )
      ]

  -- Reconcile asks to be called again at once no more than once in a row: what it wrote before it
  -- asked, the finalizer, is there in the next call, and no other part of it asks. The client reads
  -- an object under its own key and an update of it with the finalizers that were written.
  pub reconcile-settles :
      (keyed : IsKeyed c) (storing : IsStoring c) (req : Request) (w : World c)
      → (reconcile c r req w).0 ≡ requeue
      → (reconcile c r req (reconcile c r req w).1).0 ≢ requeue
  unfolding has_finalizer
  reconcile-settles keyed storing req w h again =
      let (source, there, finalizing) = reconcile-requeue req w (ap is_requeue h) in
      let after : c.S = (reconcile c r req w).1.server in
      let fs : List String = (finalized source).meta.finalizers in
      let at_key = source-keyed c r (key_of req) w.server keyed source there in
      let moved : (get : Key → c.S → Fetch)
          → HasFinalizers fs (
              get (key_of_object (unstructured source))
                (c.update (unstructured (finalized source)) w.server).1)
          → HasFinalizers fs (get (key_of req) after) =
        λ get kept.
          subst (λ s. HasFinalizers fs (get (key_of req) s)) (sym finalizing.same)
            (subst
              (λ k.
                HasFinalizers fs (get k (c.update (unstructured (finalized source)) w.server).1))
              at_key kept) in
      let written = finalizing.written in
      let has : (u : Unstructured)
          → get_source_with_freshness c r (key_of req) after ≡ found u
          → has_finalizer u ≡ true =
        λ u read.
          ap (λ (xs : List String). contains xs finalizer_name)
            (source-finalizers c r (key_of req) after fs u
              (moved c.get (storing.stores (unstructured (finalized source)) w.server written))
              (moved c.api_get
                (storing.api_stores (unstructured (finalized source)) w.server written))
              read)
          ∙ contains-added source.meta.finalizers in
      let asks : is_requeue (reconcile c r req (reconcile c r req w).1).0 ≡ true =
        ap is_requeue again in
      true-false (sym asks ∙ reconcile-no_requeue req (reconcile c r req w).1 has)
