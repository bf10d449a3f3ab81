-- ===== src/SourceReconciler/Release.antt =====
-- What Reconcile of pkg/controller/source_reconciler.go as a whole does for a source that is being
-- deleted or is disabled: its mirrors go first, then its finalizer.
use kubemirror.Prelude.{
  ◌*◌, String, ◌≡◌, ◌≢◌, refl, sym, ap, ◌∙◌, subst, Bool, true, false, not, ◌==◌, none, some, List,
  [], ◌∷◌, arith, Option-cases, inl, inr, contains,
}
use kubemirror.CircuitBreaker.{minute}
use kubemirror.Constants.{finalizer_name}
use kubemirror.Object.{Unstructured, unstructured}
use kubemirror.Mirror.{is_mirror_resource}
use kubemirror.Cluster.{Key, Fetch, found, missing, failed, Client, key_in, list_namespaces}
use kubemirror.Cluster.Laws.{IsLocal, IsReliable, IsClearing, IsDeletable}
use kubemirror.Cluster.Store.{key_of_object, HasFinalizers, IsTight, IsKeyed, IsStoring}
use kubemirror.SourceReconciler.{
  Settings, Outcome, done, requeue_after, failure, finalizer_failed, remove_string,
  get_source_with_freshness, delete_all_mirrors,
}
use kubemirror.SourceReconciler.Reconcile.{
  World, Request, key_of, has_finalizer, with_finalizers, remove_finalizer, release, on_server,
  reconcile,
}
use kubemirror.SourceReconciler.Writes.{delete_all_mirrors-clears, delete_all_mirrors-no_error}
use kubemirror.SourceReconciler.Locality.{other_namespace}
use kubemirror.SourceReconciler.Reads.{source-keyed, source-finalizers}
use kubemirror.SourceReconciler.Paths.{
  is_released, Passed, delayed, passed, allowed-released, reconcile-Passed,
}

contains-remove_string : (xs : List String) (a : String) → contains (remove_string xs a) a ≡ false
unfolding remove_string
contains-remove_string [] a = refl
contains-remove_string (x ∷ xs) a = ground (arith, contains-remove_string xs a)

-- the source without the finalizer
abbrev bare : Unstructured → Unstructured
bare source = with_finalizers source (remove_string source.meta.finalizers finalizer_name)

-- what is read of a source that is no longer held
abbrev pub is_free : Fetch → Bool
is_free (found u) = not (has_finalizer u)
is_free missing = true
is_free (failed e) = true

-- the two ends of a release: the finalizer is gone, or the write that removes it failed
pub data Released (c : Client) (r : Settings) (key : Key) (end : Outcome × c.S) : Type 0 where
  freed :
      end.0 ≡ done → is_free (get_source_with_freshness c r key end.1) ≡ true → Released c r key end
  held : end.0 ≡ failure finalizer_failed → Released c r key end

module _ (c : Client) (r : Settings) (storing : IsStoring c) (source : Unstructured) (key : Key)
    (at_key : key_of_object (unstructured source) ≡ key) where
  free_after :
      (s : c.S)
      → (c.update (unstructured (bare source)) s).0 ≡ none
      → is_free (get_source_with_freshness c r key (c.update (unstructured (bare source)) s).1)
        ≡ true
  unfolding has_finalizer
  free_after s ok = by_fetch (get_source_with_freshness c r key after) refl
    where
      after : c.S
      after = (c.update (unstructured (bare source)) s).1

      fs : List String
      fs = (bare source).meta.finalizers

      by_fetch :
          (f : Fetch)
          → get_source_with_freshness c r key after ≡ f
          → is_free (get_source_with_freshness c r key after) ≡ true
      by_fetch missing e = ap is_free e
      by_fetch (failed x) e = ap is_free e
      by_fetch (found u) e =
          let same : u.meta.finalizers ≡ fs =
            source-finalizers c r key after fs u
              (subst (λ k. HasFinalizers fs (c.get k after)) at_key
                (storing.stores (unstructured (bare source)) s ok))
              (subst (λ k. HasFinalizers fs (c.api_get k after)) at_key
                (storing.api_stores (unstructured (bare source)) s ok))
              e in
          ap is_free e
          ∙ ap (λ (xs : List String). not (contains xs finalizer_name)) same
          ∙ ap not (contains-remove_string source.meta.finalizers finalizer_name)

  removed : (s : c.S) → Released c r key (remove_finalizer c r source s)
  unfolding remove_finalizer
  removed s = elim (Option-cases (c.update (unstructured (bare source)) s).0) [
    | inl ok ↦ freed (rw (ok, remove_finalizer) refl) (free_after s ok)
    | inr (x, refused) ↦ held (rw (refused, remove_finalizer) refl)
  ]

  -- the mirrors are deleted, then the finalizer is removed, whatever the deletes return
  release-path :
      (all : List String) (s : c.S)
      → has_finalizer source ≡ true
      → list_namespaces c r.has_api_reader s ≡ some all
      → release c r source s ≡ remove_finalizer c r source (delete_all_mirrors c r source s).1
  unfolding release
  release-path all s has listed =
      rw (has, delete_all_mirrors-no_error c r source all s listed, release) refl

  module _ (all : List String) (req : Request) (has : has_finalizer source ≡ true)
      (released : is_released source ≡ true) where
    Passed-release :
        (w : World c) (end : Outcome × World c)
        → end.0 ≢ requeue_after (5 * minute)
        → list_namespaces c r.has_api_reader w.server ≡ some all
        → Passed r req source w end
        → (w' : World c) × (w'.server ≡ w.server)
          × (end
              ≡ on_server c r w'
                  (remove_finalizer c r source (delete_all_mirrors c r source w'.server).1))
    Passed-release w end prompt listed (delayed a b) = absurd (prompt a)
    Passed-release w end prompt listed (passed w' same path) = (
      w',
      same,
      path
          ∙ allowed-released c r req source w' released
          ∙ ap (on_server c r w') (
              release-path all w'.server has
                (ap (list_namespaces c r.has_api_reader) same ∙ listed)),
    )

    Passed-frees :
        (w : World c) (end : Outcome × World c)
        → end.0 ≢ requeue_after (5 * minute)
        → list_namespaces c r.has_api_reader w.server ≡ some all
        → Passed r req source w end
        → Released c r key (end.0, end.1.server)
    Passed-frees w end prompt listed passing =
        let (w', same, whole) = Passed-release w end prompt listed passing in
        subst (λ (x : Outcome × World c). Released c r key (x.0, x.1.server)) (sym whole)
          (removed (delete_all_mirrors c r source w'.server).1)

    module _ (local : IsLocal c) (reliable : IsReliable c) (clearing : IsClearing c)
        (tight : IsTight c) (ns : String) (f : Fetch)
        (deletable : IsDeletable c (key_in source ns) f) (there : contains all ns ≡ true)
        (elsewhere : (ns == source.meta.namespace) ≡ false) where
      Passed-clears :
          (w : World c) (end : Outcome × World c)
          → end.0 ≢ requeue_after (5 * minute)
          → list_namespaces c r.has_api_reader w.server ≡ some all
          → c.get (key_in source ns) w.server ≡ f
          → Passed r req source w end
          → c.get (key_in source ns) end.1.server ≡ missing
      unfolding remove_finalizer
      Passed-clears w end prompt listed got passing =
          let (w', same, whole) = Passed-release w end prompt listed passing in
          let s' : c.S = (delete_all_mirrors c r source w'.server).1 in
          ap (λ (x : Outcome × World c). c.get (key_in source ns) x.1.server) whole
          ∙ tight.update_local (unstructured (bare source)) (key_in source ns) s'
              (λ e. other_namespace source ns source.meta.namespace elsewhere (sym e))
          ∙ delete_all_mirrors-clears c r source local reliable clearing ns f deletable elsewhere
              all w'.server (ap (list_namespaces c r.has_api_reader) same ∙ listed) there
              (ap (c.get (key_in source ns)) same ∙ got)

-- A whole Reconcile of a source that has its finalizer and is being deleted or is disabled, where the
-- breaker does not hold it back and the namespaces can be listed, releases the source whatever its
-- deletes of the mirrors return: either Reconcile ends well and the source, if it is read back, is
-- without the finalizer, or the error is that of the write that removes it. The client reads an object
-- under its key and with the finalizers that were written.
pub reconcile-frees :
    (c : Client) (r : Settings) (keys : IsKeyed c) (storing : IsStoring c) (source : Unstructured)
    (all : List String) (req : Request) (w : World c)
    → is_released source ≡ true
    → has_finalizer source ≡ true
    → is_mirror_resource source.meta ≡ false
    → get_source_with_freshness c r (key_of req) w.server ≡ found source
    → (reconcile c r req w).0 ≢ requeue_after (5 * minute)
    → list_namespaces c r.has_api_reader w.server ≡ some all
    → Released c r (key_of req) ((reconcile c r req w).0, (reconcile c r req w).1.server)
reconcile-frees c r keys storing source all req w released has object read prompt listed =
    Passed-frees c r storing source (key_of req)
      (source-keyed c r (key_of req) w.server keys source read) all req has released w
      (reconcile c r req w) prompt listed (reconcile-Passed c r req source w read object)

-- A whole Reconcile of a source that has its finalizer and is being deleted or is disabled, where the
-- breaker does not hold it back and the namespaces can be listed, leaves nothing of the source's type and
-- name in a listed namespace other than the source's, whatever stood there, managed or not, if that
-- had no finalizers and the API server accepts its delete. The client's writes are local, its deletes make nothing appear and clear what has no finalizers where
-- they succeed, and it reads an object under its key and with the finalizers that were written.
pub reconcile-releases :
    (c : Client) (r : Settings) (local : IsLocal c) (reliable : IsReliable c)
    (clearing : IsClearing c) (tight : IsTight c) (keys : IsKeyed c) (storing : IsStoring c)
    (source : Unstructured) (all : List String) (ns : String) (req : Request) (w : World c)
    → IsDeletable c (key_in source ns) (c.get (key_in source ns) w.server)
    → contains all ns ≡ true
    → (ns == source.meta.namespace) ≡ false
    → is_released source ≡ true
    → has_finalizer source ≡ true
    → is_mirror_resource source.meta ≡ false
    → get_source_with_freshness c r (key_of req) w.server ≡ found source
    → (reconcile c r req w).0 ≢ requeue_after (5 * minute)
    → list_namespaces c r.has_api_reader w.server ≡ some all
    → c.get (key_in source ns) (reconcile c r req w).1.server ≡ missing
reconcile-releases c r local reliable clearing tight keys storing source all ns req w deletable
      there elsewhere released has object read prompt listed =
    Passed-clears c r storing source (key_of req)
      (source-keyed c r (key_of req) w.server keys source read) all req has released local reliable
      clearing tight ns (c.get (key_in source ns) w.server) deletable there elsewhere w
      (reconcile c r req w) prompt listed refl (reconcile-Passed c r req source w read object)
