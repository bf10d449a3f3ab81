-- ===== src/SourceReconciler/Presence.antt =====
-- When a round of the loop over the targets, reconcileMirror of pkg/controller/source_reconciler.go, has
-- left an object in its target namespace that is not being deleted.
use kubemirror.Prelude.{
  ℕ, ◌+◌, ◌≤◌, String, ◌≡◌, refl, sym, ap, ◌∙◌, subst, true, false, ◌&&◌, Option, none, some, List,
  [], ◌∷◌, arith, Option-cases, inl, inr, if◌then◌else◌,
}
use kubemirror.Object.{Unstructured, Object, unstructured}
use kubemirror.Mirror.{Result, ok, err, create_mirror, update_mirror}
use kubemirror.Cluster.{Key, Fetch, found, missing, failed, Client, key_in}
use kubemirror.Cluster.Store.{key_of_object, IsTight, IsKeyed, is_found, is_leaving, IsLasting}
use kubemirror.SourceReconciler.{
  Settings, Failure, fresher, get_source_with_freshness, sync_existing, verify_created,
  create_missing, reconcile_mirror,
}
use kubemirror.SourceReconciler.Reconcile.{reconcile_all}
use kubemirror.SourceReconciler.Reads.{source-keyed}
use kubemirror.SourceReconciler.Mirrors.{reconcile_existing}
use kubemirror.SourceReconciler.Locality.{IsPlain, created_key, updated_key}

-- an object is read, and it is not being deleted
abbrev pub Stands : Fetch → Type 0
Stands f = (is_found f ≡ true) × (is_leaving f ≡ false)

module _ (c : Client) (r : Settings) (source : Unstructured) (plain : IsPlain source)
    (tight : IsTight c) (keys : IsKeyed c) (lasting : IsLasting c) where
  verified :
      (k : Key) (s : c.S) (f : Fetch)
      → c.get k s ≡ f
      → verify_created c r k s ≡ none
      → is_found (c.get k s) ≡ true
  unfolding verify_created
  verified k s missing e h = cc (rw (e, verify_created) at h)
  verified k s (failed x) e h = cc (rw (e, verify_created) at h)
  verified k s (found u) e h = ap is_found e

  created :
      (target : String) (s : c.S)
      → (create_missing c r source target s).0 ≡ none
      → Stands (c.get (key_in source target) (create_missing c r source target s).1)
  unfolding create_missing
  created target s h =
      by_result (create_mirror r.transform r.digest (unstructured source) target (c.time_stamp s))
        refl
    where
      by_result :
          (m : Result Object)
          → create_mirror r.transform r.digest (unstructured source) target (c.time_stamp s) ≡ m
          → Stands (c.get (key_in source target) (create_missing c r source target s).1)
      by_result (err x) e = cc (rw (e, create_missing) at h)
      by_result (ok m) e = elim (Option-cases (c.create m s).0) [
        | inr (x, refused) ↦ cc (rw (e, refused, create_missing) at h)
        | inl accepted ↦
            let own : key_of_object m ≡ key_in source target =
              created_key r source plain target (c.time_stamp s) m e in
            rw (e, create_missing)
              (
                verified (key_in source target) (c.create m s).1
                    (c.get (key_in source target) (c.create m s).1) refl
                    (rw (e, accepted, create_missing) at h),
                subst (λ j. is_leaving (c.get j (c.create m s).1) ≡ false) own
                    (lasting.create_stays m s accepted),
              )
      ]

  synced :
      (existing : Unstructured) (k : Key) (s : c.S)
      → key_of_object (unstructured existing) ≡ k
      → Stands (c.get k s)
      → (sync_existing c r source existing s).0 ≡ none
      → Stands (c.get k (sync_existing c r source existing s).1)
  unfolding sync_existing
  synced existing k s at_key there h =
      by_result
        (update_mirror r.transform r.digest (unstructured existing) (unstructured source)
          (c.time_stamp s))
        refl
    where
      by_result :
          (m : Result Object)
          → update_mirror r.transform r.digest
              (unstructured existing)
              (unstructured source)
              (c.time_stamp s)
            ≡ m
          → Stands (c.get k (sync_existing c r source existing s).1)
      by_result (err x) e = (ground (arith, e, there.0), ground (arith, e, there.1))
      by_result (ok m) e =
          let own : key_of_object m ≡ k =
            updated_key r source plain existing (c.time_stamp s) m e ∙ at_key in
          let stays : (c.update m s).0 ≡ none → Stands (c.get k (c.update m s).1) = λ accepted.
            subst (λ j. Stands (c.get j s) → Stands (c.get j (c.update m s).1)) own
              (λ (was : Stands (c.get (key_of_object m) s)).
                lasting.update_stays m s accepted was.0 was.1)
              there in
          (
            ground (arith, e, there.0, h, λ (a : (c.update m s).0 ≡ none). (stays a).0),
            ground (arith, e, there.1, h, λ (a : (c.update m s).0 ≡ none). (stays a).1),
          )

  -- a round over a target without an error leaves an object there, if none there is being deleted
  pub mirrored :
      (target : String) (s : c.S)
      → is_leaving (c.get (key_in source target) s) ≡ false
      → (reconcile_mirror c r source target s).0 ≡ none
      → Stands (c.get (key_in source target) (reconcile_mirror c r source target s).1)
  unfolding reconcile_mirror
  mirrored target s stays h = by_fetch (c.get (key_in source target) s) refl
    where
      by_read :
          (cached existing : Unstructured)
          → c.get (key_in source target) s ≡ found cached
          → get_source_with_freshness c r (key_in source target) s ≡ found existing
          → Stands (c.get (key_in source target) (reconcile_mirror c r source target s).1)
      by_read cached existing got there =
          let path = reconcile_existing c r source existing target s there in
          subst (λ (x : Option Failure × c.S). Stands (c.get (key_in source target) x.1)) (sym path)
            (synced existing (key_in source target) s
              (source-keyed c r (key_in source target) s keys existing there)
              (ap is_found got, stays) (sym (ap (λ (x : Option Failure × c.S). x.0) path) ∙ h))

      by_fetch :
          (f : Fetch)
          → c.get (key_in source target) s ≡ f
          → Stands (c.get (key_in source target) (reconcile_mirror c r source target s).1)
      by_fetch missing e =
          rw (e, reconcile_mirror) (created target s (rw (e, reconcile_mirror) at h))
      by_fetch (failed x) e = cc (rw (e, reconcile_mirror) at h)
      by_fetch (found cached) e =
          by_read cached
            (if r.verify_source_freshness && r.has_api_reader
              then fresher c r (key_in source target) cached s
              else cached)
            e (unfold get_source_with_freshness in rw (e, get_source_with_freshness) refl)

  errors_grow :
      (targets : List String) (n e : ℕ) (s : c.S) → e ≤ (reconcile_all c r source targets n e s).1
  unfolding reconcile_all
  errors_grow [] n e s = omega arith
  errors_grow (target ∷ targets) n e s =
      let w = reconcile_mirror c r source target s in
      grown (w.0) (
        errors_grow targets (elim (w.0) [ none ↦ n + 1 | some f ↦ n ])
          (elim (w.0) [ none ↦ e | some f ↦ e + 1 ]) w.1)
    where
      grown :
          (o : Option Failure) {m : ℕ}
          → (elim o as (λ x. ℕ) [ none ↦ e | some f ↦ e + 1 ]) ≤ m
          → e ≤ m
      grown none h = h
      grown (some f) h = omega (arith, h)

  -- in a loop without an error no round has one
  pub first_ok :
      (target : String) (targets : List String) (n : ℕ) (s : c.S)
      → (reconcile_all c r source (target ∷ targets) n 0 s).1 ≡ 0
      → (reconcile_mirror c r source target s).0 ≡ none
  unfolding reconcile_all
  first_ok target targets n s h = by_end ((reconcile_mirror c r source target s).0) refl
    where
      by_end :
          (o : Option Failure)
          → (reconcile_mirror c r source target s).0 ≡ o
          → (reconcile_mirror c r source target s).0 ≡ none
      by_end none e = e
      by_end (some f) e = absurd (
          omega (
            arith,
            errors_grow targets n 1 (reconcile_mirror c r source target s).1,
            let h' : (reconcile_all c r source targets n 1
                      (reconcile_mirror c r source target s).1).1
                    ≡ 0 =
                  rw (e, reconcile_all) at h in
                h',
          ))

  pub step_ok :
      (target : String) (targets : List String) (n : ℕ) (s : c.S)
      → (reconcile_mirror c r source target s).0 ≡ none
      → reconcile_all c r source (target ∷ targets) n 0 s
        ≡ reconcile_all c r source targets (n + 1) 0 (reconcile_mirror c r source target s).1
  unfolding reconcile_all
  step_ok target targets n s e = rw (e, reconcile_all) refl
