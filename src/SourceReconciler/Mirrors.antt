-- ===== src/SourceReconciler/Mirrors.antt =====
-- reconcileMirror and resolveTargetNamespaces of pkg/controller/source_reconciler.go.
use kubemirror.Prelude.{
  ℕ, ◌+◌, ◌≤◌, ◌<◌, String, ◌≡◌, refl, sym, ap, ◌∙◌, Bool, true, false, not, ◌&&◌, ◌==◌, ◌⊎◌,
  Option, none, some, List, [], ◌∷◌, if◌then◌else◌, arith, length, length-take-le, contains,
  contains-take, Option-cases, inl, inr,
}
use kubemirror.Prelude.Dict.{read}
use kubemirror.Constants.{annotation_transform, annotation_target_namespaces}
use kubemirror.Object.{Unstructured, Object, unstructured}
use kubemirror.Mirror.{is_managed_by_us, update_mirror, ok}
use kubemirror.Mirror.Sync.{needs_sync-update_mirror}
use kubemirror.Cluster.{
  Fetch, found, missing, failed, Client, NamespaceInfo, key_in, list_namespaces_with_labels,
}
use mathlib.Core.List.{Perm}
use kubemirror.Filter.Targets.{resolve_target_namespaces-exact}
use kubemirror.Filter.{parse_target_namespaces, is_allowed, resolve_target_namespaces}
use kubemirror.SourceReconciler.{
  Settings, Failure, get_source_with_freshness, fresher, sync_existing, reconcile_mirror,
  limit_targets, targets_of, resolve_targets, usable_patterns,
}
use kubemirror.SourceReconciler.Reconcile.{reconcile_all}

count_one :
    (o : Option Failure) (n e : ℕ)
    → (let n' : ℕ = elim o [ none ↦ n + 1 | some f ↦ n ] in n')
        + (let e' : ℕ = elim o [ none ↦ e | some f ↦ e + 1 ] in e')
      ≡ n + e + 1
count_one none n e = omega arith
count_one (some f) n e = omega arith

limit_targets-le : (max : ℕ) (xs : List String) → 0 < max → length (limit_targets max xs) ≤ max
unfolding limit_targets
limit_targets-le max xs h = ground (arith, length-take-le max xs)

contains-limit_targets :
    (max : ℕ) (xs : List String) (a : String)
    → contains (limit_targets max xs) a ≡ true
    → contains xs a ≡ true
unfolding limit_targets
contains-limit_targets max xs a h = ground (arith, contains-take max xs a)

allowed_by :
    (at_source allowed stands : Bool)
    → (not at_source && allowed && stands) ≡ true
    → (at_source ≡ false) × (allowed ≡ true)
allowed_by at_source allowed stands h = ground arith

module _ (c : Client) (r : Settings) where
  at_fetch :
      (source existing : Unstructured) (target : String) (s : c.S) (f : Fetch)
      → c.get (key_in source target) s ≡ f
      → get_source_with_freshness c r (key_in source target) s ≡ found existing
      → reconcile_mirror c r source target s ≡ sync_existing c r source existing s
  at_fetch source existing target s missing e h =
      let m : get_source_with_freshness c r (key_in source target) s ≡ missing =
        unfold get_source_with_freshness in rw (e, get_source_with_freshness) refl in
      cc (h, m)
  at_fetch source existing target s (failed x) e h =
      let m : get_source_with_freshness c r (key_in source target) s ≡ failed x =
        unfold get_source_with_freshness in rw (e, get_source_with_freshness) refl in
      cc (h, m)
  at_fetch source existing target s (found cached) e h =
      let effective : Unstructured =
        if r.verify_source_freshness && r.has_api_reader
        then fresher c r (key_in source target) cached s
        else cached in
      let m : get_source_with_freshness c r (key_in source target) s ≡ found effective =
        unfold get_source_with_freshness in rw (e, get_source_with_freshness) refl in
      let n : reconcile_mirror c r source target s ≡ sync_existing c r source effective s =
        unfold reconcile_mirror in rw (e, reconcile_mirror) refl in
      cc (h, m, n)

  -- the read of an existing mirror takes the same two steps as that of a source
  pub reconcile_existing :
      (source existing : Unstructured) (target : String) (s : c.S)
      → get_source_with_freshness c r (key_in source target) s ≡ found existing
      → reconcile_mirror c r source target s ≡ sync_existing c r source existing s
  reconcile_existing source existing target s h =
      at_fetch source existing target s (c.get (key_in source target) s) refl h

  -- Where the target namespace holds an object of the source's name that kubemirror does not
  -- manage, reconcileMirror writes nothing and returns no error.
  pub reconcile_mirror-unmanaged :
      (source existing : Unstructured) (target : String) (s : c.S)
      → get_source_with_freshness c r (key_in source target) s ≡ found existing
      → is_managed_by_us existing.meta ≡ false
      → reconcile_mirror c r source target s ≡ (none, s)
  unfolding sync_existing
  reconcile_mirror-unmanaged source existing target s h unmanaged =
      reconcile_existing source existing target s h ∙ rw (unmanaged, sync_existing) refl

  -- Once a mirror that UpdateMirror brought up to date is read back, still managed, a further
  -- reconcileMirror writes nothing and returns no error: reconciliation of a source with no
  -- transformation rules comes to rest.
  pub reconcile_mirror-quiet :
      (source updated : Unstructured) (old : Object) (target now : String) (s : c.S)
      → read annotation_transform source.meta.annotations ≡ ""
      → update_mirror r.transform r.digest old (unstructured source) now ≡ ok (unstructured updated)
      → get_source_with_freshness c r (key_in source target) s ≡ found updated
      → is_managed_by_us updated.meta ≡ true
      → reconcile_mirror c r source target s ≡ (none, s)
  unfolding sync_existing
  reconcile_mirror-quiet source updated old target now s plain written read_back managed =
      let synced =
        needs_sync-update_mirror r.digest r.transform old (unstructured source)
          (unstructured updated) now plain written in
      reconcile_existing source updated target s read_back
      ∙ rw (managed, synced, sync_existing) refl

  module _ (source : Unstructured) (s : c.S) where
    -- what targets_of returns is a limited resolution of the patterns, or nothing
    targets_of-cases :
        (patterns targets : List String)
        → targets_of c r source patterns s ≡ some targets
        → (targets ≡ [])
          ⊎ ((info : NamespaceInfo) × (targets
                ≡ limit_targets r.max_targets_per_resource (
                    resolve_target_namespaces info.every info.allow_mirrors info.opt_out
                      source.meta.namespace r.filter r.order patterns)))
    unfolding targets_of
    targets_of-cases [] targets h = inl (ground (arith, h))
    targets_of-cases (pattern ∷ patterns) targets h =
        elim (Option-cases (list_namespaces_with_labels c r.has_api_reader s)) [
          | inl gone ↦
              let m : targets_of c r source (pattern ∷ patterns) s ≡ none =
                rw (gone, targets_of) refl in
              cc (h, m)
          | inr (info, listed) ↦
              let limited : List String = limit_targets r.max_targets_per_resource (
                resolve_target_namespaces info.every info.allow_mirrors info.opt_out
                  source.meta.namespace r.filter r.order (pattern ∷ patterns)) in
              let m : targets_of c r source (pattern ∷ patterns) s ≡ some limited =
                rw (listed, targets_of) refl in
              inr (info, cc (h, m))
        ]

    -- Every target that is resolved differs from the namespace of the source and passes the filter,
    -- whatever the annotation says, and in whatever order the runtime walks its maps.
    pub resolve_targets-allowed :
        (targets : List String) (ns : String)
        → ((xs : List String) → Perm (r.order xs) xs)
        → resolve_targets c r source s ≡ some targets
        → contains targets ns ≡ true
        → ((ns == source.meta.namespace) ≡ false) × (is_allowed r.filter ns ≡ true)
    unfolding resolve_targets
    resolve_targets-allowed targets ns shuffles resolved there =
        elim (targets_of-cases _ targets resolved) [
          | inl empty ↦ cc (there, ap (λ t. contains t ns) empty)
          | inr (info, limited) ↦
              let exact =
                resolve_target_namespaces-exact info.every info.allow_mirrors info.opt_out
                  source.meta.namespace r.filter r.order shuffles
                  (usable_patterns (
                    parse_target_namespaces
                      (read annotation_target_namespaces source.meta.annotations)))
                  ns in
              let found_there =
                contains-limit_targets r.max_targets_per_resource _ ns
                  (ap (λ t. contains t ns) (sym limited) ∙ there) in
              allowed_by (ns == source.meta.namespace) (is_allowed r.filter ns) _
                (sym (exact.0) ∙ found_there)
        ]

    -- With a positive bound no more targets are resolved than the bound allows, whatever the
    -- annotation says and however many namespaces there are.
    pub resolve_targets-le :
        (targets : List String)
        → 0 < r.max_targets_per_resource
        → resolve_targets c r source s ≡ some targets
        → length targets ≤ r.max_targets_per_resource
    unfolding resolve_targets
    resolve_targets-le targets bound resolved = elim (targets_of-cases _ targets resolved) [
      | inl empty ↦ rw empty (omega arith)
      | inr (info, limited) ↦ rw limited (limit_targets-le r.max_targets_per_resource _ bound)
    ]

  -- The loop over the targets counts each target once, as reconciled or as an error.
  pub reconcile_all-counts :
      (source : Unstructured) (targets : List String) (n e : ℕ) (s : c.S)
      → (reconcile_all c r source targets n e s).0 + (reconcile_all c r source targets n e s).1
        ≡ n + e + length targets
  unfolding reconcile_all
  reconcile_all-counts source [] n e s = omega arith
  reconcile_all-counts source (target ∷ targets) n e s =
      let w = reconcile_mirror c r source target s in
      let n' : ℕ = elim (w.0) [ none ↦ n + 1 | some f ↦ n ] in
      let e' : ℕ = elim (w.0) [ none ↦ e | some f ↦ e + 1 ] in
      let one : n' + e' ≡ n + e + 1 = count_one w.0 n e in
      reconcile_all-counts source targets n' e' w.1 ∙ omega (arith, one)
