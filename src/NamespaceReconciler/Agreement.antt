-- ===== src/NamespaceReconciler/Agreement.antt =====
-- The namespace reconciler against the source reconciler, which repeats its decisions,
-- pkg/controller/namespace_reconciler.go.
use mathlib.Core.List.{Perm}
use kubemirror.Prelude.{
  arith, ℕ, ◌≤◌, ltb, leb, not, ◌&&◌, length, take, length-take, Option, Option-cases, String, true,
  false, ◌==◌, some, List, [], ◌∷◌, ◌≡◌, refl, sym, ap, ◌∙◌, Bool, if◌then◌else◌, contains,
  Bool-cases, inl, inr, ◌⊎◌,
}
use kubemirror.Prelude.Perms.{length-perm}
use kubemirror.Prelude.Dict.{read}
use kubemirror.Constants.{annotation_sync, annotation_target_namespaces}
use kubemirror.Object.{Unstructured}
use kubemirror.Mirror.{is_mirror_resource}
use kubemirror.Cluster.{Fetch, found, missing, failed, Client, key_in, list_namespaces_with_labels}
use kubemirror.SourceReconciler.{
  Settings, is_own_mirror, reconcile_mirror, resolve_targets, targets_of, usable_patterns,
  cleanup_one, limit_targets, Failure, sync_existing, create_missing, fresher,
}
use kubemirror.NamespaceReconciler
use kubemirror.Filter.{
  NamespaceFilter, validate_patterns, parse_target_namespaces, resolve_target_namespaces,
}
use kubemirror.Filter.Targets.{resolve_target_namespaces-exact}
use kubemirror.NamespaceReconciler.{
  resolve_valid, resolve_patterns, remove_orphan, create_mirror_in, reconcile_source,
}

Fetch-cases :
    (f : Fetch)
    → (f ≡ missing) ⊎ (((e : String) × (f ≡ failed e)) ⊎ ((u : Unstructured) × (f ≡ found u)))
Fetch-cases missing = inl refl
Fetch-cases (failed e) = inr (inl (e, refl))
Fetch-cases (found u) = inr (inr (u, refl))

no_patterns : (value : String) → (value == "") ≡ true → parse_target_namespaces value ≡ []
unfolding parse_target_namespaces
no_patterns value h = rw h refl

-- an early return that gives what the rest would give
early :
    {A : Type 0} (b : Bool) (returned x y : A)
    → (b ≡ true → returned ≡ y)
    → x ≡ y
    → (if b then returned else x) ≡ y
early true returned x y h e = h refl
early false returned x y h e = e

module _ (c : Client) (r : Settings) where
  open c use {S, get, delete}

  -- the copy of the orphan check does what that of the source reconciler does
  remove_orphan-agrees :
      (source : Unstructured) (ns : String) (targets : List String) (s : S)
      → (ns == source.meta.namespace) ≡ false
      → contains targets ns ≡ false
      → (remove_orphan c r source ns s).1 ≡ (cleanup_one c r source targets ns s).1
  unfolding remove_orphan cleanup_one
  remove_orphan-agrees source ns targets s apart none_there =
      elim (Fetch-cases (get (key_in source ns) s)) [
        | inl absent ↦ rw (apart, none_there, absent, remove_orphan, cleanup_one) refl
        | inr (inl (e, broken)) ↦ rw (apart, none_there, broken, remove_orphan, cleanup_one) refl
        | inr (inr (mirror, there)) ↦ elim (Bool-cases (is_own_mirror source mirror)) [
          | inl own ↦ rw (apart, none_there, there, own, remove_orphan, cleanup_one) refl
          | inr foreign ↦ rw (apart, none_there, there, foreign, remove_orphan, cleanup_one) refl
        ]
      ]

  -- the copy of resolveTargetNamespaces resolves what that of the source reconciler resolves
  resolve_valid-targets_of :
      (source : Unstructured) (patterns : List String) (s : S)
      → resolve_valid c r source patterns s ≡ targets_of c r source patterns s
  unfolding resolve_valid targets_of
  resolve_valid-targets_of source [] s = refl
  resolve_valid-targets_of source (pattern ∷ patterns) s = refl

  resolve_patterns-usable_patterns :
      (source : Unstructured) (patterns : List String) (s : S)
      → resolve_patterns c r source patterns s ≡ targets_of c r source (usable_patterns patterns) s
  unfolding resolve_patterns usable_patterns validate_patterns targets_of resolve_valid
  resolve_patterns-usable_patterns source [] s = refl
  resolve_patterns-usable_patterns source (pattern ∷ patterns) s =
      resolve_valid-targets_of source (usable_patterns (pattern ∷ patterns)) s

  empty_targets :
      (source : Unstructured) (value : String) (s : S)
      → (value == "") ≡ true
      → some [] ≡ targets_of c r source (usable_patterns (parse_target_namespaces value)) s
  unfolding validate_patterns usable_patterns targets_of
  empty_targets source value s e =
      ap (λ patterns. targets_of c r source (usable_patterns patterns) s)
        (sym (no_patterns value e))

  pub resolve_targets-agrees :
      (source : Unstructured) (s : S)
      → NamespaceReconciler.resolve_targets c r source s ≡ resolve_targets c r source s
  unfolding NamespaceReconciler.resolve_targets resolve_targets
  resolve_targets-agrees source s =
      let value = read annotation_target_namespaces source.meta.annotations in
      early (value == "") (some []) _ _ (empty_targets source value s)
        (resolve_patterns-usable_patterns source (parse_target_namespaces value) s)

-- no bound on the targets, or fewer of them than it
abbrev pub is_uncut : ℕ → List String → Bool
is_uncut max targets = not (ltb 0 max && leb max (length targets))

uncut-limit_targets :
    (max : ℕ) (xs : List String)
    → is_uncut max (limit_targets max xs) ≡ true
    → limit_targets max xs ≡ xs
unfolding limit_targets
uncut-limit_targets max xs h = elim (Bool-cases (ltb 0 max && ltb max (length xs))) [
  | inr short ↦ rw short refl
  | inl long ↦
      let over : max ≤ length xs = ground (arith, long) in
      let bounded : ltb 0 max ≡ true = ground (arith, long) in
      let h' : is_uncut max (take max xs) ≡ true = rw long at h in
      absurd (ground (arith, h', bounded, length-take max xs over))
]

limit_targets-uncut :
    (max : ℕ) (xs : List String) → is_uncut max xs ≡ true → limit_targets max xs ≡ xs
unfolding limit_targets
limit_targets-uncut max xs h = ground (arith, h)

module _ (all_namespaces allow_mirrors opt_out : List String) (source : String)
    (nf : NamespaceFilter) (order₁ order₂ : List String → List String)
    (shuffles₁ : (xs : List String) → Perm (order₁ xs) xs)
    (shuffles₂ : (xs : List String) → Perm (order₂ xs) xs) where
  -- two walks over the map give as many targets
  length-orders :
      (patterns : List String)
      → length
          (resolve_target_namespaces all_namespaces allow_mirrors opt_out source nf order₁ patterns)
        ≡ length (
            resolve_target_namespaces all_namespaces allow_mirrors opt_out source nf order₂
              patterns)
  unfolding resolve_target_namespaces
  length-orders [] = refl
  length-orders (pattern ∷ patterns) = length-perm (shuffles₁ _) ∙ sym (length-perm (shuffles₂ _))

  -- and the same ones, where the bound cuts none off
  limited-orders :
      (max : ℕ) (patterns : List String) (ns : String)
      → is_uncut max (
          limit_targets max (
            resolve_target_namespaces all_namespaces allow_mirrors opt_out source nf order₁
              patterns))
        ≡ true
      → contains
          (limit_targets max (
            resolve_target_namespaces all_namespaces allow_mirrors opt_out source nf order₂
              patterns))
          ns
        ≡ contains
            (limit_targets max (
              resolve_target_namespaces all_namespaces allow_mirrors opt_out source nf order₁
                patterns))
            ns
  limited-orders max patterns ns uncut =
      let raw₁ =
        resolve_target_namespaces all_namespaces allow_mirrors opt_out source nf order₁ patterns in
      let raw₂ =
        resolve_target_namespaces all_namespaces allow_mirrors opt_out source nf order₂ patterns in
      let whole₁ : limit_targets max raw₁ ≡ raw₁ = uncut-limit_targets max raw₁ uncut in
      let uncut₂ : is_uncut max raw₂ ≡ true =
        ap (λ n. not (ltb 0 max && leb max n))
          (sym (length-orders patterns) ∙ ap length (sym whole₁))
        ∙ uncut in
      ap (λ xs. contains xs ns) (limit_targets-uncut max raw₂ uncut₂)
      ∙ (resolve_target_namespaces-exact all_namespaces allow_mirrors opt_out source nf order₂
          shuffles₂ patterns ns).0
      ∙ sym
          (resolve_target_namespaces-exact all_namespaces allow_mirrors opt_out source nf order₁
            shuffles₁ patterns ns).0
      ∙ ap (λ xs. contains xs ns) (sym whole₁)

module _ (c : Client) (r : Settings) (order : List String → List String)
    (shuffles₁ : (xs : List String) → Perm (r.order xs) xs)
    (shuffles₂ : (xs : List String) → Perm (order xs) xs) where
  -- a resolution of its own, with a walk of its own over the map
  abbrev reordered : Settings
  reordered = record r { order = order }

  targets_of-orders :
      (source : Unstructured) (patterns targets : List String) (ns : String) (s : c.S)
      → targets_of c r source patterns s ≡ some targets
      → is_uncut r.max_targets_per_resource targets ≡ true
      → (others : List String) × (targets_of c reordered source patterns s ≡ some others)
        × (contains others ns ≡ contains targets ns)
  unfolding targets_of
  targets_of-orders source [] targets ns s resolved uncut =
      ([], refl, ground (arith, let e : [] ≡ targets = cc resolved in ap (λ t. contains t ns) e))
  targets_of-orders source (pattern ∷ patterns) targets ns s resolved uncut =
      elim (Option-cases (list_namespaces_with_labels c r.has_api_reader s)) [
        | inl gone ↦ cc (rw (gone, targets_of) at resolved)
        | inr (info, listed) ↦
            let e : limit_targets r.max_targets_per_resource (
                  resolve_target_namespaces info.every info.allow_mirrors info.opt_out
                    source.meta.namespace r.filter r.order (pattern ∷ patterns))
                ≡ targets =
              cc (rw (listed, targets_of) at resolved) in
            (
              limit_targets r.max_targets_per_resource (
                  resolve_target_namespaces info.every info.allow_mirrors info.opt_out
                    source.meta.namespace r.filter order (pattern ∷ patterns)),
              rw (listed, targets_of) refl,
              limited-orders info.every info.allow_mirrors info.opt_out source.meta.namespace
                    r.filter r.order order shuffles₁ shuffles₂ r.max_targets_per_resource
                    (pattern ∷ patterns) ns (ap (is_uncut r.max_targets_per_resource) e ∙ uncut)
                  ∙ ap (λ t. contains t ns) e,
            )
      ]

  -- the rest of a round walks over no map
  cleanup_one-order :
      (source : Unstructured) (targets others : List String) (ns : String) (s : c.S)
      → contains others ns ≡ contains targets ns
      → cleanup_one c reordered source others ns s ≡ cleanup_one c r source targets ns s
  unfolding cleanup_one
  cleanup_one-order source targets others ns s same = rw same refl

  reconcile_mirror-order :
      (source : Unstructured) (ns : String) (s : c.S)
      → reconcile_mirror c (record reordered { has_api_reader = false }) source ns s
        ≡ reconcile_mirror c (record r { has_api_reader = false }) source ns s
  unfolding reconcile_mirror sync_existing create_missing fresher
  reconcile_mirror-order source ns s = refl

  -- For a source that asks for mirroring, is no mirror and lies in another namespace, the event of a
  -- namespace leaves the state of the cluster that the source reconciler leaves for that namespace:
  -- that of reconcileMirror without an APIReader where the namespace is among the targets that the
  -- source reconciler resolves, and that of one round of cleanupOrphanedMirrors where it is not. Each
  -- of the two walks over its map of targets in an order of its own, and there is no bound on the
  -- targets, or fewer of them than it.
  pub reconcile_source-agrees :
      (source : Unstructured) (ns : String) (targets : List String) (s : c.S)
      → (read annotation_sync source.meta.annotations == "true") ≡ true
      → is_mirror_resource source.meta ≡ false
      → resolve_targets c r source s ≡ some targets
      → is_uncut r.max_targets_per_resource targets ≡ true
      → (ns == source.meta.namespace) ≡ false
      → (reconcile_source c (record r { order = order }) ns source s).1 ≡ (
          if contains targets ns
          then (reconcile_mirror c (record r { has_api_reader = false }) source ns s).1
          else (cleanup_one c r source targets ns s).1)
  unfolding reconcile_source create_mirror_in resolve_targets
  reconcile_source-agrees source ns targets s asked original resolved uncut apart =
      let (others, found_others, same) =
        targets_of-orders source
          (usable_patterns
            (parse_target_namespaces (read annotation_target_namespaces source.meta.annotations)))
          targets ns s resolved uncut in
      rw (asked, original, resolve_targets-agrees c reordered source s ∙ found_others, same)
        (elim (Bool-cases (contains targets ns)) [
          | inl target ↦
              rw target
                (ap (λ (x : Option Failure × c.S). x.1) (reconcile_mirror-order source ns s))
          | inr none_there ↦ rw none_there (
              remove_orphan-agrees c reordered source ns others s apart (same ∙ none_there)
              ∙ ap (λ (x : Bool × c.S). x.1) (cleanup_one-order source targets others ns s same))
        ])
