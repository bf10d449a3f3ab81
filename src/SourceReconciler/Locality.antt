-- ===== src/SourceReconciler/Locality.antt =====
-- Which objects reconcileMirror of pkg/controller/source_reconciler.go writes for a source whose mirrors
-- are not transformed: that under the key of the mirror.
use kubemirror.Prelude.{
  ℕ, ◌+◌, none, some, List, [], ◌∷◌, contains, true-false, String, ◌≡◌, ◌≢◌, refl, sym, ap, ◌∙◌,
  false, Option, Bool-cases, ◌&&◌, ◌==◌, arith, eq_iff, Option-cases, inl, inr, if◌then◌else◌,
}
use kubemirror.Prelude.Dict.{read}
use kubemirror.Constants.{annotation_transform}
use kubemirror.Object.{Unstructured, Object, unstructured}
use kubemirror.Hash.{compute_content_hash}
use kubemirror.Mirror.{
  Result, ok, err, apply_transformations, create_mirror, update_mirror, make_mirror, update_content,
  is_managed_by_us, copy_back, create_unstructured_mirror, update_unstructured_mirror,
}
use kubemirror.Cluster.{Key, Fetch, found, missing, failed, Client, key_in}
use kubemirror.Cluster.Store.{
  same_key, same_key_refl, same_key-path, key_of_object, IsTight, IsKeyed,
}
use kubemirror.SourceReconciler.{
  Settings, Failure, fresher, get_source_with_freshness, sync_existing, create_missing,
  reconcile_mirror,
}
use kubemirror.SourceReconciler.Reconcile.{reconcile_all}
use kubemirror.SourceReconciler.Reads.{source-keyed}
use kubemirror.SourceReconciler.Mirrors.{reconcile_existing, reconcile_mirror-unmanaged}

-- a source whose mirrors are not transformed
abbrev pub IsPlain : Unstructured → Type 0
IsPlain source = read annotation_transform source.meta.annotations ≡ ""

pub other_namespace :
    (source : Unstructured) (a b : String) → (a == b) ≡ false → key_in source a ≢ key_in source b
other_namespace source a b differs same =
    let e : a ≡ b = ap (λ (k : Key). k.namespace) same in
    true-false (sym ((eq_iff a b).1 e) ∙ differs)

not_among :
    (x : String) (xs : List String) (a : String)
    → contains (x ∷ xs) a ≡ false
    → ((x == a) ≡ false) × (contains xs a ≡ false)
not_among x xs a h = (ground (arith, h), ground (arith, h))

module _ (r : Settings) (source : Unstructured) (plain : IsPlain source) where
  plain-transformations :
      (mirror : Object) (ns : String)
      → apply_transformations r.transform (unstructured source) mirror ns ≡ ok mirror
  unfolding apply_transformations
  plain-transformations mirror ns = rw plain refl

  pub created_key :
      (target now : String) (m : Object)
      → create_mirror r.transform r.digest (unstructured source) target now ≡ ok m
      → key_of_object m ≡ key_in source target
  unfolding create_mirror make_mirror create_unstructured_mirror
  created_key target now m h =
      elim (Option-cases (compute_content_hash r.digest (unstructured source))) [
        | inl none_there ↦ cc (rw (none_there, create_mirror) at h)
        | inr (hash, e) ↦
            let made = unstructured (create_unstructured_mirror source target hash now) in
            let same : ok made ≡ ok m =
              sym (plain-transformations made target) ∙ (rw (e, create_mirror) at h) in
            ap key_of_object (sym (let x : made ≡ m = cc same in x))
      ]

  pub updated_key :
      (existing : Unstructured) (now : String) (m : Object)
      → update_mirror r.transform r.digest (unstructured existing) (unstructured source) now ≡ ok m
      → key_of_object m ≡ key_of_object (unstructured existing)
  unfolding update_mirror update_content copy_back update_unstructured_mirror
  updated_key existing now m h =
      elim (Option-cases (compute_content_hash r.digest (unstructured source))) [
        | inl none_there ↦ cc (rw (none_there, update_mirror) at h)
        | inr (hash, e) ↦
            let new = unstructured (update_unstructured_mirror existing source hash now) in
            let same : ok new ≡ ok m =
              sym (rw (e, plain-transformations new existing.meta.namespace, update_mirror) refl)
              ∙ h in
            ap key_of_object (sym (let x : new ≡ m = cc same in x))
      ]

module _ (c : Client) (r : Settings) (source : Unstructured) (plain : IsPlain source)
    (tight : IsTight c) (keys : IsKeyed c) (k : Key) where
  create_missing-keeps :
      (target : String) (s : c.S)
      → key_in source target ≢ k
      → c.get k (create_missing c r source target s).1 ≡ c.get k s
  unfolding create_missing
  create_missing-keeps target s apart =
      by_result (create_mirror r.transform r.digest (unstructured source) target (c.time_stamp s))
        refl
    where
      by_result :
          (m : Result Object)
          → create_mirror r.transform r.digest (unstructured source) target (c.time_stamp s) ≡ m
          → c.get k (create_missing c r source target s).1 ≡ c.get k s
      by_result (err x) e = rw (e, create_missing) refl
      by_result (ok m) e =
          rw (e, create_missing)
            (tight.create_local m k s
              λ same. apart (sym (created_key r source plain target (c.time_stamp s) m e) ∙ same))

  sync_existing-keeps :
      (existing : Unstructured) (s : c.S)
      → key_of_object (unstructured existing) ≢ k
      → c.get k (sync_existing c r source existing s).1 ≡ c.get k s
  unfolding sync_existing
  sync_existing-keeps existing s apart =
      by_result
        (update_mirror r.transform r.digest (unstructured existing) (unstructured source)
          (c.time_stamp s))
        refl
    where
      by_result :
          (m : Result Object)
          → update_mirror r.transform r.digest
              (unstructured existing)
              (unstructured source)
              (c.time_stamp s)
            ≡ m
          → c.get k (sync_existing c r source existing s).1 ≡ c.get k s
      by_result (err x) e = ground (arith, e)
      by_result (ok m) e = ground (
        arith,
        e,
        tight.update_local m k s
            λ same. apart (sym (updated_key r source plain existing (c.time_stamp s) m e) ∙ same),
      )

  -- the mirror of one namespace is written under no other key
  pub reconcile_mirror-keeps :
      (target : String) (s : c.S)
      → key_in source target ≢ k
      → c.get k (reconcile_mirror c r source target s).1 ≡ c.get k s
  unfolding reconcile_mirror
  reconcile_mirror-keeps target s apart = by_fetch (c.get (key_in source target) s) refl
    where
      by_read :
          (existing : Unstructured)
          → get_source_with_freshness c r (key_in source target) s ≡ found existing
          → c.get k (reconcile_mirror c r source target s).1 ≡ c.get k s
      by_read existing there = rw (reconcile_existing c r source existing target s there) (
          sync_existing-keeps existing s λ same.
            apart (sym (source-keyed c r (key_in source target) s keys existing there) ∙ same))

      by_fetch :
          (f : Fetch)
          → c.get (key_in source target) s ≡ f
          → c.get k (reconcile_mirror c r source target s).1 ≡ c.get k s
      by_fetch missing e = rw (e, reconcile_mirror) (create_missing-keeps target s apart)
      by_fetch (failed x) e = rw (e, reconcile_mirror) refl
      by_fetch (found cached) e =
          by_read
            (if r.verify_source_freshness && r.has_api_reader
              then fresher c r (key_in source target) cached s
              else cached)
            (unfold get_source_with_freshness in rw (e, get_source_with_freshness) refl)

  -- nor does it write to an object there that is not managed, where the read of a mirror gives it
  pub reconcile_mirror-keeps_unmanaged :
      (foreign : Unstructured) (target : String) (s : c.S)
      → is_managed_by_us foreign.meta ≡ false
      → ((j : Key) → c.get j s ≡ found foreign → get_source_with_freshness c r j s ≡ found foreign)
      → c.get k s ≡ found foreign
      → c.get k (reconcile_mirror c r source target s).1 ≡ found foreign
  reconcile_mirror-keeps_unmanaged foreign target s unmanaged reads there =
      elim (Bool-cases (same_key (key_in source target) k)) [
        | inl same ↦
            let at_key = same_key-path (key_in source target) k same in
            ap (λ (x : Option Failure × c.S). c.get k x.1)
              (reconcile_mirror-unmanaged c r source foreign target s
                (reads (key_in source target) (ap (λ j. c.get j s) at_key ∙ there)) unmanaged)
            ∙ there
        | inr other ↦
            let elsewhere : key_in source target ≢ k = λ same. cc (
              other,
              ap (same_key (key_in source target)) (sym same),
              same_key_refl (key_in source target),
            ) in
            reconcile_mirror-keeps target s elsewhere ∙ there
      ]

  -- the loop over the targets writes in no other namespace
  pub reconcile_all-keeps :
      (targets : List String) (n e : ℕ) (s : c.S)
      → contains targets k.namespace ≡ false
      → c.get k (reconcile_all c r source targets n e s).2 ≡ c.get k s
  unfolding reconcile_all
  reconcile_all-keeps [] n e s outside = refl
  reconcile_all-keeps (target ∷ targets) n e s outside =
      let w = reconcile_mirror c r source target s in
      let (differs, later) = not_among target targets k.namespace outside in
      reconcile_all-keeps targets (elim (w.0) [ none ↦ n + 1 | some f ↦ n ])
        (elim (w.0) [ none ↦ e | some f ↦ e + 1 ]) w.1 later
      ∙ reconcile_mirror-keeps target s (λ same.
        true-false
          (sym ((eq_iff target k.namespace).1 (ap (λ (j : Key). j.namespace) same)) ∙ differs))
