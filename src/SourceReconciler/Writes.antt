-- ===== src/SourceReconciler/Writes.antt =====
-- What the deletes of pkg/controller/source_reconciler.go reach: cleanupOrphanedMirrors and
-- deleteAllMirrors.
use kubemirror.Prelude.{
  ℕ, ◌+◌, String, ◌≡◌, ◌≢◌, refl, sym, ap, subst, ◌∙◌, Bool, true, false, not, ◌&&◌, ◌==◌, none,
  some, List, [], ◌∷◌, if◌then◌else◌, eq_iff, contains, Bool-cases, inl, inr, Option-cases,
}
use kubemirror.Object.{Unstructured}
use kubemirror.Cluster.{
  Key, Fetch, found, missing, failed, Client, key_in, list_namespaces, list_namespaces_with_labels,
}
use kubemirror.Cluster.Laws.{IsLocal, IsReliable, IsClearing, IsDeletable, delete-missing}
use kubemirror.SourceReconciler.{
  Settings, is_own_mirror, cleanup_one, cleanup_in, cleanup_orphaned_mirrors, delete_in,
  delete_all_mirrors,
}

-- Whether an object that is read at a key is an orphan of a source: its own mirror, in a namespace
-- that is neither a target nor that of the source.
unfoldable pub is_orphan : Unstructured → List String → Key → Fetch → Bool
is_orphan source targets k (found mirror) =
    is_own_mirror source mirror
    && not (contains targets k.namespace)
    && not (k.namespace == source.meta.namespace)
is_orphan source targets k missing = false
is_orphan source targets k (failed e) = false

module _ (c : Client) (r : Settings) (source : Unstructured) (targets : List String) where
  module _ (local : IsLocal c) (k : Key) where
    -- a key at which an orphan is deleted is not the key of an object that is kept
    orphan_elsewhere :
        (ns : String) (s : c.S) (mirror : Unstructured)
        → is_orphan source targets k (c.get k s) ≡ false
        → c.get (key_in source ns) s ≡ found mirror
        → is_own_mirror source mirror ≡ true
        → contains targets ns ≡ false
        → (ns == source.meta.namespace) ≡ false
        → key_in source ns ≢ k
    unfolding is_orphan
    orphan_elsewhere ns s mirror kept got own no_target elsewhere same =
        let orphan : is_orphan source targets (key_in source ns) (found mirror) ≡ true =
          rw (own, no_target, elsewhere) refl in
        let kept' : is_orphan source targets (key_in source ns) (found mirror) ≡ false =
          ap (is_orphan source targets (key_in source ns)) (sym got)
          ∙ subst (λ j. is_orphan source targets j (c.get j s) ≡ false) (sym same) kept in
        cc (orphan, kept')

    cleanup_found-keeps :
        (ns : String) (s : c.S) (f : Fetch)
        → is_orphan source targets k (c.get k s) ≡ false
        → contains targets ns ≡ false
        → (ns == source.meta.namespace) ≡ false
        → c.get (key_in source ns) s ≡ f
        → c.get k (cleanup_one c r source targets ns s).1 ≡ c.get k s
    unfolding cleanup_one
    cleanup_found-keeps ns s missing kept no_target elsewhere got =
        rw (elsewhere, no_target, got, cleanup_one) refl
    cleanup_found-keeps ns s (failed e) kept no_target elsewhere got =
        rw (elsewhere, no_target, got, cleanup_one) refl
    cleanup_found-keeps ns s (found mirror) kept no_target elsewhere got =
        elim (Bool-cases (is_own_mirror source mirror)) [
          | inl own ↦
              let apart = orphan_elsewhere ns s mirror kept got own no_target elsewhere in
              rw (elsewhere, no_target, got, own, cleanup_one)
                (local.delete_local (key_in source ns) k s apart)
          | inr foreign ↦ rw (elsewhere, no_target, got, foreign, cleanup_one) refl
        ]

    cleanup_one-keeps :
        (ns : String) (s : c.S)
        → is_orphan source targets k (c.get k s) ≡ false
        → c.get k (cleanup_one c r source targets ns s).1 ≡ c.get k s
    unfolding cleanup_one
    cleanup_one-keeps ns s kept = elim (Bool-cases (ns == source.meta.namespace)) [
      | inl at_source ↦ rw (at_source, cleanup_one) refl
      | inr elsewhere ↦ elim (Bool-cases (contains targets ns)) [
        | inl target ↦ rw (elsewhere, target, cleanup_one) refl
        | inr no_target ↦
            cleanup_found-keeps ns s (c.get (key_in source ns) s) kept no_target elsewhere refl
      ]
    ]

    cleanup_in-keeps :
        (all : List String) (n : ℕ) (s : c.S)
        → is_orphan source targets k (c.get k s) ≡ false
        → c.get k (cleanup_in c r source targets all n s).1 ≡ c.get k s
    unfolding cleanup_in
    cleanup_in-keeps [] n s kept = refl
    cleanup_in-keeps (ns ∷ rest) n s kept =
        let here = cleanup_one-keeps ns s kept in
        let (deleted, s') = cleanup_one c r source targets ns s in
        cleanup_in-keeps rest (if deleted then n + 1 else n) s'
          (ap (is_orphan source targets k) here ∙ kept)
        ∙ here

    -- The cleanup leaves every object alone but the orphans of its source: an object that is not
    -- managed, is the mirror of another source, or stands in a target namespace or in the
    -- namespace of the source, reads as before. The client's deletes are local.
    pub cleanup_orphaned_mirrors-keeps :
        (s : c.S)
        → is_orphan source targets k (c.get k s) ≡ false
        → c.get k (cleanup_orphaned_mirrors c r source targets s).1 ≡ c.get k s
    unfolding cleanup_orphaned_mirrors
    cleanup_orphaned_mirrors-keeps s kept =
        elim (Option-cases (list_namespaces_with_labels c r.has_api_reader s)) [
          | inl gone ↦ rw (gone, cleanup_orphaned_mirrors) refl
          | inr (info, listed) ↦
              rw (listed, cleanup_orphaned_mirrors) (cleanup_in-keeps info.every 0 s kept)
        ]

module _ (c : Client) (r : Settings) (source : Unstructured) (local : IsLocal c)
    (reliable : IsReliable c) (clearing : IsClearing c) where
  delete_in-missing :
      (k : Key) (all : List String) (s : c.S)
      → c.get k s ≡ missing
      → c.get k (delete_in c r source all s) ≡ missing
  unfolding delete_in
  delete_in-missing k [] s h = h
  delete_in-missing k (ns ∷ rest) s h = elim (Bool-cases (ns == source.meta.namespace)) [
    | inl at_source ↦ rw at_source (delete_in-missing k rest s h)
    | inr elsewhere ↦ rw elsewhere (
        delete_in-missing k rest (c.delete (key_in source ns) s).1
          (reliable.creates_nothing (key_in source ns) k s h))
  ]

  module _ (ns : String) (f : Fetch) (deletable : IsDeletable c (key_in source ns) f)
      (elsewhere : (ns == source.meta.namespace) ≡ false) where
    delete_in-clears :
        (all : List String) (s : c.S)
        → contains all ns ≡ true
        → c.get (key_in source ns) s ≡ f
        → c.get (key_in source ns) (delete_in c r source all s) ≡ missing
    unfolding delete_in
    delete_in-clears [] s there got = cc there
    delete_in-clears (first ∷ rest) s there got = elim (Bool-cases (first == ns)) [
      | inl same ↦
          let e : ns ≡ first = sym ((eq_iff first ns).0 same) in
          let gone : c.get (key_in source ns) (c.delete (key_in source first) s).1 ≡ missing =
            subst (λ x. c.get (key_in source ns) (c.delete (key_in source x) s).1 ≡ missing) e
              (delete-missing c reliable clearing (key_in source ns) s f deletable got) in
          let away : (first == source.meta.namespace) ≡ false =
            subst (λ x. (x == source.meta.namespace) ≡ false) e elsewhere in
          rw away
            (delete_in-missing (key_in source ns) rest (c.delete (key_in source first) s).1 gone)
      | inr differs ↦
          let s' : c.S =
            if first == source.meta.namespace then s else (c.delete (key_in source first) s).1 in
          let apart : key_in source first ≢ key_in source ns =
            λ e. cc ((eq_iff first ns).1 (ap (λ (k : Key). k.namespace) e), differs) in
          let kept : c.get (key_in source ns) s' ≡ c.get (key_in source ns) s =
            elim (Bool-cases (first == source.meta.namespace)) [
              | inl own ↦ rw own refl
              | inr away ↦
                  rw away (local.delete_local (key_in source first) (key_in source ns) s apart)
            ] in
          delete_in-clears rest s' (rw differs at there) (kept ∙ got)
    ]

    -- deleteAllMirrors removes what is read under the source's type and name in a listed namespace
    -- but the one of the source, managed by kubemirror or not, where it has no finalizers and the
    -- API server accepts its delete. The client's deletes are local, make nothing appear, and clear
    -- what has no finalizers where they succeed.
    pub delete_all_mirrors-clears :
        (all : List String) (s : c.S)
        → list_namespaces c r.has_api_reader s ≡ some all
        → contains all ns ≡ true
        → c.get (key_in source ns) s ≡ f
        → c.get (key_in source ns) (delete_all_mirrors c r source s).1 ≡ missing
    unfolding delete_all_mirrors
    delete_all_mirrors-clears all s listed there got =
        rw (listed, delete_all_mirrors) (delete_in-clears all s there got)

-- deleteAllMirrors returns no error where the namespaces can be listed, whatever its deletes return
pub delete_all_mirrors-no_error :
    (c : Client) (r : Settings) (source : Unstructured) (all : List String) (s : c.S)
    → list_namespaces c r.has_api_reader s ≡ some all
    → (delete_all_mirrors c r source s).0 ≡ none
unfolding delete_all_mirrors
delete_all_mirrors-no_error c r source all s listed = rw (listed, delete_all_mirrors) refl
