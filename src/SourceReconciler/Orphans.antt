-- ===== src/SourceReconciler/Orphans.antt =====
-- cleanupOrphanedMirrors of pkg/controller/source_reconciler.go removes what it is meant to.
use kubemirror.Prelude.{
  ℕ, ◌+◌, String, ◌≡◌, ◌≢◌, refl, sym, ap, subst, ◌∙◌, ◌⊎◌, true, false, not, ◌&&◌, ◌==◌, some,
  List, [], ◌∷◌, if◌then◌else◌, arith, eq_iff, contains, Option-cases, Bool-cases, inl, inr,
}
use kubemirror.Object.{Unstructured}
use kubemirror.Cluster.{
  Key, Fetch, found, missing, failed, Client, NamespaceInfo, key_in, list_namespaces_with_labels,
}
use kubemirror.Cluster.Laws.{IsLocal, IsReliable, IsClearing, IsDeletable, delete-missing}
use kubemirror.SourceReconciler.{
  Settings, is_own_mirror, cleanup_one, cleanup_in, cleanup_orphaned_mirrors,
}
use kubemirror.SourceReconciler.Writes.{is_orphan}

module _ (c : Client) (r : Settings) (source : Unstructured) (targets : List String) where
  -- a round deletes the object of its namespace or nothing, and an orphan it does delete
  cleanup_found-cases :
      (ns : String) (s : c.S) (f : Fetch)
      → c.get (key_in source ns) s ≡ f
      → ((cleanup_one c r source targets ns s).1 ≡ (c.delete (key_in source ns) s).1)
        ⊎ (((cleanup_one c r source targets ns s).1 ≡ s)
            × (is_orphan source targets (key_in source ns) f ≡ false))
  unfolding cleanup_one is_orphan
  cleanup_found-cases ns s missing got = inr (ground (arith, got), refl)
  cleanup_found-cases ns s (failed e) got = inr (ground (arith, got), refl)
  cleanup_found-cases ns s (found mirror) got =
      elim (Bool-cases (
        is_own_mirror source mirror
        && not (contains targets ns)
        && not (ns == source.meta.namespace))) [
          | inl orphan ↦ inl (ground (arith, got, orphan))
          | inr kept ↦ inr (ground (arith, got, kept), kept)
        ]

  module _ (local : IsLocal c) (reliable : IsReliable c) where
    cleanup_one-missing :
        (k : Key) (ns : String) (s : c.S)
        → c.get k s ≡ missing
        → c.get k (cleanup_one c r source targets ns s).1 ≡ missing
    cleanup_one-missing k ns s gone =
        elim (cleanup_found-cases ns s (c.get (key_in source ns) s) refl) [
          | inl deleted ↦ rw deleted (reliable.creates_nothing (key_in source ns) k s gone)
          | inr same ↦ rw (same.0) gone
        ]

    cleanup_in-missing :
        (k : Key) (all : List String) (n : ℕ) (s : c.S)
        → c.get k s ≡ missing
        → c.get k (cleanup_in c r source targets all n s).1 ≡ missing
    unfolding cleanup_in
    cleanup_in-missing k [] n s gone = gone
    cleanup_in-missing k (ns ∷ rest) n s gone =
        let here = cleanup_one-missing k ns s gone in
        let (deleted, s') = cleanup_one c r source targets ns s in
        cleanup_in-missing k rest (if deleted then n + 1 else n) s' here

    -- the cleanup makes no object appear
    pub cleanup_orphaned_mirrors-missing :
        (k : Key) (s : c.S)
        → c.get k s ≡ missing
        → c.get k (cleanup_orphaned_mirrors c r source targets s).1 ≡ missing
    unfolding cleanup_orphaned_mirrors
    cleanup_orphaned_mirrors-missing k s gone =
        elim (Option-cases (list_namespaces_with_labels c r.has_api_reader s)) [
          | inl unlisted ↦ rw (unlisted, cleanup_orphaned_mirrors) gone
          | inr (info, listed) ↦
              rw (listed, cleanup_orphaned_mirrors) (cleanup_in-missing k info.every 0 s gone)
        ]

    cleanup_one-other :
        (first ns : String) (s : c.S)
        → first ≢ ns
        → c.get (key_in source ns) (cleanup_one c r source targets first s).1
          ≡ c.get (key_in source ns) s
    cleanup_one-other first ns s apart =
        elim (cleanup_found-cases first s (c.get (key_in source first) s) refl) [
          | inl deleted ↦ rw deleted (
              local.delete_local (key_in source first) (key_in source ns) s
                (λ e. apart (ap (λ (k : Key). k.namespace) e)))
          | inr same ↦ rw (same.0) refl
        ]

    module _ (clearing : IsClearing c) (ns : String) (f : Fetch)
        (deletable : IsDeletable c (key_in source ns) f)
        (orphan : is_orphan source targets (key_in source ns) f ≡ true) where
      cleanup_one-clears :
          (s : c.S)
          → c.get (key_in source ns) s ≡ f
          → c.get (key_in source ns) (cleanup_one c r source targets ns s).1 ≡ missing
      cleanup_one-clears s got = elim (cleanup_found-cases ns s f got) [
        | inl deleted ↦
            rw deleted (delete-missing c reliable clearing (key_in source ns) s f deletable got)
        | inr same ↦ cc (orphan, same.1)
      ]

      cleanup_in-clears :
          (all : List String) (n : ℕ) (s : c.S)
          → contains all ns ≡ true
          → c.get (key_in source ns) s ≡ f
          → c.get (key_in source ns) (cleanup_in c r source targets all n s).1 ≡ missing
      unfolding cleanup_in
      cleanup_in-clears [] n s there got = cc
      cleanup_in-clears (first ∷ rest) n s there got =
          let m : ℕ = if (cleanup_one c r source targets first s).0 then n + 1 else n in
          let s' : c.S = (cleanup_one c r source targets first s).1 in
          elim (Bool-cases (first == ns)) [
            | inl same ↦ cleanup_in-missing (key_in source ns) rest m s' (
                subst
                  (λ x. c.get (key_in source ns) (cleanup_one c r source targets x s).1 ≡ missing)
                  (sym ((eq_iff first ns).0 same)) (cleanup_one-clears s got))
            | inr differs ↦
                let apart : first ≢ ns = λ e. cc ((eq_iff first ns).1 e, differs) in
                cleanup_in-clears rest m s' (rw differs at there)
                  (cleanup_one-other first ns s apart ∙ got)
          ]

      -- The cleanup removes an orphan of the source in a listed namespace: its own mirror outside the
      -- targets and outside the namespace of the source, where the mirror has no finalizers and the
      -- API server accepts its delete. The client's deletes are local, make nothing appear, and clear
      -- what has no finalizers where they succeed.
      pub cleanup_orphaned_mirrors-clears :
          (info : NamespaceInfo) (s : c.S)
          → list_namespaces_with_labels c r.has_api_reader s ≡ some info
          → contains info.every ns ≡ true
          → c.get (key_in source ns) s ≡ f
          → c.get (key_in source ns) (cleanup_orphaned_mirrors c r source targets s).1 ≡ missing
      unfolding cleanup_orphaned_mirrors
      cleanup_orphaned_mirrors-clears info s listed there got =
          rw (listed, cleanup_orphaned_mirrors) (cleanup_in-clears info.every 0 s there got)
