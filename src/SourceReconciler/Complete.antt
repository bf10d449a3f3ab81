-- ===== src/SourceReconciler/Complete.antt =====
-- What Reconcile of pkg/controller/source_reconciler.go as a whole leaves in the target namespaces of a
-- source where it ends well.
use mathlib.Core.List.{Perm}
use kubemirror.Prelude.{
  ℕ, ◌+◌, String, ◌≡◌, refl, sym, ap, ◌∙◌, subst, true, false, ◌==◌, none, some, List, [], ◌∷◌,
  arith, eq_iff, Bool-cases, inl, inr, contains,
}
use kubemirror.Object.{Unstructured, unstructured}
use kubemirror.Cluster.{Fetch, found, missing, failed, Client, key_in}
use kubemirror.Cluster.Laws.{IsLocal}
use kubemirror.Cluster.Store.{IsTight, IsKeyed, is_leaving, IsLasting}
use kubemirror.SourceReconciler.{
  Settings, Outcome, done, get_source_with_freshness, reconcile_mirror, cleanup_orphaned_mirrors,
  resolve_targets,
}
use kubemirror.SourceReconciler.Reconcile.{
  World, Request, key_of, has_finalizer, with_sync_status, reconcile_all, update_last_sync_status,
  reconcile_targets, reconcile_enabled, reconcile,
}
use kubemirror.SourceReconciler.Writes.{is_orphan, cleanup_orphaned_mirrors-keeps}
use kubemirror.SourceReconciler.Mirrors.{resolve_targets-allowed}
use kubemirror.SourceReconciler.Locality.{IsPlain, other_namespace, reconcile_mirror-keeps}
use kubemirror.SourceReconciler.Paths.{
  IsLive, Passed, delayed, passed, allowed-full, reconcile-Passed, targets-server,
}
use kubemirror.SourceReconciler.Presence.{Stands, mirrored, first_ok, step_ok}

module _ (c : Client) (r : Settings) (source : Unstructured) (plain : IsPlain source)
    (tight : IsTight c) (keys : IsKeyed c) (lasting : IsLasting c) (ns : String) where
  one-stands :
      (target : String) (s : c.S)
      → (reconcile_mirror c r source target s).0 ≡ none
      → Stands (c.get (key_in source ns) s)
      → Stands (c.get (key_in source ns) (reconcile_mirror c r source target s).1)
  one-stands target s fine there = elim (Bool-cases (target == ns)) [
    | inl same ↦
        let e : target ≡ ns = (eq_iff target ns).0 same in
        subst (λ t. Stands (c.get (key_in source t) (reconcile_mirror c r source target s).1)) e
          (mirrored c r source plain tight keys lasting target s
            (subst (λ t. is_leaving (c.get (key_in source t) s) ≡ false) (sym e) there.1) fine)
    | inr differs ↦
        subst Stands
          (sym (
            reconcile_mirror-keeps c r source plain tight keys (key_in source ns) target s
              (other_namespace source target ns differs)))
          there
  ]

  all-stands :
      (targets : List String) (n : ℕ) (s : c.S)
      → (reconcile_all c r source targets n 0 s).1 ≡ 0
      → Stands (c.get (key_in source ns) s)
      → Stands (c.get (key_in source ns) (reconcile_all c r source targets n 0 s).2)
  unfolding reconcile_all
  all-stands [] n s fine there = there
  all-stands (target ∷ targets) n s fine there =
      let first = first_ok c r source plain tight keys lasting target targets n s fine in
      let path = step_ok c r source plain tight keys lasting target targets n s first in
      let w = reconcile_mirror c r source target s in
      subst (λ (x : ℕ × ℕ × c.S). Stands (c.get (key_in source ns) x.2)) (sym path)
        (all-stands targets (n + 1) w.1 (sym (ap (λ (x : ℕ × ℕ × c.S). x.1) path) ∙ fine)
          (one-stands target s first there))

  all-found :
      (targets : List String) (n : ℕ) (s : c.S)
      → (reconcile_all c r source targets n 0 s).1 ≡ 0
      → contains targets ns ≡ true
      → is_leaving (c.get (key_in source ns) s) ≡ false
      → Stands (c.get (key_in source ns) (reconcile_all c r source targets n 0 s).2)
  all-found [] n s fine there stays = cc there
  all-found (target ∷ targets) n s fine there stays =
      let first = first_ok c r source plain tight keys lasting target targets n s fine in
      let path = step_ok c r source plain tight keys lasting target targets n s first in
      let w = reconcile_mirror c r source target s in
      let later : (reconcile_all c r source targets (n + 1) 0 w.1).1 ≡ 0 =
        sym (ap (λ (x : ℕ × ℕ × c.S). x.1) path) ∙ fine in
      subst (λ (x : ℕ × ℕ × c.S). Stands (c.get (key_in source ns) x.2)) (sym path)
        (elim (Bool-cases (target == ns)) [
          | inl same ↦
              let e : target ≡ ns = (eq_iff target ns).0 same in
              all-stands targets (n + 1) w.1 later (
                subst (λ t. Stands (c.get (key_in source t) w.1)) e
                  (mirrored c r source plain tight keys lasting target s
                    (subst (λ t. is_leaving (c.get (key_in source t) s) ≡ false) (sym e) stays)
                    first))
          | inr differs ↦ all-found targets (n + 1) w.1 later (rw differs at there) (
              ap is_leaving (
                reconcile_mirror-keeps c r source plain tight keys (key_in source ns) target s
                  (other_namespace source target ns differs))
              ∙ stays)
        ])

  target_kept :
      (targets : List String) (f : Fetch)
      → contains targets ns ≡ true
      → is_orphan source targets (key_in source ns) f ≡ false
  unfolding is_orphan
  target_kept targets missing there = refl
  target_kept targets (failed x) there = refl
  target_kept targets (found u) there = ground (arith, there)

  targets-ok :
      (req : Request) (targets : List String) (w : World c)
      → (reconcile_targets c r req source targets w).0 ≡ done
      → (reconcile_all c r source targets 0 0 w.server).1 ≡ 0
  unfolding reconcile_targets
  targets-ok req targets w h = ground (arith, h)

  targets-found :
      (local : IsLocal c) (req : Request) (targets : List String) (w : World c)
      → (ns == source.meta.namespace) ≡ false
      → contains targets ns ≡ true
      → is_leaving (c.get (key_in source ns) w.server) ≡ false
      → (reconcile_targets c r req source targets w).0 ≡ done
      → Stands (c.get (key_in source ns) (reconcile_targets c r req source targets w).1.server)
  unfolding update_last_sync_status with_sync_status
  targets-found local req targets w elsewhere there stays fine =
      let (n, e, s₁) = reconcile_all c r source targets 0 0 w.server in
      let (deleted, s₂) = cleanup_orphaned_mirrors c r source targets s₁ in
      subst Stands
        (sym (
          ap (c.get (key_in source ns)) (targets-server c r req source w targets)
          ∙ tight.update_local (unstructured (with_sync_status source n e)) (key_in source ns) s₂
              (λ same. other_namespace source ns source.meta.namespace elsewhere (sym same))
          ∙ cleanup_orphaned_mirrors-keeps c r source targets local (key_in source ns) s₁
              (target_kept targets (c.get (key_in source ns) s₁) there)))
        (all-found targets 0 w.server (targets-ok req targets w fine) there stays)

  enabled-found :
      (local : IsLocal c) (req : Request) (targets : List String) (w : World c)
      → (ns == source.meta.namespace) ≡ false
      → resolve_targets c r source w.server ≡ some targets
      → contains targets ns ≡ true
      → is_leaving (c.get (key_in source ns) w.server) ≡ false
      → (reconcile_enabled c r req source w).0 ≡ done
      → Stands (c.get (key_in source ns) (reconcile_enabled c r req source w).1.server)
  unfolding reconcile_enabled
  enabled-found local req [] w elsewhere resolved there stays fine = cc there
  enabled-found local req (t ∷ ts) w elsewhere resolved there stays fine =
      let path : reconcile_enabled c r req source w ≡ reconcile_targets c r req source (t ∷ ts) w =
        rw (resolved, reconcile_enabled) refl in
      subst (λ (x : Outcome × World c). Stands (c.get (key_in source ns) x.1.server)) (sym path)
        (targets-found local req (t ∷ ts) w elsewhere there stays
          (sym (ap (λ (x : Outcome × World c). x.0) path) ∙ fine))

  Passed-found :
      (local : IsLocal c) (req : Request) (targets : List String) (w : World c)
      (end : Outcome × World c)
      → IsLive source
      → has_finalizer source ≡ true
      → (ns == source.meta.namespace) ≡ false
      → resolve_targets c r source w.server ≡ some targets
      → contains targets ns ≡ true
      → is_leaving (c.get (key_in source ns) w.server) ≡ false
      → end.0 ≡ done
      → Passed r req source w end
      → Stands (c.get (key_in source ns) end.1.server)
  Passed-found local req targets w end live has elsewhere resolved there stays fine (delayed a b) =
      cc (sym fine ∙ a)
  Passed-found local req targets w end live has elsewhere resolved there stays fine
        (passed w' same path) =
      let whole = path ∙ allowed-full c r req source w' live has in
      subst (λ (x : Outcome × World c). Stands (c.get (key_in source ns) x.1.server)) (sym whole)
        (enabled-found local req targets w' elsewhere
          (ap (resolve_targets c r source) same ∙ resolved) there
          (ap (λ s. is_leaving (c.get (key_in source ns) s)) same ∙ stays)
          (sym (ap (λ (x : Outcome × World c). x.0) whole) ∙ fine))

-- Where a whole Reconcile of a live source that has its finalizer ends well, an object of the source's
-- type and name stands in every namespace that was resolved as a target, and is not being deleted,
-- unless one that is being deleted stood there before. The mirrors of the source are not transformed;
-- the client's writes are local, an object is read under its key, a create makes no object that is being
-- deleted, an update that succeeds leaves an object that is not being deleted where it was, and the
-- runtime walks a map in some order of its keys.
pub reconcile-mirrors :
    (c : Client) (r : Settings) (local : IsLocal c) (tight : IsTight c) (keys : IsKeyed c)
    (lasting : IsLasting c) (shuffles : (xs : List String) → Perm (r.order xs) xs)
    (source : Unstructured) (plain : IsPlain source) (req : Request) (targets : List String)
    (ns : String) (w : World c)
    → IsLive source
    → has_finalizer source ≡ true
    → get_source_with_freshness c r (key_of req) w.server ≡ found source
    → resolve_targets c r source w.server ≡ some targets
    → contains targets ns ≡ true
    → is_leaving (c.get (key_in source ns) w.server) ≡ false
    → (reconcile c r req w).0 ≡ done
    → Stands (c.get (key_in source ns) (reconcile c r req w).1.server)
reconcile-mirrors c r local tight keys lasting shuffles source plain req targets ns w live has read
      resolved there stays fine =
    Passed-found c r source plain tight keys lasting ns local req targets w (reconcile c r req w)
      live has (resolve_targets-allowed c r source w.server targets ns shuffles resolved there).0
      resolved there stays fine (reconcile-Passed c r req source w read live.no_mirror)
