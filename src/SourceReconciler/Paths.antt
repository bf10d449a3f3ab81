-- ===== src/SourceReconciler/Paths.antt =====
-- Which part of Reconcile of pkg/controller/source_reconciler.go runs, by the source and the breaker.
use kubemirror.Prelude.{
  String, List, ◌*◌, ◌≡◌, refl, sym, ap, ◌∙◌, Bool, true, false, not, Option, none, some, inl, inr,
  Bool-cases, Option-cases, arith,
}
use kubemirror.CircuitBreaker.{CircuitBreaker, minute, allow_request}
use kubemirror.Object.{Unstructured}
use kubemirror.Mirror.{is_mirror_resource}
use kubemirror.Cluster.{found, Client}
use kubemirror.SourceReconciler.{
  Settings, Outcome, requeue_after, is_enabled_for_mirroring, cleanup_orphaned_mirrors,
  get_source_with_freshness,
}
use kubemirror.SourceReconciler.Reconcile.{
  World, Request, key_of, has_finalizer, release, add_finalizer, on_server, reconcile_enabled,
  reconcile_all, update_last_sync_status, reconcile_targets, reconcile_allowed, reconcile_found,
  reconcile,
}

at_none :
    {A B : Type 0} (o : Option B) (a : A) (f : B → A)
    → o ≡ none
    → (elim o as (λ x. A) [ none ↦ a | some b ↦ f b ]) ≡ a
at_none none a f e = refl
at_none (some b) a f e = cc e

of_not : (b : Bool) → not b ≡ true → b ≡ false
of_not true h = cc h
of_not false h = refl

at_some :
    {A B : Type 0} (o : Option B) (a : A) (f : B → A) (b : B)
    → o ≡ some b
    → (elim o as (λ x. A) [ none ↦ a | some b ↦ f b ]) ≡ f b
at_some none a f b e = cc e
at_some (some x) a f b e = let same : x ≡ b = cc e in ap f same

-- a source whose mirrors Reconcile removes: one that is deleted, or disabled
abbrev pub is_released : Unstructured → Bool
is_released source = elim source.meta.deletion_timestamp [
  | some t ↦ true
  | none ↦ not (is_enabled_for_mirroring source.meta)
]

-- a source that Reconcile goes on to mirror
pub record IsLive (source : Unstructured) : Type 0 where
  pub present : source.meta.deletion_timestamp ≡ none
  pub enabled : is_enabled_for_mirroring source.meta ≡ true
  pub no_mirror : is_mirror_resource source.meta ≡ false

-- what comes of the check of the breaker: a delay, or the rest of the handler on the same cluster
pub data Passed {c : Client} (r : Settings) (req : Request) (source : Unstructured) (w : World c)
    (end : Outcome × World c) : Type 0 where
  delayed : end.0 ≡ requeue_after (5 * minute) → end.1.server ≡ w.server → Passed r req source w end
  passed :
      (w' : World c)
      → w'.server ≡ w.server
      → end ≡ reconcile_allowed c r req source w'
      → Passed r req source w end

module _ (c : Client) (r : Settings) (req : Request) (source : Unstructured) (w : World c) where
  pub allowed-bare :
      IsLive source
      → has_finalizer source ≡ false
      → reconcile_allowed c r req source w ≡ on_server c r w (add_finalizer c r source w.server)
  unfolding reconcile_allowed
  allowed-bare live bare =
      at_none source.meta.deletion_timestamp _ _ live.present ∙ rw (live.enabled, bare) refl

  pub allowed-full :
      IsLive source
      → has_finalizer source ≡ true
      → reconcile_allowed c r req source w ≡ reconcile_enabled c r req source w
  unfolding reconcile_allowed
  allowed-full live has =
      at_none source.meta.deletion_timestamp _ _ live.present ∙ rw (live.enabled, has) refl

  pub allowed-released :
      is_released source ≡ true
      → reconcile_allowed c r req source w ≡ on_server c r w (release c r source w.server)
  unfolding reconcile_allowed
  allowed-released released = elim (Option-cases source.meta.deletion_timestamp) [
    | inr (t, e) ↦ at_some source.meta.deletion_timestamp _ _ t e
    | inl e ↦
        let disabled : is_enabled_for_mirroring source.meta ≡ false =
          of_not (is_enabled_for_mirroring source.meta)
            (sym (at_none source.meta.deletion_timestamp _ (λ t. true) e) ∙ released) in
        at_none source.meta.deletion_timestamp _ _ e ∙ rw disabled refl
  ]

  found-Passed :
      is_mirror_resource source.meta ≡ false
      → (b : Option CircuitBreaker) → w.breaker ≡ b
      → Passed r req source w (reconcile_found c r req source w)
  unfolding reconcile_found
  found-Passed object none e =
      passed w refl (rw (object, reconcile_found) (at_none w.breaker _ _ e))
  found-Passed object (some cb) e =
      elim (Bool-cases (allow_request cb (c.nanos w.server) req.namespace req.name req.kind).0) [
        | inl allows ↦
            passed
              (record w {
                breaker =
                    some (allow_request cb (c.nanos w.server) req.namespace req.name req.kind).1;
              })
              refl (rw (object, reconcile_found) (rw (e, allows, reconcile_found) refl))
        | inr denies ↦
            delayed (rw (object, reconcile_found) (rw (e, denies, reconcile_found) refl))
              (rw (object, reconcile_found) (rw (e, denies, reconcile_found) refl))
      ]

  -- Reconcile of a source that was read and is no mirror
  pub reconcile-Passed :
      get_source_with_freshness c r (key_of req) w.server ≡ found source
      → is_mirror_resource source.meta ≡ false
      → Passed r req source w (reconcile c r req w)
  unfolding reconcile
  reconcile-Passed there object = rw (there, reconcile) (found-Passed object w.breaker refl)

  -- the cluster after the loop over the targets, the cleanup and the status
  pub targets-server :
      (targets : List String)
      → let all = reconcile_all c r source targets 0 0 w.server in
        let cleaned = cleanup_orphaned_mirrors c r source targets all.2 in
        (reconcile_targets c r req source targets w).1.server
        ≡ (update_last_sync_status c r source all.0 all.1 cleaned.1).1
  unfolding reconcile_targets
  targets-server targets = ground arith
