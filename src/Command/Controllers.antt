-- ===== src/Command/Controllers.antt =====
-- Which setups of controllers succeed in the start, cmd/kubemirror/main.go: in the lazy and in the eager mode.
use kubemirror.Prelude.{
  ℕ, ◌≤◌, String, Bool, false, Option, some, List, [], ◌∷◌, All, ◌≡◌, refl, sym, ap, ◌∙◌, subst,
  arith, Bool-cases, Option-cases, inl, inr, ltb,
}
use kubemirror.Prelude.Dict.{lookup}
use kubemirror.ResourceType.{ResourceType}
use kubemirror.DynamicManager
use kubemirror.DynamicManager.{
  RegistrationState, not_registered, source_only, fully_registered, get_registration_state,
  state_or_zero,
}
use kubemirror.DynamicManager.Loop
use kubemirror.DynamicManager.Loop.{Tick, IsShuffle, start-counts}
use kubemirror.DynamicManager.Registry.{
  IsRegistry, sources_of, mirrors_of, Ledger, entering_source, entering_mirror, no_entries,
  source_entries, mirror_entries, Ledger-IsRegistry,
}
use kubemirror.DynamicManager.Scan.{is_active, scan_and_register-other}
use kubemirror.Discovery.Manager.{Manager}
use kubemirror.Command.{Flags, mirrored_resources, register_all}
use kubemirror.Command.Startup.{occurrences, register_all-occurrences}
use kubemirror.Command.Run.{RuntimeFlags, Started, run_steps, Setups, register, finish, start_up}

inactive :
    (listed : ResourceType → Option ℕ) (key : String) (rts : List ResourceType)
    → occurrences key rts ≡ 0
    → is_active listed key rts ≡ false
unfolding is_active
inactive listed key [] h = refl
inactive listed key (rt ∷ rest) h = ground (arith, h, inactive listed key rest)

at_most_one : (s : RegistrationState) → (sources_of s ≤ 1) × (mirrors_of s ≤ 1)
unfolding sources_of mirrors_of
at_most_one not_registered = (omega arith, omega arith)
at_most_one source_only = (omega arith, omega arith)
at_most_one fully_registered = (omega arith, omega arith)

-- a step on the manager, which leaves the ledger
abbrev pub on_manager : {M : Type 0} → (M → M × Bool) → Ledger M → Ledger M × Bool
on_manager step l = let w = step l.manager in (record l { manager = w.0 }, w.1)

module _ {M : Type 0} (sources mirrors : M → String → ℕ) where
  -- a step that changes no count
  abbrev pub IsQuiet : (M → M × Bool) → Type 0
  IsQuiet step =
      (m : M) (j : String)
      → (sources (step m).0 j ≡ sources m j) × (mirrors (step m).0 j ≡ mirrors m j)

  -- The setups of a type count as a registry's, and the other steps are quiet.
  pub record IsSetup (setups : Setups M) : Type 0 where
    pub registry : IsRegistry setups.setup_source setups.setup_mirror sources mirrors
    pub namespaces_quiet : (types : List ResourceType) → IsQuiet (setups.setup_namespaces types)
    pub healthz_quiet : IsQuiet setups.add_healthz_check
    pub readyz_quiet : IsQuiet setups.add_readyz_check
    pub start_quiet : IsQuiet setups.start_manager

  run_steps-quiet :
      (steps : List (M → M × Bool)) (m final : M) (j : String)
      → All IsQuiet steps
      → run_steps steps m ≡ some final
      → (sources final j ≡ sources m j) × (mirrors final j ≡ mirrors m j)
  unfolding run_steps
  run_steps-quiet [] m final j q h =
      let same : m ≡ final = cc h in
      (ap (λ x. sources x j) (sym same), ap (λ x. mirrors x j) (sym same))
  run_steps-quiet (step ∷ rest) m final j (q, qs) h = elim (Bool-cases (step m).1) [
    | inr failed ↦ cc (rw failed at h)
    | inl fine ↦
        let (a, b) = run_steps-quiet rest (step m).0 final j qs (rw fine at h) in
        (a ∙ (q m j).0, b ∙ (q m j).1)
  ]

  module _ (setups : Setups M) (setup : IsSetup setups) where
    lazy-le :
        (first : Tick) (types : List ResourceType) (interval : ℕ) (m : M) (key : String)
        → IsShuffle setups.setup_source setups.setup_mirror first
        → ((j : String) → (sources m j ≡ 0) × (mirrors m j ≡ 0))
        → let w =
            DynamicManager.Loop.start setups.setup_source setups.setup_mirror first []
              (DynamicManager.new_manager types interval)
              m in
          (sources w.1 key ≤ occurrences key types) × (mirrors w.1 key ≤ occurrences key types)
    unfolding DynamicManager.Loop.start DynamicManager.Loop.run DynamicManager.new_manager
        get_registration_state state_or_zero lookup sources_of mirrors_of
    lazy-le first types interval m key shuffles empty =
        let d = DynamicManager.new_manager types interval in
        let w = DynamicManager.Loop.start setups.setup_source setups.setup_mirror first [] d m in
        let (a, b) =
          start-counts setups.setup_source setups.setup_mirror sources mirrors setup.registry first
            [] types interval m (shuffles, tt) empty key in
        elim (Bool-cases (ltb 0 (occurrences key types))) [
          | inl some_there ↦
              let (p, q) = at_most_one (get_registration_state w.0 key) in
              let n : 1 ≤ occurrences key types = ground (arith, some_there) in
              (omega (arith, a, p, n), omega (arith, b, q, n))
          | inr none_there ↦
              let n : occurrences key types ≡ 0 = ground (arith, none_there) in
              let other : get_registration_state w.0 key ≡ not_registered =
                scan_and_register-other setups.setup_source setups.setup_mirror first.listed
                  first.order shuffles d m key (inactive first.listed key types n) in
              let p : sources w.1 key ≡ 0 = a ∙ ap sources_of other in
              let q : mirrors w.1 key ≡ 0 = b ∙ ap mirrors_of other in
              (omega (arith, p), omega (arith, q))
        ]

    register-le :
        {G : Type 0} (flags : Flags) (runtime : RuntimeFlags G) (first : Tick)
        (types : List ResourceType) (m : M) (started : Started M) (key : String)
        → IsShuffle setups.setup_source setups.setup_mirror first
        → ((j : String) → (sources m j ≡ 0) × (mirrors m j ≡ 0))
        → register setups flags runtime first types m ≡ some started
        → (sources started.manager key ≤ occurrences key types)
          × (mirrors started.manager key ≤ occurrences key types)
    unfolding register
    register-le flags runtime first types m started key shuffles empty h =
        elim (Bool-cases flags.lazy_watcher_init) [
          | inl lazy ↦
              let same = rw (lazy, register) at h in
              let w =
                DynamicManager.Loop.start setups.setup_source setups.setup_mirror first []
                  (DynamicManager.new_manager types runtime.watcher_scan_interval) m in
              let e : w.1 ≡ started.manager = cc same in
              subst
                (λ x.
                  (sources x key ≤ occurrences key types) × (mirrors x key ≤ occurrences key types))
                e (lazy-le first types runtime.watcher_scan_interval m key shuffles empty)
          | inr eager ↦
              elim (Option-cases (register_all setups.setup_source setups.setup_mirror types m)) [
                | inl stopped ↦ cc (rw (eager, stopped, register) at h)
                | inr (m', ran) ↦
                    let e : m' ≡ started.manager = cc (rw (eager, ran, register) at h) in
                    let (a, b) =
                      register_all-occurrences setups.setup_source setups.setup_mirror sources
                        mirrors setup.registry types m m' key ran in
                    subst
                      (λ x.
                        (sources x key ≤ occurrences key types)
                        × (mirrors x key ≤ occurrences key types))
                      e (omega (arith, a, (empty key).0), omega (arith, b, (empty key).1))
              ]
        ]

    finish-quiet :
        (types : List ResourceType) (started final : Started M) (key : String)
        → finish setups types started ≡ some final
        → (sources final.manager key ≡ sources started.manager key)
          × (mirrors final.manager key ≡ mirrors started.manager key)
    unfolding finish
    finish-quiet types started final key h =
        let steps : List (M → M × Bool) =
          setups.setup_namespaces types
          ∷ setups.add_healthz_check
          ∷ setups.add_readyz_check
          ∷ setups.start_manager
          ∷ [] in
        elim (Option-cases (run_steps steps started.manager)) [
          | inl stopped ↦ cc (rw (stopped, finish) at h)
          | inr (m, ran) ↦
              let e : m ≡ final.manager = cc (rw (ran, finish) at h) in
              let (a, b) =
                run_steps-quiet steps started.manager m key
                  (
                    setup.namespaces_quiet types,
                    (setup.healthz_quiet, (setup.readyz_quiet, (setup.start_quiet, tt))),
                  )
                  ran in
              (ap (λ x. sources x key) (sym e) ∙ a, ap (λ x. mirrors x key) (sym e) ∙ b)
        ]

    pub start_up-counts :
        {G : Type 0} (flags : Flags) (runtime : RuntimeFlags G) (discovering : Bool)
        (polls : List Manager) (discovered : Manager) (first : Tick) (types : List ResourceType)
        (m : M) (final : Started M) (key : String)
        → IsShuffle setups.setup_source setups.setup_mirror first
        → ((j : String) → (sources m j ≡ 0) × (mirrors m j ≡ 0))
        → mirrored_resources flags discovering polls discovered ≡ some types
        → start_up setups flags runtime discovering polls discovered first m ≡ some final
        → (sources final.manager key ≤ occurrences key types)
          × (mirrors final.manager key ≤ occurrences key types)
    unfolding start_up
    start_up-counts flags runtime discovering polls discovered first types m final key shuffles
          empty configured h =
        elim (Option-cases (register setups flags runtime first types m)) [
          | inl stopped ↦ cc (rw (configured, stopped, start_up) at h)
          | inr (started, ran) ↦
              let (a, b) =
                finish-quiet types started final key (rw (configured, ran, start_up) at h) in
              let (p, q) = register-le flags runtime first types m started key shuffles empty ran in
              (omega (arith, a, p), omega (arith, b, q))
        ]

-- the setups with a ledger of those of a type that have succeeded
abbrev pub entering_setups : {M : Type 0} → Setups M → Setups (Ledger M)
entering_setups setups = record {
  setup_source = entering_source setups.setup_source;
  setup_mirror = entering_mirror setups.setup_mirror;
  setup_namespaces = λ types. on_manager (setups.setup_namespaces types);
  add_healthz_check = on_manager setups.add_healthz_check;
  add_readyz_check = on_manager setups.add_readyz_check;
  start_manager = on_manager setups.start_manager;
}

entering_setups-IsSetup :
    {M : Type 0} (setups : Setups M)
    → IsSetup source_entries mirror_entries (entering_setups setups)
entering_setups-IsSetup setups = record {
  registry = Ledger-IsRegistry setups.setup_source setups.setup_mirror;
  namespaces_quiet = λ types l j. (refl, refl);
  healthz_quiet = λ l j. (refl, refl);
  readyz_quiet = λ l j. (refl, refl);
  start_quiet = λ l j. (refl, refl);
}

-- When a start has succeeded, in the lazy mode as in the eager one, no more setups of source controllers
-- and no more of mirror controllers have succeeded for a type, by a ledger of them, than times the type is
-- configured, by the flag of types where it is set and by the discovery where it is not: none for a
-- type that is not configured. This holds for any setups, whichever of their calls fail; the first scan
-- of the lazy mode runs over its map in any order.
pub start_up-le :
    {M G : Type 0} (setups : Setups M) (flags : Flags) (runtime : RuntimeFlags G)
    (discovering : Bool) (polls : List Manager) (discovered : Manager) (first : Tick)
    (types : List ResourceType) (m : M) (final : Started (Ledger M)) (key : String)
    → IsShuffle setups.setup_source setups.setup_mirror first
    → mirrored_resources flags discovering polls discovered ≡ some types
    → start_up
        (entering_setups setups)
        flags
        runtime
        discovering
        polls
        discovered
        first
        (no_entries m)
      ≡ some final
    → (source_entries final.manager key ≤ occurrences key types)
      × (mirror_entries final.manager key ≤ occurrences key types)
start_up-le setups flags runtime discovering polls discovered first types m final key shuffles =
    start_up-counts source_entries mirror_entries (entering_setups setups)
      (entering_setups-IsSetup setups) flags runtime discovering polls discovered first types
      (no_entries m) final key shuffles (λ j. (refl, refl))
