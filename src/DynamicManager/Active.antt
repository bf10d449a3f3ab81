-- ===== src/DynamicManager/Active.antt =====
-- The map of active types of pkg/controller/dynamic_manager.go against the states of registration.
use kubemirror.Prelude.{
  ℕ, String, Bool, true, false, List, [], ◌∷◌, All, ◌≡◌, refl, is_some, arith, eq_iff, Bool-cases,
  inl, inr, map,
}
use kubemirror.Prelude.Dict.{lookup, lookup-insert}
use kubemirror.ResourceType.{ResourceType, to_text}
use kubemirror.DynamicManager.{
  RegistrationState, not_registered, source_only, fully_registered, Manager, new_manager,
  get_registration_state, state_or_zero, get_active_resource_types, register_mirror_controller_only,
  register_controller, save_state, register_one, register_each, scan_and_register,
}
use kubemirror.DynamicManager.Registry.{get_complete, get_save}
use kubemirror.DynamicManager.Scan.{scan_and_register-visits}
use kubemirror.DynamicManager.Loop.{Tick, IsShuffle, run, start}

-- whether a type has a controller at least
abbrev pub has_controller : RegistrationState → Bool
has_controller not_registered = false
has_controller source_only = true
has_controller fully_registered = true

-- the active types are those that have one
abbrev pub IsActive : Manager → Type 0
IsActive d =
    (key : String)
    → is_some (lookup key (get_active_resource_types d))
      ≡ has_controller (get_registration_state d key)

module _ {M : Type 0} (setup_source setup_mirror : M → ResourceType → M × Bool) where
  saved-IsActive :
      (s : RegistrationState) (r : ResourceType) (d : Manager)
      → IsActive d
      → IsActive (save_state setup_source setup_mirror (to_text r) r s d)
  unfolding save_state get_active_resource_types
  saved-IsActive not_registered r d h key = h key
  saved-IsActive source_only r d h key = ground (
    arith,
    h key,
    get_save d r (to_text r) key source_only,
    lookup-insert (to_text r) key r d.active,
  )
  saved-IsActive fully_registered r d h key = ground (
    arith,
    h key,
    get_save d r (to_text r) key fully_registered,
    lookup-insert (to_text r) key r d.active,
  )

  register_one-IsActive :
      (s : RegistrationState) (r : ResourceType) (d : Manager) (m : M)
      → get_registration_state d (to_text r) ≡ s
      → IsActive d
      → IsActive (register_one setup_source setup_mirror s (to_text r) r d m).0
  unfolding register_one register_mirror_controller_only get_active_resource_types
  register_one-IsActive fully_registered r d m e h = h
  register_one-IsActive not_registered r d m e h =
      saved-IsActive (register_controller setup_source setup_mirror m r).1 r d h
  register_one-IsActive source_only r d m e h = elim (Bool-cases (setup_mirror m r).1) [
    | inr failed ↦ rw failed h
    | inl ok ↦
        rw ok
          (λ key. ground (arith, e, h key, eq_iff (to_text r) key, get_complete d (to_text r) key))
  ]

  register_each-IsActive :
      (visited : List ResourceType) (d : Manager) (m : M)
      → IsActive d
      → IsActive (register_each setup_source setup_mirror (map (λ r. (to_text r, r)) visited) d m).0
  unfolding register_each
  register_each-IsActive [] d m h = h
  register_each-IsActive (r ∷ rest) d m h =
      let s = get_registration_state d (to_text r) in
      let next = register_one setup_source setup_mirror s (to_text r) r d m in
      register_each-IsActive rest next.0 next.1 (register_one-IsActive s r d m refl h)

  run-IsActive :
      (ticks : List Tick) (d : Manager) (m : M)
      → All (IsShuffle setup_source setup_mirror) ticks
      → IsActive d
      → IsActive (run setup_source setup_mirror ticks d m).0
  unfolding run
  run-IsActive [] d m p h = h
  run-IsActive (tick ∷ rest) d m (shuffles, p) h =
      let w : Manager × M =
        scan_and_register setup_source setup_mirror tick.listed tick.order d m in
      run-IsActive rest w.0 w.1 p (
        scan_and_register-visits setup_source setup_mirror tick.listed tick.order shuffles
          (λ x. IsActive x.0) d m (λ visited. register_each-IsActive visited d m h))

  -- After the start of a new manager and any number of further scans, the types that
  -- GetActiveResourceTypes gives are those with a source controller at least, by their states of
  -- registration, whatever the reader lists in each scan, in whatever order each runs over its map, and
  -- whichever setups fail.
  pub start-IsActive :
      (first : Tick) (rest : List Tick) (available : List ResourceType) (interval : ℕ) (m : M)
      → All (IsShuffle setup_source setup_mirror) (first ∷ rest)
      → IsActive (start setup_source setup_mirror first rest (new_manager available interval) m).0
  unfolding start new_manager get_active_resource_types get_registration_state state_or_zero lookup
  start-IsActive first rest available interval m p =
      run-IsActive (first ∷ rest) (new_manager available interval) m p (λ key. refl)
