-- ===== src/DynamicManager/Completion.antt =====
-- What a scan whose setups succeed achieves, pkg/controller/dynamic_manager.go.
use kubemirror.Prelude.{
  String, Bool, true, false, ◌∙◌, List, [], ◌∷◌, ◌≡◌, refl, arith, eq_iff, eq_refl, Bool-cases, inl,
  inr, contains, map, ◌==◌, subst,
}
use kubemirror.ResourceType.{ResourceType, to_text}
use kubemirror.DynamicManager.{
  RegistrationState, not_registered, source_only, fully_registered, Manager, get_registration_state,
  register_mirror_controller_only, register_controller, save_state, register_one, register_each,
}
use kubemirror.DynamicManager.Registry.{get_complete, get_save}

module _ {M : Type 0} (setup_source setup_mirror : M → ResourceType → M × Bool) where
  -- a state of full registration is kept
  register_one-keeps :
      (s : RegistrationState) (r : ResourceType) (d : Manager) (m : M) (j : String)
      → get_registration_state d j ≡ fully_registered
      → get_registration_state d (to_text r) ≡ s
      → get_registration_state (register_one setup_source setup_mirror s (to_text r) r d m).0 j
        ≡ fully_registered
  unfolding register_one register_mirror_controller_only register_controller save_state
  register_one-keeps fully_registered r d m j h e = h
  register_one-keeps source_only r d m j h e = elim (Bool-cases (setup_mirror m r).1) [
    | inl ok ↦ rw ok (ground (arith, h, eq_iff (to_text r) j, e, get_complete d (to_text r) j))
    | inr failed ↦ rw failed h
  ]
  register_one-keeps not_registered r d m j h e = elim (Bool-cases (setup_source m r).1) [
    | inl first ↦ elim (Bool-cases (setup_mirror (setup_source m r).0 r).1) [
      | inl second ↦
          rw (first, second)
            (ground
              (arith, e, h, eq_iff (to_text r) j, get_save d r (to_text r) j fully_registered))
      | inr failed ↦
          rw (first, failed)
            (ground (arith, e, h, eq_iff (to_text r) j, get_save d r (to_text r) j source_only))
    ]
    | inr failed ↦ rw failed h
  ]

  -- a visit of one type leaves the state of another
  register_one-other :
      (s : RegistrationState) (r : ResourceType) (d : Manager) (m : M) (key : String)
      → (to_text r == key) ≡ false
      → get_registration_state (register_one setup_source setup_mirror s (to_text r) r d m).0 key
        ≡ get_registration_state d key
  unfolding register_one register_mirror_controller_only register_controller save_state
  register_one-other fully_registered r d m key other = refl
  register_one-other source_only r d m key other = elim (Bool-cases (setup_mirror m r).1) [
    | inl ok ↦ rw ok (ground (arith, other, get_complete d (to_text r) key))
    | inr failed ↦ rw failed refl
  ]
  register_one-other not_registered r d m key other = elim (Bool-cases (setup_source m r).1) [
    | inl first ↦ elim (Bool-cases (setup_mirror (setup_source m r).0 r).1) [
      | inl second ↦
          rw (first, second) (ground (arith, other, get_save d r (to_text r) key fully_registered))
      | inr failed ↦
          rw (first, failed) (ground (arith, other, get_save d r (to_text r) key source_only))
    ]
    | inr failed ↦ rw failed refl
  ]

  -- the loop of a scan leaves the state of a type that it does not visit
  pub register_each-other :
      (visited : List ResourceType) (d : Manager) (m : M) (key : String)
      → contains (map to_text visited) key ≡ false
      → get_registration_state
          (register_each setup_source setup_mirror (map (λ r. (to_text r, r)) visited) d m).0
          key
        ≡ get_registration_state d key
  unfolding register_each
  register_each-other [] d m key h = refl
  register_each-other (r ∷ rest) d m key h =
      let s = get_registration_state d (to_text r) in
      let next = register_one setup_source setup_mirror s (to_text r) r d m in
      register_each-other rest next.0 next.1 key (ground (arith, h))
      ∙ register_one-other s r d m key (ground (arith, h))

  module _ (source_ok : (m : M) (r : ResourceType) → (setup_source m r).1 ≡ true)
      (mirror_ok : (m : M) (r : ResourceType) → (setup_mirror m r).1 ≡ true) where
    register_one-completes :
        (s : RegistrationState) (r : ResourceType) (d : Manager) (m : M)
        → get_registration_state d (to_text r) ≡ s
        → get_registration_state
            (register_one setup_source setup_mirror s (to_text r) r d m).0
            (to_text r)
          ≡ fully_registered
    unfolding register_one register_mirror_controller_only register_controller save_state
    register_one-completes fully_registered r d m e = e
    register_one-completes source_only r d m e =
        rw (mirror_ok m r)
          (ground (arith, eq_refl (to_text r), get_complete d (to_text r) (to_text r)))
    register_one-completes not_registered r d m e =
        rw (source_ok m r, mirror_ok (setup_source m r).0 r)
          (ground
            (arith, eq_refl (to_text r), get_save d r (to_text r) (to_text r) fully_registered))

    full_stays :
        (visited : List ResourceType) (d : Manager) (m : M) (key : String)
        → get_registration_state d key ≡ fully_registered
        → get_registration_state
            (register_each setup_source setup_mirror (map (λ r. (to_text r, r)) visited) d m).0
            key
          ≡ fully_registered
    unfolding register_each
    full_stays [] d m key h = h
    full_stays (r ∷ rest) d m key h =
        let s = get_registration_state d (to_text r) in
        let next = register_one setup_source setup_mirror s (to_text r) r d m in
        full_stays rest next.0 next.1 key (register_one-keeps s r d m key h refl)

    -- When every setup succeeds, each type that the loop of a scan visits is fully registered
    -- after it, whatever its state was before: a partial registration is completed.
    pub register_each-completes :
        (visited : List ResourceType) (d : Manager) (m : M) (key : String)
        → contains (map to_text visited) key ≡ true
        → get_registration_state
            (register_each setup_source setup_mirror (map (λ r. (to_text r, r)) visited) d m).0
            key
          ≡ fully_registered
    unfolding register_each
    register_each-completes [] d m key h = ground (arith, h)
    register_each-completes (r ∷ rest) d m key h =
        let s = get_registration_state d (to_text r) in
        let next = register_one setup_source setup_mirror s (to_text r) r d m in
        elim (Bool-cases (to_text r == key)) [
          | inl this ↦
              subst
                (λ k.
                  get_registration_state
                    (register_each setup_source setup_mirror (map (λ r. (to_text r, r)) rest) next.0
                      next.1).0
                    k
                  ≡ fully_registered)
                ((eq_iff (to_text r) key).0 this)
                (full_stays rest next.0 next.1 (to_text r) (register_one-completes s r d m refl))
          | inr other ↦ register_each-completes rest next.0 next.1 key (ground (arith, h, other))
        ]
