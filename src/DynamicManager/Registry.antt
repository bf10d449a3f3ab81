-- ===== src/DynamicManager/Registry.antt =====
-- The states of registration against the setups of controllers that have succeeded,
-- pkg/controller/dynamic_manager.go.
use kubemirror.Prelude.{
  ℕ, suc, ◌+◌, String, Bool, List, [], ◌∷◌, ◌≡◌, refl, if◌then◌else◌, arith, eq_iff, Bool-cases,
  inl, inr, length, map, ◌==◌, ◌&&◌,
}
use kubemirror.Prelude.Dict.{Dict, insert, lookup-insert}
use kubemirror.ResourceType.{ResourceType, to_text}
use kubemirror.DynamicManager.{
  RegistrationState, not_registered, source_only, fully_registered, is_full, Manager, state_or_zero,
  get_registration_state, count_full, get_registered_count, Counts, count_one, counts_of,
  get_registration_stats, register_mirror_controller_only, register_controller, save_state,
  register_one, register_each,
}

-- how many source and mirror controllers a state stands for
unfoldable pub sources_of : RegistrationState → ℕ
sources_of not_registered = 0
sources_of source_only = 1
sources_of fully_registered = 1

unfoldable pub mirrors_of : RegistrationState → ℕ
mirrors_of not_registered = 0
mirrors_of source_only = 0
mirrors_of fully_registered = 1

counts_total :
    (m : Dict RegistrationState) (t : Counts)
    → ((counts_of m t).full ≡ t.full + count_full m)
      × ((counts_of m t).full + (counts_of m t).partial_only + (counts_of m t).none_yet
          ≡ t.full + t.partial_only + t.none_yet + length m)
unfolding counts_of count_full count_one is_full
counts_total [] t = omega arith
counts_total ((key, not_registered) ∷ rest) t =
    ground (arith, counts_total rest (count_one not_registered t))
counts_total ((key, source_only) ∷ rest) t =
    ground (arith, counts_total rest (count_one source_only t))
counts_total ((key, fully_registered) ∷ rest) t =
    ground (arith, counts_total rest (count_one fully_registered t))

-- GetRegistrationStats agrees with GetRegisteredCount on the types that are fully registered, and
-- its three counts sum to the number of entries of the map.
pub get_registration_stats_total :
    (d : Manager)
    → ((get_registration_stats d).full ≡ get_registered_count d)
      × ((get_registration_stats d).full
            + (get_registration_stats d).partial_only
            + (get_registration_stats d).none_yet
          ≡ length d.registration_state)
unfolding get_registration_stats get_registered_count
get_registration_stats_total d =
    omega (
      arith,
      counts_total d.registration_state (record { full = 0; partial_only = 0; none_yet = 0 }),
    )

-- a write of the state of a type, read again
get_write :
    (d e : Manager) (key j : String) (s : RegistrationState)
    → e.registration_state ≡ insert key s d.registration_state
    → get_registration_state e j ≡ (if key == j then s else get_registration_state d j)
unfolding get_registration_state state_or_zero
get_write d e key j s written =
    rw written (ground (arith, lookup-insert key j s d.registration_state))

pub get_complete :
    (d : Manager) (key j : String)
    → get_registration_state
        (record d { registration_state = insert key fully_registered d.registration_state })
        j
      ≡ (if key == j then fully_registered else get_registration_state d j)
get_complete d key j = get_write d _ key j fully_registered refl

pub get_save :
    (d : Manager) (gvk : ResourceType) (key j : String) (s : RegistrationState)
    → get_registration_state
        (record d {
          registration_state = insert key s d.registration_state;
          active = insert key gvk d.active;
        })
        j
      ≡ (if key == j then s else get_registration_state d j)
get_save d gvk key j s = get_write d _ key j s refl

-- the state of every type says which of its setups have succeeded, each of them once
abbrev pub IsInStep : {M : Type 0} → (M → String → ℕ) → (M → String → ℕ) → Manager → M → Type 0
IsInStep sources mirrors d m =
    (j : String)
    → (sources m j ≡ sources_of (get_registration_state d j))
      × (mirrors m j ≡ mirrors_of (get_registration_state d j))

module _ {M : Type 0} (setup_source setup_mirror : M → ResourceType → M × Bool) where
  -- How setups are counted by type, in `sources` and `mirrors`: one that succeeds adds one to its
  -- count, and one that fails adds none.
  pub record IsRegistry (sources mirrors : M → String → ℕ) : Type 0 where
    pub source_adds :
        (m : M) (r : ResourceType) (j : String)
        → sources ((setup_source m r).0) j
          ≡ (if (setup_source m r).1 && (to_text r == j) then suc (sources m j) else sources m j)
    pub source_keeps :
        (m : M) (r : ResourceType) (j : String) → mirrors ((setup_source m r).0) j ≡ mirrors m j
    pub mirror_adds :
        (m : M) (r : ResourceType) (j : String)
        → mirrors ((setup_mirror m r).0) j
          ≡ (if (setup_mirror m r).1 && (to_text r == j) then suc (mirrors m j) else mirrors m j)
    pub mirror_keeps :
        (m : M) (r : ResourceType) (j : String) → sources ((setup_mirror m r).0) j ≡ sources m j

  module _ (sources mirrors : M → String → ℕ) (registry : IsRegistry sources mirrors) where
    register_state-IsInStep :
        (s : RegistrationState) (r : ResourceType) (d : Manager) (m : M)
        → IsInStep sources mirrors d m
        → get_registration_state d (to_text r) ≡ s
        → let next = register_one setup_source setup_mirror s (to_text r) r d m in
          IsInStep sources mirrors next.0 next.1
    unfolding register_one register_mirror_controller_only register_controller save_state sources_of
        mirrors_of
    register_state-IsInStep fully_registered r d m h e j = h j
    register_state-IsInStep source_only r d m h e j = elim (Bool-cases (setup_mirror m r).1) [
      | inl ok ↦ rw ok (
          ground (
            arith,
            e,
            h j,
            registry.mirror_adds m r j,
            registry.mirror_keeps m r j,
            eq_iff (to_text r) j,
            get_complete d (to_text r) j,
          ))
      | inr failed ↦
          rw failed (ground (arith, h j, registry.mirror_adds m r j, registry.mirror_keeps m r j))
    ]
    register_state-IsInStep not_registered r d m h e j = elim (Bool-cases (setup_source m r).1) [
      | inl first ↦
          let m1 = (setup_source m r).0 in
          elim (Bool-cases (setup_mirror m1 r).1) [
            | inl second ↦
                rw (first, second)
                  (ground (
                    arith,
                    e,
                    h j,
                    registry.source_adds m r j,
                    registry.source_keeps m r j,
                    registry.mirror_adds m1 r j,
                    registry.mirror_keeps m1 r j,
                    eq_iff (to_text r) j,
                    get_save d r (to_text r) j fully_registered,
                  ))
            | inr failed ↦
                rw (first, failed)
                  (ground (
                    arith,
                    e,
                    h j,
                    registry.source_adds m r j,
                    registry.source_keeps m r j,
                    registry.mirror_adds m1 r j,
                    registry.mirror_keeps m1 r j,
                    eq_iff (to_text r) j,
                    get_save d r (to_text r) j source_only,
                  ))
          ]
      | inr failed ↦
          rw failed (ground (arith, h j, registry.source_adds m r j, registry.source_keeps m r j))
    ]

    register_one-IsInStep :
        (r : ResourceType) (d : Manager) (m : M)
        → IsInStep sources mirrors d m
        → let next =
            register_one setup_source setup_mirror
              (get_registration_state d (to_text r))
              (to_text r)
              r
              d
              m in
          IsInStep sources mirrors next.0 next.1
    register_one-IsInStep r d m h j =
        register_state-IsInStep (get_registration_state d (to_text r)) r d m h refl j

    -- Where the setups that have succeeded are those that the states of registration stand for, they
    -- still are when the loop of a scan has visited any list of types, in any order and with any
    -- setups that fail: no setup of a type succeeds twice, and none is missing from the states.
    pub register_each-IsInStep :
        (visited : List ResourceType) (d : Manager) (m : M)
        → IsInStep sources mirrors d m
        → let next =
            register_each setup_source setup_mirror (map (λ r. (to_text r, r)) visited) d m in
          IsInStep sources mirrors next.0 next.1
    unfolding register_each
    register_each-IsInStep [] d m h = h
    register_each-IsInStep (r ∷ rest) d m h =
        let next =
          register_one setup_source setup_mirror (get_registration_state d (to_text r)) (to_text r)
            r d m in
        register_each-IsInStep rest next.0 next.1 (register_one-IsInStep r d m h)

-- A manager with a ledger of the setups of controllers that have succeeded, by the text of the type.
pub record Ledger (M : Type 0) : Type 0 where
  pub manager : M
  pub sources : String → ℕ
  pub mirrors : String → ℕ

abbrev pub add_entry : Bool → ResourceType → (String → ℕ) → String → ℕ
add_entry succeeded r entries j =
    if succeeded && (to_text r == j) then suc (entries j) else entries j

-- a setup that is entered in the ledger where it succeeds
abbrev pub entering_source :
    {M : Type 0} → (M → ResourceType → M × Bool) → Ledger M → ResourceType → Ledger M × Bool
entering_source setup l r =
    let w = setup l.manager r in
    (record l { manager = w.0; sources = add_entry w.1 r l.sources }, w.1)

abbrev pub entering_mirror :
    {M : Type 0} → (M → ResourceType → M × Bool) → Ledger M → ResourceType → Ledger M × Bool
entering_mirror setup l r =
    let w = setup l.manager r in
    (record l { manager = w.0; mirrors = add_entry w.1 r l.mirrors }, w.1)

-- the ledger before any setup
abbrev pub no_entries : {M : Type 0} → M → Ledger M
no_entries m = record { manager = m; sources = λ j. 0; mirrors = λ j. 0 }

abbrev pub source_entries : {M : Type 0} → Ledger M → String → ℕ
source_entries l = l.sources

abbrev pub mirror_entries : {M : Type 0} → Ledger M → String → ℕ
mirror_entries l = l.mirrors

pub Ledger-IsRegistry :
    {M : Type 0} (setup_source setup_mirror : M → ResourceType → M × Bool)
    → IsRegistry
        (entering_source setup_source)
        (entering_mirror setup_mirror)
        source_entries
        mirror_entries
Ledger-IsRegistry setup_source setup_mirror = record {
  source_adds = λ l r j. refl;
  source_keeps = λ l r j. refl;
  mirror_adds = λ l r j. refl;
  mirror_keeps = λ l r j. refl;
}
