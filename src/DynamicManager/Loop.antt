-- ===== src/DynamicManager/Loop.antt =====
-- Start and the loop over the ticks of the dynamic manager, pkg/controller/dynamic_manager.go.
use mathlib.Core.List.{Perm}
use kubemirror.Prelude.{ℕ, String, Option, List, [], ◌∷◌, Bool, All, ◌≡◌, refl}
use kubemirror.Prelude.Dict.{Dict, lookup}
use kubemirror.ResourceType.{ResourceType}
use kubemirror.DynamicManager.{
  Manager, new_manager, get_registration_state, state_or_zero, scan_and_register,
}
use kubemirror.DynamicManager.Registry.{
  IsRegistry, IsInStep, sources_of, mirrors_of, entering_source, entering_mirror, no_entries,
  source_entries, mirror_entries, Ledger-IsRegistry,
}
use kubemirror.DynamicManager.Scan.{scan_and_register-IsInStep}

-- one scan: what the reader lists then, and the order in which Go walks the map then
pub record Tick : Type 0 where
  pub listed : ResourceType → Option ℕ
  pub order : Dict ResourceType → Dict ResourceType

module _ {M : Type 0} (setup_source setup_mirror : M → ResourceType → M × Bool) where
  -- a scan returns no error, so every tick is followed by the next one
  unfoldable pub run : List Tick → Manager → M → Manager × M
  unfolding scan_and_register
  run [] d m = (d, m)
  run (tick ∷ rest) d m =
      let w = scan_and_register setup_source setup_mirror tick.listed tick.order d m in
      run rest w.0 w.1

  -- Start: one scan, then the loop
  unfoldable pub start : Tick → List Tick → Manager → M → Manager × M
  unfolding run scan_and_register
  start first rest d m =
      let w = scan_and_register setup_source setup_mirror first.listed first.order d m in
      run rest w.0 w.1

  new_manager-IsInStep :
      (sources mirrors : M → String → ℕ) (available : List ResourceType) (interval : ℕ) (m : M)
      → ((j : String) → (sources m j ≡ 0) × (mirrors m j ≡ 0))
      → IsInStep sources mirrors (new_manager available interval) m
  unfolding new_manager get_registration_state state_or_zero lookup sources_of mirrors_of
  new_manager-IsInStep sources mirrors available interval m h = h

  -- an order is a permutation
  abbrev pub IsShuffle : Tick → Type 0
  IsShuffle tick = (m : Dict ResourceType) → Perm (tick.order m) m

  run-IsInStep :
      (sources mirrors : M → String → ℕ)
      (registry : IsRegistry setup_source setup_mirror sources mirrors) (ticks : List Tick)
      (d : Manager) (m : M)
      → All IsShuffle ticks
      → IsInStep sources mirrors d m
      → IsInStep sources mirrors (run ticks d m).0 (run ticks d m).1
  unfolding run
  run-IsInStep sources mirrors registry [] d m p h = h
  run-IsInStep sources mirrors registry (tick ∷ rest) d m (shuffles, p) h =
      let w : Manager × M =
        scan_and_register setup_source setup_mirror tick.listed tick.order d m in
      run-IsInStep sources mirrors registry rest w.0 w.1 p (
        scan_and_register-IsInStep setup_source setup_mirror tick.listed tick.order shuffles sources
          mirrors registry d m h)

  -- from a new manager, with any setups that count as they should
  pub start-counts :
      (sources mirrors : M → String → ℕ)
      (registry : IsRegistry setup_source setup_mirror sources mirrors) (first : Tick)
      (rest : List Tick) (available : List ResourceType) (interval : ℕ) (m : M)
      → All IsShuffle (first ∷ rest)
      → ((j : String) → (sources m j ≡ 0) × (mirrors m j ≡ 0))
      → let next = start first rest (new_manager available interval) m in
        IsInStep sources mirrors next.0 next.1
  unfolding start
  start-counts sources mirrors registry first rest available interval m (shuffles, p) h =
      run-IsInStep sources mirrors registry (first ∷ rest) (new_manager available interval) m
        (shuffles, p) (new_manager-IsInStep sources mirrors available interval m h)

-- From a new manager the states of registration are in step with the setups of controllers that have
-- succeeded since, by a ledger of them, after the first scan and after any number of further ones: for
-- every type the ledger has one source setup where the type is at least partly registered and one mirror
-- setup where it is fully registered, and none otherwise. This holds for any setups, whichever of their
-- calls fail, whatever the reader lists in each scan, and in whatever order each runs over its map.
pub start-IsInStep :
    {M : Type 0} (setup_source setup_mirror : M → ResourceType → M × Bool) (first : Tick)
    (rest : List Tick) (available : List ResourceType) (interval : ℕ) (m : M)
    → All (IsShuffle setup_source setup_mirror) (first ∷ rest)
    → let next =
        start
          (entering_source setup_source)
          (entering_mirror setup_mirror)
          first
          rest
          (new_manager available interval)
          (no_entries m) in
      IsInStep source_entries mirror_entries next.0 next.1
start-IsInStep setup_source setup_mirror first rest available interval m shuffles =
    start-counts (entering_source setup_source) (entering_mirror setup_mirror) source_entries
      mirror_entries (Ledger-IsRegistry setup_source setup_mirror) first rest available interval
      (no_entries m) shuffles (λ j. (refl, refl))
