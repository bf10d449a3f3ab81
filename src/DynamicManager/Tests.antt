-- ===== src/DynamicManager/Tests.antt =====
-- A manager that counts its controllers, and a scan over two types.
use kubemirror.Prelude.{
  ℕ, suc, ◌≡◌, refl, String, Bool, true, false, ◌==◌, Option, some, List, [], ◌∷◌, if◌then◌else◌,
}
use kubemirror.ResourceType.{ResourceType, to_text}
use kubemirror.DynamicManager.{
  fully_registered, Manager, new_manager, get_registration_state, scan_and_register,
}
use mathlib.Core.List.Permᴰ
use kubemirror.DynamicManager.Scan.{is_active, scan_and_register-completes}
use kubemirror.DynamicManager.Loop.{Tick, start, start-IsInStep}
use kubemirror.DynamicManager.Active.{IsActive, start-IsActive}
use kubemirror.DynamicManager.Registry.{
  IsInStep, entering_source, entering_mirror, no_entries, source_entries, mirror_entries,
}

-- how many source and mirror controllers run, by the text of the type
abbrev Running : Type 0
Running = (String → ℕ) × (String → ℕ)

abbrev one_more : String → (String → ℕ) → String → ℕ
one_more key f j = if key == j then suc (f j) else f j

abbrev add_source : Running → ResourceType → Running × Bool
add_source m r = ((one_more (to_text r) m.0, m.1), true)

abbrev add_mirror : Running → ResourceType → Running × Bool
add_mirror m r = ((m.0, one_more (to_text r) m.1), true)

-- a setup of mirrors that always fails
abbrev no_mirror : Running → ResourceType → Running × Bool
no_mirror m r = (m, false)

abbrev types : List ResourceType
types =
    record { group = ""; version = "v1"; kind = "Secret" }
    ∷ record { group = ""; version = "v1"; kind = "ConfigMap" }
    ∷ []

abbrev nothing : Running
nothing = ((λ key. 0), λ key. 0)

abbrev empty : Manager
empty = record {
  registration_state = [];
  active = [];
  available = types;
  scan_interval = 300;
  started = false;
}

-- every type has two resources
abbrev two_of_each : ResourceType → Option ℕ
two_of_each r = some 2

abbrev tick : Tick
tick = record { listed = two_of_each; order = λ m. m }

start-IsInStep_example :
    let next =
      start
        (entering_source add_source)
        (entering_mirror no_mirror)
        tick
        (tick ∷ [])
        (new_manager types 300)
        (no_entries nothing) in
    IsInStep source_entries mirror_entries next.0 next.1
start-IsInStep_example =
    start-IsInStep add_source no_mirror tick (tick ∷ []) types 300 nothing
      ((λ m. ∣ Permᴰ.refl m ∣₁), ((λ m. ∣ Permᴰ.refl m ∣₁), tt))

scan_and_register-completes_example :
    get_registration_state
      (scan_and_register add_source add_mirror two_of_each (λ m. m) empty nothing).0
      "Secret.v1"
    ≡ fully_registered
unfolding is_active to_text
scan_and_register-completes_example =
    scan_and_register-completes add_source add_mirror two_of_each (λ m. m) (λ m. ∣ Permᴰ.refl m ∣₁)
      (λ m r. refl) (λ m r. refl) empty nothing "Secret.v1" refl

start-IsActive_example :
    IsActive (start add_source no_mirror tick (tick ∷ []) (new_manager types 300) nothing).0
start-IsActive_example =
    start-IsActive add_source no_mirror tick (tick ∷ []) types 300 nothing
      ((λ m. ∣ Permᴰ.refl m ∣₁), ((λ m. ∣ Permᴰ.refl m ∣₁), tt))
