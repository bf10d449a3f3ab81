-- ===== src/DynamicManager.antt =====
-- pkg/controller/dynamic_manager.go: the types of resources that are in use, and the controllers
-- registered for them. The locks order the methods, so each is one step on the state.
pub mod Registry
pub mod Completion
pub mod Scan
pub mod Loop
pub mod Active
pub mod Tests
use kubemirror.Prelude.{
  ℕ, suc, ◌+◌, String, Bool, true, false, Option, none, some, List, [], ◌∷◌, if◌then◌else◌, ltb,
}
use kubemirror.Prelude.Dict.{Dict, lookup, insert}
use kubemirror.ResourceType.{ResourceType, to_text}

pub data RegistrationState : Type 0 where
  not_registered : RegistrationState
  source_only : RegistrationState
  fully_registered : RegistrationState

unfoldable pub state_text : RegistrationState → String
state_text not_registered = "not-registered"
state_text source_only = "source-only"
state_text fully_registered = "fully-registered"

unfoldable pub is_full : RegistrationState → Bool
is_full fully_registered = true
is_full source_only = false
is_full not_registered = false

pub record Manager : Type 0 where
  pub registration_state : Dict RegistrationState
  pub active : Dict ResourceType
  pub available : List ResourceType
  pub scan_interval : ℕ
  pub started : Bool

-- NewDynamicControllerManager, the interval in milliseconds
unfoldable pub new_manager : List ResourceType → ℕ → Manager
new_manager available interval = record {
  registration_state = [];
  active = [];
  available = available;
  scan_interval = if ltb 0 interval then interval else 300000;
  started = false;
}

unfoldable pub mark_manager_started : Manager → Manager
mark_manager_started d = record d { started = true }

-- the read of a Go map: a missing key reads the zero value
unfoldable pub state_or_zero : Option RegistrationState → RegistrationState
state_or_zero none = not_registered
state_or_zero (some s) = s

unfoldable pub get_registration_state : Manager → String → RegistrationState
unfolding lookup state_or_zero
get_registration_state d key = state_or_zero (lookup key d.registration_state)

unfoldable pub count_full : Dict RegistrationState → ℕ
unfolding is_full
count_full [] = 0
count_full ((key, s) ∷ rest) = if is_full s then suc (count_full rest) else count_full rest

unfoldable pub get_registered_count : Manager → ℕ
unfolding count_full
get_registered_count d = count_full d.registration_state

-- GetActiveResourceTypes; a copy is the same value
unfoldable pub get_active_resource_types : Manager → Dict ResourceType
get_active_resource_types d = d.active

pub record Counts : Type 0 where
  pub full : ℕ
  pub partial_only : ℕ
  pub none_yet : ℕ

unfoldable pub count_one : RegistrationState → Counts → Counts
count_one fully_registered t = record t { full = suc t.full }
count_one source_only t = record t { partial_only = suc t.partial_only }
count_one not_registered t = record t { none_yet = suc t.none_yet }

unfoldable pub counts_of : Dict RegistrationState → Counts → Counts
unfolding count_one
counts_of [] t = t
counts_of ((key, s) ∷ rest) t = counts_of rest (count_one s t)

unfoldable pub get_registration_stats : Manager → Counts
unfolding counts_of
get_registration_stats d =
    counts_of d.registration_state (record { full = 0; partial_only = 0; none_yet = 0 })

-- `listed` is the list of the enabled resources of a type by the reader: how many there are, or
-- `none` on an error
unfoldable pub find_active_resource_types :
    (ResourceType → Option ℕ) → List ResourceType → Dict ResourceType → Dict ResourceType
unfolding insert to_text
find_active_resource_types listed [] found = found
find_active_resource_types listed (rt ∷ rest) found =
    find_active_resource_types listed rest (elim (listed rt) [
      | none ↦ found
      | some count ↦ if ltb 0 count then insert (to_text rt) rt found else found
    ])

-- `M` is the state of the controller-runtime manager. The two setups build a reconciler by its
-- factory and register its controller; true is success.
module _ {M : Type 0} (setup_source setup_mirror : M → ResourceType → M × Bool) where
  unfoldable pub register_mirror_controller_only : M → ResourceType → M × Bool
  register_mirror_controller_only m gvk = setup_mirror m gvk

  -- the error is there just where the state achieved is not `fully_registered`
  unfoldable pub register_controller : M → ResourceType → M × RegistrationState
  register_controller m gvk =
      let source = setup_source m gvk in
      if source.1
      then (let mirror = setup_mirror source.0 gvk in
          if mirror.1 then (mirror.0, fully_registered) else (mirror.0, source_only))
      else (source.0, not_registered)

  -- what the loop writes after `register_controller`
  unfoldable pub save_state : String → ResourceType → RegistrationState → Manager → Manager
  unfolding insert
  save_state key gvk not_registered d = d
  save_state key gvk source_only d = record d {
    registration_state = insert key source_only d.registration_state;
    active = insert key gvk d.active;
  }
  save_state key gvk fully_registered d = record d {
    registration_state = insert key fully_registered d.registration_state;
    active = insert key gvk d.active;
  }

  -- the body of the loop of scanAndRegister, by the state of the type
  unfoldable pub register_one :
      RegistrationState → String → ResourceType → Manager → M → Manager × M
  unfolding register_mirror_controller_only register_controller save_state insert
  register_one fully_registered key gvk d m = (d, m)
  register_one source_only key gvk d m =
      let mirror = register_mirror_controller_only m gvk in
      if mirror.1
      then (
        (record d { registration_state = insert key fully_registered d.registration_state }),
        mirror.0,
      )
      else (d, mirror.0)
  register_one not_registered key gvk d m =
      let both = register_controller m gvk in (save_state key gvk both.1 d, both.0)

  -- the loop of scanAndRegister over the active types, in the order that it visits them
  unfoldable pub register_each : Dict ResourceType → Manager → M → Manager × M
  unfolding register_one get_registration_state
  register_each [] d m = (d, m)
  register_each ((key, gvk) ∷ rest) d m =
      let next = register_one (get_registration_state d key) key gvk d m in
      register_each rest next.0 next.1

  -- scanAndRegister; `order` is the order of a run over a Go map
  unfoldable pub scan_and_register :
      (ResourceType → Option ℕ)
      → (Dict ResourceType → Dict ResourceType)
      → Manager
      → M
      → Manager × M
  unfolding register_each find_active_resource_types
  scan_and_register listed order d m =
      register_each (order (find_active_resource_types listed d.available [])) d m
