-- ===== src/Discovery/Manager.antt =====
-- The manager of the discovery, pkg/discovery/manager.go: the types that were found last, and the
-- rounds that renew them.
pub mod Reports
use kubemirror.Prelude.{
  ℕ, String, Bool, true, false, not, ◌&&◌, ◌||◌, Option, none, some, List, [], ◌∷◌, if◌then◌else◌,
  ltb, length,
}
use kubemirror.Prelude.Dict.{Dict}
use kubemirror.ResourceType.{ResourceType}
use kubemirror.Discovery.{GroupVersion, Answer, discover_mirrorable_resources, detect_changes}

-- the interval in nanoseconds
pub record Manager : Type 0 where
  pub current_resources : List ResourceType
  pub interval : ℕ

unfoldable pub new_manager : ℕ → Manager
new_manager interval = record { current_resources = []; interval = interval }

-- GetCurrentResources; a copy is the same value
unfoldable pub get_current_resources : Manager → List ResourceType
get_current_resources m = m.current_resources

-- what a round logs
pub record Report : Type 0 where
  pub added : List ResourceType
  pub removed : List ResourceType

-- WaitForInitialDiscovery, on the manager's states at the ticks before the timeout; false is the
-- timeout's error
unfoldable pub wait_for_initial_discovery : List Manager → Bool
wait_for_initial_discovery [] = false
wait_for_initial_discovery (m ∷ later) =
    let rest = wait_for_initial_discovery later in
    if ltb 0 (length m.current_resources) then true else rest

-- `order` is the order in which Go walks a map
module _ (parse_group_version : String → Option GroupVersion)
    (order : Dict ResourceType → Dict ResourceType) where
  -- discover, under the lock one step; `none` is its error
  unfoldable pub discover : Manager → Answer → Option Report × Manager
  unfolding discover_mirrorable_resources detect_changes
  discover m answer = elim (discover_mirrorable_resources parse_group_version answer) [
    | none ↦ (none, m)
    | some discovered ↦
        let (added, removed) = detect_changes order m.current_resources discovered in
        (
          some (record { added = added; removed = removed }),
          record m { current_resources = discovered },
        )
  ]

  -- the loop over the ticks: an error is logged, and the next tick tries again
  unfoldable pub run : Manager → List Answer → List Report × Manager
  unfolding discover
  run m [] = ([], m)
  run m (answer ∷ rest) =
      let w = discover m answer in
      let later = run w.1 rest in
      (elim w.0 [ none ↦ later.0 | some report ↦ report ∷ later.0 ], later.1)

  -- Start: an error of the first round ends it, and the loop is not started
  unfoldable pub start : Manager → Answer → List Answer → Option (List Report × Manager)
  unfolding discover run
  start m first rest =
      let w = discover m first in
      elim w.0 [
        | none ↦ none
        | some report ↦ let later = run w.1 rest in some (report ∷ later.0, later.1)
      ]
