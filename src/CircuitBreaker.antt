-- ===== src/CircuitBreaker.antt =====
-- pkg/circuitbreaker/circuitbreaker.go: consecutive failures counted per resource.
--
-- `states` is the sync.Map, a dictionary from resource keys. Times and durations are natural
-- numbers of nanoseconds since the zero time; `now` is the value of time.Now() in a call. Each
-- method holds the lock of one resource state throughout, so a call is one step. An error value is
-- its text.
pub mod Machine
pub mod Store
pub mod Stats
pub mod Tests
use kubemirror.Prelude.{
  ℕ, ◌+◌, ◌*◌, String, Bool, true, false, ◌&&◌, Option, none, some, List, [], ◌∷◌, leb,
  if◌then◌else◌,
}
use kubemirror.Prelude.Dict.{Dict, lookup, insert, delete}
use Prim.Native.String.{◌++◌}

pub data State : Type 0 where
  closed open_state half_open : State

unfoldable pub state_text : State → String
state_text closed = "closed"
state_text open_state = "open"
state_text half_open = "half-open"

pub record Config : Type 0 where
  pub failure_threshold : ℕ
  pub reset_timeout : ℕ
  pub half_open_success_threshold : ℕ

abbrev pub minute : ℕ
minute = 60 * 1000000000

unfoldable pub default_config : Config
default_config = record {
  failure_threshold = 5;
  reset_timeout = 5 * minute;
  half_open_success_threshold = 2;
}

pub record ResourceState : Type 0 where
  pub last_failure : ℕ
  pub last_error : Option String
  pub state : State
  pub consecutive_failures : ℕ
  pub consecutive_successes : ℕ

pub record CircuitBreaker : Type 0 where
  pub states : Dict ResourceState
  pub config : Config

unfoldable pub new : Config → CircuitBreaker
new config = record { states = []; config = config }

unfoldable pub new_with_defaults : CircuitBreaker
unfolding new default_config
new_with_defaults = new default_config

unfoldable pub resource_key : String → String → String → String
resource_key namespace name kind = namespace ++ "/" ++ name ++ "/" ++ kind

-- the zero value that `LoadOrStore` stores
abbrev pub fresh : ResourceState
fresh = record {
  last_failure = 0;
  last_error = none;
  state = closed;
  consecutive_failures = 0;
  consecutive_successes = 0;
}

-- the state that a call finds under its key
unfoldable pub state_of : CircuitBreaker → String → ResourceState
state_of cb key = elim (lookup key cb.states) [ none ↦ fresh | some s ↦ s ]

-- The methods work on the pointer that `getOrCreateState` returned: what they write lands in the
-- map, and a resource that was only read is in the map from then on.
unfoldable pub put : CircuitBreaker → String → ResourceState → CircuitBreaker
put cb key s = record cb { states = insert key s cb.states }

-- `time.Since(s.lastFailure) >= cb.config.ResetTimeout`
unfoldable pub timed_out : Config → ℕ → ResourceState → Bool
timed_out c now s = leb (s.last_failure + c.reset_timeout) now

-- the body of AllowRequest under the lock
unfoldable pub allow : Config → ℕ → ResourceState → Bool × ResourceState
unfolding timed_out
allow c now s = elim s.state [
  | closed ↦ (true, s)
  | open_state ↦
      if timed_out c now s
      then (true, record s { state = half_open; consecutive_successes = 0 })
      else (false, s)
  | half_open ↦ (true, s)
]

-- the switch of RecordSuccess, on the state whose failures are already cleared
unfoldable pub succeed : Config → ℕ → ResourceState → ResourceState
unfolding timed_out
succeed c now s = elim s.state [
  | half_open ↦
      if leb c.half_open_success_threshold (s.consecutive_successes + 1)
      then record s { state = closed; consecutive_successes = 0 }
      else record s { consecutive_successes = s.consecutive_successes + 1 }
  | open_state ↦
      if timed_out c now s then record s { state = half_open; consecutive_successes = 1 } else s
  | closed ↦ record s { consecutive_successes = 0 }
]

-- the body of RecordSuccess under the lock
unfoldable pub success : Config → ℕ → ResourceState → ResourceState
unfolding succeed
success c now s = succeed c now (record s { consecutive_failures = 0; last_error = none })

-- the switch of RecordFailure, on the state whose failure is already counted
unfoldable pub fail : Config → ResourceState → ResourceState × Bool
fail c s = elim s.state [
  | closed ↦
      if leb c.failure_threshold s.consecutive_failures
      then (record s { state = open_state }, true)
      else (s, false)
  | half_open ↦ (record s { state = open_state }, true)
  | open_state ↦ (s, false)
]

-- the body of RecordFailure under the lock
unfoldable pub failure : Config → ℕ → String → ResourceState → ResourceState × Bool
unfolding fail
failure c now err s = fail c (record s {
  consecutive_failures = s.consecutive_failures + 1;
  consecutive_successes = 0;
  last_failure = now;
  last_error = some err;
})

-- what GetState reports
unfoldable pub view_state : Config → ℕ → ResourceState → State
unfolding timed_out
view_state c now s = elim s.state [
  | open_state ↦ if timed_out c now s then half_open else open_state
  | closed ↦ closed
  | half_open ↦ half_open
]

module _ (cb : CircuitBreaker) (now : ℕ) (namespace name kind : String) where
  unfoldable pub allow_request : Bool × CircuitBreaker
  unfolding resource_key state_of put allow
  allow_request =
      let key = resource_key namespace name kind in
      let (allowed, s) = allow cb.config now (state_of cb key) in (allowed, put cb key s)

  unfoldable pub record_success : State × CircuitBreaker
  unfolding resource_key state_of put success
  record_success =
      let key = resource_key namespace name kind in
      let s = success cb.config now (state_of cb key) in (s.state, put cb key s)

  unfoldable pub record_failure : String → State × Bool × CircuitBreaker
  unfolding resource_key state_of put failure
  record_failure err =
      let key = resource_key namespace name kind in
      let (s, just_opened) = failure cb.config now err (state_of cb key) in
      (s.state, just_opened, put cb key s)

  unfoldable pub get_state : State × CircuitBreaker
  unfolding resource_key state_of put view_state
  get_state =
      let key = resource_key namespace name kind in
      let s = state_of cb key in (view_state cb.config now s, put cb key s)

module _ (cb : CircuitBreaker) (namespace name kind : String) where
  unfoldable pub get_failure_count : ℕ × CircuitBreaker
  unfolding resource_key state_of put
  get_failure_count =
      let key = resource_key namespace name kind in
      let s = state_of cb key in (s.consecutive_failures, put cb key s)

  unfoldable pub get_last_error : Option String × CircuitBreaker
  unfolding resource_key state_of put
  get_last_error =
      let key = resource_key namespace name kind in
      let s = state_of cb key in (s.last_error, put cb key s)

  unfoldable pub reset : CircuitBreaker
  unfolding resource_key
  reset = record cb { states = delete (resource_key namespace name kind) cb.states }

-- the walk of OpenCircuits over the map
unfoldable pub open_keys : Dict ResourceState → List String
open_keys [] = []
open_keys ((key, s) ∷ rest) =
    let others = open_keys rest in
    elim s.state [ open_state ↦ key ∷ others | closed ↦ others | half_open ↦ others ]

unfoldable pub open_circuits : CircuitBreaker → List String
unfolding open_keys
open_circuits cb = open_keys cb.states

pub record Statistics : Type 0 where
  pub total : ℕ
  pub closed_count : ℕ
  pub open_count : ℕ
  pub half_open_count : ℕ

-- one round of the walk of GetStats
unfoldable pub count_state : State → Statistics → Statistics
count_state closed t = record t { total = t.total + 1; closed_count = t.closed_count + 1 }
count_state open_state t = record t { total = t.total + 1; open_count = t.open_count + 1 }
count_state half_open t = record t { total = t.total + 1; half_open_count = t.half_open_count + 1 }

unfoldable pub stats_of : Config → ℕ → Dict ResourceState → Statistics → Statistics
unfolding view_state count_state
stats_of c now [] t = t
stats_of c now ((key, s) ∷ rest) t = stats_of c now rest (count_state (view_state c now s) t)

unfoldable pub get_stats : CircuitBreaker → ℕ → Statistics
unfolding stats_of
get_stats cb now =
    stats_of cb.config now cb.states
      (record { total = 0; closed_count = 0; open_count = 0; half_open_count = 0 })
