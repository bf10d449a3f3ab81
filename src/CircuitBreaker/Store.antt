-- ===== src/CircuitBreaker/Store.antt =====
-- The map of resource states behind the methods of pkg/circuitbreaker/circuitbreaker.go.
use kubemirror.Prelude.{ℕ, ◌≡◌, String, Bool, true, false, not, arith, eq_iff, if◌then◌else◌, ◌==◌}
use kubemirror.Prelude.Dict.{lookup-insert}
use kubemirror.CircuitBreaker.{
  State, closed, open_state, half_open, ResourceState, CircuitBreaker, state_of, put, resource_key,
  allow_request, get_state,
}

-- what is found after a write
pub state_of-put :
    (cb : CircuitBreaker) (key other : String) (s : ResourceState)
    → state_of (put cb key s) other ≡ (if key == other then s else state_of cb other)
unfolding state_of put
state_of-put cb key other s = ground (arith, lookup-insert key other s cb.states)

put_step :
    (cb : CircuitBreaker) (key other : String) (f : ResourceState → ResourceState)
    → state_of (put cb key (f (state_of cb key))) other
      ≡ (if key == other then f (state_of cb other) else state_of cb other)
put_step cb key other f =
    ground (arith, state_of-put cb key other (f (state_of cb key)), eq_iff key other)

pub is_open : State → Bool
is_open open_state = true
is_open closed = false
is_open half_open = false

-- GetState reports an open circuit exactly when AllowRequest, at the same time, refuses the
-- request; and asking GetState changes no state that is found later.
pub get_state-allow_request :
    (cb : CircuitBreaker) (now : ℕ) (namespace name kind key : String)
    → ((allow_request cb now namespace name kind).0
        ≡ not (is_open (get_state cb now namespace name kind).0))
      × (state_of (get_state cb now namespace name kind).1 key ≡ state_of cb key)
unfolding allow_request get_state is_open
get_state-allow_request cb now namespace name kind key =
    (ground arith, ground (arith, put_step cb (resource_key namespace name kind) key (λ s. s)))
