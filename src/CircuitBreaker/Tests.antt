-- ===== src/CircuitBreaker/Tests.antt =====
-- Runs of the circuit breaker on concrete calls.
use kubemirror.Prelude.{◌≡◌, refl, not, true, false, some, List, [], ◌∷◌, arith}
use kubemirror.CircuitBreaker.{
  closed, open_state, Config, ResourceState, CircuitBreaker, fresh, timed_out, allow, failure,
  state_of, allow_request, get_state,
}
use kubemirror.CircuitBreaker.Machine.{
  Call, asks, succeeds, fails, run, IsSound, run-IsSound, all_fail, opens_at_threshold, all_succeed,
  recovers, reopens,
}
use kubemirror.CircuitBreaker.Store.{is_open, get_state-allow_request}

abbrev config : Config
config = record { failure_threshold = 2; reset_timeout = 10; half_open_success_threshold = 2 }

-- a resource whose circuit opened at time 5
abbrev opened : ResourceState
opened = record {
  last_failure = 5;
  last_error = some "timeout";
  state = open_state;
  consecutive_failures = 2;
  consecutive_successes = 0;
}

abbrev calls : List Call
calls = fails 1 "a" ∷ fails 2 "b" ∷ asks 20 ∷ succeeds 21 ∷ []

abbrev breaker : CircuitBreaker
breaker = record { states = ("prod/token/Secret", opened) ∷ []; config = config }

run-IsSound_example : IsSound config (run config calls fresh)
run-IsSound_example = run-IsSound config (omega arith) (omega arith) calls

opens_at_threshold_example :
    ((run config (all_fail ((1, "a") ∷ (2, "b") ∷ [])) fresh).consecutive_failures ≡ 2)
    × ((run config (all_fail ((1, "a") ∷ (2, "b") ∷ [])) fresh).state ≡ open_state)
opens_at_threshold_example = opens_at_threshold config ((1, "a") ∷ (2, "b") ∷ []) (omega arith)

recovers_example :
    ((allow config 20 opened).0 ≡ true)
    × ((run config (asks 20 ∷ all_succeed (21 ∷ 22 ∷ [])) opened).state ≡ closed)
unfolding timed_out
recovers_example = recovers config 20 opened (21 ∷ 22 ∷ []) (omega arith) refl refl

reopens_example :
    ((failure config 30 "c" (run config (asks 20 ∷ all_succeed (21 ∷ [])) opened)).0.state
      ≡ open_state)
    × ((failure config 30 "c" (run config (asks 20 ∷ all_succeed (21 ∷ [])) opened)).1 ≡ true)
    × ((allow config 35
          (failure config 30 "c" (run config (asks 20 ∷ all_succeed (21 ∷ [])) opened)).0).0
        ≡ false)
unfolding timed_out
reopens_example =
    reopens config 20 opened (21 ∷ []) (omega arith) refl refl 30 "c" 35 (omega arith) (omega arith)

get_state-allow_request_example :
    ((allow_request breaker 20 "prod" "token" "Secret").0
      ≡ not (is_open (get_state breaker 20 "prod" "token" "Secret").0))
    × (state_of (get_state breaker 20 "prod" "token" "Secret").1 "prod/token/Secret"
        ≡ state_of breaker "prod/token/Secret")
get_state-allow_request_example =
    get_state-allow_request breaker 20 "prod" "token" "Secret" "prod/token/Secret"
