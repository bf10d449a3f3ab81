-- ===== src/CircuitBreaker/Machine.antt =====
-- The state machine of one resource, pkg/circuitbreaker/circuitbreaker.go: any history of calls.
use kubemirror.Prelude.{
  ℕ, ◌+◌, ◌<◌, ◌≡◌, String, true, false, List, [], ◌∷◌, arith, length, leb, if◌then◌else◌,
}
use kubemirror.CircuitBreaker.{
  closed, open_state, half_open, Config, ResourceState, fresh, timed_out, allow, success, failure,
}

-- A call that reaches a resource state, with the time at which it comes.
pub data Call : Type 0 where
  asks : ℕ → Call
  succeeds : ℕ → Call
  fails : ℕ → String → Call

abbrev pub step : Config → Call → ResourceState → ResourceState
step c (asks now) s = (allow c now s).1
step c (succeeds now) s = success c now s
step c (fails now err) s = (failure c now err s).0

abbrev pub run : Config → List Call → ResourceState → ResourceState
run c [] s = s
run c (call ∷ calls) s = run c calls (step c call s)

-- While closed the failures are below the threshold; while not half-open there is no success
-- counted; while half-open the successes are below theirs.
pub record IsSound (c : Config) (s : ResourceState) : Type 0 where
  pub closed_below : s.state ≡ closed → s.consecutive_failures < c.failure_threshold
  pub closed_zero : s.state ≡ closed → s.consecutive_successes ≡ 0
  pub open_zero : s.state ≡ open_state → s.consecutive_successes ≡ 0
  pub half_below : s.state ≡ half_open → s.consecutive_successes < c.half_open_success_threshold

module _ (c : Config) (ft : 0 < c.failure_threshold) (ht : 1 < c.half_open_success_threshold) where
  step-IsSound : (call : Call) (s : ResourceState) → IsSound c s → IsSound c (step c call s)
  unfolding allow success failure
  step-IsSound (asks now) s h = ground arith
  step-IsSound (succeeds now) s h = ground arith
  step-IsSound (fails now err) s h = ground arith

  pub run-IsSound_from :
      (calls : List Call) (s : ResourceState) → IsSound c s → IsSound c (run c calls s)
  run-IsSound_from [] s h = h
  run-IsSound_from (call ∷ calls) s h =
      run-IsSound_from calls (step c call s) (step-IsSound call s h)

  -- Whatever calls reach a resource, in whatever order and at whatever times, its state is sound:
  -- closed means fewer failures in a row than the threshold and no success counted, open means no
  -- success counted, half-open means fewer successes than their threshold. The failure threshold
  -- is positive and the success threshold is at least 2.
  pub run-IsSound : (calls : List Call) → IsSound c (run c calls fresh)
  run-IsSound calls = run-IsSound_from calls fresh (ground arith)

abbrev pub all_fail : List (ℕ × String) → List Call
all_fail [] = []
all_fail ((now, err) ∷ rest) = fails now err ∷ all_fail rest

-- the state after failures only, from `n` of them counted
failing :
    (c : Config) (errs : List (ℕ × String)) (s : ResourceState)
    → (s.state ≡ (if leb c.failure_threshold s.consecutive_failures then open_state else closed))
    → ((run c (all_fail errs) s).consecutive_failures ≡ s.consecutive_failures + length errs)
      × ((run c (all_fail errs) s).state ≡ (
          if leb c.failure_threshold (s.consecutive_failures + length errs)
          then open_state
          else closed))
unfolding failure
failing c [] s h = ground arith
failing c ((now, err) ∷ rest) s h = ground (arith, failing c rest (failure c now err s).0)

-- After a row of failures on a fresh resource, all of them are counted, and the circuit is open
-- exactly if they are as many as the threshold (which is positive); until then it is closed.
pub opens_at_threshold :
    (c : Config) (errs : List (ℕ × String))
    → 0 < c.failure_threshold
    → ((run c (all_fail errs) fresh).consecutive_failures ≡ length errs)
      × ((run c (all_fail errs) fresh).state
          ≡ (if leb c.failure_threshold (length errs) then open_state else closed))
opens_at_threshold c errs h = ground (arith, failing c errs fresh)

abbrev pub all_succeed : List ℕ → List Call
all_succeed [] = []
all_succeed (now ∷ rest) = succeeds now ∷ all_succeed rest

succeeding_closed :
    (c : Config) (times : List ℕ) (s : ResourceState)
    → s.state ≡ closed
    → (run c (all_succeed times) s).state ≡ closed
unfolding success
succeeding_closed c [] s h = h
succeeding_closed c (now ∷ rest) s h = succeeding_closed c rest (success c now s) (ground arith)

succeeding_half :
    (c : Config) (times : List ℕ) (s : ResourceState)
    → s.state ≡ half_open
    → s.consecutive_successes < c.half_open_success_threshold
    → (run c (all_succeed times) s).state ≡ (
        if leb c.half_open_success_threshold (s.consecutive_successes + length times)
        then closed
        else half_open)
unfolding success
succeeding_half c [] s h lt = ground arith
succeeding_half c (now ∷ rest) s h lt =
    ground
      (arith, succeeding_half c rest (success c now s), succeeding_closed c rest (success c now s))

failing_half :
    (c : Config) (later : ℕ) (err : String) (then_at : ℕ) (s : ResourceState)
    → s.state ≡ half_open
    → then_at < later + c.reset_timeout
    → ((failure c later err s).0.state ≡ open_state)
      × ((failure c later err s).1 ≡ true)
      × ((allow c then_at (failure c later err s).0).0 ≡ false)
unfolding allow failure
failing_half c later err then_at s h early = ground arith

module _ (c : Config) (now : ℕ) (s : ResourceState) (times : List ℕ)
    (ht : 0 < c.half_open_success_threshold) (is_open : s.state ≡ open_state)
    (out : timed_out c now s ≡ true) where
  allowed_half :
      ((allow c now s).0 ≡ true)
      × ((allow c now s).1.state ≡ half_open)
      × ((allow c now s).1.consecutive_successes ≡ 0)
  unfolding allow
  allowed_half = ground arith

  -- An open circuit whose timeout has passed lets a request through, and the successes that follow
  -- close it exactly when they are as many as the success threshold (which is positive); until
  -- then it is half-open.
  pub recovers :
      ((allow c now s).0 ≡ true)
      × ((run c (asks now ∷ all_succeed times) s).state
          ≡ (if leb c.half_open_success_threshold (length times) then closed else half_open))
  recovers =
      (allowed_half.0, ground (arith, allowed_half, succeeding_half c times (allow c now s).1))

  -- An open circuit that was let through after its timeout, and has then seen fewer successes than
  -- the success threshold, is opened by a single failure, which reports that it just opened; and
  -- it denies requests until the timeout has passed again.
  pub reopens :
      (later : ℕ) (err : String) (then_at : ℕ)
      → length times < c.half_open_success_threshold
      → then_at < later + c.reset_timeout
      → ((failure c later err (run c (asks now ∷ all_succeed times) s)).0.state ≡ open_state)
        × ((failure c later err (run c (asks now ∷ all_succeed times) s)).1 ≡ true)
        × ((allow c then_at (failure c later err (run c (asks now ∷ all_succeed times) s)).0).0
            ≡ false)
  reopens later err then_at few early =
      let half : (run c (asks now ∷ all_succeed times) s).state ≡ half_open =
        ground (arith, recovers) in
      failing_half c later err then_at (run c (asks now ∷ all_succeed times) s) half early
