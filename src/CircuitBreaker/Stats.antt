-- ===== src/CircuitBreaker/Stats.antt =====
-- The counts of GetStats and the list of OpenCircuits, pkg/circuitbreaker/circuitbreaker.go.
use kubemirror.Prelude.{ℕ, ◌+◌, ◌≤◌, ◌≡◌, [], ◌∷◌, arith, length}
use kubemirror.Prelude.Dict.{Dict}
use kubemirror.CircuitBreaker.{
  Config, ResourceState, CircuitBreaker, Statistics, open_keys, open_circuits, count_state,
  stats_of, get_stats, view_state,
}

abbrev zeros : Statistics
zeros = record { total = 0; closed_count = 0; open_count = 0; half_open_count = 0 }

-- every entry of the map is counted once, beside what was counted before
stats_total :
    (c : Config) (now : ℕ) (m : Dict ResourceState) (t : Statistics)
    → ((stats_of c now m t).total ≡ t.total + length m)
      × ((stats_of c now m t).closed_count
            + (stats_of c now m t).open_count
            + (stats_of c now m t).half_open_count
          ≡ t.closed_count + t.open_count + t.half_open_count + length m)
      × ((stats_of c now m t).open_count ≤ t.open_count + length (open_keys m))
unfolding stats_of open_keys
stats_total c now [] t = omega arith
stats_total c now ((key, s) ∷ rest) t =
    ground (arith, stats_total c now rest (count_state (view_state c now s) t))

-- GetStats counts every resource of the map once: the total is the number of entries and the sum
-- of the three counts. The resources that it counts as open are at most those that OpenCircuits
-- lists, which goes by the stored state and not by the timeout.
pub get_stats_total :
    (cb : CircuitBreaker) (now : ℕ)
    → ((get_stats cb now).total ≡ length cb.states)
      × ((get_stats cb now).closed_count
            + (get_stats cb now).open_count
            + (get_stats cb now).half_open_count
          ≡ (get_stats cb now).total)
      × ((get_stats cb now).open_count ≤ length (open_circuits cb))
unfolding get_stats open_circuits
get_stats_total cb now = omega (arith, stats_total cb.config now cb.states zeros)
