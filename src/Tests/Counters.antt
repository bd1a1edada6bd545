-- ===== src/Tests/Counters.antt =====
-- Counters: src/telemetry.rs and src/hooks.rs.
use llm_universal_proxy.Prelude.{◌≡◌, ◌+◌, ◌≤◌, ◌↔◌, refl, some, [], ◌∷◌, true, false, arith}
use llm_universal_proxy.Telemetry.{success, start_request, finish_with}
use llm_universal_proxy.Telemetry.World.{
  World, new_world, changed, Reach, here, next, start, finish,
}
use llm_universal_proxy.Telemetry.Accounting.{IsAccounted, Reach-IsAccounted}
use llm_universal_proxy.Hooks.{
  HookRuntime, usage, new_runtime, can_attempt, CircuitState, from_state, nanos_per_sec,
  try_reserve_turn,
}
use llm_universal_proxy.Hooks.Breaker.{failures, can_attempt_open, from_state-open}
use llm_universal_proxy.Hooks.Budget as Budgets
use llm_universal_proxy.Hooks.Budget.{
  Budget, sum, after_turn, turn, release_granted, Reach-exact, try_reserve_turn_alone,
}

abbrev started : World
started = record {
  metrics = (start_request "/v1" "m" true new_world.metrics).0;
  trackers = (start_request "/v1" "m" true new_world.metrics).1 ∷ [];
}

abbrev finished : World
finished =
    changed started 0 (
      finish_with success 200 15 started.metrics (start_request "/v1" "m" true new_world.metrics).1)

finished-Reach : Reach finished
finished-Reach =
    next (next here (start new_world "/v1" "m" true (omega arith)))
      (finish started 0 (start_request "/v1" "m" true new_world.metrics).1 success 200 15 refl)

Reach-IsAccounted_example : IsAccounted finished
Reach-IsAccounted_example = Reach-IsAccounted finished-Reach

-- Three failures open a circuit for a second.
abbrev runtime : HookRuntime
runtime = new_runtime 1000 3 1000000000

can_attempt_open_example :
    (can_attempt usage 1000000008 (failures usage (9 ∷ 7 ∷ 5 ∷ []) runtime)).0 ≡ true
    ↔ 9 + runtime.cooldown ≤ 1000000008
can_attempt_open_example =
    can_attempt_open usage runtime 9 (7 ∷ 5 ∷ []) 1000000008 (unfold new_runtime in refl)
      (unfold new_runtime in omega arith) (unfold new_runtime in refl)

abbrev half_second_left : CircuitState
half_second_left = record { consecutive_failures = 0; open_until = some 1500000000 }

from_state-open_example :
    (from_state 1000000000 half_second_left).open_now ≡ true
    ↔ 1000000000 + nanos_per_sec ≤ 1500000000
from_state-open_example = from_state-open 1000000000 half_second_left 1500000000 refl

-- With half a second left, an attempt is refused, but the snapshot shows the circuit as closed.
shown_closed : (from_state 1000000000 half_second_left).open_now ≡ false
unfolding from_state
shown_closed = refl

still_refused :
    (can_attempt usage 1000000000 (record runtime {
      breaker = record { of_exchange = half_second_left; of_usage = half_second_left };
    })).0
    ≡ false
unfolding can_attempt
still_refused = refl

abbrev one_granted : Budget
one_granted = after_turn 40 (try_reserve_turn 100 40 0 0) (record { pending = 0; granted = [] })

Reach-exact_example : (one_granted.pending ≡ sum one_granted.granted) × (one_granted.pending ≤ 100)
Reach-exact_example =
    Reach-exact 100 (Budgets.next Budgets.here (turn (record { pending = 0; granted = [] }) 40 0))
