-- ===== src/Hooks.antt =====
-- src/hooks.rs: the circuit breakers of the two hooks and the budget of pending bytes. The mutex
-- makes each call on a breaker one step; an `Instant` is a number of nanoseconds. The budget is an
-- atomic cell: a reservation is a load and then a compare-exchange, and other threads may write in
-- between. Building the payloads and sending them is not modelled.
pub mod Breaker
pub mod Budget
use llm_universal_proxy.Prelude.{
  ℕ, ◌+◌, ◌-◌, ◌/◌, ◌^◌, min, Bool, true, false, ◌&&◌, Option, none, some, ltb, leb, ◌==◌,
  saturating_add, u64_max, if◌then◌else◌,
}

pub data HookKind : Type 0 where
  exchange usage : HookKind

pub record CircuitState : Type 0 where
  pub consecutive_failures : ℕ
  pub open_until : Option ℕ

-- `CircuitState::default`
abbrev pub closed : CircuitState
closed = record { consecutive_failures = 0; open_until = none }

pub record HookBreakerState : Type 0 where
  pub of_exchange : CircuitState
  pub of_usage : CircuitState

pub record HookRuntime : Type 0 where
  pub max_pending_bytes : ℕ
  pub exchange_capture_budget_bytes : ℕ
  pub pending_bytes : ℕ
  pub failure_threshold : ℕ
  pub cooldown : ℕ
  pub breaker : HookBreakerState

abbrev pub default_exchange_capture_budget_bytes : ℕ
default_exchange_capture_budget_bytes = 32768

-- The runtime that `HookDispatcher::new` makes.
unfoldable pub new_runtime : ℕ → ℕ → ℕ → HookRuntime
new_runtime max_pending_bytes failure_threshold cooldown = record {
  max_pending_bytes = max_pending_bytes;
  exchange_capture_budget_bytes = min max_pending_bytes default_exchange_capture_budget_bytes;
  pending_bytes = 0;
  failure_threshold = failure_threshold;
  cooldown = cooldown;
  breaker = record { of_exchange = closed; of_usage = closed };
}

-- `state_mut` read, and `state_mut` written.
abbrev pub state : HookKind → HookBreakerState → CircuitState
state exchange b = b.of_exchange
state usage b = b.of_usage

abbrev pub set_state : HookKind → CircuitState → HookBreakerState → HookBreakerState
set_state exchange c b = record b { of_exchange = c }
set_state usage c b = record b { of_usage = c }

-- The match of `can_attempt` on one circuit.
attempt : ℕ → CircuitState → Option ℕ → Bool × CircuitState
attempt now c none = (true, c)
attempt now c (some until) = if ltb now until then (false, c) else (true, closed)

unfoldable pub can_attempt : HookKind → ℕ → HookRuntime → Bool × HookRuntime
unfolding attempt
can_attempt kind now r =
    let c = state kind r.breaker in
    let (allowed, c') = attempt now c c.open_until in
    (allowed, record r { breaker = set_state kind c' r.breaker })

unfoldable pub can_capture_exchange : ℕ → HookRuntime → Bool × HookRuntime
unfolding can_attempt
can_capture_exchange now r =
    let (allowed, r') = can_attempt exchange now r in
    (allowed && ltb r'.pending_bytes r'.max_pending_bytes, r')

unfoldable pub record_success : HookKind → HookRuntime → HookRuntime
record_success kind r = record r { breaker = set_state kind closed r.breaker }

-- One circuit after a failure.
failed : ℕ → ℕ → ℕ → CircuitState → CircuitState
failed threshold cooldown now c =
    let failures = saturating_add c.consecutive_failures 1 in
    if leb threshold failures
    then record { consecutive_failures = 0; open_until = some (now + cooldown) }
    else record c { consecutive_failures = failures }

unfoldable pub record_failure : HookKind → ℕ → HookRuntime → HookRuntime
unfolding failed
record_failure kind now r = record r {
  breaker =
      set_state kind (failed r.failure_threshold r.cooldown now (state kind r.breaker)) r.breaker;
}

-- What one turn of the loop of `try_reserve` comes to.
pub data Turn : Type 0 where
  refused retry : Turn
  reserved : ℕ → Turn

-- The turn that loaded `current`, where the cell holds `pending` when the exchange comes.
unfoldable pub try_reserve_turn : (max_pending_bytes bytes current pending : ℕ) → Turn
try_reserve_turn max_pending_bytes bytes current pending =
    let next = current + bytes in
    if ltb u64_max next
    then refused
    else if ltb max_pending_bytes next
    then refused
    else if current == pending
    then reserved next
    else retry

-- `release`
unfoldable pub release : ℕ → ℕ → ℕ
release bytes current = current - bytes

pub record CircuitSnapshot : Type 0 where
  pub consecutive_failures : ℕ
  pub open_now : Bool
  pub remaining_cooldown_secs : ℕ

abbrev pub nanos_per_sec : ℕ
nanos_per_sec = 1000000000

-- `checked_duration_since(now)`, in whole seconds; 0 when the deadline is past or absent.
remaining_secs : ℕ → Option ℕ → ℕ
remaining_secs now none = 0
remaining_secs now (some deadline) =
    if ltb deadline now then 0 else (deadline - now) / nanos_per_sec

-- `CircuitSnapshot::from_state`
unfoldable pub from_state : ℕ → CircuitState → CircuitSnapshot
unfolding remaining_secs
from_state now c =
    let secs = remaining_secs now c.open_until in
    record {
      consecutive_failures = c.consecutive_failures;
      open_now = ltb 0 secs;
      remaining_cooldown_secs = secs;
    }
