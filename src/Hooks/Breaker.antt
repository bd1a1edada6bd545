-- ===== src/Hooks/Breaker.antt =====
-- When a hook's breaker refuses an attempt.
use llm_universal_proxy.Prelude.{
  ℕ, suc, ◌+◌, ◌≤◌, ◌<◌, ◌≡◌, ◌↔◌, refl, ap, ◌∙◌, true, false, none, some, List, [], ◌∷◌, length,
  arith, ltb, leb, u64_max, saturating_add,
}
use llm_universal_proxy.Hooks.{
  HookKind, exchange, usage, CircuitState, closed, HookBreakerState, HookRuntime, state, set_state,
  can_attempt, record_failure, from_state, nanos_per_sec, attempt, failed, remaining_secs,
}

-- The runtime after failures of one kind at the times listed, the latest first.
abbrev pub failures : HookKind → List ℕ → HookRuntime → HookRuntime
failures kind [] r = r
failures kind (now ∷ earlier) r = record_failure kind now (failures kind earlier r)

state-set :
    (kind : HookKind) (c : CircuitState) (b : HookBreakerState)
    → state kind (set_state kind c b) ≡ c
state-set exchange c b = refl
state-set usage c b = refl

-- One circuit, with its threshold and cooldown.
abbrev circuit_after : ℕ → ℕ → List ℕ → CircuitState → CircuitState
circuit_after threshold cooldown [] c = c
circuit_after threshold cooldown (now ∷ earlier) c =
    failed threshold cooldown now (circuit_after threshold cooldown earlier c)

module _ (kind : HookKind) (r : HookRuntime) where
  failures-threshold :
      (times : List ℕ) → (failures kind times r).failure_threshold ≡ r.failure_threshold
  unfolding record_failure
  failures-threshold [] = refl
  failures-threshold (now ∷ times) = failures-threshold times

  failures-cooldown : (times : List ℕ) → (failures kind times r).cooldown ≡ r.cooldown
  unfolding record_failure
  failures-cooldown [] = refl
  failures-cooldown (now ∷ times) = failures-cooldown times

  failures-state :
      (times : List ℕ)
      → state kind (failures kind times r).breaker
        ≡ circuit_after r.failure_threshold r.cooldown times (state kind r.breaker)
  unfolding record_failure
  failures-state [] = refl
  failures-state (now ∷ times) =
      rw
        (
          state-set kind _ _,
          failures-threshold times,
          failures-cooldown times,
          failures-state times,
        )
        refl

module _ (threshold cooldown : ℕ) (room : threshold ≤ u64_max) where
  count_below :
      (times : List ℕ)
      → length times < threshold
      → circuit_after threshold cooldown times closed
        ≡ record { consecutive_failures = length times; open_until = none }
  unfolding failed
  count_below [] lt = refl
  count_below (now ∷ times) lt =
      let before = count_below times (omega arith) in
      let below : leb threshold (saturating_add (length times) 1) ≡ false = ground arith in
      let counted : saturating_add (length times) 1 ≡ suc (length times) = omega arith in
      rw (before, below, counted) refl

  open_at :
      (now : ℕ) (times : List ℕ)
      → suc (length times) ≡ threshold
      → circuit_after threshold cooldown (now ∷ times) closed
        ≡ record { consecutive_failures = 0; open_until = some (now + cooldown) }
  unfolding failed
  open_at now times eq =
      let before = count_below times (omega arith) in
      let reached : leb threshold (saturating_add (length times) 1) ≡ true = ground arith in
      rw (before, reached) refl

can_attempt-state :
    (kind : HookKind) (now : ℕ) (r : HookRuntime) (c : CircuitState)
    → state kind r.breaker ≡ c
    → (can_attempt kind now r).0 ≡ (attempt now c c.open_until).0
unfolding can_attempt
can_attempt-state kind now r c h = ap (λ x. (attempt now x x.open_until).0) h

-- From a closed circuit, fewer failures in a row than the threshold leave the hook allowed.
pub can_attempt_below :
    (kind : HookKind) (r : HookRuntime) (times : List ℕ) (now : ℕ)
    → state kind r.breaker ≡ closed
    → r.failure_threshold ≤ u64_max
    → length times < r.failure_threshold
    → (can_attempt kind now (failures kind times r)).0 ≡ true
unfolding attempt
can_attempt_below kind r times now start room lt =
    can_attempt-state kind now (failures kind times r)
      (record { consecutive_failures = length times; open_until = none })
      (rw (failures-state kind r times, start)
        (count_below r.failure_threshold r.cooldown room times lt))

allowed_iff :
    (now until : ℕ)
    → (attempt now (record { consecutive_failures = 0; open_until = some until }) (some until)).0
        ≡ true
      ↔ until ≤ now
unfolding attempt
allowed_iff now until = (λ h. ground arith, λ h. ground arith)

-- From a closed circuit, as many failures in a row as the threshold, the last at `last`, stop the
-- hook until `last + cooldown`, and from that moment on it is allowed again.
pub can_attempt_open :
    (kind : HookKind) (r : HookRuntime) (last : ℕ) (times : List ℕ) (now : ℕ)
    → state kind r.breaker ≡ closed
    → r.failure_threshold ≤ u64_max
    → suc (length times) ≡ r.failure_threshold
    → (can_attempt kind now (failures kind (last ∷ times) r)).0 ≡ true ↔ last + r.cooldown ≤ now
unfolding attempt
can_attempt_open kind r last times now start room eq =
    let opened =
      can_attempt-state kind now (failures kind (last ∷ times) r)
        (record { consecutive_failures = 0; open_until = some (last + r.cooldown) })
        (rw (failures-state kind r (last ∷ times), start)
          (open_at r.failure_threshold r.cooldown room last times eq)) in
    rw opened (allowed_iff now (last + r.cooldown))

abbrev pub other : HookKind → HookKind
other exchange = usage
other usage = exchange

state-set_other :
    (kind : HookKind) (c : CircuitState) (b : HookBreakerState)
    → state (other kind) (set_state kind c b) ≡ state (other kind) b
state-set_other exchange c b = refl
state-set_other usage c b = refl

failures-other :
    (kind : HookKind) (r : HookRuntime) (times : List ℕ)
    → state (other kind) (failures kind times r).breaker ≡ state (other kind) r.breaker
unfolding record_failure
failures-other kind r [] = refl
failures-other kind r (now ∷ times) =
    state-set_other kind _ (failures kind times r).breaker ∙ failures-other kind r times

-- Failures of one hook, however many, do not change whether the other one is allowed.
pub can_attempt_isolated :
    (kind : HookKind) (r : HookRuntime) (times : List ℕ) (now : ℕ)
    → (can_attempt (other kind) now (failures kind times r)).0 ≡ (can_attempt (other kind) now r).0
unfolding can_attempt
can_attempt_isolated kind r times now =
    ap (λ c. (attempt now c c.open_until).0) (failures-other kind r times)

secs_iff :
    (now deadline : ℕ)
    → ltb 0 (remaining_secs now (some deadline)) ≡ true ↔ now + nanos_per_sec ≤ deadline
unfolding remaining_secs
secs_iff now deadline = (λ h. ground arith, λ h. ground arith)

-- A snapshot shows a circuit as open exactly when at least a whole second of its cooldown is left.
pub from_state-open :
    (now : ℕ) (c : CircuitState) (deadline : ℕ)
    → c.open_until ≡ some deadline
    → (from_state now c).open_now ≡ true ↔ now + nanos_per_sec ≤ deadline
unfolding from_state
from_state-open now c deadline h = rw h (secs_iff now deadline)
