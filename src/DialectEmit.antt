-- ===== src/DialectEmit.antt =====
-- src/translate/internal/dialect_emit.rs: a client's reasoning level is written into the upstream's
-- request in the shape of the upstream's dialect, capped to the dialect's ceiling.
pub mod Ceiling
pub mod Body
pub mod Apply
use llm_universal_proxy.Prelude.{
  ℕ, String, Bool, true, false, Option, none, some, List, [], ◌∷◌, to_option, and_then, ltb,
  if◌then◌else◌,
}
use llm_universal_proxy.Json.Value.{
  Number, pos_int, Value, number, string, object, Fields, end, entry, field, insert, remove, get,
  as_str, as_object,
}
use llm_universal_proxy.Formats.{
  UpstreamFormat, anthropic, open_ai_chat_completions, open_ai_responses,
}
use llm_universal_proxy.Dialect.Levels.{
  ReasoningLevel, minimal, low, medium, high, xhigh, max, ultra, parse, display, rank,
  ReasoningMechanism, open_ai_effort, anthropic_effort, anthropic_thinking, auto_only, no_reasoning,
}
use llm_universal_proxy.Dialect.{DialectBlock}

-- `ReasoningMechanism::maps_reasoning`
unfoldable pub maps_reasoning : ReasoningMechanism → Bool
maps_reasoning open_ai_effort = true
maps_reasoning anthropic_effort = true
maps_reasoning anthropic_thinking = true
maps_reasoning auto_only = false
maps_reasoning no_reasoning = false

-- `body.get(outer).and_then(Value::as_object).and_then(|o| o.get("effort"))`
nested_effort : Value → String → Option Value
nested_effort body outer = and_then (and_then (get body outer) as_object) (λ o. field "effort" o)

raw_effort : Value → UpstreamFormat → Option String
unfolding nested_effort
raw_effort body open_ai_chat_completions = and_then (get body "reasoning_effort") as_str
raw_effort body open_ai_responses = and_then (nested_effort body "reasoning") as_str
raw_effort body anthropic = and_then (nested_effort body "output_config") as_str

unfoldable pub parse_client_reasoning_effort : Value → UpstreamFormat → Option ReasoningLevel
unfolding raw_effort
parse_client_reasoning_effort body client_format =
    and_then (raw_effort body client_format) (λ raw. to_option (parse raw))

-- `levels.last()`; validation rules an empty list out, on which the source panics.
last_level : ReasoningLevel → List ReasoningLevel → ReasoningLevel
last_level a [] = a
last_level a (b ∷ rest) = last_level b rest

pub default_ceiling : ReasoningMechanism → ReasoningLevel
default_ceiling open_ai_effort = max
default_ceiling anthropic_effort = max
default_ceiling anthropic_thinking = ultra
default_ceiling auto_only = ultra
default_ceiling no_reasoning = ultra

-- `none` is the panic on an empty list of levels.
ceiling_of : ReasoningMechanism → Option (List ReasoningLevel) → Option ReasoningLevel
unfolding last_level default_ceiling
ceiling_of mechanism none = some (default_ceiling mechanism)
ceiling_of mechanism (some []) = none
ceiling_of mechanism (some (a ∷ rest)) = some (last_level a rest)

unfoldable pub ceiling_for : DialectBlock → Option ReasoningLevel
unfolding ceiling_of
ceiling_for dialect = ceiling_of dialect.reasoning dialect.reasoning_levels

abbrev pub cap : ReasoningLevel → ReasoningLevel → ReasoningLevel × Bool
cap effort ceiling = if ltb (rank ceiling) (rank effort) then (ceiling, true) else (effort, false)

unfoldable pub cap_to_ceiling : ReasoningLevel → DialectBlock → Option (ReasoningLevel × Bool)
cap_to_ceiling effort dialect = and_then (ceiling_for dialect) (λ c. some (cap effort c))

-- `if let Some(o) = value.as_object_mut() { o.insert("effort", …) }`
set_effort : ReasoningLevel → Value → Value
set_effort level (object o) = object (insert "effort" (string (display level)) o)
set_effort level v = v

-- `obj.entry(k).or_insert_with(|| {})`, then `set_effort` on what is there.
entry_effort : String → ReasoningLevel → Fields → Option Value → Fields
unfolding set_effort
entry_effort k level o none = insert k (set_effort level (object end)) o
entry_effort k level o (some v) = insert k (set_effort level v) o

unfoldable pub emit_openai_effort : Value → UpstreamFormat → ReasoningLevel → Value
unfolding entry_effort
emit_openai_effort (object o) open_ai_chat_completions level =
    object (insert "reasoning_effort" (string (display level)) o)
emit_openai_effort (object o) open_ai_responses level =
    let rest = remove "reasoning_effort" o in
    object (entry_effort "reasoning" level rest (field "reasoning" rest))
emit_openai_effort (object o) anthropic level =
    object (insert "reasoning_effort" (string (display level)) o)
emit_openai_effort body _ level = body

unfoldable pub emit_anthropic_effort : Value → ReasoningLevel → Value
unfolding entry_effort
emit_anthropic_effort (object o) level =
    object (entry_effort "output_config" level o (field "output_config" o))
emit_anthropic_effort body level = body

unfoldable pub budget_tokens_for : ReasoningLevel → ℕ
budget_tokens_for minimal = 1024
budget_tokens_for low = 2048
budget_tokens_for medium = 8000
budget_tokens_for high = 16000
budget_tokens_for xhigh = 24000
budget_tokens_for max = 32000
budget_tokens_for ultra = 32000
budget_tokens_for ReasoningLevel.none = 1024

thinking_of : ReasoningLevel → Value
unfolding budget_tokens_for
thinking_of ReasoningLevel.none = object (entry "type" (string "disabled") end)
thinking_of level = object (
    entry "type" (string "enabled")
      (entry "budget_tokens" (number (pos_int (budget_tokens_for level))) end))

unfoldable pub emit_anthropic_thinking : Value → ReasoningLevel → Value
unfolding thinking_of
emit_anthropic_thinking (object o) level = object (insert "thinking" (thinking_of level) o)
emit_anthropic_thinking body level = body

-- `if let Some(c) = obj.get_mut(k).and_then(as_object_mut) { c.remove("effort") }`
drop_effort : String → Fields → Option Value → Fields
drop_effort k o (some (object c)) = insert k (object (remove "effort" c)) o
drop_effort k o _ = o

unfoldable pub strip_reasoning_fields : Value → UpstreamFormat → Value
unfolding drop_effort
strip_reasoning_fields (object o) open_ai_chat_completions = object (remove "reasoning_effort" o)
strip_reasoning_fields (object o) open_ai_responses =
    let rest = remove "reasoning_effort" o in
    object (drop_effort "reasoning" rest (field "reasoning" rest))
strip_reasoning_fields (object o) anthropic =
    object (remove "thinking" (drop_effort "output_config" o (field "output_config" o)))
strip_reasoning_fields body _ = body

-- The portability warnings.
pub data Warning : Type 0 where
  capped : ReasoningLevel → ReasoningLevel → Warning
  dropped : ReasoningLevel → ReasoningMechanism → Warning

-- `capped.then(|| cap_warning(effort, level))`, beside the new body.
abbrev warn_if_capped :
    ReasoningLevel → (ReasoningLevel → Value) → ReasoningLevel × Bool → Value × Option Warning
warn_if_capped effort emit (level, true) = (emit level, some (capped effort level))
warn_if_capped effort emit (level, false) = (emit level, none)

-- The body that results and the warning; `none` is the panic of `ceiling_for`.
emit_by :
    ReasoningMechanism
    → Value
    → UpstreamFormat
    → DialectBlock
    → ReasoningLevel
    → Option (Value × Option Warning)
emit_by open_ai_effort body f dialect effort =
    and_then (cap_to_ceiling effort dialect)
      (λ c. some (warn_if_capped effort (emit_openai_effort body f) c))
emit_by anthropic_effort body f dialect effort =
    and_then (cap_to_ceiling effort dialect)
      (λ c. some (warn_if_capped effort (emit_anthropic_effort body) c))
emit_by anthropic_thinking body f dialect effort =
    and_then (cap_to_ceiling effort dialect)
      (λ c. some (warn_if_capped effort (emit_anthropic_thinking body) c))
emit_by auto_only body f dialect effort =
    some (strip_reasoning_fields body f, some (dropped effort auto_only))
emit_by no_reasoning body f dialect effort =
    some (strip_reasoning_fields body f, some (dropped effort no_reasoning))

unfoldable pub apply_dialect_reasoning_emit :
    Value → UpstreamFormat → DialectBlock → ReasoningLevel → Option (Value × Option Warning)
unfolding emit_by
apply_dialect_reasoning_emit body upstream_format dialect effort =
    emit_by dialect.reasoning body upstream_format dialect effort
