-- ===== src/DialectEmit/Body.antt =====
-- What a reader of the emitted body finds: the level, and every other field as it was.
use llm_universal_proxy.Prelude.{String, ◌≡◌, refl, Option, none, some, arith, eq_refl, and_then}
use llm_universal_proxy.Json.Value.{
  Value, null, string, object, Fields, end, as_object, field, insert, remove, get,
}
use llm_universal_proxy.Json.Laws.{json_laws}
use llm_universal_proxy.Formats.{
  UpstreamFormat, anthropic, open_ai_chat_completions, open_ai_responses,
}
use llm_universal_proxy.Dialect.Levels.{ReasoningLevel, display, parse-display}
use llm_universal_proxy.DialectEmit.{
  parse_client_reasoning_effort, entry_effort, emit_openai_effort, emit_anthropic_effort,
  drop_effort, strip_reasoning_fields,
}

-- A place that takes an effort: it is empty, or holds an object.
abbrev pub CanHold : Option Value → Type 0
CanHold none = Unit
CanHold (some (object _)) = Unit
CanHold (some _) = ⊥

-- Chat Completions: the level that is written is the level that is read back.
pub parse-emit_chat :
    (o : Fields) (level : ReasoningLevel)
    → parse_client_reasoning_effort
        (emit_openai_effort (object o) open_ai_chat_completions level)
        open_ai_chat_completions
      ≡ some level
unfolding parse_client_reasoning_effort emit_openai_effort get
parse-emit_chat o level = simp (json_laws, parse-display)

read_nested :
    (k : String) (o : Fields) (v : Option Value) (level : ReasoningLevel)
    → CanHold v
    → (c : Fields) × (field k (entry_effort k level o v)
        ≡ some (object (insert "effort" (string (display level)) c)))
unfolding entry_effort
read_nested k o none level h = (end, simp (json_laws, eq_refl))
read_nested k o (some (object c)) level h = (c, simp (json_laws, eq_refl))
read_nested k o (some _) level h = absurd h

-- Responses: the level is read back where `reasoning` is absent or an object.
pub parse-emit_responses :
    (o : Fields) (level : ReasoningLevel)
    → CanHold (field "reasoning" o)
    → parse_client_reasoning_effort
        (emit_openai_effort (object o) open_ai_responses level)
        open_ai_responses
      ≡ some level
unfolding parse_client_reasoning_effort emit_openai_effort get
parse-emit_responses o level h =
    let rest = remove "reasoning_effort" o in
    let same : field "reasoning" rest ≡ field "reasoning" o = simp json_laws in
    let (c, e) = read_nested "reasoning" rest (field "reasoning" rest) level (rw same h) in
    rw e (simp (json_laws, parse-display))

-- Anthropic: the level is read back where `output_config` is absent or an object.
pub parse-emit_anthropic :
    (o : Fields) (level : ReasoningLevel)
    → CanHold (field "output_config" o)
    → parse_client_reasoning_effort (emit_anthropic_effort (object o) level) anthropic ≡ some level
unfolding parse_client_reasoning_effort emit_anthropic_effort get
parse-emit_anthropic o level h =
    let (c, e) = read_nested "output_config" o (field "output_config" o) level h in
    rw e (simp (json_laws, parse-display))

no_effort :
    (k : String) (o : Fields) (v : Option Value)
    → field k o ≡ v
    → and_then (and_then (field k (drop_effort k o v)) as_object) (field "effort") ≡ none
unfolding drop_effort
no_effort k o none e = rw e
no_effort k o (some (object c)) e = simp (json_laws, eq_refl)
no_effort k o (some _) e = rw e

-- After the fields are stripped for a format, a client of the format reads no level from the body.
pub parse-strip :
    (body : Value) (f : UpstreamFormat)
    → parse_client_reasoning_effort (strip_reasoning_fields body f) f ≡ none
unfolding parse_client_reasoning_effort strip_reasoning_fields get
parse-strip (object o) open_ai_chat_completions = simp json_laws
parse-strip (object o) open_ai_responses =
    let rest = remove "reasoning_effort" o in
    rw (no_effort "reasoning" rest (field "reasoning" rest) refl)
parse-strip (object o) anthropic =
    simp json_laws (rw (no_effort "output_config" o (field "output_config" o) refl))
parse-strip null f = ground arith
parse-strip _ f = ground arith
