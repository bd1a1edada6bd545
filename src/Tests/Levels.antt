-- ===== src/Tests/Levels.antt =====
-- Dialects, levels and surfaces: src/config/dialect.rs, src/translate/internal/dialect_emit.rs and
-- src/config/model_surface.rs.
use llm_universal_proxy.Prelude.{◌≡◌, refl, some, none, [], ◌∷◌, ok, arith, true}
use llm_universal_proxy.Json.Value.{Value, string, object, Fields, entry, end, get, insert, remove}
use llm_universal_proxy.Formats.{open_ai_chat_completions}
use llm_universal_proxy.Dialect.Levels.{ReasoningLevel, low, high, max, open_ai_effort, display}
use llm_universal_proxy.Dialect.{DialectBlock, preset, resolve, resolve_dialect_preset}
use llm_universal_proxy.Dialect.Validation.{IsWellFormed}
use llm_universal_proxy.DialectEmit.{
  ceiling_for, cap_to_ceiling, apply_dialect_reasoning_emit, emit_openai_effort, capped,
}
use llm_universal_proxy.DialectEmit.Ceiling.{IsCeiling, ceiling_for-IsCeiling}
use llm_universal_proxy.DialectEmit.Apply.{Emits, apply-Emits, apply_frame}
use llm_universal_proxy.ModelSurface.{text, image, ModelSurfacePatch}

abbrev dialect : DialectBlock
dialect = record {
  reasoning = open_ai_effort;
  reasoning_echo = some true;
  reasoning_levels = some (low ∷ high ∷ []);
}

dialect-IsWellFormed : IsWellFormed dialect.reasoning_levels
dialect-IsWellFormed = ground arith

abbrev deepseek : DialectBlock
deepseek = record {
  reasoning = open_ai_effort;
  reasoning_echo = some true;
  reasoning_levels = some (low ∷ high ∷ max ∷ []);
}

resolved : resolve (preset "deepseek-openai") ≡ ok deepseek
unfolding resolve resolve_dialect_preset
resolved = refl

ceiling_for-IsCeiling_example :
    (c : ReasoningLevel) × (ceiling_for dialect ≡ some c)
    × IsCeiling open_ai_effort (some (low ∷ high ∷ [])) c
ceiling_for-IsCeiling_example = ceiling_for-IsCeiling dialect dialect-IsWellFormed

abbrev fields : Fields
fields = entry "model" (string "m") (entry "reasoning_effort" (string "max") end)

ceiling_high : ceiling_for dialect ≡ some high
unfolding ceiling_for
ceiling_high = refl

apply-Emits_example :
    Emits open_ai_chat_completions max high
      (apply_dialect_reasoning_emit (object fields) open_ai_chat_completions dialect max)
apply-Emits_example = apply-Emits fields open_ai_chat_completions dialect max high ceiling_high tt

abbrev emitted : Value
emitted = object (entry "reasoning_effort" (string "high") (entry "model" (string "m") end))

applied :
    apply_dialect_reasoning_emit (object fields) open_ai_chat_completions dialect max
    ≡ some (emitted, some (capped max high))
unfolding apply_dialect_reasoning_emit cap_to_ceiling ceiling_for emit_openai_effort insert remove
    display
applied = refl

apply_frame_example : get emitted "model" ≡ get (object fields) "model"
apply_frame_example =
    apply_frame "model" (object fields) open_ai_chat_completions dialect max emitted
      (some (capped max high))
      (record { not_effort = refl; not_reasoning = refl; not_config = refl; not_thinking = refl })
      applied

abbrev base : ModelSurfacePatch
base = record {
  modalities = some (record { input = some (text ∷ []); output = some (text ∷ []) });
  tools = none;
}

abbrev over : ModelSurfacePatch
over = record {
  modalities = some (record { input = some (text ∷ image ∷ []); output = none });
  tools = none;
}
