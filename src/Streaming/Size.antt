-- ===== src/Streaming/Size.antt =====
-- src/streaming/state.rs: how many bytes a stream has accumulated, in sums that saturate at `usize`.
-- The size of the JSON text of a value (`serde_json::to_vec`) is the parameter `value_bytes`.
pub mod Exact
pub mod Kept
use llm_universal_proxy.Prelude.{
  ◌+◌, ◌%◌, ◌^◌, ℕ, String, Option, none, some, List, [], ◌∷◌, len, saturating_add,
}
use llm_universal_proxy.Prelude.IndexMap.{IndexMap}
use llm_universal_proxy.Json.Value.{Value}
use llm_universal_proxy.Streaming.{
  StreamState, ToolCallState, ClaudeToolUseState, ClaudeBlockState, ClaudeThinkingProvenanceState,
  ResponsesMessagePartState, ResponsesCompletedMessageState,
}

abbrev pub optional_string_len : Option String → ℕ
optional_string_len none = 0
optional_string_len (some s) = len s

-- `saturating_add` of one number after the other.
unfoldable pub saturating_sum : ℕ → List ℕ → ℕ
saturating_sum total [] = total
saturating_sum total (n ∷ ns) = saturating_sum (saturating_add total n) ns

-- `total = total.saturating_add(measure(item))` for each item.
unfoldable pub saturating_each : {A : Type 0} → (A → ℕ) → ℕ → List A → ℕ
saturating_each measure total [] = total
saturating_each measure total (x ∷ xs) =
    saturating_each measure (saturating_add total (measure x)) xs

abbrev pub values : {A : Type 0} → IndexMap A → List A
values [] = []
values ((i, v) ∷ m) = v ∷ values m

module _ (value_bytes : Value → ℕ) where
  abbrev pub value_len : Option Value → ℕ
  value_len none = 0
  value_len (some v) = value_bytes v

  -- `sum::<usize>()`, which wraps in a release build.
  abbrev pub sum_bytes : List Value → ℕ
  sum_bytes [] = 0
  sum_bytes (v ∷ vs) = (value_bytes v + sum_bytes vs) % 2 ^ 64

  abbrev pub tool_call_parts : ToolCallState → List ℕ
  tool_call_parts c =
      value_len c.id
      ∷ len c.name
      ∷ len c.arguments
      ∷ value_len c.non_replayable_marker
      ∷ optional_string_len c.custom_input_text
      ∷ optional_string_len c.tool_type
      ∷ optional_string_len c.proxied_tool_kind
      ∷ optional_string_len c.responses_item_id
      ∷ []

  abbrev pub tool_use_parts : ClaudeToolUseState → List ℕ
  tool_use_parts c =
      value_len c.id ∷ len c.name ∷ len c.arguments ∷ optional_string_len c.proxied_tool_kind ∷ []

  abbrev pub block_parts : ClaudeBlockState → List ℕ
  block_parts b = len b.thinking ∷ optional_string_len b.signature ∷ sum_bytes b.annotations ∷ []

  abbrev pub message_part_parts : ResponsesMessagePartState → List ℕ
  message_part_parts p = len p.text ∷ sum_bytes p.annotations ∷ []

  abbrev pub state_parts : StreamState → List ℕ
  state_parts s =
      optional_string_len s.message_id
      ∷ optional_string_len s.model
      ∷ value_len s.request_scoped_tool_bridge_context
      ∷ value_len s.usage
      ∷ optional_string_len s.finish_reason
      ∷ optional_string_len s.output_item_id
      ∷ len s.responses_output_text
      ∷ optional_string_len s.responses_reasoning_id
      ∷ len s.responses_reasoning_text
      ∷ len s.openai_seen_content
      ∷ len s.openai_seen_refusal
      ∷ len s.openai_seen_reasoning
      ∷ value_len s.openai_terminal_error
      ∷ optional_string_len s.responses_response_id_override
      ∷ value_len s.responses_terminal_response
      ∷ []

  -- `StreamState::accumulated_bytes`; the sum of a part starts from nothing, which adds nothing.
  unfoldable pub accumulated_bytes : StreamState → ℕ
  unfolding saturating_sum saturating_each
  accumulated_bytes s =
      let of_strings = saturating_sum 0 (state_parts s) in
      let of_calls =
        saturating_each (λ c. saturating_sum 0 (tool_call_parts c)) of_strings
          (values s.openai_tool_calls) in
      let of_uses =
        saturating_each (λ c. saturating_sum 0 (tool_use_parts c)) of_calls
          (values s.claude_tool_uses) in
      let of_blocks =
        saturating_each (λ b. saturating_sum 0 (block_parts b)) of_uses (values s.claude_blocks) in
      let of_thinking =
        saturating_each (λ p. optional_string_len p.signature) of_blocks
          s.claude_thinking_provenance in
      let of_parts =
        saturating_each (λ p. saturating_sum 0 (message_part_parts p)) of_thinking
          s.responses_message_parts in
      saturating_each (λ m. value_bytes m.item) of_parts s.responses_completed_message_items
