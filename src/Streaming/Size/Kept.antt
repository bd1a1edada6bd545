-- ===== src/Streaming/Size/Kept.antt =====
-- All the texts and JSON values that a state keeps, and which of them its accumulated size counts.
use llm_universal_proxy.Prelude.{
  ◌≡◌, refl, ap, ◌∙◌, ◌+◌, ◌-◌, ◌^◌, ◌<◌, ℕ, min, Option, none, some, List, [], ◌∷◌, All, len,
  u64_max, arith,
}
use llm_universal_proxy.Json.Value.{Value}
use llm_universal_proxy.Streaming.{
  StreamState, StreamFatalRejection, ToolCallState, ClaudeToolUseState, ClaudeBlockState,
  ResponsesMessagePartState,
}
use llm_universal_proxy.Streaming.Size.{
  optional_string_len, value_len, sum_bytes, values, state_parts, tool_call_parts, tool_use_parts,
  block_parts, message_part_parts, accumulated_bytes,
}
use llm_universal_proxy.Streaming.Size.Exact.{
  total, total_each, parts_lem, each_of_parts, each_at_once, All-of, All-map, total_each-same,
  total_each-add,
}

abbrev rejection_bytes : Option StreamFatalRejection → ℕ
rejection_bytes none = 0
rejection_bytes (some rejection) = len rejection.message

module _ (value_bytes : Value → ℕ) where
  abbrev pub annotation_bytes : List Value → ℕ
  annotation_bytes vs = total_each value_bytes vs

  -- The texts and values of each record, in the order of its fields.
  abbrev pub call_bytes : ToolCallState → ℕ
  call_bytes c =
      value_len value_bytes c.id
      + len c.name
      + len c.arguments
      + value_len value_bytes c.non_replayable_marker
      + optional_string_len c.custom_input_text
      + optional_string_len c.tool_type
      + optional_string_len c.proxied_tool_kind
      + optional_string_len c.namespace
      + optional_string_len c.responses_item_id

  abbrev pub use_bytes : ClaudeToolUseState → ℕ
  use_bytes c =
      value_len value_bytes c.id
      + len c.name
      + len c.arguments
      + optional_string_len c.proxied_tool_kind

  abbrev pub block_bytes : ClaudeBlockState → ℕ
  block_bytes b = len b.thinking + optional_string_len b.signature + annotation_bytes b.annotations

  abbrev pub part_bytes : ResponsesMessagePartState → ℕ
  part_bytes p = len p.text + annotation_bytes p.annotations

  abbrev pub kept_bytes : StreamState → ℕ
  kept_bytes s =
      optional_string_len s.message_id
      + optional_string_len s.model
      + value_len value_bytes s.request_scoped_tool_bridge_context
      + total_each call_bytes (values s.openai_tool_calls)
      + total_each use_bytes (values s.claude_tool_uses)
      + total_each block_bytes (values s.claude_blocks)
      + total_each (λ p. optional_string_len p.signature) s.claude_thinking_provenance
      + optional_string_len s.finish_reason
      + value_len value_bytes s.usage
      + rejection_bytes s.fatal_rejection
      + optional_string_len s.output_item_id
      + len s.responses_output_text
      + total_each part_bytes s.responses_message_parts
      + total_each (λ m. value_bytes m.item) s.responses_completed_message_items
      + optional_string_len s.responses_reasoning_id
      + len s.responses_reasoning_text
      + len s.openai_seen_content
      + len s.openai_seen_refusal
      + len s.openai_seen_reasoning
      + value_len value_bytes s.openai_terminal_error
      + optional_string_len s.responses_response_id_override
      + value_len value_bytes s.responses_terminal_response

  -- The namespaces of the calls, and the message of the rejection.
  abbrev pub uncounted_bytes : StreamState → ℕ
  uncounted_bytes s =
      total_each (λ c. optional_string_len c.namespace) (values s.openai_tool_calls)
      + rejection_bytes s.fatal_rejection

  counted_call : ToolCallState → ℕ
  counted_call c = total (tool_call_parts value_bytes c)

  calls-split :
      (cs : List ToolCallState)
      → total_each call_bytes cs
        ≡ total_each counted_call cs + total_each (λ c. optional_string_len c.namespace) cs
  unfolding counted_call
  calls-split cs =
      total_each-same call_bytes (λ c. counted_call c + optional_string_len c.namespace)
        (λ c. omega arith) cs
      ∙ total_each-add counted_call (λ c. optional_string_len c.namespace) cs

  sum_bytes-exact :
      (vs : List Value)
      → annotation_bytes vs < 2 ^ 64
      → sum_bytes value_bytes vs ≡ annotation_bytes vs
  sum_bytes-exact [] h = refl
  sum_bytes-exact (v ∷ vs) h = omega (arith, h, sum_bytes-exact vs (omega (arith, h)))

  block-exact :
      (b : ClaudeBlockState)
      → annotation_bytes b.annotations < 2 ^ 64
      → total (block_parts value_bytes b) ≡ block_bytes b
  block-exact b h = omega (arith, sum_bytes-exact b.annotations h)

  part-exact :
      (p : ResponsesMessagePartState)
      → annotation_bytes p.annotations < 2 ^ 64
      → total (message_part_parts value_bytes p) ≡ part_bytes p
  part-exact p h = omega (arith, sum_bytes-exact p.annotations h)

  counted_bytes : StreamState → ℕ
  counted_bytes s =
      total (state_parts value_bytes s)
      + total_each counted_call (values s.openai_tool_calls)
      + total_each use_bytes (values s.claude_tool_uses)
      + total_each block_bytes (values s.claude_blocks)
      + total_each (λ p. optional_string_len p.signature) s.claude_thinking_provenance
      + total_each part_bytes s.responses_message_parts
      + total_each (λ m. value_bytes m.item) s.responses_completed_message_items

  counted-kept : (s : StreamState) → counted_bytes s ≡ kept_bytes s - uncounted_bytes s
  unfolding counted_bytes
  counted-kept s = omega (arith, calls-split (values s.openai_tool_calls))

  accumulated-counted :
      (s : StreamState)
      → All (λ b. annotation_bytes b.annotations < 2 ^ 64) (values s.claude_blocks)
      → All (λ p. annotation_bytes p.annotations < 2 ^ 64) s.responses_message_parts
      → accumulated_bytes value_bytes s ≡ min (counted_bytes s) u64_max
  unfolding accumulated_bytes counted_bytes counted_call
  accumulated-counted s blocks parts =
      let calls =
        All-of (λ c. counted_call c ≡ counted_call c) (λ c. refl) (values s.openai_tool_calls) in
      let uses =
        All-of (λ c. total (tool_use_parts value_bytes c) ≡ use_bytes c) (λ c. omega arith)
          (values s.claude_tool_uses) in
      let exact_blocks =
        All-map _ (λ b. total (block_parts value_bytes b) ≡ block_bytes b) block-exact
          (values s.claude_blocks) blocks in
      let exact_parts =
        All-map _ (λ p. total (message_part_parts value_bytes p) ≡ part_bytes p) part-exact
          s.responses_message_parts parts in
      rw (parts_lem (state_parts value_bytes s)) (
        rw
          (each_of_parts (tool_call_parts value_bytes) counted_call _ (values s.openai_tool_calls)
            calls)
          (rw
            (each_of_parts (tool_use_parts value_bytes) use_bytes _ (values s.claude_tool_uses)
              uses)
            (rw
              (each_of_parts (block_parts value_bytes) block_bytes _ (values s.claude_blocks)
                exact_blocks)
              (rw
                (each_at_once (λ p. optional_string_len p.signature) _ s.claude_thinking_provenance)
                (rw
                  (each_of_parts (message_part_parts value_bytes) part_bytes _
                    s.responses_message_parts exact_parts)
                  (each_at_once (λ m. value_bytes m.item) _
                    s.responses_completed_message_items))))))

  -- The accumulated size of a state is that of all the texts and JSON values that it keeps, without
  -- the namespaces of its calls and the message of its rejection, which the source leaves out, or the
  -- largest `usize` where that is less. The annotations of each block and of each part of a message
  -- together stay below 2⁶⁴ bytes: their sum is not checked.
  pub accumulated_bytes_lem :
      (s : StreamState)
      → All (λ b. annotation_bytes b.annotations < 2 ^ 64) (values s.claude_blocks)
      → All (λ p. annotation_bytes p.annotations < 2 ^ 64) s.responses_message_parts
      → accumulated_bytes value_bytes s ≡ min (kept_bytes s - uncounted_bytes s) u64_max
  accumulated_bytes_lem s blocks parts =
      accumulated-counted s blocks parts ∙ ap (λ n. min n u64_max) (counted-kept s)
