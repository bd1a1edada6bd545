-- ===== src/Streaming/Responses/Quiet.antt =====
-- The handlers that neither start nor finish a stream: what they leave of the state as it was, and
-- what holds of their chunks because it holds of every chunk with the key that they write.
use llm_universal_proxy.Prelude.{
  ◌≡◌, refl, ℕ, String, Bool, Option, none, some, List, [], ◌∷◌, ◌++◌, All, branches, is_empty,
  All-append, ◌∙◌,
}
use llm_universal_proxy.Json.Value.{Value, entry, end}
use llm_universal_proxy.Streaming.{
  SerdeText, StreamState, ToolCallState, Emitted, openai_chunk, chunk_of, reject_openai_stream,
}
use llm_universal_proxy.Streaming.Normalize.{normalize_openai_stream_text}
use llm_universal_proxy.Streaming.ToolCalls.{
  announce_call, arguments_delta, custom_input_done, terminal_items, finished_call, after_item,
  after_done,
}
use llm_universal_proxy.Streaming.Responses.{
  text_delta, response_refusal, emit_refusal, event_str_or, event_type, response_created,
  response_terminal, responses_event_to_openai_chunks,
}
use llm_universal_proxy.Streaming.Responses.Branches.{by_type_cases, output_item_added_cases}

-- Whether the role and the finish reason were sent, and the rejection, are as they were.
abbrev pub Kept : StreamState → StreamState → Type 0
Kept s t =
    (t.openai_role_sent ≡ s.openai_role_sent)
    × (t.finish_reason_sent ≡ s.finish_reason_sent)
    × (t.fatal_rejection ≡ s.fatal_rejection)

same : (s : StreamState) → Kept s s
same s = (refl, refl, refl)

-- Every chunk whose delta has the one key.
abbrev pub Each : (Value → Type 0) → String → Type 0
Each Q key =
    (now : ℕ) (id model : String) (v : Value) → Q (chunk_of now id model (entry key v end) none)

-- A handler that keeps the state so far, with chunks that have a property.
abbrev pub Quiet : (Value → Type 0) → StreamState → Emitted → Type 0
Quiet Q s r = Kept s r.0 × All Q r.1

module _ (Q : Value → Type 0) where
  pub text_delta-Quiet :
      (now : ℕ) (key delta : String) (s : StreamState)
      → Each Q key
      → Quiet Q s (text_delta now key delta s)
  unfolding text_delta openai_chunk
  text_delta-Quiet now key delta s each =
      branches (Quiet Q s) (is_empty delta) (λ _. (same s, tt)) λ _. (same s, (each now _ _ _, tt))

  pub emit_refusal-Quiet :
      (now : ℕ) (s : StreamState) (delta : Option String)
      → Each Q "refusal"
      → Quiet Q s (emit_refusal now s delta)
  unfolding emit_refusal openai_chunk
  emit_refusal-Quiet now s none each = (same s, tt)
  emit_refusal-Quiet now s (some _) each = (same s, (each now _ _ _, tt))

  pub refusal-Quiet :
      (now : ℕ) (raw : String) (s : StreamState)
      → Each Q "refusal"
      → Quiet Q s (response_refusal now raw s)
  unfolding response_refusal
  refusal-Quiet now raw s each =
      let (delta, seen) = normalize_openai_stream_text raw s.openai_seen_refusal in
      emit_refusal-Quiet now (record s { openai_seen_refusal = seen }) delta each

  pub announce_call-Quiet :
      (z : SerdeText) (now : ℕ) (is_custom : Bool) (event item : Value) (s : StreamState)
      → Each Q "tool_calls"
      → Quiet Q s (announce_call z now is_custom event item s)
  unfolding announce_call openai_chunk
  announce_call-Quiet z now is_custom event item s each = (same s, (each now _ _ _, tt))

  pub arguments_delta-Quiet :
      (z : SerdeText) (now : ℕ) (is_custom : Bool) (event : Value) (s : StreamState)
      → Each Q "tool_calls"
      → Quiet Q s (arguments_delta z now is_custom event s)
  unfolding arguments_delta openai_chunk
  arguments_delta-Quiet z now is_custom event s each =
      branches (Quiet Q s) (is_empty (event_str_or event "delta")) (λ _. (same s, tt))
        λ _. (same s, (each now _ _ _, tt))

  after_done-Quiet :
      (now idx : ℕ) (s : StreamState) (finished : Option (ToolCallState × String))
      → Each Q "tool_calls"
      → Quiet Q s (after_done now idx s finished)
  unfolding after_done openai_chunk
  after_done-Quiet now idx s none each = (same s, tt)
  after_done-Quiet now idx s (some _) each = (same s, (each now _ _ _, tt))

  pub custom_input_done-Quiet :
      (z : SerdeText) (now : ℕ) (event : Value) (s : StreamState)
      → Each Q "tool_calls"
      → Quiet Q s (custom_input_done z now event s)
  unfolding custom_input_done
  custom_input_done-Quiet z now event s each = after_done-Quiet now _ s _ each

  after_item-Quiet :
      (now : ℕ) (s : StreamState) (finished : Option (ℕ × String × ToolCallState × String))
      → Each Q "tool_calls"
      → Quiet Q s (after_item now s finished)
  unfolding after_item openai_chunk
  after_item-Quiet now s none each = (same s, tt)
  after_item-Quiet now s (some _) each = (same s, (each now _ _ _, tt))

  pub Quiet-then :
      (s : StreamState) (r q : Emitted) → Quiet Q s r → Quiet Q r.0 q → Quiet Q s (q.0, r.1 ++ q.1)
  Quiet-then s (t, out) (u, more) ((a, b, c), all) ((a', b', c'), all') =
      ((a' ∙ a, b' ∙ b, c' ∙ c), All-append Q out more all all')

  pub terminal_items-Quiet :
      (z : SerdeText) (now : ℕ) (items : List Value) (s : StreamState)
      → Each Q "tool_calls"
      → Quiet Q s (terminal_items z now items s)
  unfolding terminal_items
  terminal_items-Quiet z now [] s each = (same s, tt)
  terminal_items-Quiet z now (item ∷ rest) s each =
      let r = after_item now s (finished_call z item s) in
      Quiet-then s r (terminal_items z now rest r.0)
        (after_item-Quiet now s (finished_call z item s) each)
        (terminal_items-Quiet z now rest r.0 each)

  -- An event is quiet, creates the response, is rejected, or ends the stream.
  pub event_cases :
      (P : Emitted → Type 0) (z : SerdeText) (now : ℕ) (event : Value) (s : StreamState)
      → Each Q "content"
      → Each Q "refusal"
      → Each Q "reasoning_content"
      → Each Q "tool_calls"
      → ((r : Emitted) → Quiet Q s r → P r)
      → P (response_created now event s)
      → ((code message : String)
          → P (reject_openai_stream now s "invalid_request_error" code message))
      → P (response_terminal z now (event_type event) event s)
      → P (responses_event_to_openai_chunks z now event s)
  unfolding responses_event_to_openai_chunks
  event_cases P z now event s text refused thought called quiet created rejected terminal =
      by_type_cases P z now (event_type event) event s (λ _. created) (λ _. rejected _ _)
        (λ _.
          quiet (text_delta now "content" (event_str_or event "delta") s)
            (text_delta-Quiet now "content" _ s text))
        (λ _ key.
          quiet (response_refusal now (event_str_or event key) s)
            (refusal-Quiet now (event_str_or event key) s refused))
        (λ _.
          quiet (text_delta now "reasoning_content" (event_str_or event "delta") s)
            (text_delta-Quiet now "reasoning_content" _ s thought))
        (λ _.
          output_item_added_cases P z now event s (quiet (s, []) (same s, tt)) rejected λ c item.
            quiet (announce_call z now c event item s)
              (announce_call-Quiet z now c event item s called))
        (λ _ c.
          quiet (arguments_delta z now c event s) (arguments_delta-Quiet z now c event s called))
        (λ _.
          quiet (custom_input_done z now event s) (custom_input_done-Quiet z now event s called))
        (λ _. terminal) (λ _. quiet (s, []) (same s, tt))
