-- ===== src/Streaming/Responses.antt =====
-- src/streaming/responses_source.rs: from an event of a Responses stream to chunks of Chat
-- Completions. The comparison of the type of an event is the source's chain of tests, in its order.
pub mod Branches
pub mod Quiet
pub mod Rejection
pub mod Content
pub mod Pieces
pub mod Arguments
pub mod Gathering
pub mod Latches
pub mod Finishing
use llm_universal_proxy.Prelude.{
  Option, none, some, ℕ, String, ◌||◌, none, some, [], ◌∷◌, ◌++◌, str_eq, unwrap_or, starts_with,
  is_empty, if◌then◌else◌,
}
use llm_universal_proxy.Json.Value.{Value, string, end, entry, get}
use llm_universal_proxy.Streaming.{
  SerdeText, StreamState, Emitted, event_str, openai_chunk, emit_openai_assistant_role_if_needed,
  reject_openai_stream,
}
use llm_universal_proxy.Streaming.Normalize.{normalize_openai_stream_text}
use llm_universal_proxy.Streaming.ToolCalls.{
  terminal_items, output_item_added, arguments_delta, custom_input_done,
}
use llm_universal_proxy.Streaming.Finish.{
  output_of, capture_responses_model, captured_response, finish_stream,
}

-- `response.created`
unfoldable pub response_created : ℕ → Value → StreamState → Emitted
unfolding capture_responses_model emit_openai_assistant_role_if_needed
response_created now event s =
    let resp = unwrap_or (get event "response") event in
    emit_openai_assistant_role_if_needed now
      (capture_responses_model resp (record s { message_id = event_str resp "id" })) []

-- A chunk with the text under the key, where there is text.
unfoldable pub text_delta : ℕ → String → String → StreamState → Emitted
unfolding openai_chunk
text_delta now key delta s =
    if is_empty delta
    then (s, [])
    else (s, openai_chunk now s (entry key (string delta) end) none ∷ [])

unfoldable pub emit_refusal : ℕ → StreamState → Option String → Emitted
unfolding openai_chunk
emit_refusal now s none = (s, [])
emit_refusal now s (some delta) =
    (s, openai_chunk now s (entry "refusal" (string delta) end) none ∷ [])

-- `response.refusal.delta` and `response.refusal.done`
unfoldable pub response_refusal : ℕ → String → StreamState → Emitted
unfolding normalize_openai_stream_text emit_refusal
response_refusal now raw_refusal s =
    let (delta, seen) = normalize_openai_stream_text raw_refusal s.openai_seen_refusal in
    let t = record s { openai_seen_refusal = seen } in emit_refusal now t delta

abbrev pub responses_terminal_custom_tool_bridge_chunk :
    SerdeText → ℕ → Value → StreamState → Emitted
responses_terminal_custom_tool_bridge_chunk z now event s = terminal_items z now (output_of event) s

-- `response.completed`, `response.incomplete` and `response.failed`
unfoldable pub response_terminal : SerdeText → ℕ → String → Value → StreamState → Emitted
unfolding terminal_items captured_response finish_stream
response_terminal z now ty event s =
    let (t, out) = responses_terminal_custom_tool_bridge_chunk z now event s in
    let (u, finish) = finish_stream now ty event (captured_response (get event "response") t) in
    (u, out ++ finish)

abbrev pub event_str_or : Value → String → String
event_str_or event key = unwrap_or (event_str event key) ""

abbrev pub audio_message : String
audio_message = "OpenAI Responses audio streaming events cannot be translated losslessly."

abbrev pub event_type : Value → String
event_type event = unwrap_or (event_str event "type") ""

unfoldable pub by_type : SerdeText → ℕ → String → Value → StreamState → Emitted
unfolding response_created reject_openai_stream text_delta response_refusal output_item_added
    arguments_delta custom_input_done response_terminal
by_type z now ty event s =
    if str_eq ty "response.created"
    then response_created now event s
    else if starts_with ty "response.audio."
    then reject_openai_stream now s "invalid_request_error"
        "unsupported_openai_responses_stream_event" audio_message
    else if str_eq ty "response.output_text.delta"
    then text_delta now "content" (event_str_or event "delta") s
    else if str_eq ty "response.refusal.delta" || str_eq ty "response.refusal.done"
    then response_refusal now
        (event_str_or event (if str_eq ty "response.refusal.delta" then "delta" else "refusal")) s
    else if str_eq ty "response.reasoning_summary_text.delta"
    then text_delta now "reasoning_content" (event_str_or event "delta") s
    else if str_eq ty "response.output_item.added"
    then output_item_added z now event s
    else if str_eq ty "response.function_call_arguments.delta"
        || str_eq ty "response.custom_tool_call_input.delta"
    then arguments_delta z now (str_eq ty "response.custom_tool_call_input.delta") event s
    else if str_eq ty "response.custom_tool_call_input.done"
    then custom_input_done z now event s
    else if str_eq ty "response.completed"
        || str_eq ty "response.incomplete"
        || str_eq ty "response.failed"
    then response_terminal z now ty event s
    else (s, [])

unfoldable pub responses_event_to_openai_chunks : SerdeText → ℕ → Value → StreamState → Emitted
unfolding by_type
responses_event_to_openai_chunks z now event s = by_type z now (event_type event) event s
