-- ===== src/Streaming/Finish.antt =====
-- The end of a Responses stream, src/streaming/responses_source.rs: the model and the usage of the
-- response, and the finish reason. src/translate/internal.rs: the reason for a failure.
pub mod Captured
use llm_universal_proxy.Prelude.{
  ℕ, String, Bool, true, false, not, ◌||◌, Option, none, some, List, [], ◌∷◌, str_eq, one_of, any,
  and_then, unwrap_or, or_option, contains, to_ascii_lowercase, if◌then◌else◌,
}
use llm_universal_proxy.Json.Value.{Value, end, get, as_array}
use llm_universal_proxy.Streaming.{
  StreamState, Emitted, set_key, event_str, openai_chunk, with_usage,
}
use llm_universal_proxy.Streaming.Usage.{responses_usage_to_openai_usage_stream}

abbrev pub output_of : Value → List Value
output_of event =
    unwrap_or (and_then (and_then (get event "response") λ r. get r "output") as_array) []

abbrev content_filter_names : List String
content_filter_names =
    "safety" ∷ "recitation" ∷ "blocklist" ∷ "prohibited_content" ∷ "spii" ∷ "image_safety"
    ∷ "image_prohibited_content" ∷ "image_recitation" ∷ "content_filter" ∷ []

abbrev content_filter_parts : List String
content_filter_parts = "safety" ∷ "policy" ∷ "block" ∷ "prohibited" ∷ "recitation" ∷ "spii" ∷ []

abbrev tool_error_names : List String
tool_error_names =
    "malformed_function_call" ∷ "unexpected_tool_call" ∷ "too_many_tool_calls"
    ∷ "missing_thought_signature" ∷ []

abbrev tool_error_parts : List String
tool_error_parts = "tool" ∷ "function" ∷ "signature" ∷ "schema" ∷ "validation" ∷ []

-- src/translate/internal.rs. The source compares the upper case with upper-case names: the model
-- compares the lower case with the same names in lower case.
unfoldable pub classify_portable_non_success_terminal : Option String → String
classify_portable_non_success_terminal none = "error"
classify_portable_non_success_terminal (some code_or_reason) =
    let lower = to_ascii_lowercase code_or_reason in
    if str_eq lower "context_length_exceeded"
    then "context_length_exceeded"
    else if one_of lower content_filter_names || any (contains lower) content_filter_parts
    then "content_filter"
    else if one_of lower tool_error_names || any (contains lower) tool_error_parts
    then "tool_error"
    else "error"

-- `capture_responses_model`
with_model : Option String → StreamState → StreamState
with_model (some model) s = record s { model = some model }
with_model none s = record s { model = or_option s.model (some "unknown") }

unfoldable pub capture_responses_model : Value → StreamState → StreamState
unfolding with_model
capture_responses_model resp s = with_model (event_str resp "model") s

abbrev is_call_item : Value → Bool
is_call_item item =
    one_of (unwrap_or (event_str item "type") "") ("function_call" ∷ "custom_tool_call" ∷ [])

abbrev incomplete_reason : Option String → String
incomplete_reason none = "stop"
incomplete_reason (some reason) =
    if str_eq reason "max_output_tokens"
    then "length"
    else if str_eq reason "content_filter"
    then "content_filter"
    else if str_eq reason "pause_turn"
    then "pause_turn"
    else "stop"

abbrev response_part : Value → String → String → Option String
response_part event part key =
    and_then (get event "response") λ r. and_then (get r part) λ v. event_str v key

unfoldable pub terminal_finish_reason : String → Value → StreamState → String
unfolding one_of classify_portable_non_success_terminal
terminal_finish_reason ty event s =
    let has_tool_calls = not (is_none_announced s) || any is_call_item (output_of event) in
    if str_eq ty "response.incomplete"
    then incomplete_reason (response_part event "incomplete_details" "reason")
    else if str_eq ty "response.failed"
    then classify_portable_non_success_terminal (response_part event "error" "code")
    else if has_tool_calls
    then "tool_calls"
    else "stop"
  where
    is_none_announced : StreamState → Bool
    is_none_announced t = elim t.openai_tool_calls [ [] ↦ true | _ ∷ _ ↦ false ]

captured_usage : Option Value → StreamState → StreamState
unfolding responses_usage_to_openai_usage_stream
captured_usage none s = s
captured_usage (some u) s = record s { usage = some (responses_usage_to_openai_usage_stream u) }

-- The model and the usage of the response that ends a stream.
unfoldable pub captured_response : Option Value → StreamState → StreamState
unfolding capture_responses_model captured_usage
captured_response none s = s
captured_response (some resp) s = captured_usage (get resp "usage") (capture_responses_model resp s)

-- The one chunk that finishes the stream.
unfoldable pub finish_stream : ℕ → String → Value → StreamState → Emitted
unfolding terminal_finish_reason openai_chunk with_usage
finish_stream now ty event s = if s.finish_reason_sent then (s, []) else (
  record s { finish_reason_sent = true },
  with_usage s.usage (openai_chunk now s end (some (terminal_finish_reason ty event s))) ∷ [],
)
