-- ===== src/Detect.antt =====
-- src/detect.rs: which wire format a request speaks, from its path and its body.
pub mod Evidence
use llm_universal_proxy.Prelude.{
  String, Bool, true, false, ◌&&◌, ◌||◌, not, Option, none, some, List, [], ◌∷◌, any, and_then,
  is_some, is_none, find?, str_eq, if◌then◌else◌,
}
use llm_universal_proxy.Json.Value.{Value, get, as_str, as_array, is_array, is_string}
use llm_universal_proxy.Formats.{
  UpstreamFormat, anthropic, open_ai_chat_completions, open_ai_responses,
}

abbrev pub contains : String → String → Bool
contains s t = is_some (find? s t)

abbrev pub has : Value → String → Bool
has body key = is_some (get body key)

abbrev pub has_array : Value → String → Bool
has_array body key = is_some (and_then (get body key) as_array)

unfoldable pub detect_by_path : String → Value → Option UpstreamFormat
detect_by_path path body =
    if contains path "/openai/v1/responses"
    then some open_ai_responses
    else if contains path "/anthropic/v1/messages"
    then some anthropic
    else if contains path "/openai/v1/chat/completions" && has_array body "input"
    then some open_ai_responses
    else none

abbrev text_is : Option String → String → Bool
text_is none t = false
text_is (some s) t = str_eq s t

abbrev is_claude_image : Value → Bool
is_claude_image c =
    text_is (and_then (get c "type") as_str) "image"
    && text_is (and_then (get c "source") (λ s. and_then (get s "type") as_str)) "base64"

abbrev is_claude_tool : Value → Bool
is_claude_tool c =
    text_is (and_then (get c "type") as_str) "tool_use"
    || text_is (and_then (get c "type") as_str) "tool_result"

abbrev has_claude_part : Option (List Value) → Bool
has_claude_part none = false
has_claude_part (some arr) = any is_claude_image arr || any is_claude_tool arr

-- The content of the first message holds a part that only Anthropic's format has.
first_is_claude : List Value → Bool
first_is_claude [] = false
first_is_claude (first ∷ _) = has_claude_part (and_then (get first "content") as_array)

abbrev is_list_or_text : Option Value → Bool
is_list_or_text none = false
is_list_or_text (some v) = is_array v || is_string v

unfoldable pub is_responses_body : Value → Bool
is_responses_body body =
    has body "input" && is_none (get body "messages") && is_list_or_text (get body "input")

unfoldable pub has_openai_field : Value → Bool
has_openai_field body =
    has body "stream_options"
    || has body "response_format"
    || has body "logprobs"
    || has body "top_logprobs"
    || has body "n"
    || has body "presence_penalty"
    || has body "frequency_penalty"
    || has body "logit_bias"
    || has body "user"

abbrev claude_messages : Value → Option (List Value) → Bool
claude_messages body none = false
claude_messages body (some messages) =
    has body "system" || has body "anthropic_version" || first_is_claude messages

unfoldable pub is_claude_body : Value → Bool
unfolding first_is_claude
is_claude_body body = claude_messages body (and_then (get body "messages") as_array)

unfoldable pub detect_by_body : Value → UpstreamFormat
unfolding is_responses_body has_openai_field is_claude_body
detect_by_body body =
    if is_responses_body body
    then open_ai_responses
    else if has_openai_field body
    then open_ai_chat_completions
    else if is_claude_body body
    then anthropic
    else open_ai_chat_completions

abbrev or_body : Option UpstreamFormat → Value → UpstreamFormat
or_body none body = detect_by_body body
or_body (some by_path) body = by_path

unfoldable pub detect_request_format : String → Value → UpstreamFormat
unfolding detect_by_path
detect_request_format path body = or_body (detect_by_path path body) body
