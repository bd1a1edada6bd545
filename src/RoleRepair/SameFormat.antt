-- ===== src/RoleRepair/SameFormat.antt =====
-- src/translate/internal.rs: the repairs that `translate_request_with_policy` makes to a request that
-- goes out in the format that it came in, before the defaults of the route's policy.
use llm_universal_proxy.Prelude.{
  String, Bool, true, not, ◌&&◌, Option, none, some, map, starts_with, is_empty, is_some,
  if◌then◌else◌, ◌||◌,
}
use llm_universal_proxy.Json.Value.{
  Value, bool, string, array, object, nil, cons, end, entry, get, field,
}
use llm_universal_proxy.Formats.{UpstreamFormat, open_ai_chat_completions, is_same}
use llm_universal_proxy.RequestProcessing.{text_is}
use llm_universal_proxy.RoleRepair.{
  assign, assign_in, with_array, text_at, downgraded, coalesce_openai_string_messages,
  normalize_openai_roles_for_compatibility,
}

abbrev pub downgrade : Value → Value
downgrade message = downgraded message (text_at "role" message)

unfoldable pub downgrade_openai_instruction_messages_to_user_for_maximum_safe_compatibility :
    Value → Value
unfolding downgraded coalesce_openai_string_messages
downgrade_openai_instruction_messages_to_user_for_maximum_safe_compatibility body =
    coalesce_openai_string_messages (with_array "messages" (map downgrade) body)

abbrev pub apply_openai_completion_maximum_safe_role_repairs : Value → Value
apply_openai_completion_maximum_safe_role_repairs =
    downgrade_openai_instruction_messages_to_user_for_maximum_safe_compatibility

abbrev pub is_minimax_model : String → Bool
is_minimax_model model = starts_with model "MiniMax-"

-- The options of a stream, empty ones where the body has none, with the usage asked for.
abbrev include_usage : Option Value → Value
include_usage none = object (entry "include_usage" (bool true) end)
include_usage (some options) = assign_in "include_usage" (bool true) options

abbrev with_stream_options : Value → Value
with_stream_options (object o) =
    let split = assign "reasoning_split" (bool true) o in
    object (assign "stream_options" (include_usage (field "stream_options" split)) split)
with_stream_options other = other

abbrev detail : String → Value
detail reasoning = array (cons (object (entry "text" (string reasoning) end)) nil)

unfoldable pub with_details : Value → Option String → Value
unfolding assign_in
with_details message none = message
with_details message (some reasoning) =
    if is_empty reasoning then message else assign_in "reasoning_details" (detail reasoning) message

unfoldable pub with_reasoning_details : Value → Value
unfolding with_details
with_reasoning_details message =
    if not (text_is (text_at "role" message) "assistant")
      || is_some (get message "reasoning_details")
    then message
    else with_details message (text_at "reasoning_content" message)

unfoldable pub apply_openai_completion_compat_overrides : String → Value → Value
unfolding with_reasoning_details
apply_openai_completion_compat_overrides model body =
    if not (is_minimax_model model)
    then body
    else with_array "messages" (map with_reasoning_details) (with_stream_options body)

unfoldable pub same_format_repairs : UpstreamFormat → Bool → String → Value → Value
unfolding normalize_openai_roles_for_compatibility apply_openai_completion_compat_overrides
    downgrade_openai_instruction_messages_to_user_for_maximum_safe_compatibility
same_format_repairs format stream model body =
    let roles =
      if stream && not (is_same format open_ai_chat_completions)
      then normalize_openai_roles_for_compatibility format body
      else body in
    if is_same format open_ai_chat_completions
    then apply_openai_completion_compat_overrides model
        (apply_openai_completion_maximum_safe_role_repairs roles)
    else roles
