-- ===== src/RequestProcessing.antt =====
-- src/request_processing.rs and src/provider_state_controls.rs: whether a request must be rewritten
-- on its way to the upstream.
pub mod Forwarding
use llm_universal_proxy.Prelude.{
  String, Bool, true, false, not, ◌&&◌, ◌||◌, Option, none, some, List, [], ◌∷◌, ◌++◌, any, trim,
  str_eq, starts_with, and_then, is_some, is_none, one_of, if◌then◌else◌,
}
use llm_universal_proxy.Json.Value.{
  Value, null, bool, Fields, end, entry, get, field, as_str, as_array, as_object,
}
use llm_universal_proxy.Formats.{
  UpstreamFormat, anthropic, open_ai_chat_completions, open_ai_responses, is_same,
}
use llm_universal_proxy.PromptCache.{PromptCacheRequestControl, no_control, classify}

pub data RequestProcessing : Type 0 where
  transformation_not_required transformation_required : RequestProcessing

pub data StateBridgeModifier : Type 0 where
  off capture_candidate expanded : StateBridgeModifier

pub record RequestProcessingInfo : Type 0 where
  pub request_processing : RequestProcessing
  pub zero_transform_forwarding_active : Bool
  pub state_bridge : StateBridgeModifier
  pub provider_native_prompt_cache : PromptCacheRequestControl

-- `RequestProcessingInfo::default`
abbrev pub default_info : RequestProcessingInfo
default_info = record {
  request_processing = transformation_required;
  zero_transform_forwarding_active = false;
  state_bridge = off;
  provider_native_prompt_cache = no_control;
}

pub record RequestProcessingInput : Type 0 where
  pub client_format : UpstreamFormat
  pub upstream_format : UpstreamFormat
  pub body : Value
  pub requested_model : String
  pub upstream_model : String
  pub stream : Bool
  pub forced_stream : Bool
  pub route_policy_requires_body_mutation : Bool
  pub state_bridge : StateBridgeModifier

abbrev pub is_off : StateBridgeModifier → Bool
is_off off = true
is_off _ = false

unfoldable pub provider_state_control_enabled : Option Value → Bool
provider_state_control_enabled none = false
provider_state_control_enabled (some null) = false
provider_state_control_enabled (some (bool false)) = false
provider_state_control_enabled (some _) = true

abbrev only_if : Bool → String → List String
only_if true s = s ∷ []
only_if false s = []

unfoldable pub responses_stateful_request_controls : Value → List String
unfolding provider_state_control_enabled
responses_stateful_request_controls body =
    only_if (is_some (get body "previous_response_id")) "previous_response_id"
    ++ (only_if (is_some (get body "conversation")) "conversation"
        ++ (only_if (provider_state_control_enabled (get body "background")) "background"
            ++ (only_if (provider_state_control_enabled (get body "store")) "store"
                ++ (only_if (is_some (get body "prompt")) "prompt"
                    ++ only_if (is_some (get body "context_management")) "context_management"))))

abbrev is_nil : List String → Bool
is_nil [] = true
is_nil (_ ∷ _) = false

unfoldable pub responses_stateful_request_controls_present : Value → Bool
unfolding responses_stateful_request_controls
responses_stateful_request_controls_present body =
    not (is_nil (responses_stateful_request_controls body))

abbrev pub text_is : Option String → String → Bool
text_is none t = false
text_is (some s) t = str_eq s t

abbrev pub role_of : Value → Option String
role_of message = and_then (get message "role") as_str

abbrev pub some_item : (Value → Bool) → Option (List Value) → Bool
some_item p none = false
some_item p (some vs) = any p vs

unfoldable pub openai_chat_has_instruction_roles : Value → Bool
openai_chat_has_instruction_roles body =
    some_item (λ m. text_is (role_of m) "system" || text_is (role_of m) "developer")
      (and_then (get body "messages") as_array)

only_role_and_content : Fields → Bool
only_role_and_content end = true
only_role_and_content (entry k v o) =
    (str_eq k "role" || str_eq k "content") && only_role_and_content o

abbrev when_plain : Bool → String → Option String
when_plain true role = some role
when_plain false role = none

unfoldable pub openai_string_message_role_if_coalescible : Value → Option String
unfolding only_role_and_content
openai_string_message_role_if_coalescible message = and_then (role_of message) (λ role.
    and_then (and_then (get message "content") as_str)
      (λ _. and_then (as_object message) (λ o. when_plain (only_role_and_content o) role)))

abbrev pub same_role : Option String → Option String → Bool
same_role none r = false
same_role (some l) r = text_is r l

-- `messages.windows(2).any(…)`
unfoldable pub adjacent_same : List Value → Bool
adjacent_same [] = false
adjacent_same (a ∷ []) = false
adjacent_same (a ∷ b ∷ rest) =
    same_role (openai_string_message_role_if_coalescible a)
      (openai_string_message_role_if_coalescible b)
    || adjacent_same (b ∷ rest)

abbrev pub in_messages : (List Value → Bool) → Option (List Value) → Bool
in_messages p none = false
in_messages p (some vs) = p vs

unfoldable pub openai_chat_has_adjacent_coalescible_string_messages : Value → Bool
unfolding adjacent_same
openai_chat_has_adjacent_coalescible_string_messages body =
    in_messages adjacent_same (and_then (get body "messages") as_array)

unfoldable pub responses_input_has_developer_role : Value → Bool
responses_input_has_developer_role body =
    some_item
      (λ item.
        text_is (and_then (get item "type") as_str) "message" && text_is (role_of item) "developer")
      (and_then (get body "input") as_array)

unfoldable pub by_protocol : UpstreamFormat → RequestProcessingInput → Bool
by_protocol open_ai_chat_completions input =
    openai_chat_has_instruction_roles input.body
    || openai_chat_has_adjacent_coalescible_string_messages input.body
    || starts_with input.upstream_model "MiniMax-"
by_protocol open_ai_responses input = input.stream && responses_input_has_developer_role input.body
by_protocol anthropic input = false

unfoldable pub same_protocol_request_mutation_required : RequestProcessingInput → Bool
unfolding by_protocol
same_protocol_request_mutation_required input =
    if not (is_same input.client_format input.upstream_format)
    then false
    else by_protocol input.client_format input

abbrev pub has_model : Value → Option Bool
has_model body = and_then (as_object body) (λ o. some (is_some (field "model" o)))

abbrev is_true : Option Bool → Bool
is_true none = false
is_true (some b) = b

-- What the two tests on a native request with no model have in common.
abbrev pub is_native_model_less : RequestProcessingInput → Bool
is_native_model_less input =
    is_same input.client_format open_ai_responses
    && is_same input.upstream_format open_ai_responses
    && str_eq (trim input.requested_model) ""
    && str_eq (trim input.upstream_model) ""

unfoldable pub native_responses_model_less_stateful_passthrough_without_model_insertion :
    RequestProcessingInput → Bool
native_responses_model_less_stateful_passthrough_without_model_insertion input =
    is_native_model_less input
    && is_true (and_then (has_model input.body) (λ b. some (not b)))
    && responses_stateful_request_controls_present input.body

unfoldable pub native_responses_model_less_stateful_model_removal : RequestProcessingInput → Bool
native_responses_model_less_stateful_model_removal input =
    is_native_model_less input
    && is_true (has_model input.body)
    && responses_stateful_request_controls_present input.body

abbrev model_differs : String → Option Fields → Bool
model_differs model none = false
model_differs model (some o) = not (text_is (and_then (field "model" o) as_str) model)

unfoldable pub model_body_mutation_required : RequestProcessingInput → Bool
model_body_mutation_required input =
    if native_responses_model_less_stateful_passthrough_without_model_insertion input
    then false
    else if native_responses_model_less_stateful_model_removal input
    then true
    else if not (str_eq (trim input.requested_model) (trim input.upstream_model))
    then true
    else model_differs input.upstream_model (as_object input.body)

unfoldable pub request_transformation_required : RequestProcessingInput → Bool
request_transformation_required input =
    not (is_same input.client_format input.upstream_format)
    || not (is_off input.state_bridge)
    || input.forced_stream
    || model_body_mutation_required input
    || input.route_policy_requires_body_mutation
    || same_protocol_request_mutation_required input

unfoldable pub classify_request_processing : RequestProcessingInput → RequestProcessingInfo
classify_request_processing input = record {
  request_processing =
      if request_transformation_required input
      then transformation_required
      else transformation_not_required;
  zero_transform_forwarding_active = false;
  state_bridge = input.state_bridge;
  provider_native_prompt_cache = classify input.client_format input.upstream_format input.body;
}
