-- ===== src/PromptCache.antt =====
-- src/prompt_cache_controls.rs: what becomes of a client's prompt cache controls on the way to an
-- upstream, in one word and in detail. The synthesis of keys is not modelled.
pub mod Fields
pub mod Analysis
use llm_universal_proxy.Prelude.{
  String, Bool, true, false, ◌&&◌, ◌||◌, Option, none, some, List, [], ◌∷◌, ◌++◌, any, or_option,
  and_then, is_some, if◌then◌else◌,
}
use llm_universal_proxy.Json.Value.{
  Value, null, bool, number, string, array, object, items, get, as_array,
}
use llm_universal_proxy.Formats.{
  UpstreamFormat, anthropic, open_ai_chat_completions, open_ai_responses, is_same,
}

pub data PromptCacheRequestControl : Type 0 where
  no_control preserved explicit_extension_mapped synthesized dropped : PromptCacheRequestControl

abbrev pub has : Value → String → Bool
has body key = is_some (get body key)

-- `get(key).and_then(as_array).is_some_and(|vs| vs.iter().any(p))`
abbrev pub some_any : (Value → Bool) → Option (List Value) → Bool
some_any p none = false
some_any p (some vs) = any p vs

abbrev pub holds : (Value → Bool) → Option Value → Bool
holds p none = false
holds p (some v) = p v

abbrev pub project_prompt_cache_request_control : Bool → Bool → Bool → PromptCacheRequestControl
project_prompt_cache_request_control mapped_present dropped_present preserved_present =
    if mapped_present
    then explicit_extension_mapped
    else if dropped_present
    then dropped
    else if preserved_present
    then preserved
    else no_control

abbrev pub openai_family_format : UpstreamFormat → Bool
openai_family_format open_ai_chat_completions = true
openai_family_format open_ai_responses = true
openai_family_format anthropic = false

unfoldable pub openai_family_prompt_cache_top_level_fields_present : Value → Bool
openai_family_prompt_cache_top_level_fields_present body =
    has body "prompt_cache_key" || has body "prompt_cache_retention"

abbrev pub openai_extra_body_anthropic_cache_control : Value → Option Value
openai_extra_body_anthropic_cache_control body =
    and_then (and_then (get body "extra_body") (λ e. get e "anthropic"))
      (λ a. get a "cache_control")

unfoldable pub openai_extra_body_anthropic_cache_control_present : Value → Bool
openai_extra_body_anthropic_cache_control_present body =
    is_some (openai_extra_body_anthropic_cache_control body)

abbrev pub anthropic_extra_body_openai_prompt_cache_controls : Value → Option Value
anthropic_extra_body_openai_prompt_cache_controls body =
    and_then (get body "extra_body") (λ e. get e "openai")

unfoldable pub anthropic_extra_body_openai_prompt_cache_key_present : Value → Bool
anthropic_extra_body_openai_prompt_cache_key_present body =
    holds (λ o. has o "prompt_cache_key") (anthropic_extra_body_openai_prompt_cache_controls body)

abbrev pub anthropic_block_cache_control_present : Value → Bool
anthropic_block_cache_control_present block = has block "cache_control"

abbrev pub anthropic_message_cache_control_present : Value → Bool
anthropic_message_cache_control_present message =
    some_any anthropic_block_cache_control_present (and_then (get message "content") as_array)

-- The match on `system`, for a test of one block.
abbrev pub in_system : (Value → Bool) → Value → Bool
in_system p (array blocks) = any p (items blocks)
in_system p (object o) = p (object o)
in_system p null = false
in_system p (bool _) = false
in_system p (number _) = false
in_system p (string _) = false

abbrev pub anthropic_system_cache_control_present : Value → Bool
anthropic_system_cache_control_present = in_system anthropic_block_cache_control_present

unfoldable pub anthropic_protocol_cache_control_present : Value → Bool
anthropic_protocol_cache_control_present body =
    has body "cache_control"
    || holds anthropic_system_cache_control_present (get body "system")
    || some_any anthropic_message_cache_control_present (and_then (get body "messages") as_array)
    || some_any anthropic_block_cache_control_present (and_then (get body "tools") as_array)

-- `classify_provider_prompt_cache_request_control`
unfoldable pub classify : UpstreamFormat → UpstreamFormat → Value → PromptCacheRequestControl
classify client_format upstream_format body =
    project_prompt_cache_request_control
      (openai_family_format client_format
          && is_same upstream_format anthropic
          && openai_extra_body_anthropic_cache_control_present body
        || is_same client_format anthropic
          && openai_family_format upstream_format
          && anthropic_extra_body_openai_prompt_cache_key_present body)
      (openai_family_format client_format
          && is_same upstream_format anthropic
          && openai_family_prompt_cache_top_level_fields_present body
        || is_same client_format anthropic
          && openai_family_format upstream_format
          && anthropic_protocol_cache_control_present body)
      (openai_family_format client_format
          && openai_family_format upstream_format
          && openai_family_prompt_cache_top_level_fields_present body
        || is_same client_format upstream_format
          && is_same client_format anthropic
          && anthropic_protocol_cache_control_present body)
