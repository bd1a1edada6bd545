-- ===== src/Tests/Routes.antt =====
-- Where a request goes: src/config.rs, src/discovery.rs, src/detect.rs and
-- src/request_processing.rs.
use llm_universal_proxy.Prelude.{
  String, ℕ, ◌≡◌, ◌≢◌, refl, some, none, [], ◌∷◌, ok, Bool, true, is_some, trim, Option, str_eq,
  if◌then◌else◌,
}
use llm_universal_proxy.Prelude.Map
use llm_universal_proxy.Json.Value.{Value, string, object, array, nil, cons, entry, end, field, get}
use llm_universal_proxy.Formats.{anthropic, open_ai_chat_completions, open_ai_responses, is_same}
use llm_universal_proxy.Routing.{
  Config, UpstreamConfig, ResolvedModel, resolve_model, upstream, validate_aliases, validate_limits,
  split_once, build_upstream_url, trim_end_slash,
}
use llm_universal_proxy.Routing.Resolution.{resolve_model-IsKnown}
use llm_universal_proxy.Discovery.{
  Probe, UpstreamCapability, contains, from_supported, upstream_format_for_request,
  should_passthrough,
}
use llm_universal_proxy.Discovery.Capability.{from_supported-IsServed}
use llm_universal_proxy.Detect.{detect_request_format}
use llm_universal_proxy.Detect.Evidence.{Evidence, detect-Evidence}
use llm_universal_proxy.PromptCache.{
  classify, explicit_extension_mapped, openai_extra_body_anthropic_cache_control_present,
}
use llm_universal_proxy.PromptCache.Analysis.{analyze, coarse_control}
use llm_universal_proxy.PromptCache.Analysis.Coarse.{coarse_control-analyze}
use llm_universal_proxy.RequestProcessing.{
  RequestProcessingInput, off, transformation_not_required, classify_request_processing,
  request_transformation_required, model_body_mutation_required,
  native_responses_model_less_stateful_passthrough_without_model_insertion,
  native_responses_model_less_stateful_model_removal, same_protocol_request_mutation_required,
  openai_chat_has_instruction_roles, openai_chat_has_adjacent_coalescible_string_messages,
  openai_string_message_role_if_coalescible,
}
use llm_universal_proxy.RoleRepair.SameFormat.{same_format_repairs}
use llm_universal_proxy.RoleRepair.Unchanged.{classify-IsUnchanged}

abbrev glm : UpstreamConfig
glm = record {
  name = "glm";
  api_root = "https://example.com/v1/";
  limits = none;
  surface_defaults = none;
}

abbrev config : Config
config = record {
  upstreams = glm ∷ record glm { name = "openai" } ∷ [];
  model_aliases =
      (
        "fast",
        record { upstream_name = "openai"; upstream_model = "mini"; limits = none; surface = none },
      )
      ∷ [];
}

url_test : build_upstream_url glm.api_root anthropic ≡ "https://example.com/v1/messages"
unfolding build_upstream_url trim_end_slash
url_test = refl

config_valid : validate_aliases config ≡ ok tt
unfolding validate_aliases validate_limits upstream trim
config_valid = refl

abbrev mini : ResolvedModel
mini = record { upstream_name = "openai"; upstream_model = "mini" }

fast : resolve_model config "fast" ≡ ok mini
unfolding resolve_model split_once upstream Map.get
fast = refl

resolve_model-IsKnown_example : is_some (upstream config "openai") ≡ true
resolve_model-IsKnown_example = resolve_model-IsKnown config config_valid "fast" mini fast

glm_known : upstream config "glm" ≡ some glm
unfolding upstream
glm_known = refl

not_blank : trim "GLM-5" ≢ ""
unfolding trim
not_blank h = cc

abbrev capability : UpstreamCapability
capability = record {
  supported = anthropic ∷ open_ai_responses ∷ [];
  default_target = open_ai_responses;
}

capable : from_supported (anthropic ∷ open_ai_responses ∷ []) ≡ some capability
unfolding from_supported
capable = refl

from_supported-IsServed_example :
    (contains
        (upstream_format_for_request capability open_ai_chat_completions)
        (anthropic ∷ open_ai_responses ∷ [])
      ≡ true)
    × (should_passthrough capability open_ai_chat_completions
        ≡ is_same
            (upstream_format_for_request capability open_ai_chat_completions)
            open_ai_chat_completions)
from_supported-IsServed_example =
    from_supported-IsServed (anthropic ∷ open_ai_responses ∷ []) capability open_ai_chat_completions
      capable

-- An upstream that knows its Anthropic endpoint only.
abbrev only_messages : Probe → Option ℕ
only_messages p = if str_eq p.url "https://example.com/v1/messages" then some 401 else some 404

abbrev claude_body : Value
claude_body = object (entry "system" (string "s") (entry "messages" (array nil) end))

detect-Evidence_example :
    Evidence (detect_request_format "/v1/chat" claude_body) "/v1/chat" claude_body
detect-Evidence_example = detect-Evidence "/v1/chat" claude_body

abbrev chat_input : RequestProcessingInput
chat_input = record {
  client_format = open_ai_chat_completions;
  upstream_format = open_ai_chat_completions;
  body = object (
      entry "model" (string "m") (
        entry "messages"
          (array
            (cons (object (entry "role" (string "user") (entry "content" (string "hi") end))) nil))
          end));
  requested_model = "m";
  upstream_model = "m";
  stream = true;
  forced_stream = Bool.false;
  route_policy_requires_body_mutation = Bool.false;
  state_bridge = off;
}

forwarded :
    (classify_request_processing chat_input).request_processing ≡ transformation_not_required
unfolding classify_request_processing request_transformation_required model_body_mutation_required
    native_responses_model_less_stateful_passthrough_without_model_insertion
    native_responses_model_less_stateful_model_removal same_protocol_request_mutation_required
    openai_chat_has_instruction_roles openai_chat_has_adjacent_coalescible_string_messages
    openai_string_message_role_if_coalescible trim get field
forwarded = refl

classify-IsUnchanged_example :
    (chat_input.client_format ≡ chat_input.upstream_format)
    × (same_format_repairs chat_input.client_format chat_input.stream chat_input.upstream_model
          chat_input.body
        ≡ chat_input.body)
classify-IsUnchanged_example = classify-IsUnchanged chat_input forwarded

abbrev message : String → String → Value
message role content = object (entry "role" (string role) (entry "content" (string content) end))

-- Instructions become the user's, and join what the user says.
repaired :
    same_format_repairs open_ai_chat_completions Bool.false "m" (
      object (
        entry "messages"
          (array (cons (message "system" "be brief") (cons (message "user" "hi") nil)))
          end))
    ≡ object (
        entry "messages"
          (array (cons (message "user" "System instructions:\nbe brief\n\nhi") nil))
          end)
unfolding same_format_repairs openai_string_message_role_if_coalescible get field
repaired = refl

abbrev cached : Value
cached = object (
    entry "prompt_cache_key" (string "k") (
      entry "extra_body"
        (object (entry "anthropic" (object (entry "cache_control" (string "c") end)) end)) end))

coarse_control-analyze_example :
    coarse_control (analyze open_ai_responses anthropic cached)
    ≡ classify open_ai_responses anthropic cached
coarse_control-analyze_example = coarse_control-analyze open_ai_responses anthropic cached

mapped : classify open_ai_responses anthropic cached ≡ explicit_extension_mapped
unfolding classify openai_extra_body_anthropic_cache_control_present get field
mapped = refl
