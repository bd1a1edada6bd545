-- ===== src/PromptCache/Analysis.antt =====
-- src/prompt_cache_controls.rs: the analysis of a request's prompt cache controls in detail, with
-- the fields that each comes from and goes to.
pub mod Coarse
use llm_universal_proxy.Prelude.{
  String, Bool, true, false, ◌&&◌, ◌||◌, Option, none, some, List, [], ◌∷◌, ◌++◌, any, and_then,
  is_some, or_option, if◌then◌else◌,
}
use llm_universal_proxy.Json.Value.{Value, object, array, items, get, as_array}
use llm_universal_proxy.Formats.{
  UpstreamFormat, anthropic, open_ai_chat_completions, open_ai_responses, is_same,
}
use llm_universal_proxy.PromptCache.{
  PromptCacheRequestControl, preserved, explicit_extension_mapped, dropped, has, some_any, holds,
  project_prompt_cache_request_control, openai_family_format,
  openai_family_prompt_cache_top_level_fields_present, openai_extra_body_anthropic_cache_control,
  openai_extra_body_anthropic_cache_control_present,
  anthropic_extra_body_openai_prompt_cache_controls,
  anthropic_extra_body_openai_prompt_cache_key_present, anthropic_block_cache_control_present,
  anthropic_message_cache_control_present, anthropic_system_cache_control_present,
  anthropic_protocol_cache_control_present,
}
use llm_universal_proxy.PromptCache.Fields.{
  openai_family_top_level_prompt_cache_fields, openai_family_prompt_cache_retention_source,
  openai_extra_body_anthropic_cache_control_ttl_source,
  anthropic_extra_body_openai_prompt_cache_fields, anthropic_extra_body_openai_retention_source,
  anthropic_protocol_cache_control_fields, anthropic_protocol_cache_control_ttl_source,
}

pub data PromptCacheTargetProvider : Type 0 where
  to_anthropic to_openai_family : PromptCacheTargetProvider

pub data PromptCacheTargetFields : Type 0 where
  no_target anthropic_top_level_cache_control anthropic_protocol_cache_control
        openai_family_top_level_prompt_cache :
      PromptCacheTargetFields

-- `ProviderPromptCacheRequestControlComponent`
pub record Component : Type 0 where
  pub disposition : PromptCacheRequestControl
  pub source_fields : List String
  pub target_fields : PromptCacheTargetFields
  pub ttl_or_retention_source : Option String
  pub omitted_reason : Option String

-- `ProviderPromptCacheRequestControlAnalysis`
pub record Analysis : Type 0 where
  pub target_provider : PromptCacheTargetProvider
  pub components : List Component

abbrev prompt_cache_target_provider : UpstreamFormat → PromptCacheTargetProvider
prompt_cache_target_provider anthropic = to_anthropic
prompt_cache_target_provider open_ai_chat_completions = to_openai_family
prompt_cache_target_provider open_ai_responses = to_openai_family

-- `if … { components.push(…) }`
abbrev push_component : Bool → Component → List Component → List Component
push_component true c cs = c ∷ cs
push_component false c cs = cs

mapped_to_anthropic : Value → Component
mapped_to_anthropic body = record {
  disposition = explicit_extension_mapped;
  source_fields = "extra_body.anthropic.cache_control" ∷ [];
  target_fields = anthropic_top_level_cache_control;
  ttl_or_retention_source = openai_extra_body_anthropic_cache_control_ttl_source body;
  omitted_reason = none;
}

dropped_before_anthropic : Value → Component
dropped_before_anthropic body = record {
  disposition = dropped;
  source_fields = openai_family_top_level_prompt_cache_fields body;
  target_fields = no_target;
  ttl_or_retention_source = openai_family_prompt_cache_retention_source body;
  omitted_reason = some "openai_prompt_cache_key_not_anthropic_cache_control_or_breakpoint";
}

mapped_to_openai : Value → Component
mapped_to_openai body = record {
  disposition = explicit_extension_mapped;
  source_fields = anthropic_extra_body_openai_prompt_cache_fields body;
  target_fields = openai_family_top_level_prompt_cache;
  ttl_or_retention_source = anthropic_extra_body_openai_retention_source body;
  omitted_reason = none;
}

dropped_before_openai : Value → Component
dropped_before_openai body = record {
  disposition = dropped;
  source_fields = anthropic_protocol_cache_control_fields body;
  target_fields = no_target;
  ttl_or_retention_source = anthropic_protocol_cache_control_ttl_source body;
  omitted_reason = some "anthropic_cache_control_not_openai_prompt_cache_key";
}

preserved_openai : Value → Component
preserved_openai body = record {
  disposition = preserved;
  source_fields = openai_family_top_level_prompt_cache_fields body;
  target_fields = openai_family_top_level_prompt_cache;
  ttl_or_retention_source = openai_family_prompt_cache_retention_source body;
  omitted_reason = none;
}

preserved_anthropic : Value → Component
preserved_anthropic body = record {
  disposition = preserved;
  source_fields = anthropic_protocol_cache_control_fields body;
  target_fields = anthropic_protocol_cache_control;
  ttl_or_retention_source = anthropic_protocol_cache_control_ttl_source body;
  omitted_reason = none;
}

-- The components, by the branch of the chain of conditions.
components_of : UpstreamFormat → UpstreamFormat → Value → List Component
unfolding mapped_to_anthropic dropped_before_anthropic mapped_to_openai dropped_before_openai
    preserved_openai preserved_anthropic
components_of client_format upstream_format body =
    if openai_family_format client_format && is_same upstream_format anthropic
    then push_component (openai_extra_body_anthropic_cache_control_present body)
        (mapped_to_anthropic body)
        (push_component (openai_family_prompt_cache_top_level_fields_present body)
          (dropped_before_anthropic body) [])
    else if is_same client_format anthropic && openai_family_format upstream_format
    then push_component (anthropic_extra_body_openai_prompt_cache_key_present body)
        (mapped_to_openai body)
        (push_component (anthropic_protocol_cache_control_present body) (dropped_before_openai body)
          [])
    else if openai_family_format client_format && openai_family_format upstream_format
    then push_component (openai_family_prompt_cache_top_level_fields_present body)
        (preserved_openai body) []
    else if is_same client_format upstream_format
        && is_same client_format anthropic
        && anthropic_protocol_cache_control_present body
    then preserved_anthropic body ∷ []
    else []

-- `analyze_provider_prompt_cache_request_control`
unfoldable pub analyze : UpstreamFormat → UpstreamFormat → Value → Analysis
unfolding components_of
analyze client_format upstream_format body = record {
  target_provider = prompt_cache_target_provider upstream_format;
  components = components_of client_format upstream_format body;
}

abbrev is_disposition : PromptCacheRequestControl → PromptCacheRequestControl → Bool
is_disposition explicit_extension_mapped explicit_extension_mapped = true
is_disposition dropped dropped = true
is_disposition preserved preserved = true
is_disposition _ _ = false

abbrev is_mapped : Component → Bool
is_mapped c = is_disposition explicit_extension_mapped c.disposition

abbrev is_dropped : Component → Bool
is_dropped c = is_disposition dropped c.disposition

abbrev is_preserved : Component → Bool
is_preserved c = is_disposition preserved c.disposition

unfoldable pub coarse_control : Analysis → PromptCacheRequestControl
coarse_control a =
    project_prompt_cache_request_control (any is_mapped a.components) (any is_dropped a.components)
      (any is_preserved a.components)
