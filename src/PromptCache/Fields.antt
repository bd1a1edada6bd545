-- ===== src/PromptCache/Fields.antt =====
-- src/prompt_cache_controls.rs: the names of the fields that prompt cache controls come from.
use llm_universal_proxy.Prelude.{
  String, Bool, true, false, Option, none, some, List, [], ◌∷◌, ◌++◌, any, and_then, is_some,
  or_option,
}
use llm_universal_proxy.Json.Value.{Value, object, array, items, get, as_array}
use llm_universal_proxy.PromptCache.{
  has, some_any, holds, openai_extra_body_anthropic_cache_control,
  anthropic_extra_body_openai_prompt_cache_controls, anthropic_block_cache_control_present,
  anthropic_message_cache_control_present, anthropic_system_cache_control_present,
}

abbrev pub then_some : Bool → String → Option String
then_some true s = some s
then_some false s = none

abbrev pub push_if : Bool → String → List String
push_if true s = s ∷ []
push_if false s = []

unfoldable pub openai_family_top_level_prompt_cache_fields : Value → List String
openai_family_top_level_prompt_cache_fields body =
    push_if (has body "prompt_cache_key") "prompt_cache_key"
    ++ push_if (has body "prompt_cache_retention") "prompt_cache_retention"

abbrev pub openai_family_prompt_cache_retention_source : Value → Option String
openai_family_prompt_cache_retention_source body =
    then_some (has body "prompt_cache_retention") "prompt_cache_retention"

abbrev pub openai_extra_body_anthropic_cache_control_ttl_source : Value → Option String
openai_extra_body_anthropic_cache_control_ttl_source body =
    and_then (openai_extra_body_anthropic_cache_control body)
      (λ c. then_some (has c "ttl") "extra_body.anthropic.cache_control.ttl")

abbrev pub extra_body_fields : Option Value → List String
extra_body_fields none = []
extra_body_fields (some openai) =
    push_if (has openai "prompt_cache_key") "extra_body.openai.prompt_cache_key"
    ++ push_if (has openai "prompt_cache_retention") "extra_body.openai.prompt_cache_retention"

unfoldable pub anthropic_extra_body_openai_prompt_cache_fields : Value → List String
anthropic_extra_body_openai_prompt_cache_fields body =
    extra_body_fields (anthropic_extra_body_openai_prompt_cache_controls body)

abbrev pub anthropic_extra_body_openai_retention_source : Value → Option String
anthropic_extra_body_openai_retention_source body =
    and_then (anthropic_extra_body_openai_prompt_cache_controls body)
      (λ o. then_some (has o "prompt_cache_retention") "extra_body.openai.prompt_cache_retention")

abbrev pub anthropic_system_cache_control_field : Option Value → String
anthropic_system_cache_control_field (some (object _)) = "system.cache_control"
anthropic_system_cache_control_field _ = "system[].cache_control"

unfoldable pub anthropic_protocol_cache_control_fields : Value → List String
anthropic_protocol_cache_control_fields body =
    push_if (has body "cache_control") "cache_control"
    ++ (push_if (holds anthropic_system_cache_control_present (get body "system"))
          (anthropic_system_cache_control_field (get body "system"))
        ++ (push_if
              (some_any anthropic_message_cache_control_present
                (and_then (get body "messages") as_array))
              "messages[].content[].cache_control"
            ++ push_if
                (some_any anthropic_block_cache_control_present
                  (and_then (get body "tools") as_array))
                "tools[].cache_control"))

abbrev pub anthropic_block_cache_control_ttl_present : Value → Bool
anthropic_block_cache_control_ttl_present block =
    is_some (and_then (get block "cache_control") (λ c. get c "ttl"))

abbrev pub anthropic_system_cache_control_ttl_source : Option Value → Option String
anthropic_system_cache_control_ttl_source (some (array blocks)) =
    then_some (any anthropic_block_cache_control_ttl_present (items blocks))
      "system[].cache_control.ttl"
anthropic_system_cache_control_ttl_source (some (object o)) =
    then_some (anthropic_block_cache_control_ttl_present (object o)) "system.cache_control.ttl"
anthropic_system_cache_control_ttl_source _ = none

unfoldable pub anthropic_protocol_cache_control_ttl_source : Value → Option String
anthropic_protocol_cache_control_ttl_source body =
    or_option
      (then_some (is_some (and_then (get body "cache_control") (λ c. get c "ttl")))
        "cache_control.ttl")
      (or_option (anthropic_system_cache_control_ttl_source (get body "system")) (
        or_option
          (then_some
            (some_any
              (λ m.
                some_any anthropic_block_cache_control_ttl_present
                  (and_then (get m "content") as_array))
              (and_then (get body "messages") as_array))
            "messages[].content[].cache_control.ttl")
          (then_some
            (some_any anthropic_block_cache_control_ttl_present
              (and_then (get body "tools") as_array))
            "tools[].cache_control.ttl")))
