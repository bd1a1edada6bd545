-- ===== src/PromptCache/Analysis/Coarse.antt =====
-- The analysis of prompt cache controls and their classification in one word agree.
use llm_universal_proxy.Prelude.{
  ◌≡◌, refl, Bool, true, false, String, List, [], ◌∷◌, ◌++◌, arith, and_then, any, not, ◌||◌,
}
use llm_universal_proxy.Json.Value.{Value, get, as_array}
use llm_universal_proxy.Formats.{
  UpstreamFormat, anthropic, open_ai_chat_completions, open_ai_responses,
}
use llm_universal_proxy.PromptCache.{
  classify, has, holds, some_any, anthropic_system_cache_control_present,
  anthropic_message_cache_control_present, anthropic_block_cache_control_present,
  openai_family_prompt_cache_top_level_fields_present,
  anthropic_extra_body_openai_prompt_cache_key_present, anthropic_protocol_cache_control_present,
}
use llm_universal_proxy.PromptCache.Fields.{
  openai_family_top_level_prompt_cache_fields, anthropic_extra_body_openai_prompt_cache_fields,
  anthropic_protocol_cache_control_fields, push_if, anthropic_system_cache_control_field,
}
use llm_universal_proxy.PromptCache.Analysis.{
  analyze, coarse_control, components_of, mapped_to_anthropic, dropped_before_anthropic,
  mapped_to_openai, dropped_before_openai, preserved_openai, preserved_anthropic,
}

-- The control that the detailed analysis comes to is the one that the classification gives, for
-- each pair of formats and each body.
pub coarse_control-analyze :
    (client upstream : UpstreamFormat) (body : Value)
    → coarse_control (analyze client upstream body) ≡ classify client upstream body
unfolding coarse_control analyze components_of classify mapped_to_anthropic dropped_before_anthropic
    mapped_to_openai dropped_before_openai preserved_openai preserved_anthropic
coarse_control-analyze anthropic anthropic body = ground arith
coarse_control-analyze anthropic open_ai_chat_completions body = ground arith
coarse_control-analyze anthropic open_ai_responses body = ground arith
coarse_control-analyze open_ai_chat_completions anthropic body = ground arith
coarse_control-analyze open_ai_chat_completions open_ai_chat_completions body = ground arith
coarse_control-analyze open_ai_chat_completions open_ai_responses body = ground arith
coarse_control-analyze open_ai_responses anthropic body = ground arith
coarse_control-analyze open_ai_responses open_ai_chat_completions body = ground arith
coarse_control-analyze open_ai_responses open_ai_responses body = ground arith

abbrev pub is_nil : List String → Bool
is_nil [] = true
is_nil (_ ∷ _) = false

openai_sourced :
    (body : Value)
    → openai_family_prompt_cache_top_level_fields_present body
      ≡ not (is_nil (openai_family_top_level_prompt_cache_fields body))
unfolding openai_family_prompt_cache_top_level_fields_present
    openai_family_top_level_prompt_cache_fields
openai_sourced body = ground arith

extra_body_sourced :
    (body : Value)
    → anthropic_extra_body_openai_prompt_cache_key_present body ≡ true
    → is_nil (anthropic_extra_body_openai_prompt_cache_fields body) ≡ false
unfolding anthropic_extra_body_openai_prompt_cache_key_present
    anthropic_extra_body_openai_prompt_cache_fields
extra_body_sourced body h = ground arith

anthropic_sourced :
    (body : Value)
    → anthropic_protocol_cache_control_present body
      ≡ not (is_nil (anthropic_protocol_cache_control_fields body))
unfolding anthropic_protocol_cache_control_present anthropic_protocol_cache_control_fields
anthropic_sourced body =
    by_tests (has body "cache_control")
      (holds anthropic_system_cache_control_present (get body "system"))
      (some_any anthropic_message_cache_control_present (and_then (get body "messages") as_array))
      (some_any anthropic_block_cache_control_present (and_then (get body "tools") as_array))
      (anthropic_system_cache_control_field (get body "system"))
  where
    by_tests :
        (a b c d : Bool) (s : String)
        → (a || b || c || d)
          ≡ not (
              is_nil (
                push_if a "cache_control"
                ++ (push_if b s
                    ++ (push_if c "messages[].content[].cache_control"
                        ++ push_if d "tools[].cache_control"))))
    by_tests true b c d s = refl
    by_tests false true c d s = refl
    by_tests false false true d s = refl
    by_tests false false false true s = refl
    by_tests false false false false s = refl

-- Every component of the analysis names a field of the body that it comes from.
pub analyze_sourced :
    (client upstream : UpstreamFormat) (body : Value)
    → any (λ c. is_nil c.source_fields) (analyze client upstream body).components ≡ false
unfolding analyze components_of mapped_to_anthropic dropped_before_anthropic mapped_to_openai
    dropped_before_openai preserved_openai preserved_anthropic
analyze_sourced client upstream body =
    ground (arith, openai_sourced body, extra_body_sourced body, anthropic_sourced body)
