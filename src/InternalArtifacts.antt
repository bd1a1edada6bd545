-- ===== src/InternalArtifacts.antt =====
-- src/internal_artifacts.rs: the names that must not leave the proxy, and the messages of errors.
use llm_universal_proxy.Prelude.{
  ◌≡◌, refl, String, Bool, false, ◌||◌, arith, str_eq, contains, trim, is_empty, if◌then◌else◌,
  branches,
}
use llm_universal_proxy.Json.Value.{
  Value, null, bool, number, string, array, object, Items, nil, cons, Fields, end, entry,
}

abbrev pub request_scoped_tool_bridge_context_field : String
request_scoped_tool_bridge_context_field = "_llmup_tool_bridge_context"

abbrev pub openai_responses_custom_bridge_prefix : String
openai_responses_custom_bridge_prefix = "__llmup_custom__"

abbrev pub generic_upstream_error_message : String
generic_upstream_error_message = "The upstream provider returned an error."

abbrev pub contains_internal_artifact_text : String → Bool
contains_internal_artifact_text value =
    contains value request_scoped_tool_bridge_context_field
    || contains value openai_responses_custom_bridge_prefix

unfoldable pub sanitize_public_error_message : String → String
sanitize_public_error_message value =
    if is_empty (trim value) || contains_internal_artifact_text value
    then generic_upstream_error_message
    else value

unfoldable mutual
  -- Whether the context that the proxy hands from a request to its response stands anywhere in a body.
  pub contains_internal_context_field : Value → Bool
  contains_internal_context_field (object o) = context_in_fields o
  contains_internal_context_field (array vs) = context_in_items vs
  contains_internal_context_field (null) = false
  contains_internal_context_field (bool _) = false
  contains_internal_context_field (number _) = false
  contains_internal_context_field (string _) = false

  context_in_fields : Fields → Bool
  context_in_fields end = false
  context_in_fields (entry k v o) =
      str_eq k request_scoped_tool_bridge_context_field
      || contains_internal_context_field v
      || context_in_fields o

  context_in_items : Items → Bool
  context_in_items nil = false
  context_in_items (cons v vs) = contains_internal_context_field v || context_in_items vs

-- A sanitized message names nothing internal.
pub sanitize_public :
    (value : String) → contains_internal_artifact_text (sanitize_public_error_message value) ≡ false
unfolding sanitize_public_error_message
sanitize_public value =
    branches (λ m. contains_internal_artifact_text m ≡ false)
      (is_empty (trim value) || contains_internal_artifact_text value) (λ _. refl)
      (λ h. ground arith)
