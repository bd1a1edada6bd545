-- ===== src/PublicIdentity/Boundary.antt =====
-- src/server/public_boundary.rs: the bodies for Responses resources that pass, in both directions.
use llm_universal_proxy.Prelude.{Option, none, some, concat, if◌then◌else◌, ok, err, ◌>>◌}
use llm_universal_proxy.Json.Value.{Value, get}
use llm_universal_proxy.InternalArtifacts.{contains_internal_context_field}
use llm_universal_proxy.PublicIdentity.{
  Verdict, map_err, validate_responses_public_request_object_tool_identity,
  validate_responses_public_response_object_tool_identity,
  validate_responses_public_tool_call_item_identity,
}

-- The walk of the source file over a body is that of src/internal_artifacts.rs.
unfoldable pub validate_openai_responses_resource_request_body : Value → Verdict
unfolding contains_internal_context_field validate_responses_public_request_object_tool_identity
validate_openai_responses_resource_request_body body =
    if contains_internal_context_field body
    then err "request must not include internal-only field `_llmup_tool_bridge_context`"
    else validate_responses_public_request_object_tool_identity body

abbrev pub upstream_error : Verdict → Verdict
upstream_error = map_err (concat "upstream response contained reserved public tool identity: ")

unfoldable pub optional_verdict : (Value → Verdict) → Option Value → Verdict
optional_verdict test none = ok tt
optional_verdict test (some v) = upstream_error (test v)

unfoldable pub validate_openai_responses_resource_response_body : Value → Verdict
unfolding contains_internal_context_field validate_responses_public_response_object_tool_identity
    validate_responses_public_tool_call_item_identity optional_verdict
validate_openai_responses_resource_response_body body =
    if contains_internal_context_field body
    then err "upstream response contained internal-only field `_llmup_tool_bridge_context`"
    else upstream_error (validate_responses_public_response_object_tool_identity body)
      >> optional_verdict validate_responses_public_response_object_tool_identity
          (get body "response")
      >> optional_verdict validate_responses_public_tool_call_item_identity (get body "item")
