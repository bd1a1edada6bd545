-- ===== src/Tests/Identities.antt =====
-- Names that must not pass: src/translate/internal/tools.rs and src/server/public_boundary.rs.
use llm_universal_proxy.Prelude.{◌≡◌, refl, not, ◌||◌, String, any, false, ok, err}
use llm_universal_proxy.Json.Value.{Value, string, array, object, nil, cons, end, entry, field, get}
use llm_universal_proxy.InternalArtifacts.{contains_internal_context_field}
use llm_universal_proxy.PublicIdentity.{validate_public_selector_visible_identity}
use llm_universal_proxy.PublicIdentity.Boundary.{validate_openai_responses_resource_response_body}
use llm_universal_proxy.PublicIdentity.Names.{is_accepted, is_reserved}
use llm_universal_proxy.PublicIdentity.Bodies.{answer_names, response_body-accepted}

abbrev call : String → Value
call name = object (entry "type" (string "function_call") (entry "name" (string name) end))

abbrev answer : String → Value
answer name =
    object (entry "object" (string "response") (entry "output" (array (cons (call name) nil)) end))

refused :
    is_accepted (validate_openai_responses_resource_response_body (answer "__llmup_custom__x"))
    ≡ false
unfolding validate_openai_responses_resource_response_body field get
refused = refl

passed : validate_openai_responses_resource_response_body (answer "search") ≡ ok tt
unfolding validate_openai_responses_resource_response_body field get
passed = refl

where_found :
    validate_public_selector_visible_identity
      (object (entry "tools" (array (cons (string "a") (cons (call "__llmup_custom__") nil))) end))
    ≡ err
        "$.tools[1].name: OpenAI Responses function name `__llmup_custom__` uses reserved bridge prefix `__llmup_custom__`; this namespace is reserved for synthetic custom-tool bridging to OpenAI Chat Completions"
unfolding validate_public_selector_visible_identity field get
where_found = refl

response_body-accepted_example :
    is_accepted (validate_openai_responses_resource_response_body (answer "search"))
    ≡ not (
        contains_internal_context_field (answer "search")
        || any is_reserved (answer_names (answer "search")))
response_body-accepted_example = response_body-accepted (answer "search")
