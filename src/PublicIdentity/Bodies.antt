-- ===== src/PublicIdentity/Bodies.antt =====
-- What the validators of src/translate/internal/tools.rs and the guards of
-- src/server/public_boundary.rs accept.
use llm_universal_proxy.Prelude.{
  ◌≡◌, refl, String, Bool, true, false, not, ◌||◌, Option, none, some, List, [], ◌∷◌, ◌++◌, concat,
  and_then, any, if◌then◌else◌, err,
}
use llm_universal_proxy.Json.Value.{Value, null, bool, number, string, array, object, get, as_array}
use llm_universal_proxy.InternalArtifacts.{contains_internal_context_field}
use llm_universal_proxy.PublicIdentity.{
  Verdict, validate_public_selector_visible_identity, validate_each, listed,
  validate_responses_public_nested_tool_reference_identity,
  validate_responses_public_tool_reference_identity, selected_tools,
  validate_responses_public_tool_choice_identity, choice_verdict,
  validate_responses_public_tool_metadata_identity, name_and_namespace, is_call_item,
  validate_responses_public_tool_call_item_identity,
  validate_responses_public_request_object_tool_identity,
  validate_responses_public_output_tool_identity, output_verdict,
  validate_responses_public_response_object_tool_identity,
}
use llm_universal_proxy.PublicIdentity.Names.{
  is_accepted, is_reserved, Checks, Checks-then, Checks-map_err, checks, Checks-if, identity_names,
  nested_names, reference_names, each_names, choice_names, metadata_names, item_names,
  optional_names, request_names, output_names, response_names,
}
use llm_universal_proxy.PublicIdentity.Boundary.{
  validate_openai_responses_resource_request_body, optional_verdict,
  validate_openai_responses_resource_response_body,
}
use llm_universal_proxy.PublicIdentity.Selectors.{identity-Checks, selector-Checks}

nested-Checks :
    (o : Option Value)
    → Checks (validate_responses_public_nested_tool_reference_identity o) (nested_names o)
unfolding validate_responses_public_nested_tool_reference_identity
nested-Checks none = checks refl
nested-Checks (some v) =
    Checks-then _ _ _ _
      (Checks-then _ _ _ _ (identity-Checks (some v)) (identity-Checks (get v "name")))
      (identity-Checks (get v "namespace"))

reference-Checks :
    (v : Value) → Checks (validate_responses_public_tool_reference_identity v) (reference_names v)
unfolding validate_responses_public_tool_reference_identity reference_names
    validate_public_selector_visible_identity
reference-Checks v =
    let selector = Checks-then _ _ _ _ (selector-Checks v "$") (identity-Checks (some v)) in
    let named = Checks-then _ _ _ _ selector (identity-Checks (get v "name")) in
    let spaced = Checks-then _ _ _ _ named (identity-Checks (get v "namespace")) in
    let functional = Checks-then _ _ _ _ spaced (nested-Checks (get v "function")) in
    Checks-then _ _ _ _ functional (nested-Checks (get v "custom"))

each-Checks :
    (test : Value → Verdict) (names : Value → List String)
    → ((v : Value) → Checks (test v) (names v))
    → (vs : List Value) → Checks (validate_each test vs) (each_names names vs)
unfolding validate_each each_names
each-Checks test names h [] = checks refl
each-Checks test names h (v ∷ vs) =
    Checks-then (test v) (validate_each test vs) (names v) (each_names names vs) (h v)
      (each-Checks test names h vs)

some_choice-Checks :
    (v : Value)
    → Checks
        (validate_responses_public_tool_choice_identity v)
        (reference_names v ++ each_names reference_names (selected_tools v))
unfolding validate_responses_public_tool_choice_identity
some_choice-Checks v =
    Checks-then _ _ (reference_names v) (each_names reference_names (selected_tools v))
      (reference-Checks v)
      (each-Checks validate_responses_public_tool_reference_identity reference_names
        reference-Checks (selected_tools v))

choice-Checks : (o : Option Value) → Checks (choice_verdict o) (choice_names o)
unfolding choice_verdict choice_names
choice-Checks none = checks refl
choice-Checks (some null) = checks refl
choice-Checks (some (bool b)) = some_choice-Checks (bool b)
choice-Checks (some (number n)) = some_choice-Checks (number n)
choice-Checks (some (string s)) = some_choice-Checks (string s)
choice-Checks (some (array vs)) = some_choice-Checks (array vs)
choice-Checks (some (object o)) = some_choice-Checks (object o)

metadata-Checks :
    (v : Value) → Checks (validate_responses_public_tool_metadata_identity v) (metadata_names v)
unfolding validate_responses_public_tool_metadata_identity metadata_names
metadata-Checks v =
    let tools = listed (and_then (get v "tools") as_array) in
    Checks-then _ _ (each_names reference_names tools) (choice_names (get v "tool_choice"))
      (each-Checks validate_responses_public_tool_reference_identity reference_names
        reference-Checks tools)
      (choice-Checks (get v "tool_choice"))

item-Checks :
    (v : Value) → Checks (validate_responses_public_tool_call_item_identity v) (item_names v)
unfolding validate_responses_public_tool_call_item_identity item_names name_and_namespace
item-Checks v = Checks-if (is_call_item v) _ _ (
    Checks-then _ _ (identity_names (get v "name")) (identity_names (get v "namespace"))
      (identity-Checks (get v "name")) (identity-Checks (get v "namespace")))

request-Checks :
    (v : Value)
    → Checks (validate_responses_public_request_object_tool_identity v) (request_names v)
unfolding validate_responses_public_request_object_tool_identity request_names
request-Checks v =
    let given = listed (and_then (get v "input") as_array) in
    Checks-then _ _ (metadata_names v) (each_names item_names given) (metadata-Checks v)
      (each-Checks validate_responses_public_tool_call_item_identity item_names item-Checks given)

output-Checks : (o : Option Value) → Checks (output_verdict o) (optional_names output_names o)
unfolding output_verdict optional_names validate_responses_public_output_tool_identity output_names
output-Checks none = checks refl
output-Checks (some v) =
    each-Checks validate_responses_public_tool_call_item_identity item_names item-Checks
      (listed (as_array v))

response-Checks :
    (v : Value)
    → Checks (validate_responses_public_response_object_tool_identity v) (response_names v)
unfolding validate_responses_public_response_object_tool_identity response_names
response-Checks v =
    Checks-then _ _ (metadata_names v) (optional_names output_names (get v "output"))
      (metadata-Checks v) (output-Checks (get v "output"))

optional-Checks :
    (test : Value → Verdict) (names : Value → List String)
    → ((v : Value) → Checks (test v) (names v))
    → (o : Option Value) → Checks (optional_verdict test o) (optional_names names o)
unfolding optional_verdict optional_names
optional-Checks test names h none = checks refl
optional-Checks test names h (some v) = Checks-map_err _ (test v) (names v) (h v)

guarded :
    (inner : Bool) (e : String) (m : Verdict) (names : List String)
    → Checks m names
    → is_accepted (if inner then err e else m) ≡ not (inner || any is_reserved names)
guarded true e m names h = refl
guarded false e m names (checks h) = h

-- A body for a Responses resource is accepted exactly if the proxy's own context stands nowhere in it
-- and no name is reserved of those that its tools, its choice of a tool and its calls show.
pub request_body-accepted :
    (body : Value)
    → is_accepted (validate_openai_responses_resource_request_body body)
      ≡ not (contains_internal_context_field body || any is_reserved (request_names body))
unfolding validate_openai_responses_resource_request_body
request_body-accepted body =
    guarded (contains_internal_context_field body) _ _ (request_names body) (request-Checks body)

-- The names of a body that answers for a resource, also of the response or the item in it.
unfoldable pub answer_names : Value → List String
unfolding response_names optional_names item_names
answer_names body =
    response_names body
    ++ optional_names response_names (get body "response")
    ++ optional_names item_names (get body "item")

-- An upstream's body for a Responses resource is passed on exactly if the proxy's own context stands
-- nowhere in it and no name is reserved of those that the tools, the choices of a tool and the calls
-- show in it, in its response, or in its item.
pub response_body-accepted :
    (body : Value)
    → is_accepted (validate_openai_responses_resource_response_body body)
      ≡ not (contains_internal_context_field body || any is_reserved (answer_names body))
unfolding validate_openai_responses_resource_response_body answer_names
response_body-accepted body =
    let own =
      Checks-map_err (concat "upstream response contained reserved public tool identity: ")
        (validate_responses_public_response_object_tool_identity body) (response_names body)
        (response-Checks body) in
    let nested = Checks-then _ _ _ _ own (
      optional-Checks validate_responses_public_response_object_tool_identity response_names
        response-Checks (get body "response")) in
    guarded (contains_internal_context_field body) _ _ (answer_names body) (
      Checks-then _ _ _ _ nested (
        optional-Checks validate_responses_public_tool_call_item_identity item_names item-Checks
          (get body "item")))
