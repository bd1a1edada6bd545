-- ===== src/PublicIdentity.antt =====
-- src/translate/internal/tools.rs: no tool that a client names, or is shown, has a name with the prefix
-- that the proxy keeps for its own bridges.
pub mod Boundary
pub mod Selectors
pub mod Bodies
pub mod Names
use llm_universal_proxy.Prelude.{
  ℕ, ◌+◌, String, Bool, true, false, Option, none, some, List, [], ◌∷◌, concat, one_of, starts_with,
  is_empty, and_then, or_option, if◌then◌else◌, Result, ok, err, ◌>>◌,
}
use llm_universal_proxy.Json.Value.{
  Value, null, bool, number, string, array, object, Items, nil, cons, Fields, end, entry, field,
  get, as_str, as_array, as_object,
}
use llm_universal_proxy.InternalArtifacts.{
  openai_responses_custom_bridge_prefix, contains_internal_context_field,
}
use llm_universal_proxy.Streaming.ToolCalls.{digits}

abbrev pub Verdict : Type 0
Verdict = Result String (Unit {0})

abbrev pub map_err : (String → String) → Verdict → Verdict
map_err f (ok u) = ok u
map_err f (err e) = err (f e)

abbrev reserved_openai_custom_bridge_prefix_message : String → String
reserved_openai_custom_bridge_prefix_message name = concat "OpenAI Responses function name `" (
    concat name
      "` uses reserved bridge prefix `__llmup_custom__`; this namespace is reserved for synthetic custom-tool bridging to OpenAI Chat Completions")

abbrev pub openai_responses_custom_tool_bridge_prefix_is_reserved : String → Bool
openai_responses_custom_tool_bridge_prefix_is_reserved name =
    starts_with name openai_responses_custom_bridge_prefix

unfoldable pub validate_public_tool_name_not_reserved : String → Verdict
validate_public_tool_name_not_reserved name =
    if openai_responses_custom_tool_bridge_prefix_is_reserved name
    then err (reserved_openai_custom_bridge_prefix_message name)
    else ok tt

unfoldable pub non_empty_name : String → Verdict
unfolding validate_public_tool_name_not_reserved
non_empty_name s = if is_empty s then ok tt else validate_public_tool_name_not_reserved s

unfoldable pub optional_name : Option String → Verdict
unfolding non_empty_name
optional_name none = ok tt
optional_name (some s) = non_empty_name s

unfoldable pub validate_public_tool_identity_value_not_reserved : Option Value → Verdict
unfolding optional_name
validate_public_tool_identity_value_not_reserved value = optional_name (and_then value as_str)

unfoldable pub selector_container_key_is_visible_identity_carrier : String → Bool
unfolding one_of
selector_container_key_is_visible_identity_carrier key = one_of key (
    "function" ∷ "custom" ∷ "tool" ∷ "tools" ∷ "allowed_tool" ∷ "allowed_tools" ∷ "allowedTools"
    ∷ "selected_tool" ∷ "selected_tools" ∷ "selectedTools" ∷ "allowed_function_names" ∷ [])

abbrev pub under : String → String → Verdict → Verdict
under path key = map_err (λ e. concat path (concat "." (concat key (concat ": " e))))

-- The name under a key of an object, where it is a text.
unfoldable pub key_verdict : String → Option String → String → Verdict
unfolding validate_public_tool_name_not_reserved
key_verdict path none key = ok tt
key_verdict path (some name) key = under path key (validate_public_tool_name_not_reserved name)

abbrev pub key_name : Fields → String → Option String
key_name o key = and_then (field key o) as_str

unfoldable mutual
  unfolding digits key_verdict non_empty_name selector_container_key_is_visible_identity_carrier

  pub validate_public_selector_visible_identity_at : Value → String → Verdict
  validate_public_selector_visible_identity_at (string s) path =
      map_err (λ e. concat path (concat ": " e)) (non_empty_name s)
  validate_public_selector_visible_identity_at (array vs) path = validate_items vs path 0
  validate_public_selector_visible_identity_at (object o) path =
      key_verdict path (key_name o "name") "name"
      >> key_verdict path (key_name o "namespace") "namespace"
      >> validate_fields o path
  validate_public_selector_visible_identity_at (null) path = ok tt
  validate_public_selector_visible_identity_at (bool _) path = ok tt
  validate_public_selector_visible_identity_at (number _) path = ok tt

  pub validate_items : Items → String → ℕ → Verdict
  validate_items nil path index = ok tt
  validate_items (cons v vs) path index =
      validate_public_selector_visible_identity_at v
        (concat path (concat "[" (concat (digits (index + 1) index) "]")))
      >> validate_items vs path (index + 1)

  pub validate_fields : Fields → String → Verdict
  validate_fields end path = ok tt
  validate_fields (entry key nested o) path =
      let inner =
        validate_public_selector_visible_identity_at nested (concat path (concat "." key)) in
      (if selector_container_key_is_visible_identity_carrier key then inner else ok tt)
      >> validate_fields o path

unfoldable pub validate_public_selector_visible_identity : Value → Verdict
unfolding validate_public_selector_visible_identity_at
validate_public_selector_visible_identity value =
    validate_public_selector_visible_identity_at value "$"

-- `for value in values { test(value)?; }`, where there is a list.
unfoldable pub validate_each : (Value → Verdict) → List Value → Verdict
validate_each test [] = ok tt
validate_each test (v ∷ vs) = test v >> validate_each test vs

abbrev pub listed : Option (List Value) → List Value
listed none = []
listed (some vs) = vs

unfoldable pub validate_responses_public_nested_tool_reference_identity : Option Value → Verdict
unfolding validate_public_tool_identity_value_not_reserved
validate_responses_public_nested_tool_reference_identity none = ok tt
validate_responses_public_nested_tool_reference_identity (some value) =
    validate_public_tool_identity_value_not_reserved (some value)
    >> validate_public_tool_identity_value_not_reserved (get value "name")
    >> validate_public_tool_identity_value_not_reserved (get value "namespace")

unfoldable pub validate_responses_public_tool_reference_identity : Value → Verdict
unfolding validate_public_selector_visible_identity validate_public_tool_identity_value_not_reserved
    validate_responses_public_nested_tool_reference_identity
validate_responses_public_tool_reference_identity value =
    validate_public_selector_visible_identity value
    >> validate_public_tool_identity_value_not_reserved (some value)
    >> validate_public_tool_identity_value_not_reserved (get value "name")
    >> validate_public_tool_identity_value_not_reserved (get value "namespace")
    >> validate_responses_public_nested_tool_reference_identity (get value "function")
    >> validate_responses_public_nested_tool_reference_identity (get value "custom")

abbrev pub selected_tools : Value → List Value
selected_tools choice =
    let nested = and_then (and_then (get choice "allowed_tools") as_object) (field "tools") in
    listed (and_then (or_option nested (get choice "tools")) as_array)

unfoldable pub validate_responses_public_tool_choice_identity : Value → Verdict
unfolding validate_responses_public_tool_reference_identity validate_each
validate_responses_public_tool_choice_identity choice =
    validate_responses_public_tool_reference_identity choice
    >> validate_each validate_responses_public_tool_reference_identity (selected_tools choice)

unfoldable pub choice_verdict : Option Value → Verdict
unfolding validate_responses_public_tool_choice_identity
choice_verdict none = ok tt
choice_verdict (some null) = ok tt
choice_verdict (some choice) = validate_responses_public_tool_choice_identity choice

unfoldable pub validate_responses_public_tool_metadata_identity : Value → Verdict
unfolding choice_verdict validate_responses_public_tool_reference_identity validate_each
validate_responses_public_tool_metadata_identity value =
    validate_each validate_responses_public_tool_reference_identity
      (listed (and_then (get value "tools") as_array))
    >> choice_verdict (get value "tool_choice")

abbrev pub is_one_of : Option String → List String → Bool
is_one_of none names = false
is_one_of (some s) names = one_of s names

abbrev pub type_of : Value → Option String
type_of value = and_then (get value "type") as_str

unfoldable pub name_and_namespace : Value → Verdict
unfolding validate_public_tool_identity_value_not_reserved
name_and_namespace value =
    validate_public_tool_identity_value_not_reserved (get value "name")
    >> validate_public_tool_identity_value_not_reserved (get value "namespace")

abbrev pub is_call_item : Value → Bool
is_call_item item = is_one_of (type_of item) ("function_call" ∷ "custom_tool_call" ∷ [])

unfoldable pub validate_responses_public_tool_call_item_identity : Value → Verdict
unfolding name_and_namespace
validate_responses_public_tool_call_item_identity item =
    if is_call_item item then name_and_namespace item else ok tt

unfoldable pub validate_responses_public_request_object_tool_identity : Value → Verdict
unfolding validate_responses_public_tool_metadata_identity
    validate_responses_public_tool_call_item_identity validate_each
validate_responses_public_request_object_tool_identity value =
    validate_responses_public_tool_metadata_identity value
    >> validate_each validate_responses_public_tool_call_item_identity
        (listed (and_then (get value "input") as_array))

unfoldable pub validate_responses_public_output_tool_identity : Value → Verdict
unfolding validate_responses_public_tool_call_item_identity validate_each
validate_responses_public_output_tool_identity output =
    validate_each validate_responses_public_tool_call_item_identity (listed (as_array output))

unfoldable pub output_verdict : Option Value → Verdict
unfolding validate_responses_public_output_tool_identity
output_verdict none = ok tt
output_verdict (some output) = validate_responses_public_output_tool_identity output

unfoldable pub validate_responses_public_response_object_tool_identity : Value → Verdict
unfolding validate_responses_public_tool_metadata_identity output_verdict
validate_responses_public_response_object_tool_identity response =
    validate_responses_public_tool_metadata_identity response
    >> output_verdict (get response "output")
