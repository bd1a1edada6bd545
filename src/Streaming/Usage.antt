-- ===== src/Streaming/Usage.antt =====
-- The usage of a stream, between the three formats: src/streaming/state.rs. A sum of two counts is a
-- `u64` sum, which wraps in a build without overflow checks.
pub mod Laws
use llm_universal_proxy.Prelude.{
  ◌+◌, ◌%◌, ◌^◌, ℕ, String, Bool, ◌||◌, Option, none, some, List, [], ◌∷◌, one_of, and_then,
  unwrap_or, or_option, is_some, if◌then◌else◌,
}
use llm_universal_proxy.Json.Value.{
  Value, null, number, pos_int, string, array, object, Fields, end, entry, insert, get, field,
  as_u64, as_object,
}

-- `Value::get` with one key, then with another.
abbrev either_key : Value → String → String → Option Value
either_key usage a b = or_option (get usage a) (get usage b)

abbrev count_or : Option Value → ℕ → ℕ
count_or v d = unwrap_or (and_then v as_u64) d

abbrev pub add_u64 : ℕ → ℕ → ℕ
add_u64 a b = (a + b) % 2 ^ 64

-- The fields of the source that are neither reserved nor in the target already.
unfoldable pub copy_unknown_usage_fields : Fields → List String → Fields → Fields
unfolding one_of field insert
copy_unknown_usage_fields end reserved_keys target = target
copy_unknown_usage_fields (entry key value rest) reserved_keys target =
    let skip = one_of key reserved_keys || is_some (field key target) in
    copy_unknown_usage_fields rest reserved_keys (if skip then target else insert key value target)

-- Details that are an object with at least one field.
unfoldable pub clone_usage_details_object_stream : Option Value → Option Fields
clone_usage_details_object_stream (some (object (entry k v o))) = some (entry k v o)
clone_usage_details_object_stream _ = none

with_details : String → Option Fields → Fields → Fields
unfolding insert
with_details key none o = o
with_details key (some d) o = insert key (object d) o

copy_rest : Value → List String → Fields → Fields
unfolding copy_unknown_usage_fields
copy_rest (object source) reserved o = copy_unknown_usage_fields source reserved o
copy_rest _ reserved o = o

-- Counts with the details, where there are any, and the fields that the map does not know.
mapped_usage : Value → List String → String → Option Value → String → Option Value → Fields → Value
unfolding clone_usage_details_object_stream with_details copy_rest
mapped_usage usage reserved input_key input_details output_key output_details counts = object (
    copy_rest usage reserved (
      with_details output_key (clone_usage_details_object_stream output_details)
        (with_details input_key (clone_usage_details_object_stream input_details) counts)))

abbrev pub responses_reserved : List String
responses_reserved =
    "input_tokens" ∷ "prompt_tokens" ∷ "output_tokens" ∷ "completion_tokens" ∷ "total_tokens"
    ∷ "input_tokens_details" ∷ "prompt_tokens_details" ∷ "output_tokens_details"
    ∷ "completion_tokens_details" ∷ []

abbrev openai_counts : Value → Fields
openai_counts usage =
    let input_tokens = count_or (either_key usage "input_tokens" "prompt_tokens") 0 in
    let output_tokens = count_or (either_key usage "output_tokens" "completion_tokens") 0 in
    let total_tokens = count_or (get usage "total_tokens") (add_u64 input_tokens output_tokens) in
    entry "prompt_tokens" (number (pos_int input_tokens)) (
      entry "completion_tokens" (number (pos_int output_tokens))
        (entry "total_tokens" (number (pos_int total_tokens)) end))

unfoldable pub responses_usage_to_openai_usage_stream : Value → Value
unfolding mapped_usage get
responses_usage_to_openai_usage_stream usage =
    mapped_usage usage responses_reserved "prompt_tokens_details"
      (either_key usage "input_tokens_details" "prompt_tokens_details") "completion_tokens_details"
      (either_key usage "output_tokens_details" "completion_tokens_details") (openai_counts usage)

abbrev pub openai_reserved : List String
openai_reserved =
    "prompt_tokens" ∷ "completion_tokens" ∷ "total_tokens" ∷ "prompt_tokens_details"
    ∷ "completion_tokens_details" ∷ []

abbrev responses_counts : Value → Fields
responses_counts usage =
    let input_tokens = count_or (get usage "prompt_tokens") 0 in
    let output_tokens = count_or (get usage "completion_tokens") 0 in
    let total_tokens = count_or (get usage "total_tokens") (add_u64 input_tokens output_tokens) in
    entry "input_tokens" (number (pos_int input_tokens)) (
      entry "output_tokens" (number (pos_int output_tokens))
        (entry "total_tokens" (number (pos_int total_tokens)) end))

unfoldable pub openai_usage_to_responses_usage_stream : Value → Value
unfolding mapped_usage get
openai_usage_to_responses_usage_stream usage =
    mapped_usage usage openai_reserved "input_tokens_details" (get usage "prompt_tokens_details")
      "output_tokens_details" (get usage "completion_tokens_details") (responses_counts usage)

abbrev pub openai_usage_to_anthropic_usage_stream : Value → Value
openai_usage_to_anthropic_usage_stream usage = object (
    entry "input_tokens" (number (pos_int (count_or (get usage "prompt_tokens") 0)))
      (entry "output_tokens" (number (pos_int (count_or (get usage "completion_tokens") 0))) end))
