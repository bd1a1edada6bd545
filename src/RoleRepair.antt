-- ===== src/RoleRepair.antt =====
-- src/translate/internal.rs: what a request whose format stays the same has rewritten, for upstreams
-- that refuse some roles or want some fields. `get_mut` and an assignment to a key keep the place of
-- a field that is there. The test of a message with nothing but a role and a text is written out in
-- this source file as in src/request_processing.rs.
pub mod SameFormat
pub mod Unchanged
use llm_universal_proxy.Prelude.{
  String, Bool, true, false, not, ◌&&◌, ◌||◌, Option, none, some, List, [], ◌∷◌, map, concat,
  str_eq, one_of, starts_with, is_empty, is_some, and_then, if◌then◌else◌,
}
use llm_universal_proxy.Json.Value.{
  Value, null, bool, number, string, array, object, Items, nil, cons, Fields, end, entry, get,
  items, as_str, as_array, field, insert,
}
use llm_universal_proxy.Formats.{
  UpstreamFormat, anthropic, open_ai_chat_completions, open_ai_responses, is_same,
}
use llm_universal_proxy.RequestProcessing.{openai_string_message_role_if_coalescible, text_is}

-- `object[key] = value`
unfoldable pub assign : String → Value → Fields → Fields
assign key v end = entry key v end
assign key v (entry j w o) =
    let rest = assign key v o in if str_eq j key then entry j v o else entry j w rest

-- `value[key] = …`, where the value is an object: the code has read a field of it.
unfoldable pub assign_in : String → Value → Value → Value
unfolding assign
assign_in key v (object o) = object (assign key v o)
assign_in key v other = other

abbrev pub of_list : List Value → Items
of_list [] = nil
of_list (v ∷ vs) = cons v (of_list vs)

abbrev pub on_array : (List Value → List Value) → Value → Value
on_array f (array vs) = array (of_list (f (items vs)))
on_array f other = other

abbrev pub in_field : String → (List Value → List Value) → Fields → Fields
in_field key f end = end
in_field key f (entry j v o) =
    let rest = in_field key f o in if str_eq j key then entry j (on_array f v) o else entry j v rest

-- `body.get_mut(key).and_then(Value::as_array_mut)`, and what is done to the array.
abbrev pub with_array : String → (List Value → List Value) → Value → Value
with_array key f (object o) = object (in_field key f o)
with_array key f other = other

abbrev pub text_at : String → Value → Option String
text_at key v = and_then (get v key) as_str

unfoldable pub normalize_openai_message_role : Value → Value
unfolding assign_in
normalize_openai_message_role message =
    if text_is (text_at "role" message) "developer"
    then assign_in "role" (string "system") message
    else message

unfoldable pub normalize_openai_message_roles : Value → Value
unfolding normalize_openai_message_role
normalize_openai_message_roles = with_array "messages" (map normalize_openai_message_role)

-- The previous message with the text of this one behind its own, where they have one role and nothing
-- but texts.
unfoldable pub joined : Value → Value → Option Value
unfolding openai_string_message_role_if_coalescible assign_in
joined previous message = and_then (openai_string_message_role_if_coalescible message) λ role.
    and_then (text_at "content" message) λ content.
      and_then (text_at "content" previous) λ previous_content.
        if text_is (openai_string_message_role_if_coalescible previous) role
        then some (
            assign_in "content" (string (concat previous_content (concat "\n\n" content))) previous)
        else none

abbrev pub after_joined : Value → Option Value → (Value → List Value) → List Value → List Value
after_joined previous none again separate = previous ∷ separate
after_joined previous (some both) again separate = again both

-- The loop, behind the message that was pushed last.
unfoldable pub coalesce_after : Value → List Value → List Value
unfolding joined
coalesce_after previous [] = previous ∷ []
coalesce_after previous (m ∷ ms) =
    after_joined previous (joined previous m) (λ both. coalesce_after both ms) (coalesce_after m ms)

unfoldable pub coalesce : List Value → List Value
unfolding coalesce_after
coalesce [] = []
coalesce (m ∷ ms) = coalesce_after m ms

unfoldable pub coalesce_openai_string_messages : Value → Value
unfolding coalesce
coalesce_openai_string_messages = with_array "messages" coalesce

unfoldable pub normalize_openai_messages_for_compatibility : Value → Value
unfolding normalize_openai_message_roles coalesce_openai_string_messages
normalize_openai_messages_for_compatibility body =
    coalesce_openai_string_messages (normalize_openai_message_roles body)

unfoldable pub normalize_openai_responses_role : Value → Value
unfolding assign_in
normalize_openai_responses_role item =
    if text_is (text_at "type" item) "message" && text_is (text_at "role" item) "developer"
    then assign_in "role" (string "system") item
    else item

unfoldable pub normalize_openai_responses_roles : Value → Value
unfolding normalize_openai_responses_role
normalize_openai_responses_roles = with_array "input" (map normalize_openai_responses_role)

unfoldable pub normalize_openai_roles_for_compatibility : UpstreamFormat → Value → Value
unfolding normalize_openai_messages_for_compatibility normalize_openai_responses_roles
normalize_openai_roles_for_compatibility open_ai_chat_completions body =
    normalize_openai_messages_for_compatibility body
normalize_openai_roles_for_compatibility open_ai_responses body =
    normalize_openai_responses_roles body
normalize_openai_roles_for_compatibility anthropic body = body

-- `filter_map`, `collect` and `join("")`
abbrev joined_texts : List Value → String
joined_texts [] = ""
joined_texts (v ∷ vs) = put_before (text_at "text" v) (joined_texts vs)
  where
    put_before : Option String → String → String
    put_before none rest = rest
    put_before (some s) rest = concat s rest

abbrev pub openai_instruction_part_is_text : Value → Bool
openai_instruction_part_is_text part =
    text_is (text_at "type" part) "text" && is_some (text_at "text" part)

abbrev all_text : List Value → Bool
all_text [] = true
all_text (v ∷ vs) = openai_instruction_part_is_text v && all_text vs

unfoldable pub openai_instruction_content_as_text : Value → Option String
openai_instruction_content_as_text (string text) = some text
openai_instruction_content_as_text (array parts) =
    if all_text (items parts) then some (joined_texts (items parts)) else none
openai_instruction_content_as_text (object o) =
    if openai_instruction_part_is_text (object o) then some (joined_texts (object o ∷ [])) else none
openai_instruction_content_as_text (null) = some ""
openai_instruction_content_as_text (bool _) = none
openai_instruction_content_as_text (number _) = none

abbrev label_of : String → String
label_of role = if str_eq role "developer" then "Developer instructions" else "System instructions"

abbrev labelled : String → String → String
labelled label text = if is_empty text then label else concat label (concat ":\n" text)

abbrev with_text : String → Value → Option String → Value
with_text role message none = message
with_text role message (some text) =
    assign_in "content" (string (labelled (label_of role) text)) message

unfoldable pub annotate_openai_instruction_message_for_maximum_safe_compatibility :
    Value → String → Value
unfolding openai_instruction_content_as_text
annotate_openai_instruction_message_for_maximum_safe_compatibility message role =
    with_text role message (and_then (get message "content") openai_instruction_content_as_text)

unfoldable pub downgraded : Value → Option String → Value
unfolding annotate_openai_instruction_message_for_maximum_safe_compatibility assign_in
downgraded message none = message
downgraded message (some role) =
    if str_eq role "system" || str_eq role "developer"
    then assign_in "role" (string "user")
        (annotate_openai_instruction_message_for_maximum_safe_compatibility message role)
    else message
