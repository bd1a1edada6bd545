-- ===== src/Streaming/ToolCalls.antt =====
-- The calls of a Responses stream: their announcement, the pieces of their arguments, and the end of
-- the input of a custom tool. src/streaming/responses_source.rs, the parts for tool calls.
pub mod Bridging
use Prim.Native.String.{slice}
use llm_universal_proxy.Prelude.{
  ◌+◌, ◌-◌, ◌/◌, ◌%◌, zero, suc, ◌==◌, ℕ, String, Bool, true, false, not, ◌||◌, Option, none, some,
  List, [], ◌∷◌, ◌++◌, concat, str_eq, len, and_then, unwrap_or, or_option, starts_with, is_empty,
  if◌then◌else◌,
}
use llm_universal_proxy.Prelude.IndexMap.{index_where, lookup, put}
use llm_universal_proxy.Json.Value.{
  Value, null, number, pos_int, string, array, object, cons, nil, Fields, end, entry, insert, get,
  as_str, as_u64,
}
use llm_universal_proxy.InternalArtifacts.{openai_responses_custom_bridge_prefix}
use llm_universal_proxy.Streaming.{
  SerdeText, StreamState, ToolCallState, Emitted, event_str, openai_chunk, reject_openai_stream,
  escape_json_string_content_stream, openai_custom_bridge_start_delta_stream,
  openai_custom_bridge_done_delta_stream, responses_event_tool_call_index,
}

strip_prefix : String → String → Option String
strip_prefix prefix s = if starts_with s prefix then some (slice s (len prefix) (len s)) else none

-- The rest of the input, and the input that has been sent with it.
bridge_remainder : SerdeText → String → Option String → String × String
bridge_remainder z emitted none = ("", emitted)
bridge_remainder z emitted (some remainder) =
    if is_empty remainder
    then ("", emitted)
    else (escape_json_string_content_stream z remainder, concat emitted remainder)

-- A call whose input is done, and the last piece of its arguments.
abbrev pub closed_call : ToolCallState → String × String → ToolCallState × String
closed_call tc (rest, sent) =
    let bridge_delta = concat rest openai_custom_bridge_done_delta_stream in
    (
      record tc {
        custom_input_text = some sent;
        arguments = concat tc.arguments bridge_delta;
        custom_input_done = true;
      },
      bridge_delta,
    )

unfoldable pub finalize_custom_tool_call_bridge_delta :
    SerdeText → ToolCallState → String → Option (ToolCallState × String)
unfolding bridge_remainder strip_prefix
finalize_custom_tool_call_bridge_delta z tc full_input = and_then tc.custom_input_text λ emitted.
    if tc.custom_input_done
    then none
    else some (closed_call tc (bridge_remainder z emitted (strip_prefix emitted full_input)))

-- The delta of a chunk with one tool call.
abbrev pub tool_calls_delta : Fields → Fields
tool_calls_delta call = entry "tool_calls" (array (cons (object call) nil)) end

abbrev pub arguments_function : String → Value
arguments_function arguments = object (entry "arguments" (string arguments) end)

-- An index, an identity, the type, and a piece of the arguments.
abbrev pub bridge_call : ℕ → Value → String → Fields
bridge_call idx id bridge_delta = entry "index" (number (pos_int idx)) (
    entry "id" id
      (entry "type" (string "function") (entry "function" (arguments_function bridge_delta) end)))

abbrev pub has_call_id : String → ToolCallState → Bool
has_call_id call_id tc = elim (and_then tc.id as_str) [ none ↦ false | some i ↦ str_eq i call_id ]

abbrev pub with_call : ℕ → ToolCallState → StreamState → StreamState
with_call idx tc s = record s { openai_tool_calls = put idx tc s.openai_tool_calls }

abbrev pub custom_call_of : Value → Option (String × String)
custom_call_of item =
    if not (str_eq (unwrap_or (event_str item "type") "") "custom_tool_call")
    then none
    else (and_then (event_str item "call_id")
        λ call_id. and_then (event_str item "input") λ full_input. some (call_id, full_input))

-- What an item of the final output finishes: a call, and the end of its arguments.
unfoldable pub finished_call :
    SerdeText → Value → StreamState → Option (ℕ × String × ToolCallState × String)
unfolding finalize_custom_tool_call_bridge_delta index_where lookup
finished_call z item s = and_then (custom_call_of item) λ (call_id, full_input).
    and_then (index_where (has_call_id call_id) s.openai_tool_calls) λ idx.
      and_then (lookup idx s.openai_tool_calls) λ tc.
        and_then (finalize_custom_tool_call_bridge_delta z tc full_input)
          λ (finished, bridge_delta). some (idx, call_id, finished, bridge_delta)

unfoldable pub after_item : ℕ → StreamState → Option (ℕ × String × ToolCallState × String) → Emitted
unfolding put openai_chunk
after_item now s none = (s, [])
after_item now s (some (idx, call_id, finished, bridge_delta)) =
    let t = with_call idx finished s in
    let call = bridge_call idx (string call_id) bridge_delta in
    (t, openai_chunk now t (tool_calls_delta call) none ∷ [])

-- The loop of `responses_terminal_custom_tool_bridge_chunk` over the final output.
unfoldable pub terminal_items : SerdeText → ℕ → List Value → StreamState → Emitted
unfolding finished_call after_item
terminal_items z now [] s = (s, [])
terminal_items z now (item ∷ rest) s =
    let (t, out) = after_item now s (finished_call z item s) in
    let (u, more) = terminal_items z now rest t in (u, out ++ more)

abbrev pub default_tool_call : ℕ → ToolCallState
default_tool_call idx = record {
  index = idx;
  id = none;
  name = "";
  arguments = "";
  non_replayable_marker = none;
  custom_input_text = none;
  custom_input_done = false;
  tool_type = none;
  proxied_tool_kind = none;
  namespace = none;
  arguments_seeded_from_start = false;
  block_index = none;
  responses_item_id = none;
  responses_item_added = false;
  responses_done = false;
}

abbrev pub with_kind : Option Value → Fields → Fields
with_kind kind call = elim kind [ none ↦ call | some v ↦ insert "proxied_tool_kind" v call ]

abbrev pub announced_call : ℕ → String → String → String → Option Value → Fields
announced_call idx id name arguments kind =
    let function = entry "name" (string name) (entry "arguments" (string arguments) end) in
    with_kind kind (
      entry "index" (number (pos_int idx)) (
        entry "id" (string id)
          (entry "type" (string "function") (entry "function" (object function) end))))

-- A decimal numeral: `format!("{idx}")`, one digit of the fuel at a time.
unfoldable pub digits : ℕ → ℕ → String
digits zero n = ""
digits (suc fuel) n =
    let rest = digits fuel (n / 10) in
    let digit = slice "0123456789" (n % 10) (n % 10 + 1) in
    if n / 10 == 0 then digit else concat rest digit

unfoldable pub call_name : ℕ → String
unfolding digits
call_name idx = concat "call_" (digits (suc idx) idx)

-- The state of a call that an item announces.
unfoldable pub announced_state : SerdeText → Bool → Value → Value → ℕ → ToolCallState
unfolding call_name
announced_state z is_custom event item idx =
    let custom_input = unwrap_or (event_str item "input") "" in
    record (default_tool_call idx) {
      id = some (string (unwrap_or (event_str item "call_id") (call_name idx)));
      name = unwrap_or (event_str item "name") "";
      arguments =
          if is_custom
          then openai_custom_bridge_start_delta_stream z custom_input
          else unwrap_or (event_str item "arguments") "";
      custom_input_text = if is_custom then some custom_input else none;
      tool_type = some "function";
      proxied_tool_kind = event_str item "proxied_tool_kind";
      block_index = and_then (get event "output_index") as_u64;
      responses_item_id = event_str item "id";
    }

unfoldable pub announce_call : SerdeText → ℕ → Bool → Value → Value → StreamState → Emitted
unfolding announced_state put openai_chunk call_name
announce_call z now is_custom event item s =
    let idx = s.openai_tool_call_index in
    let tc = announced_state z is_custom event item idx in
    let id = unwrap_or (event_str item "call_id") (call_name idx) in
    let t = with_call idx tc (record s { openai_tool_call_index = idx + 1 }) in
    let call = announced_call idx id tc.name tc.arguments (get item "proxied_tool_kind") in
    (t, openai_chunk now t (tool_calls_delta call) none ∷ [])

-- `response.output_item.added`
unfoldable pub output_item_added : SerdeText → ℕ → Value → StreamState → Emitted
unfolding announce_call reject_openai_stream
output_item_added z now event s =
    let item = unwrap_or (get event "item") null in
    let item_ty = unwrap_or (event_str item "type") "" in
    let raw_name = unwrap_or (event_str item "name") "" in
    if not (str_eq item_ty "function_call" || str_eq item_ty "custom_tool_call")
    then (s, [])
    else if starts_with raw_name openai_responses_custom_bridge_prefix
    then reject_openai_stream now s "invalid_request_error" "reserved_openai_custom_bridge_prefix"
        (reserved_openai_custom_bridge_prefix_message raw_name)
    else announce_call z now (str_eq item_ty "custom_tool_call") event item s
  where
    reserved_openai_custom_bridge_prefix_message : String → String
    reserved_openai_custom_bridge_prefix_message name = concat "OpenAI Responses function name `" (
        concat name
          "` uses reserved bridge prefix `__llmup_custom__`; this namespace is reserved for synthetic custom-tool bridging to OpenAI Chat Completions")

-- The call that a piece of arguments belongs to: of the event, or else the last one announced.
abbrev pub event_call_index : Value → StreamState → ℕ
event_call_index event s =
    unwrap_or (responses_event_tool_call_index event s) (s.openai_tool_call_index - 1)

-- A call after a piece of its arguments: what was missing is taken from the event.
unfoldable pub extended_call : Bool → Value → String → String → ToolCallState → ToolCallState
extended_call is_custom event delta emitted_delta tc = record tc {
  tool_type = or_option tc.tool_type (some "function");
  responses_item_id = or_option tc.responses_item_id (event_str event "item_id");
  block_index = or_option tc.block_index (and_then (get event "output_index") as_u64);
  custom_input_text =
      if is_custom
      then some (concat (unwrap_or tc.custom_input_text "") delta)
      else tc.custom_input_text;
  arguments = concat tc.arguments emitted_delta;
}

-- The events for a piece of the arguments of a function or of the input of a custom tool.
unfoldable pub arguments_delta : SerdeText → ℕ → Bool → Value → StreamState → Emitted
unfolding extended_call put lookup openai_chunk
arguments_delta z now is_custom event s =
    let delta = unwrap_or (event_str event "delta") "" in
    let idx = event_call_index event s in
    let emitted_delta = if is_custom then escape_json_string_content_stream z delta else delta in
    let old = unwrap_or (lookup idx s.openai_tool_calls) (default_tool_call idx) in
    let tc = extended_call is_custom event delta emitted_delta old in
    let t = with_call idx tc s in
    let call = with_kind (and_then tc.proxied_tool_kind λ kind. some (string kind)) (
      entry "index" (number (pos_int idx)) (
        entry "type" (string "function")
          (entry "function" (arguments_function emitted_delta) end))) in
    if is_empty delta then (s, []) else (t, openai_chunk now t (tool_calls_delta call) none ∷ [])

unfoldable pub after_done : ℕ → ℕ → StreamState → Option (ToolCallState × String) → Emitted
unfolding put openai_chunk
after_done now idx s none = (s, [])
after_done now idx s (some (tc, bridge_delta)) =
    let t = with_call idx tc s in
    let call = bridge_call idx (unwrap_or tc.id null) bridge_delta in
    (t, openai_chunk now t (tool_calls_delta call) none ∷ [])

-- `response.custom_tool_call_input.done`
unfoldable pub custom_input_done : SerdeText → ℕ → Value → StreamState → Emitted
unfolding finalize_custom_tool_call_bridge_delta lookup after_done
custom_input_done z now event s =
    let idx = event_call_index event s in
    after_done now idx s (
      and_then (lookup idx s.openai_tool_calls) λ tc.
        let full_input = unwrap_or (or_option (event_str event "input") tc.custom_input_text) "" in
        finalize_custom_tool_call_bridge_delta z tc full_input)
