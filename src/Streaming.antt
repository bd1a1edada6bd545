-- ===== src/Streaming.antt =====
-- src/streaming/state.rs: what a translated stream keeps, the chunks that it emits, its rejection.
-- `serde_json` is the parameter `SerdeText`, the clock the argument `now` of a chunk. The counters
-- (`usize`, `u64`) count items of one stream and are numbers without a bound.
pub mod Usage
pub mod Limits
pub mod Size
pub mod Seeding
pub mod ToolCalls
pub mod Finish
pub mod Normalize
pub mod Responses
use llm_universal_proxy.Prelude.{
  ◌+◌, ◌-◌, ℕ, String, Bool, true, false, Option, none, some, List, [], ◌∷◌, ◌++◌, concat, str_eq,
  len, and_then, unwrap_or, or_option, starts_with, ◌==◌, if◌then◌else◌,
}
use llm_universal_proxy.Prelude.IndexMap.{IndexMap, index_where}
use llm_universal_proxy.Json.Value.{
  Value, null, number, pos_int, string, array, object, cons, nil, Fields, end, entry, insert, get,
  as_str, as_u64,
}
use llm_universal_proxy.InternalArtifacts.{sanitize_public_error_message}
use Prim.Native.String.{slice}

-- `serde_json::to_string` of a text, and `serde_json::from_str`.
pub record SerdeText : Type 0 where
  pub to_string : String → String
  pub from_str : String → Option Value

pub record StreamFatalRejection : Type 0 where
  pub message : String

pub data ClaudeBlockKind : Type 0 where
  text thinking_block tool_use server_tool_use : ClaudeBlockKind

pub record ClaudeBlockState : Type 0 where
  pub kind : Option ClaudeBlockKind
  pub thinking : String
  pub signature : Option String
  pub annotations : List Value
  pub omitted : Bool

pub record ClaudeThinkingProvenanceState : Type 0 where
  pub block_index : ℕ
  pub signature : Option String
  pub omitted : Bool

pub data ResponsesMessagePartKind : Type 0 where
  output_text refusal : ResponsesMessagePartKind

pub record ResponsesMessagePartState : Type 0 where
  pub kind : Option ResponsesMessagePartKind
  pub text : String
  pub annotations : List Value

pub record ResponsesCompletedMessageState : Type 0 where
  pub output_index : ℕ
  pub item : Value

pub record ToolCallState : Type 0 where
  pub index : ℕ
  pub id : Option Value
  pub name : String
  pub arguments : String
  pub non_replayable_marker : Option Value
  pub custom_input_text : Option String
  pub custom_input_done : Bool
  pub tool_type : Option String
  pub proxied_tool_kind : Option String
  pub namespace : Option String
  pub arguments_seeded_from_start : Bool
  pub block_index : Option ℕ
  pub responses_item_id : Option String
  pub responses_item_added : Bool
  pub responses_done : Bool

pub record ClaudeToolUseState : Type 0 where
  pub openai_index : ℕ
  pub id : Option Value
  pub name : String
  pub arguments : String
  pub proxied_tool_kind : Option String
  pub zero_arg_candidate : Bool
  pub saw_input_json_delta : Bool
  pub arguments_seeded_from_start : Bool
  pub start_arguments_emitted : Bool
  pub finalized : Bool

pub record StreamState : Type 0 where
  pub message_id : Option String
  pub model : Option String
  pub request_scoped_tool_bridge_context : Option Value
  pub openai_tool_call_index : ℕ
  pub claude_tool_use_index : ℕ
  pub openai_tool_calls : IndexMap ToolCallState
  pub claude_tool_uses : IndexMap ClaudeToolUseState
  pub claude_blocks : IndexMap ClaudeBlockState
  pub claude_thinking_provenance : List ClaudeThinkingProvenanceState
  pub server_tool_block_index : Option ℕ
  pub text_block_started : Bool
  pub in_thinking_block : Bool
  pub current_block_index : Option ℕ
  pub finish_reason : Option String
  pub finish_reason_sent : Bool
  pub usage : Option Value
  pub message_start_sent : Bool
  pub next_block_index : ℕ
  pub thinking_block_started : Bool
  pub thinking_block_index : ℕ
  pub text_block_index : ℕ
  pub text_block_closed : Bool
  pub fatal_rejection : Option StreamFatalRejection
  pub tool_block_indices : IndexMap ℕ
  pub openai_choice_index : Option ℕ
  pub openai_role_sent : Bool
  pub responses_seq : ℕ
  pub responses_started : Bool
  pub output_item_id : Option String
  pub output_item_added : Bool
  pub responses_content_part_added : Bool
  pub responses_output_text : String
  pub responses_message_parts : List ResponsesMessagePartState
  pub responses_completed_message_items : List ResponsesCompletedMessageState
  pub responses_text_part_index : Option ℕ
  pub responses_refusal_part_index : Option ℕ
  pub responses_reasoning_id : Option String
  pub responses_reasoning_added : Bool
  pub responses_reasoning_done : Bool
  pub responses_reasoning_text : String
  pub responses_next_output_index : ℕ
  pub responses_reasoning_output_index : Option ℕ
  pub responses_message_output_index : Option ℕ
  pub openai_seen_content : String
  pub openai_seen_refusal : String
  pub openai_seen_reasoning : String
  pub openai_terminal_error : Option Value
  pub responses_terminal_sent : Bool
  pub responses_response_id_override : Option String
  pub responses_terminal_response : Option Value

-- A state and the chunks that a handler pushes.
abbrev pub Emitted : Type 0
Emitted = StreamState × List Value

-- `chunk[key] = value` on an object; the program writes to objects only.
unfoldable pub set_key : String → Value → Value → Value
set_key k v (object o) = object (insert k v o)
set_key k v w = w

abbrev pub event_str : Value → String → Option String
event_str event k = and_then (get event k) as_str

abbrev chunk_id : StreamState → String
chunk_id s = elim s.message_id [
  | none ↦ "chatcmpl-0"
  | some id ↦ if starts_with id "chatcmpl-" then id else concat "chatcmpl-" id
]

-- The second write of the finish reason, which the source repeats, writes the same value.
unfoldable pub chunk_of : ℕ → String → String → Fields → Option String → Value
chunk_of now id model delta finish_reason =
    let reason : Value = elim finish_reason [ none ↦ null | some r ↦ string r ] in
    let choice =
      entry "index" (number (pos_int 0))
        (entry "delta" (object delta) (entry "finish_reason" reason end)) in
    object (
      entry "id" (string id) (
        entry "object" (string "chat.completion.chunk") (
          entry "created" (number (pos_int now)) (
            entry "model" (string model)
              (entry "choices" (array (cons (object choice) nil)) end)))))

unfoldable pub openai_chunk : ℕ → StreamState → Fields → Option String → Value
unfolding chunk_of
openai_chunk now s = chunk_of now (chunk_id s) (unwrap_or s.model "")

unfoldable pub emit_openai_assistant_role_if_needed : ℕ → StreamState → List Value → Emitted
unfolding openai_chunk
emit_openai_assistant_role_if_needed now s out = if s.openai_role_sent then (s, out) else (
  record s { openai_role_sent = true },
  out ++ openai_chunk now s (entry "role" (string "assistant") end) none ∷ [],
)

-- The first rejection is kept; the message of a later one goes to its own chunk only.
unfoldable pub mark_stream_fatal_rejection : StreamState → String → StreamState × String
mark_stream_fatal_rejection s raw_message =
    let message = sanitize_public_error_message raw_message in
    (
      record s {
        fatal_rejection = or_option s.fatal_rejection (some (record { message = message }));
      },
      message,
    )

-- `chunk["usage"] = usage` where the state has one.
unfoldable pub with_usage : Option Value → Value → Value
unfolding set_key
with_usage none chunk = chunk
with_usage (some u) chunk = set_key "usage" u chunk

unfoldable pub reject_openai_stream : ℕ → StreamState → String → String → String → Emitted
unfolding mark_stream_fatal_rejection openai_chunk set_key with_usage
reject_openai_stream now s error_type code message =
    let (marked, public_message) = mark_stream_fatal_rejection s message in
    let t = record marked { finish_reason = some "error"; finish_reason_sent = true } in
    let error =
      entry "type" (string error_type)
        (entry "code" (string code) (entry "message" (string public_message) end)) in
    (
      t,
      set_key "error" (object error) (with_usage t.usage (openai_chunk now t end (some "error")))
          ∷ [],
    )

-- The text inside the quotes of its JSON form.
unfoldable pub escape_json_string_content_stream : SerdeText → String → String
escape_json_string_content_stream z value =
    let quoted = z.to_string value in slice quoted 1 (len quoted - 1)

abbrev pub openai_custom_bridge_start_delta_stream : SerdeText → String → String
openai_custom_bridge_start_delta_stream z input =
    concat "{\"input\":\"" (escape_json_string_content_stream z input)

abbrev pub openai_custom_bridge_done_delta_stream : String
openai_custom_bridge_done_delta_stream = "\"}"

-- The number of keys of an object.
abbrev pub field_count : Fields → ℕ
field_count end = 0
field_count (entry k v o) = 1 + field_count o

only_input : Option Value → Option String
only_input (some (object (entry k v end))) = event_str (object (entry k v end)) "input"
only_input _ = none

unfoldable pub openai_custom_bridge_decode_arguments_stream : SerdeText → String → Option String
unfolding only_input
openai_custom_bridge_decode_arguments_stream z arguments = only_input (z.from_str arguments)

abbrev has_item_id : String → ToolCallState → Bool
has_item_id item_id tc = elim tc.responses_item_id [ none ↦ false | some i ↦ str_eq i item_id ]

abbrev has_block_index : ℕ → ToolCallState → Bool
has_block_index n tc = elim tc.block_index [ none ↦ false | some i ↦ i == n ]

-- The call of an event: by the id of its item, then by the place of its item in the output.
unfoldable pub responses_event_tool_call_index : Value → StreamState → Option ℕ
responses_event_tool_call_index event s =
    let by_id =
      and_then (event_str event "item_id") λ i. index_where (has_item_id i) s.openai_tool_calls in
    or_option by_id (
      and_then (and_then (get event "output_index") as_u64)
        λ n. index_where (has_block_index n) s.openai_tool_calls)

unfoldable pub responses_response_id : StreamState → Option String → String
responses_response_id s fallback =
    unwrap_or (or_option s.responses_response_id_override fallback) "resp_0"

abbrev pub tool_call_state_type : ToolCallState → String
tool_call_state_type tc = unwrap_or tc.tool_type "function"

abbrev pub responses_tool_call_item_type : String → String
responses_tool_call_item_type tool_type =
    if str_eq tool_type "custom" then "custom_tool_call" else "function_call"

abbrev pub responses_tool_call_delta_event_type : String → String
responses_tool_call_delta_event_type tool_type =
    if str_eq tool_type "custom"
    then "response.custom_tool_call_input.delta"
    else "response.function_call_arguments.delta"

abbrev pub responses_tool_call_done_event_type : String → String
responses_tool_call_done_event_type tool_type =
    if str_eq tool_type "custom"
    then "response.custom_tool_call_input.done"
    else "response.function_call_arguments.done"

abbrev pub responses_tool_call_payload_field : String → String
responses_tool_call_payload_field tool_type =
    if str_eq tool_type "custom" then "input" else "arguments"

-- `StreamState::default`
abbrev pub default_state : StreamState
default_state = record {
  message_id = none;
  model = none;
  request_scoped_tool_bridge_context = none;
  openai_tool_call_index = 0;
  claude_tool_use_index = 0;
  openai_tool_calls = [];
  claude_tool_uses = [];
  claude_blocks = [];
  claude_thinking_provenance = [];
  server_tool_block_index = none;
  text_block_started = false;
  in_thinking_block = false;
  current_block_index = none;
  finish_reason = none;
  finish_reason_sent = false;
  usage = none;
  message_start_sent = false;
  next_block_index = 0;
  thinking_block_started = false;
  thinking_block_index = 0;
  text_block_index = 0;
  text_block_closed = false;
  fatal_rejection = none;
  tool_block_indices = [];
  openai_choice_index = none;
  openai_role_sent = false;
  responses_seq = 0;
  responses_started = false;
  output_item_id = none;
  output_item_added = false;
  responses_content_part_added = false;
  responses_output_text = "";
  responses_message_parts = [];
  responses_completed_message_items = [];
  responses_text_part_index = none;
  responses_refusal_part_index = none;
  responses_reasoning_id = none;
  responses_reasoning_added = false;
  responses_reasoning_done = false;
  responses_reasoning_text = "";
  responses_next_output_index = 0;
  responses_reasoning_output_index = none;
  responses_message_output_index = none;
  openai_seen_content = "";
  openai_seen_refusal = "";
  openai_seen_reasoning = "";
  openai_terminal_error = none;
  responses_terminal_sent = false;
  responses_response_id_override = none;
  responses_terminal_response = none;
}
