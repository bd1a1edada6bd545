-- ===== src/Streaming/Responses/Branches.antt =====
-- The branches of the translation of an event, the reading of a chunk, and a run over many events.
use llm_universal_proxy.Prelude.{
  ◌≡◌, refl, ℕ, ◌+◌, String, Bool, true, false, ◌||◌, Option, none, some, List, [], ◌∷◌, ◌++◌,
  and_then, unwrap_or, not, str_eq, starts_with, branches, str_eq_sound, count_by, if◌then◌else◌,
}
use llm_universal_proxy.Json.Value.{
  Value, get, array, null, bool, number, string, object, Fields, field, as_str, cons,
}
use llm_universal_proxy.Json.Laws.{field-insert}
use llm_universal_proxy.Streaming.{
  SerdeText, StreamState, Emitted, with_usage, set_key, reject_openai_stream, chunk_of,
}
use llm_universal_proxy.InternalArtifacts.{openai_responses_custom_bridge_prefix}
use llm_universal_proxy.Streaming.ToolCalls.{
  output_item_added, announce_call, arguments_delta, custom_input_done,
}
use llm_universal_proxy.Streaming.Responses.{
  by_type, response_created, text_delta, response_refusal, response_terminal, event_str_or,
  audio_message, responses_event_to_openai_chunks,
}

-- What holds of the result of each branch, under the branch's test, holds of the translation.
pub by_type_cases :
    (P : Emitted → Type 0) (z : SerdeText) (now : ℕ) (ty : String) (event : Value) (s : StreamState)
    → (ty ≡ "response.created" → P (response_created now event s))
    → (starts_with ty "response.audio." ≡ true
        → P (
            reject_openai_stream now s "invalid_request_error"
              "unsupported_openai_responses_stream_event" audio_message))
    → (ty ≡ "response.output_text.delta"
        → P (text_delta now "content" (event_str_or event "delta") s))
    → (str_eq ty "response.output_text.delta" ≡ false
        → (key : String) → P (response_refusal now (event_str_or event key) s))
    → (ty ≡ "response.reasoning_summary_text.delta"
        → P (text_delta now "reasoning_content" (event_str_or event "delta") s))
    → (ty ≡ "response.output_item.added" → P (output_item_added z now event s))
    → (str_eq ty "response.output_text.delta" ≡ false
        → (is_custom : Bool) → P (arguments_delta z now is_custom event s))
    → (ty ≡ "response.custom_tool_call_input.done" → P (custom_input_done z now event s))
    → (str_eq ty "response.output_text.delta" ≡ false → P (response_terminal z now ty event s))
    → (str_eq ty "response.output_text.delta" ≡ false → P (s, []))
    → P (by_type z now ty event s)
unfolding by_type
by_type_cases P z now ty event s created audio text refusal reasoning added delta done terminal
      other =
    let is = str_eq ty in
    branches P (is "response.created") (λ e. created (str_eq_sound _ _ e))
      λ _. branches P (starts_with ty "response.audio.") audio λ _.
        branches P (is "response.output_text.delta") (λ e. text (str_eq_sound _ _ e))
          λ plain.
            branches P (is "response.refusal.delta" || is "response.refusal.done")
              (λ _. refusal plain (if is "response.refusal.delta" then "delta" else "refusal"))
              λ _.
                branches P (is "response.reasoning_summary_text.delta")
                  (λ e. reasoning (str_eq_sound _ _ e))
                  λ _.
                    branches P (is "response.output_item.added") (λ e. added (str_eq_sound _ _ e))
                      λ _.
                        branches P
                          (is "response.function_call_arguments.delta"
                            || is "response.custom_tool_call_input.delta")
                          (λ _. delta plain (is "response.custom_tool_call_input.delta"))
                          λ _.
                            branches P (is "response.custom_tool_call_input.done")
                              (λ e. done (str_eq_sound _ _ e))
                              λ _.
                                branches P
                                  (is "response.completed"
                                    || is "response.incomplete"
                                    || is "response.failed")
                                  (λ _. terminal plain) λ _. other plain

pub output_item_added_cases :
    (P : Emitted → Type 0) (z : SerdeText) (now : ℕ) (event : Value) (s : StreamState)
    → P (s, [])
    → ((code message : String)
        → P (reject_openai_stream now s "invalid_request_error" code message))
    → ((is_custom : Bool) (item : Value) → P (announce_call z now is_custom event item s))
    → P (output_item_added z now event s)
unfolding output_item_added
output_item_added_cases P z now event s other rejected announced =
    let item = unwrap_or (get event "item") null in
    let item_ty = event_str_or item "type" in
    branches P (not (str_eq item_ty "function_call" || str_eq item_ty "custom_tool_call"))
      (λ _. other)
      λ _.
        branches P (starts_with (event_str_or item "name") openai_responses_custom_bridge_prefix)
          (λ _. rejected _ _) λ _. announced (str_eq item_ty "custom_tool_call") item

-- The first choice of a chunk, and a field of its delta.
abbrev pub first_item : Value → Option Value
first_item (array (cons v _)) = some v
first_item _ = none

abbrev pub choice_of : Value → Option Value
choice_of chunk = and_then (get chunk "choices") first_item

unfoldable pub delta_field : String → Value → Option Value
unfolding get
delta_field key chunk = and_then (and_then (choice_of chunk) λ c. get c "delta") λ d. get d key

unfoldable pub chunk_finish : Value → Option String
unfolding get
chunk_finish chunk = and_then (and_then (choice_of chunk) λ c. get c "finish_reason") as_str

-- Events at their times, one after the other.
unfoldable pub translate_events : SerdeText → List (ℕ × Value) → StreamState → Emitted
unfolding responses_event_to_openai_chunks
translate_events z [] s = (s, [])
translate_events z ((now, event) ∷ rest) s =
    let (t, out) = responses_event_to_openai_chunks z now event s in
    let (u, more) = translate_events z rest t in (u, out ++ more)

-- How many chunks pass a test, where a flag of the state goes up with the one that does.
abbrev pub flag : Bool → ℕ
flag b = if b then 1 else 0

abbrev pub Tallies : (Value → Bool) → (StreamState → Bool) → Bool → Emitted → Type 0
Tallies p latch before r = flag before + count_by p r.1 ≡ flag (latch r.0)

pub delta_field-chunk_of :
    (key : String) (now : ℕ) (id model : String) (delta : Fields) (reason : Option String)
    → delta_field key (chunk_of now id model delta reason) ≡ field key delta
unfolding delta_field chunk_of field
delta_field-chunk_of key now id model delta reason = refl

pub chunk_finish-chunk_of :
    (now : ℕ) (id model : String) (delta : Fields) (reason : Option String)
    → chunk_finish (chunk_of now id model delta reason) ≡ reason
unfolding chunk_finish chunk_of field
chunk_finish-chunk_of now id model delta none = refl
chunk_finish-chunk_of now id model delta (some r) = refl

choice_of-set_key :
    (k : String) (v chunk : Value)
    → str_eq k "choices" ≡ false
    → choice_of (set_key k v chunk) ≡ choice_of chunk
unfolding get set_key
choice_of-set_key k v (object o) h = rw field-insert (rw h refl)
choice_of-set_key k v (null) h = refl
choice_of-set_key k v (bool _) h = refl
choice_of-set_key k v (number _) h = refl
choice_of-set_key k v (string _) h = refl
choice_of-set_key k v (array _) h = refl

choice_of-with_usage :
    (u : Option Value) (chunk : Value) → choice_of (with_usage u chunk) ≡ choice_of chunk
unfolding with_usage
choice_of-with_usage none chunk = refl
choice_of-with_usage (some u) chunk = choice_of-set_key "usage" u chunk refl

pub delta_field-with_usage :
    (key : String) (u : Option Value) (chunk : Value)
    → delta_field key (with_usage u chunk) ≡ delta_field key chunk
unfolding delta_field
delta_field-with_usage key u chunk = rw choice_of-with_usage refl

pub chunk_finish-with_usage :
    (u : Option Value) (chunk : Value) → chunk_finish (with_usage u chunk) ≡ chunk_finish chunk
unfolding chunk_finish
chunk_finish-with_usage u chunk = rw choice_of-with_usage refl

pub delta_field-error :
    (key : String) (v chunk : Value)
    → delta_field key (set_key "error" v chunk) ≡ delta_field key chunk
unfolding delta_field
delta_field-error key v chunk = rw (choice_of-set_key "error" v chunk refl) refl

pub chunk_finish-error :
    (v chunk : Value) → chunk_finish (set_key "error" v chunk) ≡ chunk_finish chunk
unfolding chunk_finish
chunk_finish-error v chunk = rw (choice_of-set_key "error" v chunk refl) refl

pub ruleset chunk_laws = (
  delta_field-chunk_of, chunk_finish-chunk_of, delta_field-with_usage, chunk_finish-with_usage,
  delta_field-error, chunk_finish-error,
)
