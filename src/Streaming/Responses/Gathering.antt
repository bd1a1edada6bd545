-- ===== src/Streaming/Responses/Gathering.antt =====
-- A state keeps for each call what was sent for it, as long as the events go on.
use llm_universal_proxy.Prelude.{
  ◌≡◌, refl, sym, subst, ◌+◌, ◌-◌, ◌<◌, ℕ, ◌==◌, String, Bool, Option, none, some, List, [], ◌∷◌,
  All, is_empty, and_then, unwrap_or, or_option, branches, arith,
}
use package.text.Mathlib.TextLemmas.{append-nil}
use llm_universal_proxy.Prelude.IndexMap.{IndexMap, lookup, put, index_where}
use llm_universal_proxy.Json.Value.{Value, get, as_u64}
use llm_universal_proxy.Streaming.{
  SerdeText, StreamState, ToolCallState, Emitted, reject_openai_stream, event_str,
  mark_stream_fatal_rejection, emit_openai_assistant_role_if_needed,
  responses_event_tool_call_index,
}
use llm_universal_proxy.Streaming.Normalize.{normalize_openai_stream_text}
use llm_universal_proxy.Streaming.ToolCalls.{
  finalize_custom_tool_call_bridge_delta, finished_call, after_item, terminal_items, announce_call,
  arguments_delta, event_call_index, custom_input_done, after_done, custom_call_of, has_call_id,
  with_call,
}
use llm_universal_proxy.Streaming.Finish.{
  captured_response, capture_responses_model, finish_stream, output_of,
}
use llm_universal_proxy.Streaming.Finish.Captured.{capture_kept, captured_kept}
use llm_universal_proxy.Streaming.Responses.{
  event_str_or, event_type, audio_message, response_created, response_terminal, text_delta,
  response_refusal, emit_refusal, responses_event_to_openai_chunks,
}
use llm_universal_proxy.Streaming.Responses.Branches.{
  by_type_cases, output_item_added_cases, translate_events,
}
use llm_universal_proxy.Streaming.Responses.Pieces.{Grows, Grows-then}
use llm_universal_proxy.Streaming.Responses.Arguments.{
  and_then_holds, created-Grows, reject-Grows, text-Grows, emit_refusal-Grows, terminal-Grows,
  arguments_delta-Grows, announce_call-Grows, custom_input_done-Grows,
}

-- The calls of a state have indices below the next one, which is not the first.
abbrev pub Below : ℕ → IndexMap ToolCallState → Type 0
Below n m = All (λ e. e.0 < n) m

abbrev pub Announced : StreamState → Type 0
Announced s = (0 < s.openai_tool_call_index) × Below s.openai_tool_call_index s.openai_tool_calls

lookup-above : (n : ℕ) (m : IndexMap ToolCallState) → Below n m → lookup n m ≡ none
unfolding lookup
lookup-above n [] h = refl
lookup-above n ((j, v) ∷ m) (a, h) = ground (arith, lookup-above n m h)

put-Below :
    (n i : ℕ) (v : ToolCallState) (m : IndexMap ToolCallState)
    → i < n
    → Below n m
    → Below n (put i v m)
unfolding put
put-Below n i v [] lt h = (lt, tt)
put-Below n i v ((j, w) ∷ m) lt (a, h) =
    branches (Below n) (j == i) (λ _. (lt, h)) (λ _. (a, put-Below n i v m lt h))

Below-raise : (n : ℕ) (m : IndexMap ToolCallState) → Below n m → Below (n + 1) m
Below-raise n [] h = tt
Below-raise n ((j, w) ∷ m) (a, h) = (omega (arith, a), Below-raise n m h)

-- An index that is found is one of a call.
abbrev Bounded : ℕ → Option ℕ → Type 0
Bounded n none = Unit
Bounded n (some i) = i < n

index_where-Bounded :
    (n : ℕ) (p : ToolCallState → Bool) (m : IndexMap ToolCallState)
    → Below n m
    → Bounded n (index_where p m)
unfolding index_where
index_where-Bounded n p [] h = tt
index_where-Bounded n p ((j, w) ∷ m) (a, h) =
    branches (Bounded n) (p w) (λ _. a) (λ _. index_where-Bounded n p m h)

or-Bounded : (n : ℕ) (a b : Option ℕ) → Bounded n a → Bounded n b → Bounded n (or_option a b)
or-Bounded n none b h k = k
or-Bounded n (some i) b h k = h

unwrap-Bounded : (n d : ℕ) (o : Option ℕ) → Bounded n o → d < n → unwrap_or o d < n
unwrap-Bounded n d none h k = k
unwrap-Bounded n d (some i) h k = h

event_call_index-bounded :
    (event : Value) (s : StreamState)
    → Announced s
    → event_call_index event s < s.openai_tool_call_index
unfolding responses_event_tool_call_index
event_call_index-bounded event s (positive, below) =
    let n = s.openai_tool_call_index in
    let calls = s.openai_tool_calls in
    unwrap-Bounded n (n - 1) _
      (or-Bounded n _ _
        (and_then_holds (Bounded n) (event_str event "item_id") _ tt
          λ id _. index_where-Bounded n _ calls below)
        (and_then_holds (Bounded n) (and_then (get event "output_index") as_u64) _ tt
          λ k _. index_where-Bounded n _ calls below))
      (omega (arith, positive))

-- The index and the calls of a state.
abbrev call_index : StreamState → ℕ
call_index s = s.openai_tool_call_index

abbrev calls_of : StreamState → IndexMap ToolCallState
calls_of s = s.openai_tool_calls

kept-Announced :
    (s t : StreamState)
    → call_index t ≡ call_index s
    → calls_of t ≡ calls_of s
    → Announced s
    → Announced t
kept-Announced s t e f h = rw e (rw f h)

-- A call that is found is written back in its place.
abbrev Placed : StreamState → Option (ℕ × String × ToolCallState × String) → Type 0
Placed s none = Unit
Placed s (some (idx, _, _, _)) = idx < call_index s

finished_call-Placed :
    (z : SerdeText) (item : Value) (s : StreamState)
    → Announced s
    → Placed s (finished_call z item s)
unfolding finished_call
finished_call-Placed z item s (_, below) =
    and_then_holds (Placed s) (custom_call_of item) _ tt λ (call_id, full) _.
      and_then_holds (Placed s) (index_where (has_call_id call_id) (calls_of s)) _ tt λ idx e.
        let bound : idx < call_index s =
          subst (Bounded (call_index s)) e
            (index_where-Bounded (call_index s) (has_call_id call_id) (calls_of s) below) in
        and_then_holds (Placed s) (lookup idx (calls_of s)) _ tt λ tc _.
          and_then_holds (Placed s) (finalize_custom_tool_call_bridge_delta z tc full) _ tt
            λ _ _. bound

module _ (now : ℕ) where
  after_item-Announced :
      (s : StreamState) (finished : Option (ℕ × String × ToolCallState × String))
      → Placed s finished
      → Announced s
      → Announced (after_item now s finished).0
  unfolding after_item
  after_item-Announced s none h k = k
  after_item-Announced s (some (idx, _, done, _)) h (positive, below) =
      (positive, put-Below (call_index s) idx done (calls_of s) h below)

  terminal_items-Announced :
      (z : SerdeText) (items : List Value) (s : StreamState)
      → Announced s
      → Announced (terminal_items z now items s).0
  unfolding terminal_items
  terminal_items-Announced z [] s h = h
  terminal_items-Announced z (item ∷ rest) s h =
      terminal_items-Announced z rest (after_item now s (finished_call z item s)).0
        (after_item-Announced s (finished_call z item s) (finished_call-Placed z item s h) h)

  created-Announced :
      (event : Value) (s : StreamState) → Announced s → Announced (response_created now event s).0
  unfolding response_created emit_openai_assistant_role_if_needed
  created-Announced event s h =
      let resp = unwrap_or (get event "response") event in
      let u = record s { message_id = event_str resp "id" } in
      let t = capture_responses_model resp u in
      let kept =
        kept-Announced s t (capture_kept call_index (λ _ _. refl) resp u)
          (capture_kept calls_of (λ _ _. refl) resp u) h in
      branches (λ (r : Emitted). Announced r.0) t.openai_role_sent (λ _. kept) (λ _. kept)

  terminal-Announced :
      (z : SerdeText) (ty : String) (event : Value) (s : StreamState)
      → Announced s
      → Announced (response_terminal z now ty event s).0
  unfolding response_terminal finish_stream
  terminal-Announced z ty event s h =
      let r = terminal_items z now (output_of event) s in
      let resp = get event "response" in
      let t = captured_response resp r.0 in
      let kept =
        kept-Announced r.0 t (captured_kept call_index (λ _ _. refl) (λ _ _. refl) resp r.0)
          (captured_kept calls_of (λ _ _. refl) (λ _ _. refl) resp r.0)
          (terminal_items-Announced z (output_of event) s h) in
      branches (λ (q : Emitted). Announced q.0) t.finish_reason_sent (λ _. kept) (λ _. kept)

  put-Announced :
      (idx : ℕ) (tc : ToolCallState) (s : StreamState)
      → idx < call_index s
      → Announced s
      → Announced (with_call idx tc s)
  put-Announced idx tc s lt (positive, below) =
      (positive, put-Below (call_index s) idx tc (calls_of s) lt below)

  delta-Announced :
      (z : SerdeText) (is_custom : Bool) (event : Value) (s : StreamState)
      → Announced s
      → Announced (arguments_delta z now is_custom event s).0
  unfolding arguments_delta
  delta-Announced z is_custom event s h =
      branches (λ (r : Emitted). Announced r.0) (is_empty (event_str_or event "delta")) (λ _. h)
        λ _. put-Announced (event_call_index event s) _ s (event_call_index-bounded event s h) h

  done-Announced :
      (z : SerdeText) (event : Value) (s : StreamState)
      → Announced s
      → Announced (custom_input_done z now event s).0
  unfolding custom_input_done
  done-Announced z event s h =
      let idx = event_call_index event s in
      let bound = event_call_index-bounded event s h in after_done-Announced idx s _ bound h
    where
      after_done-Announced :
          (idx : ℕ) (u : StreamState) (finished : Option (ToolCallState × String))
          → idx < call_index u
          → Announced u
          → Announced (after_done now idx u finished).0
      after_done-Announced idx u none lt k = k
      after_done-Announced idx u (some (tc, _)) lt k = put-Announced idx tc u lt k

  announce-Announced :
      (z : SerdeText) (is_custom : Bool) (event item : Value) (s : StreamState)
      → Announced s
      → Announced (announce_call z now is_custom event item s).0
  unfolding announce_call
  announce-Announced z is_custom event item s (positive, below) =
      let n = call_index s in
      (
        omega (arith, positive),
        put-Below (n + 1) n _ (calls_of s) (omega arith) (Below-raise n (calls_of s) below),
      )

  refusal-Announced :
      (s : StreamState) (delta : Option String)
      → Announced s
      → Announced (emit_refusal now s delta).0
  unfolding emit_refusal
  refusal-Announced s none h = h
  refusal-Announced s (some _) h = h

  text-Announced :
      (key delta : String) (s : StreamState)
      → Announced s
      → Announced (text_delta now key delta s).0
  unfolding text_delta
  text-Announced key delta s h =
      branches (λ (r : Emitted). Announced r.0) (is_empty delta) (λ _. h) (λ _. h)

  reject-Announced :
      (error_type code message : String) (s : StreamState)
      → Announced s
      → Announced (reject_openai_stream now s error_type code message).0
  unfolding reject_openai_stream mark_stream_fatal_rejection
  reject-Announced error_type code message s h = h

-- Of one event: the calls stay announced, and what is kept for a call grows by what is sent for it.
abbrev Gathers : ℕ → StreamState → Emitted → Type 0
Gathers i s r = Announced r.0 × Grows i s r

event-Gathers :
    (i : ℕ) (z : SerdeText) (now : ℕ) (event : Value) (s : StreamState)
    → Announced s
    → Gathers i s (responses_event_to_openai_chunks z now event s)
unfolding responses_event_to_openai_chunks response_refusal
event-Gathers i z now event s h =
    let absent = lookup-above (call_index s) (calls_of s) h.1 in
    let keeps : Gathers i s (s, []) = (h, sym (append-nil _)) in
    by_type_cases (Gathers i s) z now (event_type event) event s
      (λ _. (created-Announced now event s h, created-Grows i now event s))
      (λ _. (
        reject-Announced now "invalid_request_error" "unsupported_openai_responses_stream_event"
            audio_message s h,
        reject-Grows i now _ _ _ s,
      ))
      (λ _. (text-Announced now "content" _ s h, text-Grows i now "content" _ s refl))
      (λ _ key.
        let (delta, seen) =
          normalize_openai_stream_text (event_str_or event key) s.openai_seen_refusal in
        let t = record s { openai_seen_refusal = seen } in
        (refusal-Announced now t delta h, emit_refusal-Grows i now s t delta refl))
      (λ _. (
        text-Announced now "reasoning_content" _ s h,
        text-Grows i now "reasoning_content" _ s refl,
      ))
      (λ _.
        output_item_added_cases (Gathers i s) z now event s keeps
          (λ code message. (
            reject-Announced now "invalid_request_error" code message s h,
            reject-Grows i now _ code message s,
          ))
          λ c item. (
            announce-Announced now z c event item s h,
            announce_call-Grows i now z c event item s absent,
          ))
      (λ _ c. (delta-Announced now z c event s h, arguments_delta-Grows i now z c event s))
      (λ _. (done-Announced now z event s h, custom_input_done-Grows i now z event s))
      (λ _. (
        terminal-Announced now z (event_type event) event s h,
        terminal-Grows i now z (event_type event) event s,
      ))
      (λ _. keeps)

-- From a state with an announced call on, whatever the events are, the arguments that the state
-- keeps for a call grow by exactly the pieces that are sent for it.
pub translate_events-Grows :
    (i : ℕ) (z : SerdeText) (es : List (ℕ × Value)) (s : StreamState)
    → Announced s
    → Grows i s (translate_events z es s)
unfolding translate_events
translate_events-Grows i z [] s h = sym (append-nil _)
translate_events-Grows i z ((now, event) ∷ es) s h =
    let r = responses_event_to_openai_chunks z now event s in
    let (announced, grows) = event-Gathers i z now event s h in
    Grows-then i s r (translate_events z es r.0) grows (translate_events-Grows i z es r.0 announced)
