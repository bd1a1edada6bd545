-- ===== src/Streaming/Responses/Arguments.antt =====
-- The arguments of a call that a state keeps are the pieces that were sent for it, put together.
use llm_universal_proxy.Prelude.{
  ◌≡◌, refl, sym, subst, ap, ◌∙◌, ◌+◌, ℕ, String, Bool, true, false, Option, none, some, List, [],
  ◌∷◌, concat, is_empty, and_then, unwrap_or, branches, if◌then◌else◌, str_eq,
}
use package.text.Mathlib.TextLemmas.{nil-append, append-nil}
use llm_universal_proxy.Prelude.IndexMap.{lookup, index_where}
use llm_universal_proxy.Json.Value.{Value, string, entry, end, field, null, get}
use llm_universal_proxy.Streaming.{
  SerdeText, StreamState, ToolCallState, openai_chunk, with_usage, reject_openai_stream, event_str,
  mark_stream_fatal_rejection, emit_openai_assistant_role_if_needed,
  escape_json_string_content_stream,
}
use llm_universal_proxy.Streaming.ToolCalls.{
  finalize_custom_tool_call_bridge_delta, finished_call, after_item, terminal_items, announce_call,
  announced_state, arguments_delta, extended_call, event_call_index, with_call, custom_input_done,
  after_done, default_tool_call, custom_call_of, has_call_id, bridge_call,
}
use llm_universal_proxy.Streaming.Finish.{
  captured_response, capture_responses_model, finish_stream, terminal_finish_reason, output_of,
}
use llm_universal_proxy.Streaming.Finish.Captured.{capture_kept, captured_kept}
use llm_universal_proxy.Streaming.Responses.{
  event_str_or, response_created, response_terminal, text_delta, emit_refusal,
}
use llm_universal_proxy.Streaming.Responses.Branches.{chunk_laws}
use llm_universal_proxy.Streaming.Responses.Pieces.{
  arguments_in, arguments_of, Grows, Grows-then, Callless-Grows, one-Grows, with_kind-Sends,
  call-Grows,
}

-- What holds of the end of a chain of options holds where one of them is empty, or of the end.
pub and_then_holds :
    {A B : Type 0} (M : Option B → Type 0) (o : Option A) (f : A → Option B)
    → M none
    → ((a : A) → o ≡ some a → M (f a))
    → M (and_then o f)
and_then_holds M none f n h = n
and_then_holds M (some a) f n h = h a refl

-- A call that is done has the last piece behind its arguments.
abbrev Closes : ToolCallState → Option (ToolCallState × String) → Type 0
Closes tc none = Unit
Closes tc (some (done, piece)) = done.arguments ≡ concat tc.arguments piece

finalize-Closes :
    (z : SerdeText) (tc : ToolCallState) (full : String)
    → Closes tc (finalize_custom_tool_call_bridge_delta z tc full)
unfolding finalize_custom_tool_call_bridge_delta
finalize-Closes z tc full =
    and_then_holds (Closes tc) tc.custom_input_text _ tt
      λ emitted e. branches (Closes tc) tc.custom_input_done (λ _. tt) (λ _. refl)

abbrev Finishes : StreamState → Option (ℕ × String × ToolCallState × String) → Type 0
Finishes s none = Unit
Finishes s (some (idx, call_id, done, piece)) = done.arguments ≡ concat (arguments_of idx s) piece

finished_call-Finishes :
    (z : SerdeText) (item : Value) (s : StreamState) → Finishes s (finished_call z item s)
unfolding finished_call
finished_call-Finishes z item s =
    let calls = s.openai_tool_calls in
    and_then_holds (Finishes s) (custom_call_of item) _ tt λ (call_id, full) _.
      and_then_holds (Finishes s) (index_where (has_call_id call_id) calls) _ tt λ idx _.
        and_then_holds (Finishes s) (lookup idx calls) _ tt λ tc found.
          and_then_holds (Finishes s) (finalize_custom_tool_call_bridge_delta z tc full) _ tt
            λ (done, piece) e.
              let closes : done.arguments ≡ concat tc.arguments piece =
                subst (Closes tc) e (finalize-Closes z tc full) in
              closes ∙ ap (λ t. concat t piece) (sym (ap arguments_in found))

old_arguments :
    (idx : ℕ) (o : Option ToolCallState)
    → (unwrap_or o (default_tool_call idx)).arguments ≡ arguments_in o
old_arguments idx none = refl
old_arguments idx (some tc) = refl

module _ (i now : ℕ) where
  after_item-Grows :
      (s : StreamState) (finished : Option (ℕ × String × ToolCallState × String))
      → Finishes s finished
      → Grows i s (after_item now s finished)
  unfolding after_item openai_chunk get field
  after_item-Grows s none h = sym (append-nil _)
  after_item-Grows s (some (idx, call_id, done, piece)) h =
      call-Grows i s (with_call idx done s) now idx _ _ done
        (bridge_call idx (string call_id) piece) piece refl (refl, refl) h

  terminal_items-Grows :
      (z : SerdeText) (items : List Value) (s : StreamState)
      → Grows i s (terminal_items z now items s)
  unfolding terminal_items
  terminal_items-Grows z [] s = sym (append-nil _)
  terminal_items-Grows z (item ∷ rest) s =
      let r = after_item now s (finished_call z item s) in
      Grows-then i s r (terminal_items z now rest r.0)
        (after_item-Grows s (finished_call z item s) (finished_call-Finishes z item s))
        (terminal_items-Grows z rest r.0)

  after_done-Grows :
      (idx : ℕ) (s : StreamState) (tc : ToolCallState) (finished : Option (ToolCallState × String))
      → arguments_of idx s ≡ tc.arguments
      → Closes tc finished
      → Grows i s (after_done now idx s finished)
  unfolding after_done openai_chunk get field
  after_done-Grows idx s tc none e h = sym (append-nil _)
  after_done-Grows idx s tc (some (done, piece)) e h =
      call-Grows i s (with_call idx done s) now idx _ _ done
        (bridge_call idx (unwrap_or done.id null) piece) piece refl (refl, refl)
        (h ∙ ap (λ t. concat t piece) (sym e))

  pub custom_input_done-Grows :
      (z : SerdeText) (event : Value) (s : StreamState)
      → Grows i s (custom_input_done z now event s)
  unfolding custom_input_done
  custom_input_done-Grows z event s =
      let idx = event_call_index event s in
      and_then_holds (λ finished. Grows i s (after_done now idx s finished))
        (lookup idx s.openai_tool_calls) _ (sym (append-nil _))
        λ tc found. after_done-Grows idx s tc _ (ap arguments_in found) (finalize-Closes z tc _)

  pub announce_call-Grows :
      (z : SerdeText) (is_custom : Bool) (event item : Value) (s : StreamState)
      → lookup s.openai_tool_call_index s.openai_tool_calls ≡ none
      → Grows i s (announce_call z now is_custom event item s)
  unfolding announce_call openai_chunk get field
  announce_call-Grows z is_custom event item s h =
      let idx = s.openai_tool_call_index in
      let tc = announced_state z is_custom event item idx in
      let t = with_call idx tc (record s { openai_tool_call_index = idx + 1 }) in
      call-Grows i s t now idx _ _ tc _ tc.arguments refl
        (with_kind-Sends (get item "proxied_tool_kind") _ idx tc.arguments (refl, refl))
        (sym (nil-append tc.arguments) ∙ ap (λ o. concat (arguments_in o) tc.arguments) (sym h))

  pub arguments_delta-Grows :
      (z : SerdeText) (is_custom : Bool) (event : Value) (s : StreamState)
      → Grows i s (arguments_delta z now is_custom event s)
  unfolding arguments_delta extended_call openai_chunk get field
  arguments_delta-Grows z is_custom event s =
      let delta = event_str_or event "delta" in
      let idx = event_call_index event s in
      let piece = if is_custom then escape_json_string_content_stream z delta else delta in
      let old = unwrap_or (lookup idx s.openai_tool_calls) (default_tool_call idx) in
      let tc = extended_call is_custom event delta piece old in
      branches (Grows i s) (is_empty delta) (λ _. sym (append-nil _))
        λ _.
          call-Grows i s (with_call idx tc s) now idx _ _ tc _ piece refl
            (with_kind-Sends (and_then tc.proxied_tool_kind λ kind. some (string kind)) _ idx piece
              (refl, refl))
            (ap (λ t. concat t piece) (old_arguments idx (lookup idx s.openai_tool_calls)))

  pub created-Grows : (event : Value) (s : StreamState) → Grows i s (response_created now event s)
  unfolding response_created emit_openai_assistant_role_if_needed openai_chunk field
  created-Grows event s =
      let resp = unwrap_or (get event "response") event in
      let t = capture_responses_model resp (record s { message_id = event_str resp "id" }) in
      let calls : t.openai_tool_calls ≡ s.openai_tool_calls =
        capture_kept (λ u. u.openai_tool_calls) (λ _ _. refl) resp
          (record s { message_id = event_str resp "id" }) in
      branches (Grows i s) t.openai_role_sent (λ _. Callless-Grows i s (t, []) calls tt)
        λ _.
          one-Grows i s (record t { openai_role_sent = true })
            (openai_chunk now t (entry "role" (string "assistant") end) none) calls
            (simp chunk_laws)

  pub reject-Grows :
      (error_type code message : String) (s : StreamState)
      → Grows i s (reject_openai_stream now s error_type code message)
  unfolding reject_openai_stream mark_stream_fatal_rejection openai_chunk field
  reject-Grows error_type code message s =
      Callless-Grows i s (reject_openai_stream now s error_type code message) refl
        (simp chunk_laws, tt)

  pub text-Grows :
      (key delta : String) (s : StreamState)
      → str_eq key "tool_calls" ≡ false
      → Grows i s (text_delta now key delta s)
  unfolding text_delta openai_chunk field
  text-Grows key delta s h =
      branches (Grows i s) (is_empty delta) (λ _. sym (append-nil _))
        λ _.
          one-Grows i s s (openai_chunk now s (entry key (string delta) end) none) refl
            (simp (chunk_laws, h))

  pub emit_refusal-Grows :
      (s t : StreamState) (delta : Option String)
      → t.openai_tool_calls ≡ s.openai_tool_calls
      → Grows i s (emit_refusal now t delta)
  unfolding emit_refusal openai_chunk field
  emit_refusal-Grows s t none e = Callless-Grows i s (t, []) e tt
  emit_refusal-Grows s t (some d) e =
      one-Grows i s t (openai_chunk now t (entry "refusal" (string d) end) none) e (simp chunk_laws)

  finish-Grows :
      (ty : String) (event : Value) (s t : StreamState)
      → t.openai_tool_calls ≡ s.openai_tool_calls
      → Grows i s (finish_stream now ty event t)
  unfolding finish_stream openai_chunk field
  finish-Grows ty event s t e =
      branches (Grows i s) t.finish_reason_sent (λ _. Callless-Grows i s (t, []) e tt)
        λ _.
          one-Grows i s (record t { finish_reason_sent = true })
            (with_usage t.usage (openai_chunk now t end (some (terminal_finish_reason ty event t))))
            e (simp chunk_laws)

  pub terminal-Grows :
      (z : SerdeText) (ty : String) (event : Value) (s : StreamState)
      → Grows i s (response_terminal z now ty event s)
  unfolding response_terminal
  terminal-Grows z ty event s =
      let r = terminal_items z now (output_of event) s in
      let t = captured_response (get event "response") r.0 in
      let calls : t.openai_tool_calls ≡ r.0.openai_tool_calls =
        captured_kept (λ u. u.openai_tool_calls) (λ _ _. refl) (λ _ _. refl) (get event "response")
          r.0 in
      Grows-then i s r (finish_stream now ty event t) (terminal_items-Grows z (output_of event) s)
        (finish-Grows ty event r.0 t calls)
