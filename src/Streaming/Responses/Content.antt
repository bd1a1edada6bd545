-- ===== src/Streaming/Responses/Content.antt =====
-- The text of the answer passes through a translated stream whole and in order.
use llm_universal_proxy.Prelude.{
  ◌≡◌, refl, sym, ◌∙◌, ap, ℕ, String, true, false, none, List, [], ◌∷◌, ◌++◌, All, concat, is_empty,
  str_eq, str_eq_sound, and_then, unwrap_or, branches, starts_with, Bool-cases, inl, inr,
  if◌then◌else◌,
}
use package.text.Mathlib.TextLemmas.{nil-append, append-nil, append_assoc}
use llm_universal_proxy.Json.Value.{Value, field, get, as_str}
use llm_universal_proxy.Streaming.{
  SerdeText, StreamState, Emitted, reject_openai_stream, openai_chunk, mark_stream_fatal_rejection,
  emit_openai_assistant_role_if_needed, event_str,
}
use llm_universal_proxy.Streaming.ToolCalls.{
  output_item_added, announce_call, arguments_delta, custom_input_done, terminal_items,
}
use llm_universal_proxy.Streaming.Finish.{
  captured_response, finish_stream, output_of, capture_responses_model,
}
use llm_universal_proxy.Streaming.Responses.{
  by_type, response_created, response_terminal, responses_event_to_openai_chunks, event_type,
  event_str_or, text_delta, response_refusal,
}
use llm_universal_proxy.Streaming.Responses.Branches.{
  by_type_cases, output_item_added_cases, delta_field, translate_events, chunk_laws,
}
use llm_universal_proxy.Streaming.Responses.Quiet.{
  Each, Quiet, text_delta-Quiet, refusal-Quiet, announce_call-Quiet, arguments_delta-Quiet,
  custom_input_done-Quiet, terminal_items-Quiet,
}

abbrev chunk_text : Value → String
chunk_text chunk = unwrap_or (and_then (delta_field "content" chunk) as_str) ""

-- The text that chunks send, and the text that events bring.
abbrev pub text_sent : List Value → String
text_sent [] = ""
text_sent (chunk ∷ rest) = concat (chunk_text chunk) (text_sent rest)

abbrev pub event_text : Value → String
event_text event =
    if str_eq (event_type event) "response.output_text.delta"
    then event_str_or event "delta"
    else ""

abbrev pub text_received : List (ℕ × Value) → String
text_received [] = ""
text_received ((now, event) ∷ rest) = concat (event_text event) (text_received rest)

text_sent-append :
    (xs ys : List Value) → text_sent (xs ++ ys) ≡ concat (text_sent xs) (text_sent ys)
text_sent-append [] ys = sym (nil-append (text_sent ys))
text_sent-append (x ∷ xs) ys = rw (text_sent-append xs ys) (sym (append_assoc _ _ _))

abbrev Textless : Value → Type 0
Textless chunk = delta_field "content" chunk ≡ none

Each-Textless : (key : String) → str_eq key "content" ≡ false → Each Textless key
unfolding field
Each-Textless key h now id model v = simp (chunk_laws, h)

textless : (out : List Value) → All Textless out → text_sent out ≡ ""
textless [] all = refl
textless (c ∷ out) (e, all) = rw e (rw (textless out all) (nil-append ""))

-- A handler that sends no text.
abbrev Silent : Emitted → Type 0
Silent r = text_sent r.1 ≡ ""

silent : (s : StreamState) (r : Emitted) → Quiet Textless s r → Silent r
silent s r (_, all) = textless r.1 all

created-Silent : (now : ℕ) (event : Value) (s : StreamState) → Silent (response_created now event s)
unfolding response_created emit_openai_assistant_role_if_needed openai_chunk field
created-Silent now event s =
    let t =
      capture_responses_model (unwrap_or (get event "response") event)
        (record s { message_id = event_str (unwrap_or (get event "response") event) "id" }) in
    branches Silent t.openai_role_sent (λ _. refl) λ _. simp chunk_laws (nil-append "")

reject-Silent :
    (now : ℕ) (error_type code message : String) (s : StreamState)
    → Silent (reject_openai_stream now s error_type code message)
unfolding reject_openai_stream mark_stream_fatal_rejection openai_chunk field
reject-Silent now error_type code message s =
    textless (reject_openai_stream now s error_type code message).1 (simp chunk_laws, tt)

finish-Silent :
    (now : ℕ) (ty : String) (event : Value) (s : StreamState)
    → Silent (finish_stream now ty event s)
unfolding finish_stream openai_chunk field
finish-Silent now ty event s =
    branches Silent s.finish_reason_sent (λ _. refl) λ _. simp chunk_laws (nil-append "")

terminal-Silent :
    (z : SerdeText) (now : ℕ) (ty : String) (event : Value) (s : StreamState)
    → Silent (response_terminal z now ty event s)
unfolding response_terminal
terminal-Silent z now ty event s =
    let r = terminal_items z now (output_of event) s in
    let t = captured_response (get event "response") r.0 in
    let quiet = terminal_items-Quiet Textless z now (output_of event) s (Each-Textless _ refl) in
    rw (text_sent-append r.1 (finish_stream now ty event t).1)
      (rw (silent s r quiet) (rw (finish-Silent now ty event t) (nil-append "")))

added-Silent :
    (z : SerdeText) (now : ℕ) (event : Value) (s : StreamState)
    → Silent (output_item_added z now event s)
added-Silent z now event s =
    output_item_added_cases Silent z now event s refl (λ code message. reject-Silent now _ _ _ s)
      λ c item.
        silent s (announce_call z now c event item s)
          (announce_call-Quiet Textless z now c event item s (Each-Textless _ refl))

empty_text : (s : String) → is_empty s ≡ true → s ≡ ""
empty_text String.[] h = refl
empty_text (String.◌∷◌ c s) h = cc

text-sent :
    (now : ℕ) (delta : String) (s : StreamState)
    → text_sent (text_delta now "content" delta s).1 ≡ delta
unfolding text_delta openai_chunk field
text-sent now delta s =
    branches (λ (r : Emitted). text_sent r.1 ≡ delta) (is_empty delta)
      (λ h. sym (empty_text delta h)) λ _. simp chunk_laws (append-nil delta)

-- The chunks of an event of a type send the event's text.
abbrev Sends : String → Value → Emitted → Type 0
Sends ty event r =
    text_sent r.1
    ≡ (if str_eq ty "response.output_text.delta" then event_str_or event "delta" else "")

-- An event without text needs a silent handler.
Sends-none :
    (ty : String) (event : Value) (r : Emitted)
    → str_eq ty "response.output_text.delta" ≡ false
    → Silent r
    → Sends ty event r
Sends-none ty event r h e = rw h e

audio-plain :
    (ty : String)
    → starts_with ty "response.audio." ≡ true
    → str_eq ty "response.output_text.delta" ≡ false
audio-plain ty h = elim (Bool-cases (str_eq ty "response.output_text.delta")) [
  | inr e ↦ e
  | inl e ↦
      absurd (true_false (sym h ∙ ap (λ t. starts_with t "response.audio.") (str_eq_sound _ _ e)))
]
  where
    true_false : true ≡ false → ⊥
    true_false e = cc

event-Sends :
    (z : SerdeText) (now : ℕ) (ty : String) (event : Value) (s : StreamState)
    → Sends ty event (by_type z now ty event s)
event-Sends z now ty event s =
    by_type_cases (Sends ty event) z now ty event s (λ e. rw e (created-Silent now event s))
      (λ h.
        Sends-none ty event (reject_openai_stream now s _ _ _) (audio-plain ty h)
          (reject-Silent now _ _ _ s))
      (λ e. rw e (text-sent now (event_str_or event "delta") s))
      (λ h key. Sends-none ty event (response_refusal now (event_str_or event key) s) h (
        silent s (response_refusal now (event_str_or event key) s)
          (refusal-Quiet Textless now (event_str_or event key) s (Each-Textless _ refl))))
      (λ e. rw e (
        silent s (text_delta now "reasoning_content" (event_str_or event "delta") s) (
          text_delta-Quiet Textless now "reasoning_content" (event_str_or event "delta") s
            (Each-Textless _ refl))))
      (λ e. rw e (added-Silent z now event s))
      (λ h c. Sends-none ty event (arguments_delta z now c event s) h (
        silent s (arguments_delta z now c event s)
          (arguments_delta-Quiet Textless z now c event s (Each-Textless _ refl))))
      (λ e. rw e (
        silent s (custom_input_done z now event s)
          (custom_input_done-Quiet Textless z now event s (Each-Textless _ refl))))
      (λ h.
        Sends-none ty event (response_terminal z now ty event s) h
          (terminal-Silent z now ty event s))
      (λ h. Sends-none ty event (s, []) h refl)

-- The content of all chunks, put together, is the text of all events that bring text, put together:
-- nothing is lost, repeated, or out of order.
pub translate_events-text :
    (z : SerdeText) (es : List (ℕ × Value)) (s : StreamState)
    → text_sent (translate_events z es s).1 ≡ text_received es
unfolding translate_events responses_event_to_openai_chunks
translate_events-text z [] s = refl
translate_events-text z ((now, event) ∷ es) s =
    let r = responses_event_to_openai_chunks z now event s in
    rw (text_sent-append r.1 (translate_events z es r.0).1)
      (rw (event-Sends z now (event_type event) event s) (rw (translate_events-text z es r.0) refl))
