-- ===== src/Streaming/Responses/Rejection.antt =====
-- The rejection of a stream: the first one stays, and its message names nothing internal.
use llm_universal_proxy.Prelude.{
  ◌≡◌, refl, ◌∙◌, sym, ap, ℕ, String, false, Option, none, some, List, [], ◌∷◌, or_option,
  unwrap_or, branches, ◌⊎◌, inl, inr, subst,
}
use llm_universal_proxy.Json.Value.{Value, get}
use llm_universal_proxy.InternalArtifacts.{
  contains_internal_artifact_text, sanitize_public_error_message, sanitize_public,
}
use llm_universal_proxy.Streaming.{
  SerdeText, StreamState, StreamFatalRejection, Emitted, reject_openai_stream, event_str,
  emit_openai_assistant_role_if_needed, mark_stream_fatal_rejection,
}
use llm_universal_proxy.Streaming.ToolCalls.{terminal_items}
use llm_universal_proxy.Streaming.Finish.{
  captured_response, capture_responses_model, finish_stream, output_of,
}
use llm_universal_proxy.Streaming.Finish.Captured.{capture_kept, captured_kept}
use llm_universal_proxy.Streaming.Responses.{
  response_created, response_terminal, responses_event_to_openai_chunks, event_type,
}
use llm_universal_proxy.Streaming.Responses.Branches.{translate_events}
use llm_universal_proxy.Streaming.Responses.Quiet.{event_cases, terminal_items-Quiet}

abbrev rejection : StreamState → Option StreamFatalRejection
rejection s = s.fatal_rejection

pub or_some : {A : Type 0} (o : Option A) (a : A) → or_option o (some a) ≡ none → ⊥
or_some none a h = cc
or_some (some b) a h = cc

abbrev Anything : Value → Type 0
Anything _ = Unit

created-rejection :
    (now : ℕ) (event : Value) (s : StreamState)
    → rejection (response_created now event s).0 ≡ rejection s
unfolding response_created emit_openai_assistant_role_if_needed
created-rejection now event s =
    let t =
      capture_responses_model (unwrap_or (get event "response") event)
        (record s { message_id = event_str (unwrap_or (get event "response") event) "id" }) in
    branches (λ (r : Emitted). rejection r.0 ≡ rejection s) t.openai_role_sent
      (λ _. capture_kept rejection (λ _ _. refl) _ _)
      (λ _. capture_kept rejection (λ _ _. refl) _ _)

terminal-rejection :
    (z : SerdeText) (now : ℕ) (ty : String) (event : Value) (s : StreamState)
    → rejection (response_terminal z now ty event s).0 ≡ rejection s
unfolding response_terminal finish_stream
terminal-rejection z now ty event s =
    let r = terminal_items z now (output_of event) s in
    let t = captured_response (get event "response") r.0 in
    let ((_, _, same), _) =
      terminal_items-Quiet Anything z now (output_of event) s (λ _ _ _ _. tt) in
    let kept =
      captured_kept rejection (λ _ _. refl) (λ _ _. refl) (get event "response") r.0 ∙ same in
    branches (λ (r : Emitted). rejection r.0 ≡ rejection s) t.finish_reason_sent (λ _. kept)
      (λ _. kept)

-- Of one event: the rejection is as it was, or is made where there was none.
abbrev Rejects : StreamState → Emitted → Type 0
Rejects s r =
    (rejection r.0 ≡ rejection s)
    ⊎ ((raw : String) × (rejection r.0
          ≡ or_option (rejection s)
              (some (record { message = sanitize_public_error_message raw }))))

event-Rejects :
    (z : SerdeText) (now : ℕ) (event : Value) (s : StreamState)
    → Rejects s (responses_event_to_openai_chunks z now event s)
unfolding reject_openai_stream mark_stream_fatal_rejection
event-Rejects z now event s =
    event_cases Anything (Rejects s) z now event s (λ _ _ _ _. tt) (λ _ _ _ _. tt) (λ _ _ _ _. tt)
      (λ _ _ _ _. tt) (λ r ((_, _, e), _). inl e) (inl (created-rejection now event s))
      (λ code message. inr (message, refl))
      (inl (terminal-rejection z now (event_type event) event s))

Rejects-kept :
    (s : StreamState) (r : Emitted) (j : StreamFatalRejection)
    → rejection s ≡ some j
    → Rejects s r
    → rejection r.0 ≡ some j
Rejects-kept s r j h (inl e) = e ∙ h
Rejects-kept s r j h (inr (raw, e)) =
    e ∙ ap (λ o. or_option o (some (record { message = sanitize_public_error_message raw }))) h

-- The rejection that a state holds is the one that any events leave.
pub translate_events-rejected :
    (z : SerdeText) (es : List (ℕ × Value)) (s : StreamState) (j : StreamFatalRejection)
    → s.fatal_rejection ≡ some j
    → (translate_events z es s).0.fatal_rejection ≡ some j
unfolding translate_events
translate_events-rejected z [] s j h = h
translate_events-rejected z ((now, event) ∷ es) s j h =
    let r = responses_event_to_openai_chunks z now event s in
    translate_events-rejected z es r.0 j (Rejects-kept s r j h (event-Rejects z now event s))

-- There is no rejection, or its message names nothing internal.
abbrev pub IsPublic : Option StreamFatalRejection → Type 0
IsPublic none = Unit
IsPublic (some j) = contains_internal_artifact_text j.message ≡ false

or-IsPublic :
    (o : Option StreamFatalRejection) (raw : String)
    → IsPublic o
    → IsPublic (or_option o (some (record { message = sanitize_public_error_message raw })))
or-IsPublic none raw h = sanitize_public raw
or-IsPublic (some j) raw h = h

Rejects-IsPublic :
    (s : StreamState) (r : Emitted)
    → IsPublic (rejection s)
    → Rejects s r
    → IsPublic (rejection r.0)
Rejects-IsPublic s r h (inl e) = subst IsPublic (sym e) h
Rejects-IsPublic s r h (inr (raw, e)) = subst IsPublic (sym e) (or-IsPublic (rejection s) raw h)

-- Whatever the events are, the message of the rejection that they leave names nothing internal,
-- where that is so of the rejection before them.
pub translate_events-IsPublic :
    (z : SerdeText) (es : List (ℕ × Value)) (s : StreamState)
    → IsPublic s.fatal_rejection
    → IsPublic (translate_events z es s).0.fatal_rejection
unfolding translate_events
translate_events-IsPublic z [] s h = h
translate_events-IsPublic z ((now, event) ∷ es) s h =
    let r = responses_event_to_openai_chunks z now event s in
    translate_events-IsPublic z es r.0 (Rejects-IsPublic s r h (event-Rejects z now event s))
