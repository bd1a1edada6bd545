-- ===== src/Streaming/Responses/Finishing.antt =====
-- A stream finishes once: the chunk with a finish reason, and the event that must bring it.
use llm_universal_proxy.Prelude.{
  ◌≡◌, refl, subst, sym, ap, ◌∙◌, ◌+◌, ℕ, String, Bool, true, false, none, some, List, [], ◌∷◌,
  ◌++◌, is_some, branches, count_by, arith, inl, inr, unwrap_or, ◌⊎◌, Option-cases,
}
use llm_universal_proxy.Json.Value.{Value, get}
use llm_universal_proxy.Streaming.{
  SerdeText, StreamState, Emitted, reject_openai_stream, openai_chunk, event_str,
  emit_openai_assistant_role_if_needed, mark_stream_fatal_rejection,
}
use llm_universal_proxy.Streaming.ToolCalls.{terminal_items}
use llm_universal_proxy.Streaming.Finish.{
  captured_response, capture_responses_model, finish_stream, output_of,
}
use llm_universal_proxy.Streaming.Finish.Captured.{capture_kept, captured_kept}
use llm_universal_proxy.Streaming.Responses.{
  response_created, response_terminal, by_type, responses_event_to_openai_chunks, event_type,
}
use llm_universal_proxy.Streaming.Responses.Branches.{
  chunk_finish, translate_events, flag, Tallies, chunk_laws,
}
use llm_universal_proxy.Streaming.Responses.Quiet.{Each, Quiet, event_cases, terminal_items-Quiet}
use llm_universal_proxy.Streaming.Responses.Latches.{quiet-Tallies, then-Tallies, one_more}
use llm_universal_proxy.Streaming.Responses.Rejection.{translate_events-rejected, or_some}

abbrev pub finishes : Value → Bool
finishes chunk = is_some (chunk_finish chunk)

abbrev pub finish_sent : StreamState → Bool
finish_sent s = s.finish_reason_sent

abbrev Unfinishing : Value → Type 0
Unfinishing chunk = finishes chunk ≡ false

-- The tally of a stream that is not rejected.
abbrev Finishing : StreamState → Emitted → Type 0
Finishing s r = r.0.fatal_rejection ≡ none → Tallies finishes finish_sent (finish_sent s) r

Each-Unfinishing : (key : String) → Each Unfinishing key
Each-Unfinishing key now id model v = simp chunk_laws

finish-Quiet :
    (s : StreamState) (r : Emitted)
    → Quiet Unfinishing s r
    → Tallies finishes finish_sent (finish_sent s) r
finish-Quiet s r ((_, e, _), all) = quiet-Tallies finishes finish_sent (finish_sent s) r e all

reject-finish :
    (now : ℕ) (error_type code message : String) (s : StreamState)
    → Finishing s (reject_openai_stream now s error_type code message)
unfolding reject_openai_stream mark_stream_fatal_rejection
reject-finish now error_type code message s h = absurd (or_some s.fatal_rejection _ h)

emit-finish :
    (now : ℕ) (s : StreamState)
    → Tallies finishes finish_sent (finish_sent s) (emit_openai_assistant_role_if_needed now s [])
unfolding emit_openai_assistant_role_if_needed openai_chunk
emit-finish now s =
    branches (Tallies finishes finish_sent (finish_sent s)) s.openai_role_sent (λ _. omega arith)
      λ h. simp chunk_laws (omega arith)

created-finish :
    (now : ℕ) (event : Value) (s : StreamState)
    → Tallies finishes finish_sent (finish_sent s) (response_created now event s)
unfolding response_created
created-finish now event s =
    let resp = unwrap_or (get event "response") event in
    let t = record s { message_id = event_str resp "id" } in
    subst (λ b. Tallies finishes finish_sent b (response_created now event s))
      (capture_kept finish_sent (λ _ _. refl) resp t)
      (emit-finish now (capture_responses_model resp t))

finish-finish :
    (now : ℕ) (ty : String) (event : Value) (s : StreamState)
    → Tallies finishes finish_sent (finish_sent s) (finish_stream now ty event s)
unfolding finish_stream openai_chunk
finish-finish now ty event s =
    branches (Tallies finishes finish_sent (finish_sent s)) s.finish_reason_sent (λ _. omega arith)
      λ h. simp chunk_laws (one_more (finish_sent s) h)

terminal-finish :
    (z : SerdeText) (now : ℕ) (ty : String) (event : Value) (s : StreamState)
    → Tallies finishes finish_sent (finish_sent s) (response_terminal z now ty event s)
unfolding response_terminal
terminal-finish z now ty event s =
    let r = terminal_items z now (output_of event) s in
    let t = captured_response (get event "response") r.0 in
    let kept = captured_kept finish_sent (λ _ _. refl) (λ _ _. refl) (get event "response") r.0 in
    let quiet = terminal_items-Quiet Unfinishing z now (output_of event) s (Each-Unfinishing _) in
    then-Tallies finishes finish_sent (finish_sent s) r (finish_stream now ty event t)
      (finish-Quiet s r quiet)
      (subst (λ b. Tallies finishes finish_sent b (finish_stream now ty event t)) kept
        (finish-finish now ty event t))

event-finish :
    (z : SerdeText) (now : ℕ) (event : Value) (s : StreamState)
    → Finishing s (responses_event_to_openai_chunks z now event s)
event-finish z now event s =
    event_cases Unfinishing (Finishing s) z now event s (Each-Unfinishing _) (Each-Unfinishing _)
      (Each-Unfinishing _) (Each-Unfinishing _) (λ r quiet _. finish-Quiet s r quiet)
      (λ _. created-finish now event s) (λ code message. reject-finish now _ code message s)
      (λ _. terminal-finish z now (event_type event) event s)

none_some : {A : Type 0} {a : A} → none ≡ some a → ⊥
none_some h = cc

unrejected :
    (z : SerdeText) (es : List (ℕ × Value)) (s : StreamState)
    → (translate_events z es s).0.fatal_rejection ≡ none
    → s.fatal_rejection ≡ none
unrejected z es s h = elim (Option-cases s.fatal_rejection) [
  | inl e ↦ e
  | inr (j, e) ↦ absurd (none_some (sym h ∙ translate_events-rejected z es s j e))
]

-- A stream that is not rejected sends one chunk with a finish reason at most, and none where one was
-- sent before: the number of such chunks is the step of the flag.
pub translate_events-finish :
    (z : SerdeText) (es : List (ℕ × Value)) (s : StreamState)
    → (translate_events z es s).0.fatal_rejection ≡ none
    → flag s.finish_reason_sent + count_by finishes (translate_events z es s).1
      ≡ flag (translate_events z es s).0.finish_reason_sent
unfolding translate_events
translate_events-finish z [] s h = omega arith
translate_events-finish z ((now, event) ∷ es) s h =
    let r = responses_event_to_openai_chunks z now event s in
    then-Tallies finishes finish_sent (finish_sent s) r (translate_events z es r.0)
      (event-finish z now event s (unrejected z es r.0 h)) (translate_events-finish z es r.0 h)

-- The types of the events that end a stream.
abbrev pub EndsStream : Value → Type 0
EndsStream event =
    (event_type event ≡ "response.completed")
    ⊎ ((event_type event ≡ "response.incomplete") ⊎ (event_type event ≡ "response.failed"))

stream-finished :
    (now : ℕ) (ty : String) (event : Value) (s : StreamState)
    → (finish_stream now ty event s).0.finish_reason_sent ≡ true
unfolding finish_stream
stream-finished now ty event s =
    branches (λ (r : Emitted). r.0.finish_reason_sent ≡ true) s.finish_reason_sent (λ h. h)
      (λ _. refl)

terminal-finished :
    (z : SerdeText) (now : ℕ) (ty : String) (event : Value) (s : StreamState)
    → (response_terminal z now ty event s).0.finish_reason_sent ≡ true
unfolding response_terminal
terminal-finished z now ty event s =
    let t = (terminal_items z now (output_of event) s).0 in
    stream-finished now ty event (captured_response (get event "response") t)

end-finished :
    (z : SerdeText) (now : ℕ) (event : Value) (s : StreamState)
    → EndsStream event
    → (responses_event_to_openai_chunks z now event s).0.finish_reason_sent ≡ true
unfolding responses_event_to_openai_chunks by_type
end-finished z now event s (inl e) = rw e (terminal-finished z now "response.completed" event s)
end-finished z now event s (inr (inl e)) =
    rw e (terminal-finished z now "response.incomplete" event s)
end-finished z now event s (inr (inr e)) = rw e (terminal-finished z now "response.failed" event s)

finished_at_end :
    (z : SerdeText) (now : ℕ) (event : Value) (es : List (ℕ × Value)) (s : StreamState)
    → EndsStream event
    → (translate_events z (es ++ (now, event) ∷ []) s).0.finish_reason_sent ≡ true
unfolding translate_events
finished_at_end z now event [] s e = end-finished z now event s e
finished_at_end z now event ((at, first) ∷ es) s e =
    finished_at_end z now event es (responses_event_to_openai_chunks z at first s).0 e

-- A stream that has sent no finish reason, and comes to an event that ends it without a rejection,
-- sends exactly one chunk with a finish reason.
pub translate_events-ended :
    (z : SerdeText) (now : ℕ) (event : Value) (es : List (ℕ × Value)) (s : StreamState)
    → EndsStream event
    → s.finish_reason_sent ≡ false
    → (translate_events z (es ++ (now, event) ∷ []) s).0.fatal_rejection ≡ none
    → count_by finishes (translate_events z (es ++ (now, event) ∷ []) s).1 ≡ 1
translate_events-ended z now event es s e unsent h =
    let tally = translate_events-finish z (es ++ (now, event) ∷ []) s h in
    let total = tally ∙ ap flag (finished_at_end z now event es s e) in
    let start = ap flag unsent in omega (arith, total, start)
