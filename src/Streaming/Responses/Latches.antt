-- ===== src/Streaming/Responses/Latches.antt =====
-- The role of the assistant is sent once; and the counting of chunks that a flag of the state keeps.
use llm_universal_proxy.Prelude.{
  ◌≡◌, refl, subst, ◌+◌, ℕ, String, Bool, false, List, [], ◌∷◌, ◌++◌, is_some, branches, count_by,
  count_by-append, arith, str_eq, unwrap_or, All,
}
use llm_universal_proxy.Json.Value.{Value, field, get}
use llm_universal_proxy.Streaming.{
  SerdeText, StreamState, Emitted, reject_openai_stream, openai_chunk, event_str,
  emit_openai_assistant_role_if_needed, mark_stream_fatal_rejection,
}
use llm_universal_proxy.Streaming.ToolCalls.{terminal_items}
use llm_universal_proxy.Streaming.Finish.{
  captured_response, capture_responses_model, finish_stream, output_of,
}
use llm_universal_proxy.Streaming.Finish.Captured.{capture_kept, captured_kept}
use llm_universal_proxy.Streaming.Responses.{
  response_created, response_terminal, responses_event_to_openai_chunks, event_type,
}
use llm_universal_proxy.Streaming.Responses.Branches.{
  delta_field, translate_events, flag, Tallies, chunk_laws,
}
use llm_universal_proxy.Streaming.Responses.Quiet.{Each, Quiet, event_cases, terminal_items-Quiet}

abbrev pub has_role : Value → Bool
has_role chunk = is_some (delta_field "role" chunk)

abbrev pub role_sent : StreamState → Bool
role_sent s = s.openai_role_sent

-- Chunks that fail a test, by a handler that keeps the flag.
unseen : (p : Value → Bool) (out : List Value) → All (λ c. p c ≡ false) out → count_by p out ≡ 0
unseen p [] all = refl
unseen p (c ∷ out) (e, all) = ground (arith, unseen p out all)

pub quiet-Tallies :
    (p : Value → Bool) (latch : StreamState → Bool) (before : Bool) (r : Emitted)
    → latch r.0 ≡ before
    → All (λ c. p c ≡ false) r.1
    → Tallies p latch before r
quiet-Tallies p latch before r e all = rw e (rw (unseen p r.1 all) (omega arith))

pub then-Tallies :
    (p : Value → Bool) (latch : StreamState → Bool) (before : Bool) (r q : Emitted)
    → Tallies p latch before r
    → Tallies p latch (latch r.0) q
    → Tallies p latch before (q.0, r.1 ++ q.1)
then-Tallies p latch before r q a b = omega (arith, count_by-append p r.1 q.1)

abbrev Roleless : Value → Type 0
Roleless chunk = has_role chunk ≡ false

pub one_more : (b : Bool) → b ≡ false → flag b + (1 + 0) ≡ 1
one_more b e = rw e refl

emit-role :
    (now : ℕ) (s : StreamState)
    → Tallies has_role role_sent (role_sent s) (emit_openai_assistant_role_if_needed now s [])
unfolding emit_openai_assistant_role_if_needed openai_chunk field
emit-role now s =
    branches (Tallies has_role role_sent (role_sent s)) s.openai_role_sent (λ _. omega arith)
      λ h. simp chunk_laws (one_more (role_sent s) h)

created-role :
    (now : ℕ) (event : Value) (s : StreamState)
    → Tallies has_role role_sent (role_sent s) (response_created now event s)
unfolding response_created
created-role now event s =
    let resp = unwrap_or (get event "response") event in
    let t = record s { message_id = event_str resp "id" } in
    subst (λ b. Tallies has_role role_sent b (response_created now event s))
      (capture_kept role_sent (λ _ _. refl) resp t) (emit-role now (capture_responses_model resp t))

reject-role :
    (now : ℕ) (error_type code message : String) (s : StreamState)
    → Tallies has_role role_sent (role_sent s) (reject_openai_stream now s error_type code message)
unfolding reject_openai_stream mark_stream_fatal_rejection openai_chunk field
reject-role now error_type code message s =
    quiet-Tallies has_role role_sent (role_sent s)
      (reject_openai_stream now s error_type code message) refl (simp chunk_laws, tt)

role-Quiet :
    (s : StreamState) (r : Emitted)
    → Quiet Roleless s r
    → Tallies has_role role_sent (role_sent s) r
role-Quiet s r ((e, _, _), all) = quiet-Tallies has_role role_sent (role_sent s) r e all

Each-Roleless : (key : String) → str_eq key "role" ≡ false → Each Roleless key
unfolding field
Each-Roleless key h now id model v = simp (chunk_laws, h)

finish-role :
    (now : ℕ) (ty : String) (event : Value) (s : StreamState)
    → Tallies has_role role_sent (role_sent s) (finish_stream now ty event s)
unfolding finish_stream openai_chunk field
finish-role now ty event s =
    branches (Tallies has_role role_sent (role_sent s)) s.finish_reason_sent (λ _. omega arith)
      λ _. simp chunk_laws (omega arith)

terminal-role :
    (z : SerdeText) (now : ℕ) (ty : String) (event : Value) (s : StreamState)
    → Tallies has_role role_sent (role_sent s) (response_terminal z now ty event s)
unfolding response_terminal
terminal-role z now ty event s =
    let r = terminal_items z now (output_of event) s in
    let t = captured_response (get event "response") r.0 in
    let kept = captured_kept role_sent (λ _ _. refl) (λ _ _. refl) (get event "response") r.0 in
    let quiet = terminal_items-Quiet Roleless z now (output_of event) s (Each-Roleless _ refl) in
    then-Tallies has_role role_sent (role_sent s) r (finish_stream now ty event t)
      (role-Quiet s r quiet)
      (subst (λ b. Tallies has_role role_sent b (finish_stream now ty event t)) kept
        (finish-role now ty event t))

event-role :
    (z : SerdeText) (now : ℕ) (event : Value) (s : StreamState)
    → Tallies has_role role_sent (role_sent s) (responses_event_to_openai_chunks z now event s)
event-role z now event s =
    event_cases Roleless (Tallies has_role role_sent (role_sent s)) z now event s
      (Each-Roleless _ refl) (Each-Roleless _ refl) (Each-Roleless _ refl) (Each-Roleless _ refl)
      (role-Quiet s) (created-role now event s) (λ code message. reject-role now _ code message s)
      (terminal-role z now (event_type event) event s)

-- However many events come, the chunk with the role is sent once at most, and not at all where it
-- was sent before: the number of such chunks is the step of the flag.
pub translate_events-role :
    (z : SerdeText) (es : List (ℕ × Value)) (s : StreamState)
    → flag s.openai_role_sent + count_by has_role (translate_events z es s).1
      ≡ flag (translate_events z es s).0.openai_role_sent
unfolding translate_events
translate_events-role z [] s = omega arith
translate_events-role z ((now, event) ∷ es) s =
    let r = responses_event_to_openai_chunks z now event s in
    then-Tallies has_role role_sent (role_sent s) r (translate_events z es r.0)
      (event-role z now event s) (translate_events-role z es r.0)
