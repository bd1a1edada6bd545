-- ===== src/Tests/Translated.antt =====
-- Translated streams and their bodies: src/streaming and src/server/tracked_body.rs.
use llm_universal_proxy.Prelude.{
  min, u64_max, ◌≡◌, refl, ◌+◌, ◌-◌, ℕ, String, Bool, true, false, none, some, List, [], ◌∷◌, ◌++◌,
  concat, len, inl, arith, count_by, one_of, ◌==◌, if◌then◌else◌,
}
use Prim.Native.String.{slice}
use package.text.Mathlib.TextPositions.{slice-append_middle, len-append}
use llm_universal_proxy.Json.Value.{
  Value, number, pos_int, string, object, Fields, end, entry, field, get,
}
use llm_universal_proxy.Telemetry.{start_request, Metrics, RequestTracker}
use llm_universal_proxy.Telemetry.World.{new_world}
use llm_universal_proxy.Streaming.{
  SerdeText, StreamState, ToolCallState, StreamFatalRejection, default_state,
}
use llm_universal_proxy.Streaming.Limits.{Polled, item, ended, ResourceLimitedStream, new_timers}
use llm_universal_proxy.Streaming.Limits.Bounds.{forwarded, Timely, forwarded-Timely}
use llm_universal_proxy.Streaming.Normalize.Cumulative.{emitted_all, emitted_all-cumulative}
use llm_universal_proxy.Streaming.ToolCalls.{
  announced_state, finalize_custom_tool_call_bridge_delta,
}
use llm_universal_proxy.Streaming.ToolCalls.Bridging.{
  QuotesText, extend_all, IsClosed, final_input, streamed_input-IsClosed,
}
use llm_universal_proxy.Streaming.Usage.Laws.{Counts, there_and_back, there_and_back-Counts}
use llm_universal_proxy.Streaming.Responses.Branches.{translate_events, flag}
use llm_universal_proxy.Streaming.Responses.Content.{text_sent, translate_events-text}
use llm_universal_proxy.Streaming.Responses.Rejection.{IsPublic, translate_events-IsPublic}
use llm_universal_proxy.Streaming.Responses.Latches.{has_role, translate_events-role}
use llm_universal_proxy.Streaming.Responses.Finishing.{
  finishes, translate_events-finish, translate_events-ended,
}
use llm_universal_proxy.Streaming.Responses.Pieces.{arguments_of, pieces}
use llm_universal_proxy.Streaming.Responses.Gathering.{translate_events-Grows}
use llm_universal_proxy.Streaming.Size.{accumulated_bytes}
use llm_universal_proxy.Streaming.Size.Kept.{kept_bytes, uncounted_bytes, accumulated_bytes_lem}
use llm_universal_proxy.TrackedBody.{new}
use llm_universal_proxy.TrackedBody.Limited.{
  EndedBy, poll_at, uncancelled, instants, limited_body-settled,
}
use llm_universal_proxy.TrackedBody.Settling.{
  Verdict, serve_body, verdict, settled_by, serve_body-settled,
}

-- A `serde_json` for texts without characters to escape.
abbrev codec : SerdeText
codec = record {
  to_string = λ s. concat "\"" (concat s "\"");
  from_str = λ t. some (object (entry "input" (string (slice t 10 (len t - 2))) end));
}

codec-decoded :
    (s : String)
    → codec.from_str (concat "{\"input\":\"" (concat s "\"}"))
      ≡ some (object (entry "input" (string s) end))
codec-decoded s =
    let outer = len-append "{\"input\":\"" (concat s "\"}") in
    let inner = len-append s "\"}" in
    let size : len (concat "{\"input\":\"" (concat s "\"}")) - 2 ≡ 10 + len s =
      omega (arith, outer, inner) in
    rw size (rw (slice-append_middle "{\"input\":\"" s "\"}") refl)

codec-QuotesText : QuotesText codec
codec-QuotesText = record {
  escaped = λ s. s;
  quoted = λ s. refl;
  escaped_append = λ s t. refl;
  decoded = codec-decoded;
}

abbrev typed : String → Fields → Value
typed ty o = object (entry "type" (string ty) o)

abbrev created : Value
created = typed "response.created" (entry "response" (object (entry "id" (string "r1") end)) end)

abbrev text_event : String → Value
text_event t = typed "response.output_text.delta" (entry "delta" (string t) end)

abbrev completed : Value
completed = typed "response.completed" end

abbrev events : List (ℕ × Value)
events = (1, created) ∷ (2, text_event "Hel") ∷ (3, text_event "lo") ∷ []

abbrev stream : List (ℕ × Value)
stream = events ++ (4, completed) ∷ []

translate_events-role_example :
    flag false + count_by has_role (translate_events codec stream default_state).1
    ≡ flag (translate_events codec stream default_state).0.openai_role_sent
translate_events-role_example = translate_events-role codec stream default_state

stream_accepted : (translate_events codec stream default_state).0.fatal_rejection ≡ none
unfolding translate_events
stream_accepted = refl

translate_events-finish_example :
    flag false + count_by finishes (translate_events codec stream default_state).1
    ≡ flag (translate_events codec stream default_state).0.finish_reason_sent
translate_events-finish_example = translate_events-finish codec stream default_state stream_accepted

translate_events-ended_example :
    count_by finishes (translate_events codec stream default_state).1 ≡ 1
unfolding get
translate_events-ended_example =
    translate_events-ended codec 4 completed events default_state (inl refl) refl stream_accepted

translate_events-text_example : text_sent (translate_events codec stream default_state).1 ≡ "Hello"
unfolding get
translate_events-text_example = translate_events-text codec stream default_state

abbrev refused : StreamFatalRejection
refused = record { message = "refused" }

abbrev refused_state : StreamState
refused_state = record default_state { fatal_rejection = some refused }

abbrev audio : List (ℕ × Value)
audio = (5, typed "response.audio.delta" end) ∷ []

translate_events-IsPublic_example :
    IsPublic (translate_events codec audio refused_state).0.fatal_rejection
translate_events-IsPublic_example = translate_events-IsPublic codec audio refused_state refl

emitted_all-cumulative_example : emitted_all ("Hel" ∷ "Hello" ∷ []) "" ≡ "Hello"
emitted_all-cumulative_example = emitted_all-cumulative "" ("Hel" ∷ "lo" ∷ [])

abbrev patch : Value
patch = typed "custom_tool_call" (entry "input" (string "*** Begin") end)

abbrev input_pieces : List (Value × String)
input_pieces = (completed, " Patch") ∷ (completed, " End") ∷ []

abbrev patched : String
patched = "*** Begin Patch End"

streamed_input-IsClosed_example :
    let tc = extend_all codec input_pieces (announced_state codec true completed patch 0) in
    (r : ToolCallState × String) × (finalize_custom_tool_call_bridge_delta codec tc patched
      ≡ some r)
    × IsClosed codec r.0 (final_input patched patched)
unfolding get
streamed_input-IsClosed_example =
    streamed_input-IsClosed codec codec-QuotesText completed patch 0 input_pieces patched

abbrev usage : Fields
usage = entry "input_tokens" (number (pos_int 7)) (
    entry "output_tokens" (number (pos_int 5))
      (entry "total_tokens" (number (pos_int 12)) (entry "cost" (string "low") end)))

there_and_back-Counts_example :
    Counts "input_tokens" "output_tokens" 7 5 12 (there_and_back usage)
    × (get (there_and_back usage) "cost" ≡ field "cost" usage)
unfolding field get
there_and_back-Counts_example =
    there_and_back-Counts usage 7 5 12 "cost" (refl, refl, refl) (unfold one_of in refl)

-- A sender that always has one more byte, and one that has three.
abbrev endless : ℕ → Unit {0} → Polled ℕ ℕ × Unit {0}
endless now s = (item now, s)

abbrev three : ℕ → Polled ℕ ℕ × ℕ
three n = if n == 0 then (ended, 0) else (item n, n - 1)

abbrev limited : ResourceLimitedStream (Unit {0})
limited = record { inner = tt; limit_timers = new_timers 1 3 0 }

abbrev half_seconds : List ℕ
half_seconds = 500000000 ∷ 1000000000 ∷ 2500000000 ∷ []

forwarded-Timely_example : Timely limited.limit_timers (forwarded endless half_seconds limited)
forwarded-Timely_example = forwarded-Timely endless half_seconds limited

abbrev tracked : Metrics × RequestTracker
tracked = start_request "/v1" "m" true new_world.metrics

abbrev polls : List (Bool × ℕ)
polls = (false, 1) ∷ (false, 2) ∷ (true, 3) ∷ []

serve_body-settled_example :
    serve_body three polls 9 tracked.0 (new 3 tracked.1 200)
    ≡ settled_by (verdict three 200 polls 9 3) tracked.0 tracked.1
serve_body-settled_example = serve_body-settled three polls 9 tracked.0 3 tracked.1 200

limited_body-settled_example :
    (v : Verdict) × EndedBy 200 ((500000000, 5) ∷ (3000000000, 8) ∷ []) v
    × (serve_body
          (poll_at endless)
          (uncancelled ((500000000, 5) ∷ (3000000000, 8) ∷ (4000000000, 9) ∷ []))
          20
          tracked.0
          (new
            (instants ((500000000, 5) ∷ (3000000000, 8) ∷ (4000000000, 9) ∷ []), limited)
            tracked.1
            200)
        ≡ settled_by v tracked.0 tracked.1)
limited_body-settled_example =
    limited_body-settled endless ((500000000, 5) ∷ []) ((4000000000, 9) ∷ []) 3000000000 8 20
      tracked.0 limited tracked.1 200 (omega arith)

-- A stream with one call, which is announced with a part of its arguments.
abbrev calling : StreamState
calling = record default_state {
  openai_tool_call_index = 1;
  openai_tool_calls =
      (
        0,
        announced_state codec false completed
            (typed "function_call" (entry "arguments" (string "{") end)) 0,
      )
      ∷ [];
}

abbrev rest_of_call : List (ℕ × Value)
rest_of_call =
    (6, typed "response.function_call_arguments.delta" (entry "delta" (string "}") end)) ∷ []

translate_events-Grows_example :
    arguments_of 0 (translate_events codec rest_of_call calling).0
    ≡ concat (arguments_of 0 calling) (pieces 0 (translate_events codec rest_of_call calling).1)
translate_events-Grows_example =
    translate_events-Grows 0 codec rest_of_call calling (omega arith, (omega arith, tt))

-- A state with a block and a part of a message that have annotations, and a rejection.
abbrev full : StreamState
full = record calling {
  claude_blocks =
      (
        0,
        record {
          kind = none;
          thinking = "so";
          signature = none;
          annotations = string "a" ∷ [];
          omitted = false;
        },
      )
      ∷ [];
  responses_message_parts =
      record { kind = none; text = "hi"; annotations = string "a" ∷ string "b" ∷ [] } ∷ [];
  fatal_rejection = some (record { message = "no" });
}

-- The message of the rejection is kept, and not counted.
uncounted : uncounted_bytes (λ v. 2) full ≡ 2
unfolding announced_state
uncounted = refl

accumulated_bytes_lem_example :
    accumulated_bytes (λ v. 2) full
    ≡ min (kept_bytes (λ v. 2) full - uncounted_bytes (λ v. 2) full) u64_max
accumulated_bytes_lem_example =
    accumulated_bytes_lem (λ v. 2) full (omega arith, tt) (omega arith, tt)
