-- ===== src/Streaming/ToolCalls/Bridging.antt =====
-- The input of a custom tool travels as the arguments of a function: one JSON object, written in
-- pieces as the input arrives, that decodes to the input.
use llm_universal_proxy.Prelude.{
  ◌≡◌, refl, sym, ap, subst, ◌∙◌, ◌+◌, ◌-◌, ℕ, String, true, false, some, List, [], ◌∷◌, concat,
  len, is_empty, starts_with, unwrap_or, arith, if◌then◌else◌, branches, inl, inr, Bool-cases,
}
use Prim.Native.String.{slice}
use package.text.Mathlib.TextLemmas.{append-nil, append_assoc}
use package.text.Mathlib.TextPositions.{slice-append_middle, slice-append_right, len-append}
use package.text.Mathlib.TextEquality.{starts_with_iff}
use llm_universal_proxy.Json.Value.{Value, string, object, entry, end, field, get}
use llm_universal_proxy.Streaming.{
  SerdeText, ToolCallState, event_str, escape_json_string_content_stream,
  openai_custom_bridge_start_delta_stream, openai_custom_bridge_done_delta_stream,
  openai_custom_bridge_decode_arguments_stream,
}
use llm_universal_proxy.Streaming.ToolCalls.{
  strip_prefix, bridge_remainder, closed_call, finalize_custom_tool_call_bridge_delta,
  announced_state, extended_call,
}

-- What `serde_json` does with a text: it stands between quotes with each character escaped on its
-- own, and an object with that text under `input` is read back as that object.
pub record QuotesText (z : SerdeText) : Type 0 where
  pub escaped : String → String
  pub quoted : (s : String) → z.to_string s ≡ concat "\"" (concat (escaped s) "\"")
  pub escaped_append : (s t : String) → escaped (concat s t) ≡ concat (escaped s) (escaped t)
  pub decoded :
      (s : String)
      → z.from_str (concat "{\"input\":\"" (concat (escaped s) "\"}"))
        ≡ some (object (entry "input" (string s) end))

escape_lem :
    (z : SerdeText) (q : QuotesText z) (s : String)
    → escape_json_string_content_stream z s ≡ q.escaped s
unfolding escape_json_string_content_stream
escape_lem z q s =
    let e = q.escaped s in
    let outer = len-append "\"" (concat e "\"") in
    let inner = len-append e "\"" in
    let size : len (concat "\"" (concat e "\"")) - 1 ≡ 1 + len e = omega (arith, outer, inner) in
    rw (q.quoted s) (rw size (slice-append_middle "\"" e "\""))

-- The arguments are the open object around the input so far.
abbrev pub IsOpen : SerdeText → ToolCallState → String → Type 0
IsOpen z tc input =
    (tc.custom_input_text ≡ some input)
    × (tc.custom_input_done ≡ false)
    × (tc.arguments ≡ openai_custom_bridge_start_delta_stream z input)

-- The arguments decode to the input, which is done.
abbrev pub IsClosed : SerdeText → ToolCallState → String → Type 0
IsClosed z tc input =
    (tc.custom_input_text ≡ some input)
    × (tc.custom_input_done ≡ true)
    × (openai_custom_bridge_decode_arguments_stream z tc.arguments ≡ some input)

announced-IsOpen :
    (z : SerdeText) (event item : Value) (idx : ℕ)
    → IsOpen z (announced_state z true event item idx) (unwrap_or (event_str item "input") "")
unfolding announced_state
announced-IsOpen z event item idx = (refl, refl, refl)

start_extends :
    (z : SerdeText)
    → QuotesText z
    → (s t : String)
    → concat (openai_custom_bridge_start_delta_stream z s) (escape_json_string_content_stream z t)
      ≡ openai_custom_bridge_start_delta_stream z (concat s t)
start_extends z q s t = rw (escape_lem z q s) (
    rw (escape_lem z q t)
      (rw (escape_lem z q (concat s t)) (rw (q.escaped_append s t) (append_assoc _ _ _))))

-- The events with pieces of the input, in their order.
abbrev pub extend_all : SerdeText → List (Value × String) → ToolCallState → ToolCallState
extend_all z [] tc = tc
extend_all z ((event, delta) ∷ rest) tc =
    extend_all z rest
      (extended_call true event delta (escape_json_string_content_stream z delta) tc)

abbrev pub all_input : List (Value × String) → String
all_input [] = ""
all_input ((event, delta) ∷ rest) = concat delta (all_input rest)

extended-IsOpen :
    (z : SerdeText)
    → QuotesText z
    → (event : Value) (delta input : String) (tc : ToolCallState) → IsOpen z tc input
    → IsOpen z
        (extended_call true event delta (escape_json_string_content_stream z delta) tc)
        (concat input delta)
unfolding extended_call
extended-IsOpen z q event delta input tc (e, open_, a) = (
  ap (λ o. some (concat (unwrap_or o "") delta)) e,
  open_,
  ap (λ t. concat t (escape_json_string_content_stream z delta)) a ∙ start_extends z q input delta,
)

extend_all-IsOpen :
    (z : SerdeText)
    → QuotesText z
    → (ds : List (Value × String)) (input : String) (tc : ToolCallState) → IsOpen z tc input
    → IsOpen z (extend_all z ds tc) (concat input (all_input ds))
extend_all-IsOpen z q [] input tc h = rw (append-nil input) h
extend_all-IsOpen z q ((event, delta) ∷ ds) input tc h =
    subst (λ t. IsOpen z (extend_all z ((event, delta) ∷ ds) tc) t)
      (append_assoc input delta (all_input ds))
      (extend_all-IsOpen z q ds (concat input delta) _ (extended-IsOpen z q event delta input tc h))

closed_decodes :
    (z : SerdeText)
    → QuotesText z
    → (input : String)
    → openai_custom_bridge_decode_arguments_stream z (
        concat
          (openai_custom_bridge_start_delta_stream z input)
          openai_custom_bridge_done_delta_stream)
      ≡ some input
unfolding openai_custom_bridge_decode_arguments_stream field get
closed_decodes z q input =
    rw (escape_lem z q input)
      (rw (append_assoc "{\"input\":\"" (q.escaped input) "\"}") (rw (q.decoded input) refl))

-- What the input is when it is done: the full input where it continues what has been sent.
abbrev pub final_input : String → String → String
final_input input full = if starts_with full input then full else input

rest_of_prefix :
    (full input : String)
    → starts_with full input ≡ true
    → concat input (slice full (len input) (len full)) ≡ full
rest_of_prefix full input h =
    let (rest, e) = (starts_with_iff full input).0 h in
    subst (λ t. concat input (slice t (len input) (len t)) ≡ t) e
      (rw (len-append input rest) (rw (slice-append_right input rest) refl))

empty_text : (s : String) → is_empty s ≡ true → s ≡ ""
empty_text String.[] h = refl
empty_text (String.◌∷◌ c s) h = cc

-- The piece and the input that has been sent with it.
abbrev Continues : SerdeText → String → String → String × String → Type 0
Continues z input final r =
    (r.1 ≡ final)
    × (concat (openai_custom_bridge_start_delta_stream z input) r.0
        ≡ openai_custom_bridge_start_delta_stream z r.1)

remainder-Continues :
    (z : SerdeText)
    → QuotesText z
    → (full input : String)
    → Continues z input
        (final_input input full)
        (bridge_remainder z input (strip_prefix input full))
unfolding bridge_remainder strip_prefix
remainder-Continues z q full input = elim (Bool-cases (starts_with full input)) [
  | inr h ↦ rw h (refl, append-nil _)
  | inl h ↦
      let rest = slice full (len input) (len full) in
      rw h (
        branches (Continues z input full) (is_empty rest)
          (λ e. (
            sym (append-nil input)
                ∙ ap (concat input) (sym (empty_text rest e))
                ∙ rest_of_prefix full input h,
            append-nil _,
          ))
          λ _. (rest_of_prefix full input h, start_extends z q input rest))
]

-- A call whose input is open is closed by the end of the input.
finalize-IsClosed :
    (z : SerdeText)
    → QuotesText z
    → (tc : ToolCallState) (input full : String) → IsOpen z tc input
    → (r : ToolCallState × String) × (finalize_custom_tool_call_bridge_delta z tc full ≡ some r)
      × IsClosed z r.0 (final_input input full)
unfolding finalize_custom_tool_call_bridge_delta
finalize-IsClosed z q tc input full (e, open_, a) =
    let r = bridge_remainder z input (strip_prefix input full) in
    let done = openai_custom_bridge_done_delta_stream in
    let (sent, extended) = remainder-Continues z q full input in
    let joined : concat tc.arguments (concat r.0 done)
        ≡ concat (openai_custom_bridge_start_delta_stream z r.1) done =
      ap (λ t. concat t (concat r.0 done)) a
      ∙ (sym (append_assoc (openai_custom_bridge_start_delta_stream z input) r.0 done)
          ∙ ap (λ t. concat t done) extended) in
    let decodes =
      ap (openai_custom_bridge_decode_arguments_stream z) joined
      ∙ (closed_decodes z q r.1 ∙ ap some sent) in
    (closed_call tc r, rw e (rw open_ refl), (ap some sent, refl, decodes))

-- A custom tool whose item is announced, whose input comes in any pieces, and whose input ends: the
-- end is sent, and the arguments decode to the whole input.
pub streamed_input-IsClosed :
    (z : SerdeText)
    → QuotesText z
    → (event item : Value) (idx : ℕ) (ds : List (Value × String)) (full : String)
    → let tc = extend_all z ds (announced_state z true event item idx) in
      let input = concat (unwrap_or (event_str item "input") "") (all_input ds) in
      (r : ToolCallState × String) × (finalize_custom_tool_call_bridge_delta z tc full ≡ some r)
      × IsClosed z r.0 (final_input input full)
streamed_input-IsClosed z q event item idx ds full =
    let start = announced_state z true event item idx in
    let opened = announced-IsOpen z event item idx in
    finalize-IsClosed z q (extend_all z ds start) _ full (extend_all-IsOpen z q ds _ start opened)
