-- ===== src/Streaming/Responses/Pieces.antt =====
-- The pieces of arguments that chunks send for a call, and the arguments that the state keeps for it.
use llm_universal_proxy.Prelude.{
  ◌≡◌, refl, sym, ap, ◌∙◌, ℕ, ◌==◌, String, Bool, true, false, Option, none, some, List, [], ◌∷◌,
  ◌++◌, All, concat, and_then, unwrap_or, if◌then◌else◌, arith,
}
use package.text.Mathlib.TextLemmas.{nil-append, append-nil, append_assoc}
use llm_universal_proxy.Prelude.IndexMap.{lookup, put, lookup-put}
use llm_universal_proxy.Json.Value.{Value, object, Fields, field, get, as_str, as_u64}
use llm_universal_proxy.Json.Laws.{field-insert}
use llm_universal_proxy.Streaming.{StreamState, ToolCallState, Emitted, chunk_of}
use llm_universal_proxy.Streaming.ToolCalls.{with_kind, tool_calls_delta}
use llm_universal_proxy.Streaming.Responses.Branches.{delta_field, first_item, chunk_laws}

-- The call of a chunk, its index, and the piece of its arguments.
abbrev call_of : Value → Option Value
call_of chunk = and_then (delta_field "tool_calls" chunk) first_item

abbrev index_in : Option Value → Option ℕ
index_in call = and_then (and_then call λ c. get c "index") as_u64

abbrev piece_in : Option Value → String
piece_in call =
    unwrap_or
      (and_then (and_then (and_then call λ c. get c "function") λ o. get o "arguments") as_str) ""

abbrev is_index : ℕ → Option ℕ → Bool
is_index i none = false
is_index i (some j) = j == i

abbrev piece_for : ℕ → Option Value → String
piece_for i call = if is_index i (index_in call) then piece_in call else ""

-- All that chunks send for the arguments of the call with an index.
abbrev pub pieces : ℕ → List Value → String
pieces i [] = ""
pieces i (chunk ∷ rest) = concat (piece_for i (call_of chunk)) (pieces i rest)

abbrev pub arguments_in : Option ToolCallState → String
arguments_in none = ""
arguments_in (some tc) = tc.arguments

-- The arguments that a state keeps for the call with an index.
abbrev pub arguments_of : ℕ → StreamState → String
arguments_of i s = arguments_in (lookup i s.openai_tool_calls)

-- What the state keeps grows by what the chunks send.
abbrev pub Grows : ℕ → StreamState → Emitted → Type 0
Grows i s r = arguments_of i r.0 ≡ concat (arguments_of i s) (pieces i r.1)

pub pieces-append :
    (i : ℕ) (xs ys : List Value) → pieces i (xs ++ ys) ≡ concat (pieces i xs) (pieces i ys)
pieces-append i [] ys = sym (nil-append (pieces i ys))
pieces-append i (x ∷ xs) ys = rw (pieces-append i xs ys) (sym (append_assoc _ _ _))

pub Grows-then :
    (i : ℕ) (s : StreamState) (r q : Emitted)
    → Grows i s r
    → Grows i r.0 q
    → Grows i s (q.0, r.1 ++ q.1)
Grows-then i s r q a b =
    b
    ∙ (ap (λ t. concat t (pieces i q.1)) a
        ∙ (append_assoc _ _ _ ∙ ap (concat (arguments_of i s)) (sym (pieces-append i r.1 q.1))))

abbrev pub Callless : Value → Type 0
Callless chunk = delta_field "tool_calls" chunk ≡ none

no_pieces : (i : ℕ) (out : List Value) → All Callless out → pieces i out ≡ ""
no_pieces i [] all = refl
no_pieces i (c ∷ out) (e, all) = rw e (rw (no_pieces i out all) (nil-append ""))

-- A handler that keeps the calls and sends no piece.
pub Callless-Grows :
    (i : ℕ) (s : StreamState) (r : Emitted)
    → r.0.openai_tool_calls ≡ s.openai_tool_calls
    → All Callless r.1
    → Grows i s r
Callless-Grows i s r e all =
    ap (λ m. arguments_in (lookup i m)) e
    ∙ (sym (append-nil _) ∙ ap (concat (arguments_of i s)) (sym (no_pieces i r.1 all)))

-- A call with an index and a piece of its arguments.
abbrev pub Sends : Fields → ℕ → String → Type 0
Sends call idx piece =
    (index_in (some (object call)) ≡ some idx) × (piece_in (some (object call)) ≡ piece)

pub with_kind-Sends :
    (kind : Option Value) (call : Fields) (idx : ℕ) (piece : String)
    → Sends call idx piece
    → Sends (with_kind kind call) idx piece
unfolding get
with_kind-Sends none call idx piece h = h
with_kind-Sends (some v) call idx piece (a, b) = (rw field-insert a, rw field-insert b)

-- A handler that writes a call whose arguments grow by a piece, and sends that piece for it.
pub call-Grows :
    (i : ℕ) (s t : StreamState) (now idx : ℕ) (id model : String) (tc : ToolCallState)
    (call : Fields) (piece : String)
    → t.openai_tool_calls ≡ put idx tc s.openai_tool_calls
    → Sends call idx piece
    → tc.arguments ≡ concat (arguments_of idx s) piece
    → Grows i s (t, chunk_of now id model (tool_calls_delta call) none ∷ [])
unfolding field
call-Grows i s t now idx id model tc call piece e (a, b) grown =
    let sent : pieces i (chunk_of now id model (tool_calls_delta call) none ∷ [])
        ≡ (if idx == i then piece else "") =
      simp chunk_laws (append-nil _ ∙ piece_if) in
    ap (λ m. arguments_in (lookup i m)) e
    ∙ (ap arguments_in (lookup-put idx i tc s.openai_tool_calls)
        ∙ (placed (idx == i) (λ h. index_eq idx i h) ∙ ap (concat (arguments_of i s)) (sym sent)))
  where
    piece_if : piece_for i (some (object call)) ≡ (if idx == i then piece else "")
    piece_if = rw a (rw b refl)

    index_eq : (m n : ℕ) → (m == n) ≡ true → m ≡ n
    index_eq m n h = ground arith

    placed :
        (here : Bool)
        → (here ≡ true → idx ≡ i)
        → arguments_in (if here then some tc else lookup i s.openai_tool_calls)
          ≡ concat (arguments_of i s) (if here then piece else "")
    placed true h = grown ∙ ap (λ j. concat (arguments_of j s) piece) (h refl)
    placed false h = sym (append-nil (arguments_of i s))

pub one-Grows :
    (i : ℕ) (s t : StreamState) (chunk : Value)
    → t.openai_tool_calls ≡ s.openai_tool_calls
    → Callless chunk
    → Grows i s (t, chunk ∷ [])
one-Grows i s t chunk e h = Callless-Grows i s (t, chunk ∷ []) e (h, tt)
