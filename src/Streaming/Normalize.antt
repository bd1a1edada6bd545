-- ===== src/Streaming/Normalize.antt =====
-- `normalize_openai_stream_text` of src/streaming/openai_sink.rs: the new part of a piece of text,
-- from senders whose pieces repeat what came before and from those whose pieces do not.
pub mod Cumulative
use Prim.Native.Char.{Char, code}
use Prim.Native.String.{slice}
use llm_universal_proxy.Prelude.{
  ◌+◌, ◌/◌, ◌%◌, min, ℕ, String, Bool, true, false, ◌&&◌, Option, none, some, List, [], ◌∷◌, ◌++◌,
  take, concat, str_eq, len, is_empty, ltb, ◌==◌, if◌then◌else◌,
}
use package.text.Mathlib.Text.{is_char_boundary}

-- The UTF-8 bytes of a character.
abbrev utf8 : Char → List ℕ
utf8 c =
    let n = code c in
    if ltb n 128
    then n ∷ []
    else if ltb n 2048
    then (192 + n / 64) ∷ (128 + n % 64) ∷ []
    else if ltb n 65536
    then (224 + n / 4096) ∷ (128 + n / 64 % 64) ∷ (128 + n % 64) ∷ []
    else (240 + n / 262144) ∷ (128 + n / 4096 % 64) ∷ (128 + n / 64 % 64) ∷ (128 + n % 64) ∷ []

-- `str::as_bytes`
unfoldable pub as_bytes : String → List ℕ
as_bytes String.[] = []
as_bytes (String.◌∷◌ c s) = utf8 c ++ as_bytes s

abbrev pub same_bytes : List ℕ → List ℕ → Bool
same_bytes [] [] = true
same_bytes [] (_ ∷ _) = false
same_bytes (_ ∷ _) [] = false
same_bytes (x ∷ xs) (y ∷ ys) = x == y && same_bytes xs ys

abbrev pub openai_stream_cumulative_probe : ℕ
openai_stream_cumulative_probe = 4096

unfoldable pub is_cumulative : String → String → Bool
unfolding as_bytes
is_cumulative incoming seen =
    let probe = min (len seen) openai_stream_cumulative_probe in
    ltb (len seen) (len incoming)
    && is_char_boundary incoming (len seen)
    && same_bytes (take probe (as_bytes incoming)) (take probe (as_bytes seen))

abbrev non_empty : String → Option String
non_empty s = if is_empty s then none else some s

-- The part to emit, and the text that has been seen with it.
unfoldable pub normalize_openai_stream_text : String → String → Option String × String
unfolding is_cumulative
normalize_openai_stream_text incoming seen =
    if is_empty incoming
    then (none, seen)
    else if str_eq incoming seen
    then (none, seen)
    else if is_cumulative incoming seen
    then (
      non_empty (slice incoming (len seen) (len incoming)),
      concat seen (slice incoming (len seen) (len incoming)),
    )
    else (non_empty incoming, concat seen incoming)
