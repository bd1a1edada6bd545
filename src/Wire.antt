-- ===== src/Wire.antt =====
-- src/streaming/wire.rs: server-sent events on the wire. A buffer is a list of bytes, and a text is
-- the list of its UTF-8 bytes: `lines`, `strip_prefix` and `join` meet ASCII bytes only, so they do
-- to the bytes what they do to the text. `String::from_utf8_lossy`, `serde_json::from_str` and
-- `serde_json::to_string` are parameters.
pub mod Boundary
pub mod Draining
pub mod RoundTrip
use Prim.Native.Char.{code}
use llm_universal_proxy.Prelude.{
  ℕ, zero, suc, ◌+◌, String, Bool, true, false, not, ◌&&◌, ◌||◌, Option, none, some, List, [], ◌∷◌,
  ◌++◌, length, take, drop, min, leb, ◌==◌, and_then, unwrap_or, if◌then◌else◌,
}
use llm_universal_proxy.Json.Value.{Value, bool, object, entry, end}

abbrev pub Bytes : Type 0
Bytes = List ℕ

-- The bytes of an ASCII text.
abbrev pub bytes : String → Bytes
bytes String.[] = []
bytes (String.◌∷◌ c s) = code c ∷ bytes s

-- A parsed frame's text, and the texts of JSON values; `to_string` is `none` on an error.
pub record Codec : Type 0 where
  pub from_utf8_lossy : Bytes → Bytes
  pub from_str : Bytes → Option Value
  pub to_string : Value → Option Bytes

abbrev pub same_bytes : Bytes → Bytes → Bool
same_bytes [] [] = true
same_bytes (a ∷ as₁) (b ∷ bs) = a == b && same_bytes as₁ bs
same_bytes _ _ = false

unfoldable pub strip_prefix : Bytes → Bytes → Option Bytes
strip_prefix [] s = some s
strip_prefix (p ∷ ps) [] = none
strip_prefix (p ∷ ps) (c ∷ s) = let rest = strip_prefix ps s in if p == c then rest else none

abbrev pub starts_lf : Bytes → Bool
starts_lf [] = false
starts_lf (c ∷ s) = c == b'\n'

abbrev pub onto_first : ℕ → List Bytes → List Bytes
onto_first c [] = (c ∷ []) ∷ []
onto_first c (l ∷ ls) = (c ∷ l) ∷ ls

-- `str::lines`: a line ends with a line feed, or with a carriage return before one.
unfoldable pub lines : Bytes → List Bytes
lines [] = []
lines (c ∷ s) =
    let rest = lines s in
    if c == b'\n' then [] ∷ rest else if c == b'\r' && starts_lf s then rest else onto_first c rest

-- `data.strip_prefix(' ').unwrap_or(data)`
unfoldable pub strip_space : Bytes → Bytes
strip_space [] = []
strip_space (c ∷ s) = if c == b' ' then s else c ∷ s

push_data : Option Bytes → List Bytes → List Bytes
unfolding strip_space
push_data none ls = ls
push_data (some d) ls = strip_space d ∷ ls

-- The loop that fills `data_lines`.
unfoldable pub data_lines : List Bytes → List Bytes
unfolding push_data strip_prefix
data_lines [] = []
data_lines (l ∷ ls) = push_data (strip_prefix (bytes "data:") l) (data_lines ls)

-- `join("\n")`
unfoldable pub join_lines : List Bytes → Bytes
join_lines [] = []
join_lines (l ∷ []) = l
join_lines (l ∷ m ∷ ls) = l ++ b'\n' ∷ join_lines (m ∷ ls)

abbrev ascii_space : ℕ → Bool
ascii_space c = leb 9 c && leb c 13 || c == 32

abbrev wide_space : ℕ → ℕ → ℕ → Bool
wide_space a b c =
    a == 0xe1 && b == 0x9a && c == 0x80
    || a == 0xe2 && b == 0x80 && (leb 0x80 c && leb c 0x8a || c == 0xa8 || c == 0xa9 || c == 0xaf)
    || a == 0xe2 && b == 0x81 && c == 0x9f
    || a == 0xe3 && b == 0x80 && c == 0x80

-- `data.trim().is_empty()`: the text is white space, in UTF-8.
unfoldable pub is_blank : Bytes → Bool
is_blank [] = true
is_blank (a ∷ []) = ascii_space a
is_blank (a ∷ b ∷ []) = ascii_space a && ascii_space b || a == 0xc2 && (b == 0x85 || b == 0xa0)
is_blank (a ∷ b ∷ c ∷ rest) =
    let past_one = is_blank (b ∷ c ∷ rest) in
    let past_two = is_blank (c ∷ rest) in
    let past_three = is_blank rest in
    if ascii_space a
    then past_one
    else if a == 0xc2 && (b == 0x85 || b == 0xa0)
    then past_two
    else if wide_space a b c
    then past_three
    else false

parse_data : Codec → List Bytes → Option Value
parse_data z [] = none
parse_data z (l ∷ ls) =
    let text = join_lines (l ∷ ls) in
    if same_bytes text (bytes "[DONE]")
    then some (object (entry "_done" (bool true) end))
    else if is_blank text
    then none
    else z.from_str text

unfoldable pub parse_sse_event_json : Codec → Bytes → Option Value
unfolding parse_data
parse_sse_event_json z event_bytes =
    parse_data z (data_lines (lines (z.from_utf8_lossy event_bytes)))

abbrev pub starts_crlf : Bytes → Bool
starts_crlf (c ∷ d ∷ _) = c == b'\r' && d == b'\n'
starts_crlf (_ ∷ []) = false
starts_crlf [] = false

-- The scan from index `i`, over what the buffer holds from there.
frame_end_from : ℕ → Bytes → Option ℕ
frame_end_from i [] = none
frame_end_from i (a ∷ []) = none
frame_end_from i (a ∷ b ∷ rest) =
    let later = frame_end_from (i + 1) (b ∷ rest) in
    if a == b'\n' && b == b'\n'
    then some (i + 2)
    else if a == b'\r' && b == b'\n' && starts_crlf rest
    then some (i + 4)
    else later

unfoldable pub sse_frame_end : Bytes → Option ℕ
unfolding frame_end_from
sse_frame_end buffer = frame_end_from 0 buffer

pub record Frame : Type 0 where
  pub event_bytes : Bytes
  pub event : Option Value
  pub end : ℕ

unfoldable pub read_one_sse_frame : Codec → Bytes → Option Frame
read_one_sse_frame z buffer = and_then (sse_frame_end buffer) (λ e. some (record {
  event_bytes = take e buffer;
  event = parse_sse_event_json z (take e buffer);
  end = e;
}))

unfoldable pub drop_sse_prefix : Bytes → ℕ → Bytes
drop_sse_prefix buffer consumed = drop (min consumed (length buffer)) buffer

-- The frame, and the buffer that is left.
unfoldable pub take_one_sse_frame : Codec → Bytes → Option (Frame × Bytes)
unfolding read_one_sse_frame
take_one_sse_frame z buffer =
    and_then (read_one_sse_frame z buffer) (λ f. some (f, drop f.end buffer))

-- The loop of `take_one_sse_event`, on fuel: the buffer that is left, and the event.
take_event : Codec → ℕ → Bytes → Bytes × Option Value
take_event z zero buffer = (buffer, none)
take_event z (suc fuel) buffer = elim (take_one_sse_frame z buffer) [
  | none ↦ (buffer, none)
  | some (f, rest) ↦ elim f.event [ some v ↦ (rest, some v) | none ↦ take_event z fuel rest ]
]

unfoldable pub take_one_sse_event : Codec → Bytes → Bytes × Option Value
unfolding take_event
take_one_sse_event z buffer = take_event z (length buffer) buffer

unfoldable pub format_sse_data : Codec → Value → Bytes
format_sse_data z value =
    bytes "data: " ++ unwrap_or (z.to_string value) (bytes "{}") ++ bytes "\n\n"

unfoldable pub format_sse_event : Codec → Bytes → Value → Bytes
format_sse_event z event_type value =
    bytes "event: "
    ++ event_type
    ++ bytes "\n"
    ++ bytes "data: "
    ++ unwrap_or (z.to_string value) (bytes "{}")
    ++ bytes "\n\n"
