-- ===== src/Prelude/Texts.antt =====
-- Whole texts: the test of equality, and lower case.
-- A text is the native `String`, a list of Unicode scalar values.
use Prim.Native.Char.{Char, code}
use Prim.Native.String.{String}
use mathlib.Core.Path.{◌≡◌, refl}
use mathlib.Core.Logic.{◌≢◌}
use mathlib.Core.Bool.{Bool, true, false, ◌||◌, ◌&&◌}
use mathlib.Core.List.{List, [], ◌∷◌}
use mathlib.Core.Option.{Option, none, some}
use llm_universal_proxy.Prelude.Tests.{if◌then◌else◌, ◌==◌, leb, is_some}
use native.Mathlib.Omega.{arith}
pub use text.Mathlib.Text.{◌==◌ as str_eq, starts_with, find?}
pub use text.Mathlib.TextEquality.{eq_iff}
pub use text.Mathlib.TextPositions.{eq_refl}
pub use Prim.Native.String.{◌++◌ as concat, len}

-- The test `matches!(s, "a" | "b" | …)`.
unfoldable pub one_of : String → List String → Bool
one_of s [] = false
one_of s (t ∷ ts) = str_eq s t || one_of s ts

pub str_eq_sound : (s t : String) → str_eq s t ≡ true → s ≡ t
str_eq_sound s t h = (eq_iff s t).0 h

pub str_ne : (s t : String) → s ≢ t → str_eq s t ≡ false
str_ne s t h = ground (arith, eq_iff s t)

-- The character at the same place of the second text, for a character of the first.
lower_in : String → String → Char → Char
lower_in (String.◌∷◌ u us) (String.◌∷◌ l ls) c = if code u == code c then l else lower_in us ls c
lower_in _ _ c = c

-- `char::to_lowercase`, as far as a comparison with an ASCII text can tell: the capital letters and
-- the Kelvin sign are the characters whose lower case is ASCII. Others with a case are left alone.
unfoldable pub lower_char : Char → Char
unfolding lower_in
lower_char = lower_in "ABCDEFGHIJKLMNOPQRSTUVWXYZK" "abcdefghijklmnopqrstuvwxyzk"

-- `str::to_lowercase`, under the same bound.
unfoldable pub to_lowercase : String → String
unfolding lower_char
to_lowercase String.[] = String.[]
to_lowercase (String.◌∷◌ c s) = String.◌∷◌ (lower_char c) (to_lowercase s)

ascii_lower_char : Char → Char
unfolding lower_in
ascii_lower_char = lower_in "ABCDEFGHIJKLMNOPQRSTUVWXYZ" "abcdefghijklmnopqrstuvwxyz"

-- `str::to_ascii_lowercase`
unfoldable pub to_ascii_lowercase : String → String
unfolding ascii_lower_char
to_ascii_lowercase String.[] = String.[]
to_ascii_lowercase (String.◌∷◌ c s) = String.◌∷◌ (ascii_lower_char c) (to_ascii_lowercase s)

-- `str::contains`
abbrev pub contains : String → String → Bool
contains s t = is_some (find? s t)

-- `str::eq_ignore_ascii_case`
abbrev pub eq_ignore_ascii_case : String → String → Bool
eq_ignore_ascii_case s t = str_eq (to_ascii_lowercase s) (to_ascii_lowercase t)

-- The rest of a text behind a prefix, the case of ASCII letters aside.
unfoldable pub strip_prefix_ignore_case : String → String → Option String
unfolding ascii_lower_char
strip_prefix_ignore_case String.[] s = some s
strip_prefix_ignore_case (String.◌∷◌ p ps) String.[] = none
strip_prefix_ignore_case (String.◌∷◌ p ps) (String.◌∷◌ c s) =
    let rest = strip_prefix_ignore_case ps s in
    if code (ascii_lower_char p) == code (ascii_lower_char c) then rest else none

-- `char::is_whitespace`: the Unicode property White_Space.
abbrev pub is_whitespace : Char → Bool
is_whitespace c =
    let n = code c in
    leb 9 n && leb n 13
    || n == 32
    || n == 133
    || n == 160
    || n == 5760
    || leb 8192 n && leb n 8202
    || n == 8232
    || n == 8233
    || n == 8239
    || n == 8287
    || n == 12288

unfoldable pub trim_start : String → String
trim_start String.[] = String.[]
trim_start (String.◌∷◌ c s) =
    let rest = trim_start s in if is_whitespace c then rest else String.◌∷◌ c s

abbrev pub is_empty : String → Bool
is_empty String.[] = true
is_empty (String.◌∷◌ c s) = false

unfoldable pub trim_end : String → String
trim_end String.[] = String.[]
trim_end (String.◌∷◌ c s) =
    let rest = trim_end s in
    if is_whitespace c && is_empty rest then String.[] else String.◌∷◌ c rest

-- `str::trim`
unfoldable pub trim : String → String
unfolding trim_start trim_end
trim s = trim_end (trim_start s)

lower_test : to_lowercase "Open-AI" ≡ "open-ai"
unfolding to_lowercase
lower_test = refl

trim_test : trim " a b  " ≡ "a b"
unfolding trim
trim_test = refl
