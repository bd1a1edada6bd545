-- ===== src/Streaming/Seeding.antt =====
-- src/streaming/state.rs: the arguments that a call starts with, joined with the first piece that
-- follows, where the piece may repeat the end of the start.
pub mod Trimming
use llm_universal_proxy.Prelude.{
  ◌+◌, ◌-◌, ℕ, zero, suc, min, String, Bool, true, false, ◌&&◌, Option, none, some, concat, len,
  is_empty, is_some, if◌then◌else◌,
}
use Prim.Native.String.{slice}
use package.text.Mathlib.Text.{is_char_boundary}
use llm_universal_proxy.Streaming.{SerdeText}

abbrev pub max_seeded_trim_scan : ℕ
max_seeded_trim_scan = 4096

-- The start without its last bytes, and the piece.
abbrev pub candidate : String → String → ℕ → String
candidate seed delta trim = concat (slice seed 0 (len seed - trim)) delta

abbrev pub is_candidate : SerdeText → String → String → ℕ → Bool
is_candidate z seed delta trim =
    is_char_boundary seed (len seed - trim) && is_some (z.from_str (candidate seed delta trim))

-- The loop over the trims from `trim` on, of which `left` are left.
unfoldable pub scan_trims : SerdeText → String → String → ℕ → ℕ → Option ℕ
scan_trims z seed delta trim zero = none
scan_trims z seed delta trim (suc left) =
    let later = scan_trims z seed delta (trim + 1) left in
    if is_candidate z seed delta trim then some trim else later

abbrev pub trimmed : String → String → Option ℕ → String
trimmed seed delta none = concat seed delta
trimmed seed delta (some trim) = candidate seed delta trim

unfoldable pub merge_seeded_tool_arguments : SerdeText → String → String → String
unfolding scan_trims
merge_seeded_tool_arguments z seed delta =
    if is_empty delta
    then seed
    else (trimmed seed delta (scan_trims z seed delta 0 (min (len seed) max_seeded_trim_scan + 1)))
