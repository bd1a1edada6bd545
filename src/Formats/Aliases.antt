-- ===== src/Formats/Aliases.antt =====
-- Reading a format's name: what is printed is read back, and case does not matter.
use llm_universal_proxy.Prelude.{String, ◌≡◌, refl, ok, one_of, to_lowercase, arith}
use llm_universal_proxy.Formats.{
  UpstreamFormat, anthropic, open_ai_chat_completions, open_ai_responses, display, from_lower,
  from_str,
}

-- The printed name of a format is read as that format.
pub from_str-display : (f : UpstreamFormat) → from_str (display f) ≡ ok f
unfolding from_str display to_lowercase one_of
from_str-display anthropic = refl
from_str-display open_ai_chat_completions = refl
from_str-display open_ai_responses = refl

from_lower_text :
    (s t l : String) {f : UpstreamFormat} → from_lower s l ≡ ok f → from_lower t l ≡ ok f
unfolding from_lower
from_lower_text s t l h = ground arith

-- Two names with one lower case name the same format.
pub from_str_case :
    (s t : String) {f : UpstreamFormat}
    → to_lowercase s ≡ to_lowercase t
    → from_str s ≡ ok f
    → from_str t ≡ ok f
unfolding from_str
from_str_case s t e h = from_lower_text s t (to_lowercase t) (rw e at h)
