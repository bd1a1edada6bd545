-- ===== src/Formats.antt =====
-- src/formats.rs: the wire formats, how one is printed, and how a name of one is read.
pub mod Aliases
use llm_universal_proxy.Prelude.{
  String, Bool, [], ◌∷◌, Result, ok, err, one_of, to_lowercase, if◌then◌else◌,
}

pub data UpstreamFormat : Type 0 where
  anthropic open_ai_chat_completions open_ai_responses : UpstreamFormat

-- The messages of `from_str`.
pub data FormatError : Type 0 where
  removed_native_gemini_format : FormatError
  unknown_format : String → FormatError

unfoldable pub display : UpstreamFormat → String
display anthropic = "anthropic"
display open_ai_chat_completions = "openai-chat-completions"
display open_ai_responses = "openai-responses"

abbrev pub is_same : UpstreamFormat → UpstreamFormat → Bool
is_same anthropic anthropic = Bool.true
is_same open_ai_chat_completions open_ai_chat_completions = Bool.true
is_same open_ai_responses open_ai_responses = Bool.true
is_same _ _ = Bool.false

-- `match s.to_lowercase().as_str()`; `s` is the text of the error.
from_lower : String → String → Result FormatError UpstreamFormat
from_lower s l =
    if one_of l ("google" ∷ "gemini" ∷ [])
    then err removed_native_gemini_format
    else if one_of l ("anthropic" ∷ "claude" ∷ "anthropic-messages" ∷ "claude-messages" ∷ [])
    then ok anthropic
    else if one_of l (
        "openai" ∷ "openai-completion" ∷ "openai-chat" ∷ "openai-chat-completions" ∷ "chat"
        ∷ "chat-completions" ∷ [])
    then ok open_ai_chat_completions
    else if one_of l ("openai-responses" ∷ "responses" ∷ [])
    then ok open_ai_responses
    else err (unknown_format s)

unfoldable pub from_str : String → Result FormatError UpstreamFormat
unfolding from_lower
from_str s = from_lower s (to_lowercase s)
