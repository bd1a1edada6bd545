-- ===== src/Dialect/Levels.antt =====
-- src/config/dialect.rs: `ReasoningLevel`, in the order of its declaration, and
-- `ReasoningMechanism`.
use llm_universal_proxy.Prelude.{
  ℕ, String, Result, ok, err, ◌≡◌, refl, str_eq, arith, eq_iff, if◌then◌else◌,
}

pub data ReasoningLevel : Type 0 where
  none minimal low medium high xhigh max ultra : ReasoningLevel

-- `no_reasoning` is the source's `None`.
pub data ReasoningMechanism : Type 0 where
  open_ai_effort anthropic_effort anthropic_thinking auto_only no_reasoning : ReasoningMechanism

-- `ReasoningLevel::parse`; the error holds the unknown name.
unfoldable pub parse : String → Result String ReasoningLevel
parse name =
    if str_eq name "none"
    then ok none
    else if str_eq name "minimal"
    then ok minimal
    else if str_eq name "low"
    then ok low
    else if str_eq name "medium"
    then ok medium
    else if str_eq name "high"
    then ok high
    else if str_eq name "xhigh"
    then ok xhigh
    else if str_eq name "max"
    then ok max
    else if str_eq name "ultra"
    then ok ultra
    else err name

-- `impl Display for ReasoningLevel`
unfoldable pub display : ReasoningLevel → String
display none = "none"
display minimal = "minimal"
display low = "low"
display medium = "medium"
display high = "high"
display xhigh = "xhigh"
display max = "max"
display ultra = "ultra"

-- The derived order is that of the declaration.
abbrev pub rank : ReasoningLevel → ℕ
rank none = 0
rank minimal = 1
rank low = 2
rank medium = 3
rank high = 4
rank xhigh = 5
rank max = 6
rank ultra = 7

-- The printed name of a level is read as that level.
pub parse-display : (l : ReasoningLevel) → parse (display l) ≡ ok l
unfolding parse display
parse-display none = refl
parse-display minimal = refl
parse-display low = refl
parse-display medium = refl
parse-display high = refl
parse-display xhigh = refl
parse-display max = refl
parse-display ultra = refl

-- A name that is read is the printed name of the level.
pub display_of_parse : (s : String) {l : ReasoningLevel} → parse s ≡ ok l → display l ≡ s
unfolding parse display
display_of_parse s h = ground (
  arith,
  eq_iff s "none",
  eq_iff s "minimal",
  eq_iff s "low",
  eq_iff s "medium",
  eq_iff s "high",
  eq_iff s "xhigh",
  eq_iff s "max",
  eq_iff s "ultra",
)
