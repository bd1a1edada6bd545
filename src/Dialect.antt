-- ===== src/Dialect.antt =====
-- src/config/dialect.rs: an upstream's dialect, its validation, and the presets.
pub mod Levels
pub mod Validation
use llm_universal_proxy.Prelude.{
  String, Bool, true, false, Option, none, some, List, [], ◌∷◌, Result, ok, err, str_eq, leb, ◌>>=◌,
  ◌>>◌, if◌then◌else◌,
}
use Levels.{
  ReasoningLevel, minimal, low, high, max, rank, ReasoningMechanism, open_ai_effort, auto_only,
}

pub record DialectBlock : Type 0 where
  pub reasoning : ReasoningMechanism
  pub reasoning_echo : Option Bool
  pub reasoning_levels : Option (List ReasoningLevel)

-- The messages of `validate` and `resolve`.
pub data DialectError : Type 0 where
  levels_empty : DialectError
  not_strictly_increasing : ReasoningLevel → ReasoningLevel → DialectError
  unknown_preset : String → DialectError

-- The loop over `levels.windows(2)`: it stops at the first pair that is out of order.
check_windows : List ReasoningLevel → Result DialectError (Unit {0})
check_windows [] = ok tt
check_windows (a ∷ []) = ok tt
check_windows (a ∷ b ∷ rest) =
    let later = check_windows (b ∷ rest) in
    if leb (rank b) (rank a) then err (not_strictly_increasing a b) else later

pub validate_levels : Option (List ReasoningLevel) → Result DialectError (Unit {0})
unfolding check_windows
validate_levels none = ok tt
validate_levels (some []) = err levels_empty
validate_levels (some (a ∷ rest)) = check_windows (a ∷ rest)

-- `DialectBlock::validate`
unfoldable pub validate : DialectBlock → Result DialectError (Unit {0})
unfolding validate_levels
validate block = validate_levels block.reasoning_levels

-- The presets that the proxy ships.
unfoldable pub resolve_dialect_preset : String → Option DialectBlock
resolve_dialect_preset name =
    if str_eq name "deepseek-openai"
    then some (record {
      reasoning = open_ai_effort;
      reasoning_echo = some true;
      reasoning_levels = some (low ∷ high ∷ max ∷ []);
    })
    else if str_eq name "glm-openai"
    then some (record {
      reasoning = open_ai_effort;
      reasoning_echo = some true;
      reasoning_levels = some (ReasoningLevel.none ∷ minimal ∷ high ∷ max ∷ []);
    })
    else if str_eq name "glm-anthropic"
    then some
        (record { reasoning = auto_only; reasoning_echo = some false; reasoning_levels = none })
    else if str_eq name "qwen-openai"
    then some
        (record { reasoning = auto_only; reasoning_echo = some true; reasoning_levels = none })
    else none

-- `UpstreamDialect`: the name of a preset, or a block.
pub data UpstreamDialect : Type 0 where
  preset : String → UpstreamDialect
  detailed : DialectBlock → UpstreamDialect

abbrev or_unknown : String → Option DialectBlock → Result DialectError DialectBlock
or_unknown name none = err (unknown_preset name)
or_unknown name (some block) = ok block

-- `UpstreamDialect::resolve`
unfoldable pub resolve : UpstreamDialect → Result DialectError DialectBlock
resolve (preset name) = or_unknown name (resolve_dialect_preset name)
resolve (detailed block) = do validate block; ok block
