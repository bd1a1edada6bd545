-- ===== src/Dialect/Validation.antt =====
-- What a dialect that was resolved has: levels that rise strictly, at least one, if any are
-- declared.
use llm_universal_proxy.Prelude.{
  ◌<◌, ◌≡◌, ◌↔◌, refl, String, Option, none, some, List, [], ◌∷◌, ok, arith, inl, inr, leb,
  leb-false, lt→leb-false, Bool-cases,
}
use llm_universal_proxy.Dialect.Levels.{ReasoningLevel, rank}
use llm_universal_proxy.Dialect.{
  DialectBlock, check_windows, validate_levels, validate, resolve_dialect_preset, UpstreamDialect,
  preset, detailed, or_unknown, resolve,
}

-- Each level lies above the one before it.
abbrev pub Rises : ReasoningLevel → List ReasoningLevel → Type 0
Rises a [] = Unit
Rises a (b ∷ rest) = (rank a < rank b) × Rises b rest

abbrev pub IsWellFormed : Option (List ReasoningLevel) → Type 0
IsWellFormed none = Unit
IsWellFormed (some []) = ⊥
IsWellFormed (some (a ∷ rest)) = Rises a rest

check_windows-Rises :
    (a : ReasoningLevel) (rest : List ReasoningLevel)
    → check_windows (a ∷ rest) ≡ ok tt
    → Rises a rest
unfolding check_windows
check_windows-Rises a [] h = tt
check_windows-Rises a (b ∷ rest) h = elim (Bool-cases (leb (rank b) (rank a))) [
  | inl e ↦ cc (rw e at h)
  | inr e ↦ (leb-false (rank b) (rank a) e, check_windows-Rises b rest (rw e at h))
]

Rises-check_windows :
    (a : ReasoningLevel) (rest : List ReasoningLevel)
    → Rises a rest
    → check_windows (a ∷ rest) ≡ ok tt
unfolding check_windows
Rises-check_windows a [] h = refl
Rises-check_windows a (b ∷ rest) (lt, more) =
    rw (lt→leb-false (rank b) (rank a) lt) (Rises-check_windows b rest more)

-- `validate` accepts a block exactly when its levels are not declared, or are one or more levels
-- that rise strictly.
pub validate_iff :
    (block : DialectBlock) → (validate block ≡ ok tt) ↔ IsWellFormed block.reasoning_levels
unfolding validate
validate_iff block = of_levels block.reasoning_levels
  where
    of_levels : (ls : Option (List ReasoningLevel)) → (validate_levels ls ≡ ok tt) ↔ IsWellFormed ls
    of_levels none = (λ _. tt, λ _. refl)
    of_levels (some []) = (λ h. cc h, λ h. elim h [ ])
    of_levels (some (a ∷ rest)) = (check_windows-Rises a rest, Rises-check_windows a rest)

resolve_dialect_preset-IsWellFormed :
    (name : String) {block : DialectBlock}
    → resolve_dialect_preset name ≡ some block
    → IsWellFormed block.reasoning_levels
unfolding resolve_dialect_preset
resolve_dialect_preset-IsWellFormed name h = ground arith

or_unknown-ok :
    (name : String) (o : Option DialectBlock) {block : DialectBlock}
    → or_unknown name o ≡ ok block
    → o ≡ some block
or_unknown-ok name none h = cc
or_unknown-ok name (some b) h = cc

-- Every dialect that resolves, from a preset or from a block, is well formed.
pub resolve-IsWellFormed :
    (d : UpstreamDialect) (block : DialectBlock)
    → resolve d ≡ ok block
    → IsWellFormed block.reasoning_levels
unfolding resolve
resolve-IsWellFormed (preset name) block h =
    resolve_dialect_preset-IsWellFormed name
      (or_unknown-ok name (resolve_dialect_preset name) {block = block} h)
resolve-IsWellFormed (detailed given) block h = ground (arith, (validate_iff given).0)
