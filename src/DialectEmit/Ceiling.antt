-- ===== src/DialectEmit/Ceiling.antt =====
-- The ceiling of a validated dialect is the greatest level that it declares, and a level that is
-- emitted is the lesser of the client's level and the ceiling.
use llm_universal_proxy.Prelude.{
  ◌≤◌, ◌≡◌, refl, ◌⊎◌, inl, inr, Option, none, some, List, [], ◌∷◌, All, arith, min, ltb,
}
use llm_universal_proxy.Dialect.Levels.{ReasoningLevel, rank, ReasoningMechanism}
use llm_universal_proxy.Dialect.{DialectBlock}
use llm_universal_proxy.Dialect.Validation.{Rises, IsWellFormed}
use llm_universal_proxy.DialectEmit.{last_level, default_ceiling, ceiling_of, ceiling_for, cap}

abbrev AtMost : ReasoningLevel → List ReasoningLevel → Type 0
AtMost c = All (λ l. rank l ≤ rank c)

le-last_level :
    (a : ReasoningLevel) (rest : List ReasoningLevel)
    → Rises a rest
    → rank a ≤ rank (last_level a rest)
unfolding last_level
le-last_level a [] r = omega arith
le-last_level a (b ∷ rest) (lt, more) = omega (arith, le-last_level b rest more)

AtMost-last_level :
    (a : ReasoningLevel) (rest : List ReasoningLevel)
    → Rises a rest
    → AtMost (last_level a rest) (a ∷ rest)
unfolding last_level
AtMost-last_level a [] r = (omega arith, tt)
AtMost-last_level a (b ∷ rest) (lt, more) =
    let (le, others) = AtMost-last_level b rest more in
    (omega (arith, le-last_level b rest more), (le, others))

abbrev Occurs : ReasoningLevel → List ReasoningLevel → Type 0
Occurs c [] = ⊥
Occurs c (a ∷ rest) = (c ≡ a) ⊎ Occurs c rest

Occurs-last_level :
    (a : ReasoningLevel) (rest : List ReasoningLevel) → Occurs (last_level a rest) (a ∷ rest)
unfolding last_level
Occurs-last_level a [] = inl refl
Occurs-last_level a (b ∷ rest) = inr (Occurs-last_level b rest)

-- The ceiling of a dialect: the greatest level declared, or the default of the mechanism.
abbrev pub IsCeiling : ReasoningMechanism → Option (List ReasoningLevel) → ReasoningLevel → Type 0
IsCeiling mechanism none c = c ≡ default_ceiling mechanism
IsCeiling mechanism (some levels) c = Occurs c levels × AtMost c levels

ceiling_of-IsCeiling :
    (m : ReasoningMechanism) (levels : Option (List ReasoningLevel))
    → IsWellFormed levels
    → (c : ReasoningLevel) × (ceiling_of m levels ≡ some c) × IsCeiling m levels c
unfolding ceiling_of
ceiling_of-IsCeiling m none w = (default_ceiling m, refl, refl)
ceiling_of-IsCeiling m (some []) w = absurd w
ceiling_of-IsCeiling m (some (a ∷ rest)) w =
    (last_level a rest, refl, (Occurs-last_level a rest, AtMost-last_level a rest w))

-- Of a validated dialect `ceiling_for` does not panic, and finds the greatest declared level, or
-- the default of the mechanism where no levels are declared.
pub ceiling_for-IsCeiling :
    (d : DialectBlock)
    → IsWellFormed d.reasoning_levels
    → (c : ReasoningLevel) × (ceiling_for d ≡ some c) × IsCeiling d.reasoning d.reasoning_levels c
unfolding ceiling_for
ceiling_for-IsCeiling d w = ceiling_of-IsCeiling d.reasoning d.reasoning_levels w

-- The capped level is the lesser of the client's level and the ceiling, and the flag says whether
-- the client's level lay above the ceiling.
pub cap-min :
    (effort ceiling : ReasoningLevel)
    → (rank (cap effort ceiling).0 ≡ min (rank effort) (rank ceiling))
      × ((cap effort ceiling).1 ≡ ltb (rank ceiling) (rank effort))
cap-min effort ceiling = (ground arith, ground arith)
