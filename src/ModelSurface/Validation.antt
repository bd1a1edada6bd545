-- ===== src/ModelSurface/Validation.antt =====
-- A list of modalities is accepted exactly when it is not empty and names no modality twice.
use llm_universal_proxy.Prelude.{
  true, false, ◌≡◌, ◌≢◌, ◌↔◌, inl, inr, refl, sym, Option, none, some, List, [], ◌∷◌, ok, any, All,
  arith, Bool-cases,
}
use llm_universal_proxy.ModelSurface.{
  ModelModality, same_modality, check_modalities, validate_modality_list,
}

-- No item stands twice.
abbrev pub NoRepeat : List ModelModality → Type 0
NoRepeat [] = Unit
NoRepeat (a ∷ rest) = All (λ b. a ≢ b) rest × NoRepeat rest

abbrev Apart : List ModelModality → List ModelModality → Type 0
Apart seen = All (λ x. All (λ s. x ≢ s) seen)

same_modality_refl : (a : ModelModality) → same_modality a a ≡ true
same_modality_refl a = ground arith

same_modality-eq : (a b : ModelModality) → same_modality a b ≡ true → a ≡ b
same_modality-eq a b h = ground arith

unseen-All :
    (a : ModelModality) (seen : List ModelModality)
    → any (same_modality a) seen ≡ false
    → All (λ s. a ≢ s) seen
unseen-All a [] h = tt
unseen-All a (s ∷ seen) h =
    (λ e. ground (arith, same_modality_refl a), unseen-All a seen (ground arith))

All-unseen :
    (a : ModelModality) (seen : List ModelModality)
    → All (λ s. a ≢ s) seen
    → any (same_modality a) seen ≡ false
All-unseen a [] h = refl
All-unseen a (s ∷ seen) (ne, more) = ground (arith, same_modality-eq a s, All-unseen a seen more)

Apart-cons :
    (a : ModelModality) (seen xs : List ModelModality)
    → Apart (a ∷ seen) xs ↔ (All (λ b. a ≢ b) xs × Apart seen xs)
Apart-cons a seen [] = (λ _. (tt, tt), λ _. tt)
Apart-cons a seen (x ∷ xs) = (
  λ h.
      let (fresh, apart) = (Apart-cons a seen xs).0 h.1 in
      ((λ e. h.0.0 (sym e), fresh), (h.0.1, apart)),
  λ h. ((λ e. h.0.0 (sym e), h.1.0), (Apart-cons a seen xs).1 (h.0.1, h.1.1)),
)

check_modalities_iff :
    (seen xs : List ModelModality)
    → (check_modalities seen xs ≡ ok tt) ↔ (Apart seen xs × NoRepeat xs)
unfolding check_modalities
check_modalities_iff seen [] = (λ _. (tt, tt), λ _. refl)
check_modalities_iff seen (a ∷ rest) = elim (Bool-cases (any (same_modality a) seen)) [
  | inl e ↦ rw e (λ h. cc h, λ h. cc (All-unseen a seen h.0.0))
  | inr e ↦ rw e (
    λ h.
        let (apart, once) = (check_modalities_iff (a ∷ seen) rest).0 h in
        let (fresh, others) = (Apart-cons a seen rest).0 apart in
        ((unseen-All a seen e, others), (fresh, once)),
    λ h.
        (check_modalities_iff (a ∷ seen) rest).1 ((Apart-cons a seen rest).1 (h.1.0, h.0.1), h.1.1),
  )
]

abbrev pub IsModalityList : Option (List ModelModality) → Type 0
IsModalityList none = Unit
IsModalityList (some xs) = (xs ≢ []) × NoRepeat xs

nothing_seen : (xs : List ModelModality) → Apart [] xs
nothing_seen [] = tt
nothing_seen (x ∷ xs) = (tt, nothing_seen xs)

-- A list is accepted exactly when it is absent, or has an item and none twice.
pub validate_modality_list_iff :
    (xs : Option (List ModelModality)) → (validate_modality_list xs ≡ ok tt) ↔ IsModalityList xs
unfolding validate_modality_list
validate_modality_list_iff none = (λ _. tt, λ _. refl)
validate_modality_list_iff (some []) = (λ h. cc h, λ h. absurd (h.0 refl))
validate_modality_list_iff (some (a ∷ rest)) = (
  λ h. (λ e. cc e, ((check_modalities_iff [] (a ∷ rest)).0 h).1),
  λ h. (check_modalities_iff [] (a ∷ rest)).1 (nothing_seen (a ∷ rest), h.1),
)
