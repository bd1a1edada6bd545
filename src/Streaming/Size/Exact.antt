-- ===== src/Streaming/Size/Exact.antt =====
-- Sums that saturate: what they come to, item by item and part by part.
use llm_universal_proxy.Prelude.{
  ◌≡◌, ap, ◌∙◌, ◌+◌, ℕ, min, All, List, [], ◌∷◌, saturating_add, u64_max, arith,
}
use llm_universal_proxy.Streaming.Size.{saturating_sum, saturating_each}

abbrev pub total : List ℕ → ℕ
total [] = 0
total (n ∷ ns) = n + total ns

abbrev pub total_each : {A : Type 0} → (A → ℕ) → List A → ℕ
total_each measure [] = 0
total_each measure (x ∷ xs) = measure x + total_each measure xs

add_saturated :
    (start n exact : ℕ)
    → n ≡ min exact u64_max
    → saturating_add (min start u64_max) n ≡ min (start + exact) u64_max
add_saturated start n exact h = omega (arith, h)

add_any : (start n : ℕ) → saturating_add (min start u64_max) n ≡ min (start + n) u64_max
add_any start n = omega arith

regroup : (start n rest : ℕ) → min (start + n + rest) u64_max ≡ min (start + (n + rest)) u64_max
regroup start n rest = omega arith

saturating_sum_lem :
    (start : ℕ) (ns : List ℕ)
    → saturating_sum (min start u64_max) ns ≡ min (start + total ns) u64_max
unfolding saturating_sum
saturating_sum_lem start [] = omega arith
saturating_sum_lem start (n ∷ ns) =
    ap (λ t. saturating_sum t ns) (add_any start n)
    ∙ (saturating_sum_lem (start + n) ns ∙ regroup start n (total ns))

-- The parts of one item, from nothing.
pub parts_lem : (ns : List ℕ) → saturating_sum 0 ns ≡ min (total ns) u64_max
parts_lem ns = ap (λ t. saturating_sum t ns) (omega arith) ∙ (saturating_sum_lem 0 ns ∙ omega arith)

-- What a measure adds for an item, whatever was added before.
abbrev AddsExactly : {A : Type 0} → (A → ℕ) → (A → ℕ) → A → Type 0
AddsExactly measure exact x =
    (t : ℕ) → saturating_add (min t u64_max) (measure x) ≡ min (t + exact x) u64_max

saturating_each_lem :
    {A : Type 0} (measure exact : A → ℕ) (start : ℕ) (xs : List A)
    → All (AddsExactly measure exact) xs
    → saturating_each measure (min start u64_max) xs ≡ min (start + total_each exact xs) u64_max
unfolding saturating_each
saturating_each_lem measure exact start [] h = omega arith
saturating_each_lem measure exact start (x ∷ xs) (h, hs) =
    ap (λ t. saturating_each measure t xs) (h start)
    ∙ (saturating_each_lem measure exact (start + exact x) xs hs
        ∙ regroup start (exact x) (total_each exact xs))

-- Items that are sums of parts: the parts come to the exact size.
pub each_of_parts :
    {A : Type 0} (parts : A → List ℕ) (exact : A → ℕ) (start : ℕ) (xs : List A)
    → All (λ x. total (parts x) ≡ exact x) xs
    → saturating_each (λ x. saturating_sum 0 (parts x)) (min start u64_max) xs
      ≡ min (start + total_each exact xs) u64_max
each_of_parts parts exact start xs h =
    saturating_each_lem (λ x. saturating_sum 0 (parts x)) exact start xs (each xs h)
  where
    each :
        (ys : List _)
        → All (λ x. total (parts x) ≡ exact x) ys
        → All (AddsExactly (λ x. saturating_sum 0 (parts x)) exact) ys
    each [] e = tt
    each (y ∷ ys) (e, es) = (
      λ t.
          add_saturated t (saturating_sum 0 (parts y)) (exact y)
            (parts_lem (parts y) ∙ ap (λ n. min n u64_max) e),
      each ys es,
    )

-- Items that are measured at once.
pub each_at_once :
    {A : Type 0} (measure : A → ℕ) (start : ℕ) (xs : List A)
    → saturating_each measure (min start u64_max) xs ≡ min (start + total_each measure xs) u64_max
each_at_once measure start xs = saturating_each_lem measure measure start xs (each xs)
  where
    each : (ys : List _) → All (AddsExactly measure measure) ys
    each [] = tt
    each (y ∷ ys) = (λ t. add_any t (measure y), each ys)

pub All-of : {A : Type 0} (P : A → Type 0) → ((x : A) → P x) → (xs : List A) → All P xs
All-of P h [] = tt
All-of P h (x ∷ xs) = (h x, All-of P h xs)

pub All-map :
    {A : Type 0} (P Q : A → Type 0) → ((x : A) → P x → Q x) → (xs : List A) → All P xs → All Q xs
All-map P Q h [] e = tt
All-map P Q h (x ∷ xs) (e, es) = (h x e, All-map P Q h xs es)

pub total_each-same :
    {A : Type 0} (f g : A → ℕ)
    → ((x : A) → f x ≡ g x)
    → (xs : List A) → total_each f xs ≡ total_each g xs
total_each-same f g h [] = omega arith
total_each-same f g h (x ∷ xs) = omega (arith, h x, total_each-same f g h xs)

pub total_each-add :
    {A : Type 0} (f g : A → ℕ) (xs : List A)
    → total_each (λ x. f x + g x) xs ≡ total_each f xs + total_each g xs
total_each-add f g [] = omega arith
total_each-add f g (x ∷ xs) = omega (arith, total_each-add f g xs)
