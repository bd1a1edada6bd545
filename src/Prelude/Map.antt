-- ===== src/Prelude/Map.antt =====
-- `HashMap<String, V>` and `BTreeMap<String, V>` as association lists. The order of the entries is
-- the model's own: no theorem depends on it.
use Prim.Native.Nat.{ℕ, ◌+◌}
use Prim.Native.String.{String}
use mathlib.Core.Path.{◌≡◌, refl}
use mathlib.Core.Option.{Option, none, some}
use mathlib.Core.List.{List, [], ◌∷◌}
use native.Mathlib.Omega.{arith}
use llm_universal_proxy.Prelude.Tests.{if◌then◌else◌}
use llm_universal_proxy.Prelude.Texts.{str_eq, eq_iff, eq_refl}

abbrev pub Map {ℓ} : Type ℓ → Type ℓ
Map V = List (String × V)

module _ {ℓ} {V : Type ℓ} where
  unfoldable pub get : String → Map V → Option V
  get k [] = none
  get k ((j, v) ∷ m) = if str_eq j k then some v else get k m

  unfoldable pub remove : String → Map V → Map V
  remove k [] = []
  remove k ((j, v) ∷ m) = let rest = remove k m in if str_eq j k then rest else (j, v) ∷ rest

  unfoldable pub insert : String → V → Map V → Map V
  unfolding remove
  insert k v m = (k, v) ∷ remove k m

  pub get-remove :
      (k j : String) (m : Map V) → get j (remove k m) ≡ (if str_eq k j then none else get j m)
  unfolding get remove
  get-remove k j [] = ground arith
  get-remove k j ((i, v) ∷ m) = ground (arith, eq_iff k j, eq_iff i k, eq_iff i j, get-remove k j m)

  pub get-insert :
      (k j : String) (v : V) (m : Map V)
      → get j (insert k v m) ≡ (if str_eq k j then some v else get j m)
  unfolding get insert
  get-insert k j v m = ground (arith, get-remove k j m)

  -- No key stands twice.
  abbrev pub IsUnique : Map V → Type ℓ
  IsUnique [] = Unit
  IsUnique ((k, v) ∷ m) = (get k m ≡ none) × IsUnique m

  pub remove-absent : (k : String) (m : Map V) → get k m ≡ none → remove k m ≡ m
  unfolding get remove
  remove-absent k [] h = refl
  remove-absent k ((j, v) ∷ m) h = ground (arith, remove-absent k m)

  pub remove-IsUnique : (k : String) (m : Map V) → IsUnique m → IsUnique (remove k m)
  unfolding remove
  remove-IsUnique k [] u = u
  remove-IsUnique k ((j, v) ∷ m) u =
      ground (arith, eq_iff j k, get-remove k j m, remove-IsUnique k m)

  pub insert-IsUnique : (k : String) (v : V) (m : Map V) → IsUnique m → IsUnique (insert k v m)
  unfolding insert
  insert-IsUnique k v m u = (simp (get-remove, eq_refl), remove-IsUnique k m u)

  -- The sum of a measure over the values.
  abbrev pub total : (V → ℕ) → Map V → ℕ
  total f [] = 0
  total f ((k, v) ∷ m) = f v + total f m

  pub total-remove :
      (f : V → ℕ) (k : String) (v : V) (m : Map V)
      → IsUnique m
      → get k m ≡ some v
      → total f (remove k m) + f v ≡ total f m
  unfolding get remove
  total-remove f k v [] u h = ground arith
  total-remove f k v ((j, w) ∷ m) u h =
      ground (arith, eq_iff j k, remove-absent k m, total-remove f k v m u.1)
