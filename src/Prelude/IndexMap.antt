-- ===== src/Prelude/IndexMap.antt =====
-- `HashMap<usize, V>` as an association list with one entry for each index. A search takes the first
-- entry of the list: the order of a `HashMap` is not specified, and no theorem depends on it.
use Prim.Native.Nat.{ℕ}
use mathlib.Core.Path.{◌≡◌}
use mathlib.Core.Bool.{Bool}
use mathlib.Core.Option.{Option, none, some}
use mathlib.Core.List.{List, [], ◌∷◌}
use native.Mathlib.Omega.{arith}
use llm_universal_proxy.Prelude.Tests.{if◌then◌else◌, ◌==◌}

abbrev pub IndexMap {ℓ} : Type ℓ → Type ℓ
IndexMap V = List (ℕ × V)

module _ {ℓ} {V : Type ℓ} where
  unfoldable pub lookup : ℕ → IndexMap V → Option V
  lookup i [] = none
  lookup i ((j, v) ∷ m) = if j == i then some v else lookup i m

  -- `HashMap::insert`: the entry of the index is replaced in its place, or comes last.
  unfoldable pub put : ℕ → V → IndexMap V → IndexMap V
  put i v [] = (i, v) ∷ []
  put i v ((j, w) ∷ m) = let rest = put i v m in if j == i then (i, v) ∷ m else (j, w) ∷ rest

  -- `iter().find_map`: the index of an entry that passes the test.
  unfoldable pub index_where : (V → Bool) → IndexMap V → Option ℕ
  index_where p [] = none
  index_where p ((i, v) ∷ m) = if p v then some i else index_where p m

  pub lookup-put :
      (i j : ℕ) (v : V) (m : IndexMap V)
      → lookup j (put i v m) ≡ (if i == j then some v else lookup j m)
  unfolding lookup put
  lookup-put i j v [] = ground arith
  lookup-put i j v ((k, w) ∷ m) = ground (arith, lookup-put i j v m)
