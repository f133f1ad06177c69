-- ===== src/Prelude/Assoc.antt =====
-- Python's dictionaries with text keys, in their order of insertion.
use Prim.Native.String.{String}
use mathlib.Core.Path.{◌≡◌, refl}
use mathlib.Core.Bool.{false}
use mathlib.Core.Option.{Option, none, some}
use mathlib.Core.List.{List, [], ◌∷◌, ◌++◌}
use native.Mathlib.Omega.{arith}
use text.Mathlib.Text.{◌==◌}
use text.Mathlib.TextEquality.{eq_iff}
use wakey.Prelude.Tests.{if◌then◌else◌}

module _ {ℓ} {V : Type ℓ} where
  -- `d.get(k)`
  unfoldable pub lookup : String → List (String × V) → Option V
  lookup k [] = none
  lookup k ((j, v) ∷ m) = if j == k then some v else lookup k m

  -- `del d[k]`, `d.pop(k, None)`
  unfoldable pub remove : String → List (String × V) → List (String × V)
  remove k [] = []
  remove k ((j, v) ∷ m) = let rest = remove k m in if j == k then rest else (j, v) ∷ rest

  -- `d[k] = v` for a key that is there: its place in the order stays
  unfoldable pub replace : String → V → List (String × V) → List (String × V)
  replace k v [] = []
  replace k v ((j, w) ∷ m) = (j, if j == k then v else w) ∷ replace k v m

  pub lookup-remove :
      (k j : String) (m : List (String × V))
      → lookup j (remove k m) ≡ (if k == j then none else lookup j m)
  unfolding lookup remove
  lookup-remove k j [] = ground arith
  lookup-remove k j ((i, v) ∷ m) =
      ground (arith, lookup-remove k j m, eq_iff i k, eq_iff i j, eq_iff k j)

  lookup-replace_ne :
      (k j : String) (v : V) (m : List (String × V))
      → (k == j) ≡ false
      → lookup j (replace k v m) ≡ lookup j m
  unfolding lookup replace
  lookup-replace_ne k j v [] e = refl
  lookup-replace_ne k j v ((i, u) ∷ m) e =
      ground (arith, lookup-replace_ne k j v m, eq_iff i k, eq_iff i j, eq_iff k j)

  -- replacing the value of a key that is there
  pub lookup-replace :
      (k j : String) (v w : V) (m : List (String × V))
      → lookup k m ≡ some w
      → lookup j (replace k v m) ≡ (if k == j then some v else lookup j m)
  unfolding lookup replace
  lookup-replace k j v w [] e = ground arith
  lookup-replace k j v w ((i, u) ∷ m) e = ground (
    arith,
    lookup-replace k j v w m,
    lookup-replace_ne k j v m,
    eq_iff i k,
    eq_iff i j,
    eq_iff k j,
  )

  pub lookup-append_last :
      (j k : String) (v : V) (m : List (String × V))
      → lookup k m ≡ none
      → lookup j (m ++ (k, v) ∷ []) ≡ (if k == j then some v else lookup j m)
  unfolding lookup
  lookup-append_last j k v [] e = refl
  lookup-append_last j k v ((i, u) ∷ m) e =
      ground (arith, lookup-append_last j k v m, eq_iff i k, eq_iff i j, eq_iff k j)
