-- ===== src/Prelude/Lists.antt =====
-- Lists as tables: the reads and writes that a `WHERE` clause selects rows for.
use Prim.Native.Nat.{ℕ, zero, suc, ◌+◌, ◌≤◌}
use mathlib.Core.Path.{◌≡◌, refl}
use mathlib.Core.Bool.{Bool, true, false}
use mathlib.Core.Option.{Option, none, some}
use mathlib.Core.List.{List, [], ◌∷◌, ◌++◌}
use native.Mathlib.Omega.{arith}
use wakey.Prelude.Tests.{if◌then◌else◌}

module _ {ℓ} {A : Type ℓ} where
  abbrev pub length : List A → ℕ
  length [] = 0
  length (x ∷ xs) = suc (length xs)

  -- the first row that meets the condition
  unfoldable pub find_where : (A → Bool) → List A → Option A
  find_where p [] = none
  find_where p (x ∷ xs) = if p x then some x else find_where p xs

  -- `UPDATE … WHERE`
  unfoldable pub update_where : (A → Bool) → (A → A) → List A → List A
  update_where p f [] = []
  update_where p f (x ∷ xs) = (if p x then f x else x) ∷ update_where p f xs

  -- `SELECT … WHERE`
  unfoldable pub select_where : (A → Bool) → List A → List A
  select_where p [] = []
  select_where p (x ∷ xs) = let rest = select_where p xs in if p x then x ∷ rest else rest

  -- `SELECT COUNT(*) … WHERE`
  unfoldable pub count_where : (A → Bool) → List A → ℕ
  count_where p [] = 0
  count_where p (x ∷ xs) = (if p x then 1 else 0) + count_where p xs

  unfoldable pub delete_where : (A → Bool) → List A → List A
  delete_where p [] = []
  delete_where p (x ∷ xs) = let rest = delete_where p xs in if p x then rest else x ∷ rest

  -- `[:n]`, and `LIMIT n`
  unfoldable pub take : ℕ → List A → List A
  take zero xs = []
  take (suc n) [] = []
  take (suc n) (x ∷ xs) = x ∷ take n xs

  unfoldable pub any_where : (A → Bool) → List A → Bool
  any_where p [] = false
  any_where p (x ∷ xs) = if p x then true else any_where p xs

  abbrev pub All {κ} : (A → Type κ) → List A → Type κ
  All P [] = Unit
  All P (x ∷ xs) = P x × All P xs

  pub length-append : (xs ys : List A) → length (xs ++ ys) ≡ length xs + length ys
  length-append [] ys = omega arith
  length-append (x ∷ xs) ys = omega (arith, length-append xs ys)

  pub length-take-le : (n : ℕ) (xs : List A) → length (take n xs) ≤ n
  unfolding take
  length-take-le (suc n) (x ∷ xs) = omega (arith, length-take-le n xs)
  length-take-le _ _ = omega arith

  pub length-update_where :
      (p : A → Bool) (f : A → A) (xs : List A) → length (update_where p f xs) ≡ length xs
  unfolding update_where
  length-update_where p f [] = refl
  length-update_where p f (x ∷ xs) = omega (arith, length-update_where p f xs)

  pub count_where-append :
      (p : A → Bool) (xs ys : List A)
      → count_where p (xs ++ ys) ≡ count_where p xs + count_where p ys
  unfolding count_where
  count_where-append p [] ys = omega arith
  count_where-append p (x ∷ xs) ys = omega (arith, count_where-append p xs ys)

  pub find_where-append :
      (p : A → Bool) (xs ys : List A)
      → find_where p (xs ++ ys)
        ≡ elim (find_where p xs) [ none ↦ find_where p ys | some x ↦ some x ]
  unfolding find_where
  find_where-append p [] ys = refl
  find_where-append p (x ∷ xs) ys = ground (arith, find_where-append p xs ys)

  -- what is found meets the condition
  pub find_where_sound :
      (p : A → Bool) (xs : List A) (a : A) → find_where p xs ≡ some a → p a ≡ true
  unfolding find_where
  find_where_sound p [] a h = ground arith
  find_where_sound p (x ∷ xs) a h = ground (arith, find_where_sound p xs a)

  -- an update that the condition `q` does not see
  pub any_where-update :
      (q p : A → Bool) (f : A → A) (xs : List A)
      → ((x : A) → q (f x) ≡ q x)
      → any_where q (update_where p f xs) ≡ any_where q xs
  unfolding any_where update_where
  any_where-update q p f [] h = refl
  any_where-update q p f (x ∷ xs) h = ground (arith, h x, any_where-update q p f xs h)

  pub count_where-update :
      (q p : A → Bool) (f : A → A) (xs : List A)
      → ((x : A) → p x ≡ true → q (f x) ≡ q x)
      → count_where q (update_where p f xs) ≡ count_where q xs
  unfolding count_where update_where
  count_where-update q p f [] h = refl
  count_where-update q p f (x ∷ xs) h = ground (arith, h x, count_where-update q p f xs h)

  pub find_where-update :
      (q p : A → Bool) (f : A → A) (xs : List A)
      → ((x : A) → q (f x) ≡ q x)
      → find_where q (update_where p f xs)
        ≡ elim (find_where q xs) [ none ↦ none | some x ↦ some (if p x then f x else x) ]
  unfolding find_where update_where
  find_where-update q p f [] h = refl
  find_where-update q p f (x ∷ xs) h = ground (arith, h x, find_where-update q p f xs h)

  -- a condition that no row meets selects nothing
  pub count_where-none :
      (p : A → Bool) (xs : List A) → any_where p xs ≡ false → count_where p xs ≡ 0
  unfolding any_where count_where
  count_where-none p [] h = refl
  count_where-none p (x ∷ xs) h = ground (arith, count_where-none p xs)

  pub find_where-none :
      (p : A → Bool) (xs : List A) → any_where p xs ≡ false → find_where p xs ≡ none
  unfolding any_where find_where
  find_where-none p [] h = refl
  find_where-none p (x ∷ xs) h = ground (arith, find_where-none p xs)

  pub update_where-none :
      (p : A → Bool) (f : A → A) (xs : List A) → any_where p xs ≡ false → update_where p f xs ≡ xs
  unfolding any_where update_where
  update_where-none p f [] h = refl
  update_where-none p f (x ∷ xs) h = ground (arith, update_where-none p f xs)

  pub any_where-delete :
      (q p : A → Bool) (xs : List A)
      → any_where q xs ≡ false
      → any_where q (delete_where p xs) ≡ false
  unfolding any_where delete_where
  any_where-delete q p [] h = refl
  any_where-delete q p (x ∷ xs) h = ground (arith, any_where-delete q p xs)

  pub any_where-found :
      (p : A → Bool) (xs : List A) (a : A) → find_where p xs ≡ some a → any_where p xs ≡ true
  unfolding any_where find_where
  any_where-found p [] a h = ground arith
  any_where-found p (x ∷ xs) a h = ground (arith, any_where-found p xs a)
