-- ===== src/Common/Lists.antt =====
-- Lists measured by native numbers, sums over them, and predicates by recursion.
use Prim.Native.Nat.{ℕ, suc, ◌+◌, ◌≤◌}
use mathlib.Core.Path.{◌≡◌, refl}
use mathlib.Core.Bool.{Bool}
use mathlib.Core.List.{List, [], ◌∷◌, ◌++◌, map}
use native.Mathlib.Omega.{arith}
use package.go_graphics.Common.Tests.{if◌then◌else◌}

module _ {ℓ} {A : Type ℓ} where
  abbrev pub length : List A → ℕ
  length [] = 0
  length (x ∷ xs) = suc (length xs)

  pub length-append : (xs ys : List A) → length (xs ++ ys) ≡ length xs + length ys
  length-append [] ys = omega arith
  length-append (x ∷ xs) ys = omega (arith, length-append xs ys)

  -- `for _, x := range xs { if keep(x) { out = append(out, x) } }`
  abbrev pub select : (A → Bool) → List A → List A
  select keep [] = []
  select keep (x ∷ xs) = let rest = select keep xs in if keep x then x ∷ rest else rest

  pub length-select-le : (keep : A → Bool) (xs : List A) → length (select keep xs) ≤ length xs
  length-select-le keep [] = omega arith
  length-select-le keep (x ∷ xs) = ground (arith, length-select-le keep xs)

  abbrev pub total : (A → ℕ) → List A → ℕ
  total f [] = 0
  total f (x ∷ xs) = f x + total f xs

  abbrev pub All {κ} : (A → Type κ) → List A → Type κ
  All P [] = Unit
  All P (x ∷ xs) = P x × All P xs

module _ {ℓ κ} {A : Type ℓ} {B : Type κ} where
  pub length-map : (f : A → B) (xs : List A) → length (map f xs) ≡ length xs
  length-map f [] = refl
  length-map f (x ∷ xs) = omega (arith, length-map f xs)
