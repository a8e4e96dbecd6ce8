-- ===== src/Common/Dict.antt =====
-- Go's `map[string]V`: an association list whose keys are distinct. The order of the entries is the
-- order in which a `range` loop meets them.
use package.go_graphics.Common.Tests.{same, if◌then◌else◌, same_eq}
use package.go_graphics.Common.Lists.{length}
use Prim.Native.Nat.{ℕ, ◌+◌, ◌≤◌}
use Prim.Native.String.{String}
use mathlib.Core.Path.{◌≡◌, refl}
use mathlib.Core.Logic.{◌≢◌}
use mathlib.Core.Bool.{Bool, false}
use mathlib.Core.Option.{Option, none, some}
use mathlib.Core.List.{List, [], ◌∷◌}
use native.Mathlib.Omega.{arith}

abbrev pub Dict {ℓ} : Type ℓ → Type ℓ
Dict V = List (String × V)

module _ {ℓ} {V : Type ℓ} where
  -- `v, ok := m[k]`
  unfoldable pub lookup : String → Dict V → Option V
  lookup k [] = none
  lookup k ((j, v) ∷ m) = if same j k then some v else lookup k m

  -- `m[k] = v`
  unfoldable pub insert : String → V → Dict V → Dict V
  insert k v [] = (k, v) ∷ []
  insert k v ((j, w) ∷ m) = if same j k then (k, v) ∷ m else (j, w) ∷ insert k v m

  -- `delete(m, k)`
  unfoldable pub delete : String → Dict V → Dict V
  delete k [] = []
  delete k ((j, v) ∷ m) = let rest = delete k m in if same j k then rest else (j, v) ∷ rest

  abbrev pub Distinct : Dict V → Type ℓ
  Distinct [] = Unit
  Distinct ((k, v) ∷ m) = (lookup k m ≡ none) × Distinct m

  -- What a lookup finds, weighed by `f`.
  abbrev pub weight : (V → ℕ) → Option V → ℕ
  weight f none = 0
  weight f (some v) = f v

  -- A sum over the values.
  abbrev pub sum_of : (V → ℕ) → Dict V → ℕ
  sum_of f [] = 0
  sum_of f ((k, v) ∷ m) = f v + sum_of f m

  pub lookup-insert :
      (k j : String) (v : V) (m : Dict V)
      → lookup j (insert k v m) ≡ (if same k j then some v else lookup j m)
  unfolding lookup insert
  lookup-insert k j v [] = refl
  lookup-insert k j v ((i, w) ∷ m) = ground (arith, lookup-insert k j v m)

  pub lookup-insert_self : (k : String) (v : V) (m : Dict V) → lookup k (insert k v m) ≡ some v
  lookup-insert_self k v m = ground (arith, lookup-insert k k v m)

  pub lookup-insert_ne :
      (k j : String) (v : V) (m : Dict V) → k ≢ j → lookup j (insert k v m) ≡ lookup j m
  lookup-insert_ne k j v m h = ground (arith, lookup-insert k j v m)

  pub lookup-delete :
      (k j : String) (m : Dict V) → lookup j (delete k m) ≡ (if same k j then none else lookup j m)
  unfolding lookup delete
  lookup-delete k j [] = ground arith
  lookup-delete k j ((i, w) ∷ m) = ground (arith, lookup-delete k j m)

  pub insert-Distinct : (k : String) (v : V) (m : Dict V) → Distinct m → Distinct (insert k v m)
  unfolding lookup insert
  insert-Distinct k v [] d = (refl, tt)
  insert-Distinct k v ((j, w) ∷ m) d =
      ground (arith, lookup-insert k j v m, insert-Distinct k v m d.1)

  pub delete-Distinct : (k : String) (m : Dict V) → Distinct m → Distinct (delete k m)
  unfolding delete
  delete-Distinct k [] d = tt
  delete-Distinct k ((j, w) ∷ m) d = ground (arith, lookup-delete k j m, delete-Distinct k m d.1)

  -- Writing one key changes a sum by what was there before.
  pub sum_of-insert :
      (f : V → ℕ) (k : String) (v : V) (m : Dict V)
      → sum_of f (insert k v m) + weight f (lookup k m) ≡ sum_of f m + f v
  unfolding lookup insert
  sum_of-insert f k v [] = omega arith
  sum_of-insert f k v ((j, w) ∷ m) = ground (arith, sum_of-insert f k v m)

  delete_absent : (k : String) (m : Dict V) → lookup k m ≡ none → delete k m ≡ m
  unfolding lookup delete
  delete_absent k [] h = refl
  delete_absent k ((j, w) ∷ m) h = ground (arith, delete_absent k m)

  pub sum_of-delete :
      (f : V → ℕ) (k : String) (m : Dict V)
      → Distinct m
      → sum_of f (delete k m) + weight f (lookup k m) ≡ sum_of f m
  unfolding lookup delete
  sum_of-delete f k [] d = omega arith
  sum_of-delete f k ((j, w) ∷ m) d = ground (arith, sum_of-delete f k m d.1, delete_absent k m)

  -- What is left of a map when a loop deletes the entries that fail a test.
  unfoldable pub retain : (V → Bool) → Dict V → Dict V
  retain keep [] = []
  retain keep ((k, v) ∷ m) = let rest = retain keep m in if keep v then (k, v) ∷ rest else rest

  abbrev pub kept : (V → Bool) → Option V → Option V
  kept keep none = none
  kept keep (some v) = if keep v then some v else none

  retain_absent :
      (keep : V → Bool) (k : String) (m : Dict V)
      → lookup k m ≡ none
      → lookup k (retain keep m) ≡ none
  unfolding lookup retain
  retain_absent keep k [] h = refl
  retain_absent keep k ((j, w) ∷ m) h = ground (arith, retain_absent keep k m)

  pub lookup-retain :
      (keep : V → Bool) (k : String) (m : Dict V)
      → Distinct m
      → lookup k (retain keep m) ≡ kept keep (lookup k m)
  unfolding lookup retain
  lookup-retain keep k [] d = refl
  lookup-retain keep k ((j, w) ∷ m) d =
      ground (arith, lookup-retain keep k m d.1, retain_absent keep k m)

  pub retain-Distinct : (keep : V → Bool) (m : Dict V) → Distinct m → Distinct (retain keep m)
  unfolding retain
  retain-Distinct keep [] d = tt
  retain-Distinct keep ((j, w) ∷ m) d =
      ground (arith, retain-Distinct keep m d.1, retain_absent keep j m)

  pub sum_of-retain-le :
      (f : V → ℕ) (keep : V → Bool) (m : Dict V) → sum_of f (retain keep m) ≤ sum_of f m
  unfolding retain
  sum_of-retain-le f keep [] = omega arith
  sum_of-retain-le f keep ((j, w) ∷ m) = ground (arith, sum_of-retain-le f keep m)

  -- A loop that deletes only entries of weight 0 leaves the sum alone.
  pub sum_of-retain :
      (f : V → ℕ) (keep : V → Bool) (m : Dict V)
      → ((v : V) → keep v ≡ false → f v ≡ 0)
      → sum_of f (retain keep m) ≡ sum_of f m
  unfolding retain
  sum_of-retain f keep [] h = refl
  sum_of-retain f keep ((j, w) ∷ m) h = ground (arith, h w, sum_of-retain f keep m h)

  pub weight-le-sum_of : (f : V → ℕ) (k : String) (m : Dict V) → weight f (lookup k m) ≤ sum_of f m
  unfolding lookup
  weight-le-sum_of f k [] = omega arith
  weight-le-sum_of f k ((j, w) ∷ m) = ground (arith, weight-le-sum_of f k m)

  pub length-sum_of : (m : Dict V) → length m ≡ sum_of (λ _. 1) m
  length-sum_of [] = refl
  length-sum_of (e ∷ m) = omega (arith, length-sum_of m)

  -- `for k, v := range from { to[k] = v }`
  unfoldable pub merge : Dict V → Dict V → Dict V
  merge [] to = to
  merge ((k, v) ∷ rest) to = merge rest (insert k v to)

  pub merge_absent :
      (k : String) (from to : Dict V)
      → lookup k from ≡ none
      → lookup k (merge from to) ≡ lookup k to
  unfolding lookup merge
  merge_absent k [] to e = refl
  merge_absent k ((j, w) ∷ from) to e =
      ground (arith, merge_absent k from (insert j w to), lookup-insert j k w to)

  -- What the copied map has, the result has.
  pub lookup-merge :
      (k : String) (v : V) (from to : Dict V)
      → Distinct from
      → lookup k from ≡ some v
      → lookup k (merge from to) ≡ some v
  unfolding lookup merge
  lookup-merge k v [] to d e = absurd (ground arith)
  lookup-merge k v ((j, w) ∷ from) to d e = ground (
    arith,
    lookup-merge k v from (insert j w to) d.1,
    merge_absent k from (insert j w to),
    lookup-insert_self j w to,
    same_eq j k,
  )

  pub merge-Distinct : (from to : Dict V) → Distinct to → Distinct (merge from to)
  unfolding merge
  merge-Distinct [] to d = d
  merge-Distinct ((k, v) ∷ from) to d =
      merge-Distinct from (insert k v to) (insert-Distinct k v to d)
