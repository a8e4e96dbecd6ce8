-- ===== src/Common/Each.antt =====
-- A predicate of every entry of a Go map.
use package.go_graphics.Common.Tests.{same_eq}
use package.go_graphics.Common.Lists.{length}
use package.go_graphics.Common.Dict.{
  Dict, lookup, insert, delete, retain, Distinct, merge, merge_absent, lookup-insert_self,
}
use Prim.Native.Nat.{suc, ◌≤◌}
use Prim.Native.String.{String}
use mathlib.Core.Path.{◌≡◌, ◌∙◌}
use mathlib.Core.Bool.{Bool}
use mathlib.Core.Option.{some, none}
use mathlib.Core.List.{[], ◌∷◌}
use native.Mathlib.Omega.{arith}

module _ {ℓ κ} {V : Type ℓ} (P : String → V → Type κ) where
  abbrev pub Each : Dict V → Type κ
  Each [] = Unit
  Each ((k, v) ∷ m) = P k v × Each m

  pub Each-lookup : (k : String) (v : V) (m : Dict V) → Each m → lookup k m ≡ some v → P k v
  unfolding lookup
  Each-lookup k v [] all e = absurd (ground arith)
  Each-lookup k v ((j, w) ∷ m) all e = ground (arith, Each-lookup k v m all.1, same_eq j k)

  pub Each-insert : (k : String) (v : V) (m : Dict V) → Each m → P k v → Each (insert k v m)
  unfolding insert
  Each-insert k v [] all p = (p, tt)
  Each-insert k v ((j, w) ∷ m) all p = ground (arith, Each-insert k v m all.1 p)

  pub Each-delete : (k : String) (m : Dict V) → Each m → Each (delete k m)
  unfolding delete
  Each-delete k [] all = tt
  Each-delete k ((j, w) ∷ m) all = ground (arith, Each-delete k m all.1)

  pub Each-retain : (keep : V → Bool) (m : Dict V) → Each m → Each (retain keep m)
  unfolding retain
  Each-retain keep [] all = tt
  Each-retain keep ((j, w) ∷ m) all = ground (arith, Each-retain keep m all.1)

module _ {ℓ} {V : Type ℓ} where
  pub length-insert_present :
      (k : String) (v w : V) (m : Dict V) → lookup k m ≡ some w → length (insert k v m) ≡ length m
  unfolding lookup insert
  length-insert_present k v w [] e = absurd (ground arith)
  length-insert_present k v w ((j, u) ∷ m) e = ground (arith, length-insert_present k v w m)

  pub length-insert_absent :
      (k : String) (v : V) (m : Dict V) → lookup k m ≡ none → length (insert k v m) ≡ suc (length m)
  unfolding lookup insert
  length-insert_absent k v [] e = omega arith
  length-insert_absent k v ((j, u) ∷ m) e = ground (arith, length-insert_absent k v m)

  pub length-insert-le : (k : String) (v : V) (m : Dict V) → length (insert k v m) ≤ suc (length m)
  unfolding insert
  length-insert-le k v [] = omega arith
  length-insert-le k v ((j, u) ∷ m) = ground (arith, length-insert-le k v m)

  pub length-retain-le : (keep : V → Bool) (m : Dict V) → length (retain keep m) ≤ length m
  unfolding retain
  length-retain-le keep [] = omega arith
  length-retain-le keep ((j, u) ∷ m) = ground (arith, length-retain-le keep m)

  pub length-delete-le : (k : String) (m : Dict V) → length (delete k m) ≤ length m
  unfolding delete
  length-delete-le k [] = omega arith
  length-delete-le k ((j, u) ∷ m) = ground (arith, length-delete-le k m)

-- A copied map is found in the result.
module _ {ℓ} {V : Type ℓ} where
  pub Each-merge :
      (from to : Dict V) → Distinct from → Each (λ k v. lookup k (merge from to) ≡ some v) from
  unfolding merge
  Each-merge [] to d = tt
  Each-merge ((j, w) ∷ from) to d = (
    merge_absent j from (insert j w to) d.0 ∙ lookup-insert_self j w to,
    Each-merge from (insert j w to) d.1,
  )
