-- ===== src/Common/Names.antt =====
-- Sets of names, which Go writes as `map[string]bool` with the value true.
use Prim.Native.Nat.{◌+◌, ◌≤◌}
use Prim.Native.String.{String}
use mathlib.Core.Path.{◌≡◌, refl}
use mathlib.Core.Bool.{Bool, false, ◌||◌}
use mathlib.Core.List.{List, [], ◌∷◌, ◌++◌}
use native.Mathlib.Omega.{arith}
use package.go_graphics.Common.Tests.{same, if◌then◌else◌, bit}
use package.go_graphics.Common.Lists.{length, select}

-- `s[k]`
unfoldable pub contains : String → List String → Bool
contains k [] = false
contains k (x ∷ xs) = same x k || contains k xs

-- `s[k] = true`
unfoldable pub include : String → List String → List String
unfolding contains
include k xs = if contains k xs then xs else k ∷ xs

-- `delete(s, k)`
unfoldable pub discard : String → List String → List String
discard k [] = []
discard k (x ∷ xs) = let rest = discard k xs in if same x k then rest else x ∷ rest

pub contains-include :
    (k j : String) (xs : List String) → contains j (include k xs) ≡ (same k j || contains j xs)
unfolding include contains
contains-include k j xs = ground arith

pub length-include :
    (k : String) (xs : List String) → length (include k xs) + bit (contains k xs) ≡ length xs + 1
unfolding include
length-include k xs = ground arith

pub contains-discard :
    (k j : String) (xs : List String)
    → contains j (discard k xs) ≡ (if same k j then false else contains j xs)
unfolding contains discard
contains-discard k j [] = ground arith
contains-discard k j (x ∷ xs) = ground (arith, contains-discard k j xs)

pub length-discard-le : (k : String) (xs : List String) → length (discard k xs) ≤ length xs
unfolding discard
length-discard-le k [] = omega arith
length-discard-le k (x ∷ xs) = ground (arith, length-discard-le k xs)

pub contains-append :
    (k : String) (xs ys : List String) → contains k (xs ++ ys) ≡ (contains k xs || contains k ys)
unfolding contains
contains-append k [] ys = refl
contains-append k (x ∷ xs) ys = ground (arith, contains-append k xs ys)

pub contains-select :
    (keep : String → Bool) (k : String) (xs : List String)
    → contains k (select keep xs) ≡ (if keep k then contains k xs else false)
unfolding contains
contains-select keep k [] = ground arith
contains-select keep k (x ∷ xs) = ground (arith, contains-select keep k xs)
