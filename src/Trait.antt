-- ===== src/Trait.antt =====
-- internal/trait/trait.go: the weighted choices of an artwork.
pub mod Drawing
pub mod Options
pub mod Schemas
pub mod Tests
pub mod Total
use go_graphics.Common.{
  ℕ, suc, String, Bool, false, ◌||◌, not, Option, none, some, List, [], ◌∷◌, map, length,
  if◌then◌else◌, same, leb, true,
}
use go_graphics.Common.Dict.{Dict, lookup, insert}

-- What the program uses of `float64`; `is_positive x` is `x > 0` and `is_above x y` is `x > y`. No weight
-- is a NaN, so `x <= 0` is `not (is_positive x)`.
pub record Float (F : Type 0) : Type 0 where
  pub nought : F
  pub add : F → F → F
  pub times : F → F → F
  pub of_int : ℕ → F
  pub is_positive : F → Bool
  pub is_above : F → F → Bool

pub record Value (F : Type 0) : Type 0 where
  pub name : String
  pub weight : F

pub record Dim (F : Type 0) : Type 0 where
  pub name : String
  pub key : String
  pub doc : String
  pub in_name : Bool
  pub values : List (Value F)

abbrev pub Schema : Type 0 → Type 0
Schema F = List (Dim F)

-- A resolved point: a Go map.
abbrev pub Set : Type 0
Set = Dict String

-- `set.Get`
abbrev pub get_trait : String → Set → String
get_trait name set = elim (lookup name set) [ none ↦ "" | some v ↦ v ]

module _ {F : Type 0} where
  abbrev pub is_option : String → List (Value F) → Bool
  is_option value [] = false
  is_option value (v ∷ rest) = same v.name value || is_option value rest

  -- `Dim.Has`
  abbrev pub has_value : Dim F → String → Bool
  has_value d value = is_option value d.values

  abbrev pub value_names : Dim F → List String
  value_names d = map (λ v. v.name) d.values

  -- `Schema.Dim`
  abbrev pub dim_in : String → Schema F → Option (Dim F)
  dim_in name [] = none
  dim_in name (d ∷ rest) = if same d.name name then some d else dim_in name rest

module _ {F : Type 0} (fl : Float F) where
  abbrev pub weight_in : String → List (Value F) → F
  weight_in value [] = fl.nought
  weight_in value (v ∷ rest) = if same v.name value then v.weight else weight_in value rest

  abbrev pub weight_of : Dim F → String → F
  weight_of d value = weight_in value d.values

  abbrev pub sum_from : F → List (Value F) → F
  sum_from sum [] = sum
  sum_from sum (v ∷ rest) =
      sum_from (if fl.is_positive v.weight then fl.add sum v.weight else sum) rest

  abbrev pub total_weight : Dim F → F
  total_weight d = sum_from fl.nought d.values

  -- The last value that can be drawn.
  abbrev pub last_drawable : List (Value F) → Option String
  last_drawable [] = none
  last_drawable (v ∷ rest) = elim (last_drawable rest) [
    | some name ↦ some name
    | none ↦ if fl.is_positive v.weight then some v.name else none
  ]

  -- The loop of `draw` over the cumulated weights; behind it comes the last value of positive weight.
  abbrev pub draw_from : F → F → List (Value F) → Option String
  draw_from bisect cum [] = none
  draw_from bisect cum (v ∷ rest) = elim (fl.is_positive v.weight) [
    | false ↦ draw_from bisect cum rest
    | true ↦ elim (fl.is_above (fl.add cum v.weight) bisect) [
      | true ↦ some v.name
      | false ↦ draw_from bisect (fl.add cum v.weight) rest
    ]
  ]

  abbrev pub or_last : Option String → List (Value F) → Option String
  or_last (some name) values = some name
  or_last none values = last_drawable values

  -- `draw`: `uniform` is the next `Float64` of the generator. A panic is `none`.
  unfoldable pub draw : F → Dim F → Option String
  draw uniform d =
      if not (fl.is_positive (total_weight d))
      then none
      else or_last (draw_from (fl.times uniform (total_weight d)) fl.nought d.values) d.values

  -- `Derive` reads one number for each dimension; a panic is `none`.
  unfoldable pub derive_from : (ℕ → F) → ℕ → Schema F → Set → Option Set
  derive_from uniforms n [] set = some set
  derive_from uniforms n (d ∷ rest) set = elim (draw (uniforms n) d) [
    | none ↦ none
    | some value ↦ derive_from uniforms (suc n) rest (insert d.name value set)
  ]

  abbrev pub derive : (ℕ → F) → Schema F → Option Set
  derive uniforms s = derive_from uniforms 0 s []

  -- `counts[value]` after the loop over the liked sets.
  abbrev pub count_liked : Dim F → String → List Set → ℕ
  count_liked d value [] = 0
  count_liked d value (set ∷ rest) =
      let more = count_liked d value rest in
      let v = get_trait d.name set in
      if same v "" || not (fl.is_positive (weight_of d v))
      then more
      else if same v value
      then suc more
      else more

  abbrev pub boost_value : F → List Set → Dim F → Value F → Value F
  boost_value strength liked d v =
      if not (fl.is_positive v.weight)
      then v
      else if leb (count_liked d v.name liked) 0
      then v
      else record v {
        weight = fl.add v.weight (fl.times strength (fl.of_int (count_liked d v.name liked)));
      }

  abbrev pub boost_dim : F → List Set → Dim F → Dim F
  boost_dim strength liked d = record d { values = map (boost_value strength liked d) d.values }

  -- `Boost`
  unfoldable pub boost : List Set → F → Schema F → Schema F
  boost liked strength s =
      if not (fl.is_positive strength) || leb (length liked) 0
      then s
      else map (boost_dim strength liked) s
