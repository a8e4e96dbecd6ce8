-- ===== src/Trait/Schemas.antt =====
-- internal/trait/trait.go: the check of a schema, and the texts made of a resolved set.
use Prim.Native.String.{◌++◌ as append}
use go_graphics.Common.{
  String, Bool, true, false, ◌&&◌, not, Option, none, some, List, [], ◌∷◌, length, if◌then◌else◌,
  same, leb,
}
use go_graphics.Common.Dict.{lookup}
use go_graphics.Common.Names.{contains}
use go_graphics.Trait.{Float, Value, Dim, Schema, Set, total_weight, get_trait}

-- The errors of `Validate`, without their wording.
pub data Fault : Type 0 where
  nameless_dim : Fault
  keyless_dim : String → Fault
  duplicate_dim : String → Fault
  duplicate_key : String → String → Fault
  no_values : String → Fault
  no_drawable : String → Fault
  nameless_value : String → Fault
  duplicate_value : String → String → Fault

module _ {F : Type 0} where
  -- The inner loop of `Validate`.
  abbrev pub check_values : String → List String → List (Value F) → Option Fault
  check_values d seen [] = none
  check_values d seen (v ∷ rest) =
      let more = check_values d (v.name ∷ seen) rest in
      if same v.name ""
      then some (nameless_value d)
      else if contains v.name seen
      then some (duplicate_value d v.name)
      else more

module _ {F : Type 0} (fl : Float F) where
  -- The `switch`.
  abbrev pub check_dim : List String → List String → Dim F → Option Fault
  check_dim names keys d =
      if same d.name ""
      then some nameless_dim
      else if same d.key ""
      then some (keyless_dim d.name)
      else if contains d.name names
      then some (duplicate_dim d.name)
      else if contains d.key keys
      then some (duplicate_key d.key d.name)
      else if leb (length d.values) 0
      then some (no_values d.name)
      else if not (fl.is_positive (total_weight fl d))
      then some (no_drawable d.name)
      else none

  abbrev pub validate_from : List String → List String → Schema F → Option Fault
  validate_from names keys [] = none
  validate_from names keys (d ∷ rest) = elim (check_dim names keys d) [
    | some f ↦ some f
    | none ↦ elim (check_values d.name [] d.values) [
      | some f ↦ some f
      | none ↦ validate_from (d.name ∷ names) (d.key ∷ keys) rest
    ]
  ]

  -- `Validate`; no error is `none`.
  unfoldable pub validate_schema : Schema F → Option Fault
  validate_schema s = validate_from [] [] s

abbrev has_entry : String → Set → Bool
has_entry k m = elim (lookup k m) [ none ↦ false | some v ↦ true ]

-- `Is`
abbrev pub is_trait : Set → String → String → Bool
is_trait set d value = same (get_trait d set) value

module _ {F : Type 0} where
  -- The part of one dimension in a file's name.
  abbrev pub suffix_of : Set → Set → Dim F → String
  suffix_of set overrides d =
      if not (has_entry d.name overrides) && not d.in_name
      then ""
      else if same (get_trait d.name set) ""
      then ""
      else append "-" (append d.key (append "-" (get_trait d.name set)))

  -- `NameSuffix`
  abbrev pub name_suffix : Schema F → Set → Set → String
  name_suffix [] set overrides = ""
  name_suffix (d ∷ rest) set overrides =
      append (suffix_of set overrides d) (name_suffix rest set overrides)

  -- The parts of `Format`.
  abbrev pub parts : Schema F → Set → List String
  parts [] set = []
  parts (d ∷ rest) set = elim (lookup d.name set) [
    | none ↦ parts rest set
    | some v ↦ append d.name (append "=" v) ∷ parts rest set
  ]
