-- ===== src/Opt.antt =====
-- internal/opt/opt.go: the knobs of a sketch, which are checked and named only if the user sets them.
pub mod Applying
mod Tests
use Prim.Native.String.{◌++◌ as append}
use go_graphics.Common.{
  ◌≡◌, refl, ◌∙◌, arith, ℕ, String, Bool, true, false, ◌&&◌, ◌||◌, not, Option, none, some, List,
  [], ◌∷◌, ◌++◌, if◌then◌else◌, same, Bool-cases, inr, inl, Option-cases,
}
use go_graphics.Common.Int.{ℤ, ltb_ℤ}
use go_graphics.Common.Names.{contains}
use go_graphics.RenderJob.Model.{Result, ok, err, failure}

-- What the knobs use of `float64` and of `fmt`: `is_odd x` is a NaN or an infinity, `is_below x y` is
-- `x < y`; the last three are `%g` and `%d`.
pub record Numbers (F : Type 0) : Type 0 where
  pub is_odd : F → Bool
  pub is_below : F → F → Bool
  pub show_float : F → String
  pub show_int : ℤ → String
  pub show_uint : ℕ → String

-- What the pointer `dst` of a knob refers to, with its constraint.
pub data Setting (F : Type 0) : Type 0 where
  float_setting : F → F → F → Setting F
  int_setting : ℤ → ℤ → ℤ → Setting F
  uint_setting : ℕ → Setting F
  bool_setting : Bool → Setting F
  choice_setting : List String → String → Setting F

pub record Knob (F : Type 0) : Type 0 where
  pub name : String
  pub doc : String
  pub tag : String
  pub setting : Setting F

abbrev pub int_in_range : ℤ → ℤ → ℤ → Bool
int_in_range lo hi x = not (ltb_ℤ x lo || ltb_ℤ hi x)

abbrev pub is_choice : String → List String → Bool
is_choice x [] = false
is_choice x (v ∷ rest) = same v x || is_choice x rest

abbrev pub show_bool : String → Bool → String
show_bool tag x = if not x then "" else tag

-- `strings.Join(parts, "-")`
abbrev pub join : List String → String
join [] = ""
join (p ∷ []) = p
join (p ∷ q ∷ rest) = append p (append "-" (join (q ∷ rest)))

-- `validate`'s last lines.
abbrev pub suffix : List String → String
suffix [] = ""
suffix (p ∷ rest) = append "-" (join (p ∷ rest))

module _ {F : Type 0} (num : Numbers F) where
  -- Whether the `check` of a float knob returns no error, and of the others.
  abbrev pub float_in_range : F → F → F → Bool
  float_in_range lo hi x = not (num.is_odd x || (num.is_below x lo || num.is_below hi x))

  abbrev pub is_in_range : Setting F → Bool
  is_in_range (float_setting lo hi x) = float_in_range lo hi x
  is_in_range (int_setting lo hi x) = int_in_range lo hi x
  is_in_range (uint_setting x) = true
  is_in_range (bool_setting x) = true
  is_in_range (choice_setting values x) = is_choice x values

  -- `show`
  abbrev pub show_setting : String → Setting F → String
  show_setting tag (float_setting lo hi x) = append tag (num.show_float x)
  show_setting tag (int_setting lo hi x) = append tag (num.show_int x)
  show_setting tag (uint_setting x) = append tag (num.show_uint x)
  show_setting tag (bool_setting x) = show_bool tag x
  show_setting tag (choice_setting values x) = append tag x

  abbrev pub add_part : Knob F → List String → List String
  add_part k rest =
      if same k.tag "" || same (show_setting k.tag k.setting) ""
      then rest
      else show_setting k.tag k.setting ∷ rest

  abbrev pub then_part : Knob F → Result (List String) → Result (List String)
  then_part k (err e) = err e
  then_part k (ok rest) = ok (add_part k rest)

  -- The loop of `validate`; an error names its knob.
  unfoldable pub collect : List String → List (Knob F) → Result (List String)
  collect seen [] = ok []
  collect seen (k ∷ rest) =
      let more = collect seen rest in
      if not (contains k.name seen)
      then more
      else if not (is_in_range k.setting)
      then err (failure k.name)
      else then_part k more

  abbrev pub with_suffix : Result (List String) → Result String
  with_suffix (err e) = err e
  with_suffix (ok parts) = ok (suffix parts)

  -- `Apply`; `Configure` is the same on the names of the flags that were given.
  unfoldable pub apply_knobs : List String → List (Knob F) → Result String
  apply_knobs seen knobs = with_suffix (collect seen knobs)

-- `WasSet`
abbrev pub was_set : String → List String → Bool
was_set name seen = contains name seen
