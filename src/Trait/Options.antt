-- ===== src/Trait/Options.antt =====
-- internal/trait/options.go: a schema's choices on the command line.
use go_graphics.Common.{
  refl, ◌≡◌, ℕ, String, false, not, Option, none, some, [], ◌∷◌, if◌then◌else◌, same, arith,
  Option-cases, inl, inr, subst,
}
use go_graphics.Common.Dict.{
  Dict, lookup, insert, merge, Distinct, lookup-merge, merge_absent, merge-Distinct,
}
use go_graphics.Trait.{Float, Schema, Set, has_value, dim_in, derive}
use go_graphics.Trait.Schemas.{validate_schema}
use go_graphics.Trait.Total.{derive_lem}

-- `raw` has the text behind each pointer.
pub record Options (F : Type 0) : Type 0 where
  pub schema : Schema F
  pub raw : Dict String
  pub over : Set

-- The errors, without their wording.
pub data OptionFault : Type 0 where
  unknown_value : String → String → OptionFault
  invalid_trait : String → String → OptionFault

module _ {F : Type 0} where
  -- `Flags`: every flag starts with the value `unset`.
  abbrev pub raw_of : Schema F → Dict String → Dict String
  raw_of [] raw = raw
  raw_of (d ∷ rest) raw = raw_of rest (insert d.name "" raw)

  abbrev pub add_flags : Options F → Options F
  add_flags o = record o { raw = raw_of o.schema o.raw }

  -- The loop of `Configure`, with the overrides that it has found when it stops.
  abbrev pub configure_from : Dict String → Schema F → Set → Option OptionFault × Set
  configure_from raw [] over = (none, over)
  configure_from raw (d ∷ rest) over = elim (lookup d.name raw) [
    | none ↦ configure_from raw rest over
    | some v ↦
        let skipped = configure_from raw rest over in
        let taken = configure_from raw rest (insert d.name v over) in
        if same v ""
        then skipped
        else if not (has_value d v)
        then (some (unknown_value d.name v), over)
        else taken
  ]

  abbrev pub configure : Options F → Option OptionFault × Options F
  configure o =
      let (fault, over) = configure_from o.raw o.schema [] in (fault, record o { over = over })

  -- `Overrides` copies the map.
  abbrev pub overrides : Options F → Set
  overrides o = merge o.over []

  -- The checks of `SetOverrides`.
  abbrev pub check_overrides : Schema F → Set → Option OptionFault
  check_overrides s [] = none
  check_overrides s ((k, v) ∷ rest) = elim (dim_in k s) [
    | none ↦ some (invalid_trait k v)
    | some d ↦ if has_value d v then check_overrides s rest else some (invalid_trait k v)
  ]

  abbrev pub take_overrides : Set → Options F → Option OptionFault → Option OptionFault × Options F
  take_overrides set o (some f) = (some f, o)
  take_overrides set o none = (none, record o { over = merge set [] })

  -- `SetOverrides`: only a set that is valid throughout replaces the overrides.
  unfoldable pub set_overrides : Set → Options F → Option OptionFault × Options F
  set_overrides set o = take_overrides set o (check_overrides o.schema set)

module _ {F : Type 0} (fl : Float F) where
  -- `NewOptions`; a panic is `none`.
  abbrev pub new_options : Schema F → Option (Options F)
  new_options s = elim (validate_schema fl s) [
    | some f ↦ none
    | none ↦ some (record { schema = s; raw = []; over = [] })
  ]

  abbrev pub with_overrides : Set → Option Set → Option Set
  with_overrides over none = none
  with_overrides over (some set) = some (merge over set)

  -- `Resolve`: `uniforms` is the stream of the generator.
  unfoldable pub resolve : (ℕ → F) → Options F → Option Set
  resolve uniforms o = with_overrides o.over (derive fl uniforms o.schema)

  -- After `SetOverrides` accepts pins on a valid schema, `Resolve` returns a set that has every pin, and in
  -- every other dimension exactly what `Derive` draws from the same generator.
  pub resolve_lem :
      (uniforms : ℕ → F) (o p : Options F) (pins : Set)
      → fl.is_positive fl.nought ≡ false
      → validate_schema fl o.schema ≡ none
      → Distinct pins
      → set_overrides pins o ≡ (none, p)
      → (base : Set) × (set : Set) × (derive fl uniforms o.schema ≡ some base)
        × (resolve uniforms p ≡ some set)
        × ((k v : String) → lookup k pins ≡ some v → lookup k set ≡ some v)
        × ((k : String) → lookup k pins ≡ none → lookup k set ≡ lookup k base)
  unfolding resolve set_overrides lookup
  resolve_lem uniforms o p pins zero_light valid distinct e =
      let (base, drawn, all, long) = derive_lem fl uniforms o.schema zero_light valid in
      elim (Option-cases (check_overrides o.schema pins)) [
        | inr (f, bad) ↦ absurd (ground (arith, e, bad))
        | inl good ↦
            let same_options : record o { over = merge pins [] } ≡ p = ground (arith, e, good) in
            subst
              (λ q.
                (b : Set) × (set : Set) × (derive fl uniforms o.schema ≡ some b)
                × (resolve uniforms q ≡ some set)
                × ((k v : String) → lookup k pins ≡ some v → lookup k set ≡ some v)
                × ((k : String) → lookup k pins ≡ none → lookup k set ≡ lookup k b))
              same_options
              (
                base,
                merge (merge pins []) base,
                drawn,
                rw (drawn) refl,
                λ k v has.
                    lookup-merge k v (merge pins []) base (merge-Distinct pins [] tt)
                      (lookup-merge k v pins [] distinct has),
                λ k free. merge_absent k (merge pins []) base (merge_absent k pins [] free),
              )
      ]
