-- ===== src/Trait/Total.antt =====
-- A schema that `Validate` accepts can always be drawn from.
use go_graphics.Trait.{
  Float, Value, Dim, Schema, Set, total_weight, sum_from, last_drawable, draw, draw_from, derive,
  derive_from, or_last,
}
use go_graphics.Trait.Schemas.{validate_schema, validate_from, check_dim, check_values}
use go_graphics.Trait.Drawing.{is_drawable, draw-drawable}
use go_graphics.Common.Each.{length-insert_absent}
use go_graphics.Common.{
  refl, ◌≡◌, All, List, ℕ, String, Option, false, some, none, true, ◌∷◌, same, ◌⊎◌, arith,
  Option-cases, length, inl, [], inr, ◌+◌, Bool-cases, same_refl, subst, suc, same_eq, ◌∙◌,
}
use go_graphics.Common.Dict.{lookup, insert, lookup-insert, lookup-insert_self}
use go_graphics.Common.Names.{contains}

module _ {F : Type 0} (fl : Float F) where
  last_exists :
      (v : Value F) (vs : List (Value F))
      → fl.is_positive v.weight ≡ true
      → (name : String) × (last_drawable fl (v ∷ vs) ≡ some name)
  last_exists v vs heavy = elim (Option-cases (last_drawable fl vs)) [
    | inl nothing ↦ (v.name, ground (arith, nothing, heavy))
    | inr (found, later) ↦ (found, ground (arith, later))
  ]

  sum_drawable :
      (sum : F) (vs : List (Value F))
      → fl.is_positive sum ≡ false
      → fl.is_positive (sum_from fl sum vs) ≡ true
      → (name : String) × (last_drawable fl vs ≡ some name)
  sum_drawable sum [] light e = absurd (ground (arith, light, e))
  sum_drawable sum (v ∷ vs) light e = elim (Bool-cases (fl.is_positive v.weight)) [
    | inl heavy ↦ last_exists v vs heavy
    | inr small ↦
        let (name, found) = sum_drawable sum vs light (ground (arith, e, small)) in
        (name, ground (arith, found))
  ]

  or_last_exists :
      (o : Option String) (vs : List (Value F))
      → (name : String) × (last_drawable fl vs ≡ some name)
      → (name : String) × (or_last fl o vs ≡ some name)
  or_last_exists none vs last = last
  or_last_exists (some name) vs last = (name, refl)

  pub draw_works :
      (uniform : F) (d : Dim F)
      → fl.is_positive fl.nought ≡ false
      → fl.is_positive (total_weight fl d) ≡ true
      → (name : String) × (draw fl uniform d ≡ some name)
  unfolding draw
  draw_works uniform d zero_light heavy =
      let (name, found) =
        or_last_exists (draw_from fl (fl.times uniform (total_weight fl d)) fl.nought d.values)
          d.values (sum_drawable fl.nought d.values zero_light heavy) in
      (name, rw (heavy, found) refl)

  validate_first :
      (names keys : List String) (d : Dim F) (rest : Schema F)
      → validate_from fl names keys (d ∷ rest) ≡ none
      → (contains d.name names ≡ false)
        × (fl.is_positive (total_weight fl d) ≡ true)
        × (validate_from fl (d.name ∷ names) (d.key ∷ keys) rest ≡ none)
  validate_first names keys d rest e = elim (Option-cases (check_dim fl names keys d)) [
    | inr (f, bad) ↦ absurd (ground (arith, e, bad))
    | inl good ↦ elim (Option-cases (check_values d.name [] d.values)) [
      | inr (f, bad) ↦ absurd (ground (arith, e, good, bad))
      | inl fine ↦ (ground (arith, good), ground (arith, good), ground (arith, e, good, fine))
    ]
  ]

  validate_apart :
      (names keys : List String) (k : String) (s : Schema F)
      → contains k names ≡ true
      → validate_from fl names keys s ≡ none
      → All (λ d. same k d.name ≡ false) s
  unfolding contains
  validate_apart names keys k [] old e = tt
  validate_apart names keys k (d ∷ rest) old e =
      let (new, heavy, later) = validate_first names keys d rest e in
      (
        apart (Bool-cases (same k d.name)) new,
        validate_apart (d.name ∷ names) (d.key ∷ keys) k rest (ground (arith, old)) later,
      )
    where
      apart :
          (same k d.name ≡ true) ⊎ (same k d.name ≡ false)
          → contains d.name names ≡ false
          → same k d.name ≡ false
      apart (inr differ) new = differ
      apart (inl equal) new =
          absurd
            (ground (arith, subst (λ j. contains j names ≡ true) (same_eq k d.name equal) old, new))

  -- The value of the dimension in the set is an option of positive weight.
  abbrev pub IsDrawn : Set → Dim F → Type 0
  IsDrawn set d = (v : String) × (lookup d.name set ≡ some v) × (is_drawable fl v d.values ≡ true)

  still_absent :
      (k v : String) (set : Set) (s : Schema F)
      → All (λ d. same k d.name ≡ false) s
      → All (λ d. lookup d.name set ≡ none) s
      → All (λ d. lookup d.name (insert k v set) ≡ none) s
  still_absent k v set [] apart absent = tt
  still_absent k v set (d ∷ s) apart absent = (
    ground (arith, lookup-insert k d.name v set, apart.0, absent.0),
    still_absent k v set s apart.1 absent.1,
  )

  derive_step :
      (uniforms : ℕ → F) (n : ℕ) (d : Dim F) (rest : Schema F) (set : Set) (v : String)
      → draw fl (uniforms n) d ≡ some v
      → derive_from fl uniforms n (d ∷ rest) set
        ≡ derive_from fl uniforms (suc n) rest (insert d.name v set)
  unfolding derive_from
  derive_step uniforms n d rest set v e = rw (derive_from, e) refl

  derive_from_lem :
      (uniforms : ℕ → F) (n : ℕ) (names keys : List String) (s : Schema F) (set : Set)
      → fl.is_positive fl.nought ≡ false
      → validate_from fl names keys s ≡ none
      → All (λ d. lookup d.name set ≡ none) s
      → (out : Set) × (derive_from fl uniforms n s set ≡ some out)
        × ((k : String) → All (λ d. same k d.name ≡ false) s → lookup k out ≡ lookup k set)
        × All (IsDrawn out) s
        × (length out ≡ length set + length s)
  unfolding derive_from contains
  derive_from_lem uniforms n names keys [] set zero_light e absent =
      (set, refl, λ k apart. refl, tt, omega arith)
  derive_from_lem uniforms n names keys (d ∷ rest) set zero_light e absent =
      let (new, heavy, later) = validate_first names keys d rest e in
      let (v, drawn) = draw_works (uniforms n) d zero_light heavy in
      let apart =
        validate_apart (d.name ∷ names) (d.key ∷ keys) d.name rest
          (ground (arith, same_refl d.name)) later in
      let (out, found, kept, all, long) =
        derive_from_lem uniforms (suc n) (d.name ∷ names) (d.key ∷ keys) rest (insert d.name v set)
          zero_light later (still_absent d.name v set rest apart absent.1) in
      (
        out,
        derive_step uniforms n d rest set v drawn ∙ found,
        λ k differ. kept k differ.1 ∙ ground (arith, lookup-insert d.name k v set, differ.0),
        (
          (
            v,
            kept d.name apart ∙ lookup-insert_self d.name v set,
            draw-drawable fl (uniforms n) d v drawn,
          ),
          all,
        ),
        ground (arith, long, length-insert_absent d.name v set absent.0),
      )

  -- If `Validate` accepts a schema, and zero is not positive, then `Derive` does not panic, whatever the
  -- generator yields: it returns a set with one entry for each dimension, whose value is an option of
  -- positive weight.
  pub derive_lem :
      (uniforms : ℕ → F) (s : Schema F)
      → fl.is_positive fl.nought ≡ false
      → validate_schema fl s ≡ none
      → (set : Set) × (derive fl uniforms s ≡ some set)
        × All (IsDrawn set) s
        × (length set ≡ length s)
  unfolding validate_schema lookup
  derive_lem uniforms s zero_light e =
      let (set, found, kept, all, long) =
        derive_from_lem uniforms 0 [] [] s [] zero_light e (nothing s) in
      (set, found, all, omega (arith, long))
    where
      nothing : (t : Schema F) → All (λ d. lookup {V = String} d.name [] ≡ none) t
      nothing [] = tt
      nothing (d ∷ t) = (refl, nothing t)
