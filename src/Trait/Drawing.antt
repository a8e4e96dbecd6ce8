-- ===== src/Trait/Drawing.antt =====
-- What can be drawn.
use go_graphics.Common.{
  ◌≡◌, String, Bool, true, false, ◌||◌, ◌&&◌, not, Option, none, some, List, [], ◌∷◌, map, arith,
  same, Bool-cases, Option-cases, inl, inr, if_both, same_refl,
}
use go_graphics.Trait.{
  Float, Value, Dim, Set, draw, draw_from, last_drawable, or_last, boost_dim, boost_value,
  total_weight,
}

module _ {F : Type 0} (fl : Float F) where
  -- The value is an option of positive weight.
  abbrev pub is_drawable : String → List (Value F) → Bool
  is_drawable name [] = false
  is_drawable name (v ∷ rest) =
      (same v.name name && fl.is_positive v.weight) || is_drawable name rest

  draw_from_drawable :
      (bisect cum : F) (vs : List (Value F)) (name : String)
      → draw_from fl bisect cum vs ≡ some name
      → is_drawable name vs ≡ true
  draw_from_drawable bisect cum [] name e = absurd (ground arith)
  draw_from_drawable bisect cum (v ∷ vs) name e = ground (
    arith,
    same_refl name,
    draw_from_drawable bisect cum vs name,
    draw_from_drawable bisect (fl.add cum v.weight) vs name,
  )

  last_drawable_lem :
      (vs : List (Value F)) (name : String)
      → last_drawable fl vs ≡ some name
      → is_drawable name vs ≡ true
  last_drawable_lem [] name e = absurd (ground arith)
  last_drawable_lem (v ∷ vs) name e = elim (Option-cases (last_drawable fl vs)) [
    | inl nothing ↦ ground (arith, e, nothing, same_refl name)
    | inr (found, later) ↦ ground (arith, e, later, last_drawable_lem vs name)
  ]

  or_last_drawable :
      (o : Option String) (vs : List (Value F)) (name : String)
      → ((n : String) → o ≡ some n → is_drawable n vs ≡ true)
      → or_last fl o vs ≡ some name
      → is_drawable name vs ≡ true
  or_last_drawable (some n) vs name h e = h name e
  or_last_drawable none vs name h e = last_drawable_lem vs name e

  pub draw-drawable :
      (uniform : F) (d : Dim F) (name : String)
      → draw fl uniform d ≡ some name
      → is_drawable name d.values ≡ true
  unfolding draw
  draw-drawable uniform d name =
      if_both (λ o. o ≡ some name → is_drawable name d.values ≡ true)
        (not (fl.is_positive (total_weight fl d))) none _ (λ e. absurd (ground arith))
        (or_last_drawable _ d.values name (draw_from_drawable _ fl.nought d.values))

  boosted_drawable :
      (strength : F) (liked : List Set) (d : Dim F) (vs : List (Value F)) (name : String)
      → is_drawable name (map (boost_value fl strength liked d) vs) ≡ true
      → is_drawable name vs ≡ true
  boosted_drawable strength liked d [] name e = e
  boosted_drawable strength liked d (v ∷ vs) name e = elim (Bool-cases (fl.is_positive v.weight)) [
    | inl heavy ↦ ground (arith, heavy, boosted_drawable strength liked d vs name)
    | inr light ↦ ground (arith, light, boosted_drawable strength liked d vs name)
  ]

  -- Whatever is liked and however strongly, and whatever the generator yields, a draw from the boosted
  -- dimension is an option of the dimension itself whose own weight is positive: values of weight 0 stay
  -- out of reach.
  pub draw_boosted :
      (uniform strength : F) (liked : List Set) (d : Dim F) (name : String)
      → draw fl uniform (boost_dim fl strength liked d) ≡ some name
      → is_drawable name d.values ≡ true
  draw_boosted uniform strength liked d name e =
      boosted_drawable strength liked d d.values name
        (draw-drawable uniform (boost_dim fl strength liked d) name e)
