-- ===== src/Studio/Generation/Planning.antt =====
-- internal/studio/studio.go: how `generate` checks a selection and turns it into recipes. Nothing here
-- changes the store.
use Prim.Native.String.{len}
use go_graphics.Common.{
  ℕ, ◌%◌, String, Bool, false, ◌||◌, ◌&&◌, not, Option, none, some, List, [], ◌∷◌, ◌++◌, map,
  select, length, if◌then◌else◌, same, ltb, ◌==◌, zero, suc,
}
use go_graphics.Common.Dict.{Dict}
use go_graphics.Common.Names.{contains}
use go_graphics.Common.Texts.{is_hex, parse_uint}
use go_graphics.Artwork.{Recipe}
use go_graphics.Explore.{Candidate}
use go_graphics.Publish.{get, pins, Entry, Colour}
use go_graphics.RenderJob.Model.{Result, ok, err, failure}
use go_graphics.RenderJob.Protocol.{◌>>=◌}
use go_graphics.Studio.Model.{Sample, OpenExploration, Services}

abbrev pub has_twice : List String → Bool
has_twice [] = false
has_twice (id ∷ rest) = contains id rest || has_twice rest

unfoldable pub check_selection : String → List String → Result (Unit {0})
check_selection action_id selected =
    if has_twice selected
    then err (failure "duplicate selected favourite")
    else if not (len action_id == 48) || ltb 1 (length selected)
    then err (failure "invalid selection")
    else if is_hex action_id
    then ok tt
    else err (failure "invalid action")

-- `Recipe.Seed` read back as a number.
abbrev pub seed_of : Sample → ℕ
seed_of a = parse_uint a.recipe.seed

-- The zero values of `Mode` and `Parent` stand in a parent.
abbrev pub as_parent : Sample → Candidate
as_parent a = record { seed = seed_of a; traits = a.recipe.traits; mode = ""; parent = 0 }

-- The parents, with the palettes that the map `palettes` has for their seeds.
abbrev pub Parents : Type 0
Parents = List (Candidate × String)

abbrev pub as_entry : Sample → Candidate × String
as_entry a = (as_parent a, a.recipe.pal)

abbrev pub choose_parents : List Sample → List String → Result Parents
choose_parents samples [] = ok []
choose_parents samples (id ∷ rest) =
    let more = choose_parents samples rest in
    elim (select (λ a. same a.id id) samples) [
      | [] ↦ err (failure "choose an existing image")
      | a ∷ others ↦ do others' ← more; ok (map as_entry (a ∷ others) ++ others')
    ]

abbrev pub parents_of : Bool → List Sample → List String → Result Parents
parents_of different samples selected = if different then ok [] else choose_parents samples selected

-- `palettes[n]`: the last write to the key counts.
abbrev pub palette_at : ℕ → Parents → String → String
palette_at n [] found = found
palette_at n ((c, pal) ∷ rest) found = palette_at n rest (if c.seed == n then pal else found)

-- The pins, the palette, the style and the colour of the new images.
pub record Direction : Type 0 where
  pub pins : Dict String
  pub pal : String
  pub style : String
  pub colour : String

-- Similarity keeps the whole visual family of the chosen image.
abbrev pub follow : String → List Sample → Direction → Direction
follow id [] d = d
follow id (a ∷ rest) d = follow id rest (
    if same a.id id
    then record { pins = a.recipe.traits; pal = a.recipe.pal; style = a.style; colour = a.colour }
    else d)

abbrev pub direct : List String → List Sample → Direction → Direction
direct (id ∷ []) samples d = follow id samples d
direct _ samples d = d

abbrev pub nth_colour : ℕ → List Colour → String
nth_colour n [] = ""
nth_colour zero (c ∷ rest) = c.id
nth_colour (suc n) (c ∷ rest) = nth_colour n rest

-- `pins` has found the entry before, and no entry is without colours: Go's index is in range.
abbrev pub colour_for : Option Entry → ℕ → String
colour_for none seed = ""
colour_for (some e) seed = nth_colour (seed % length e.colours) e.colours

abbrev pub actual_palette : Option Entry → String → Parents → Candidate → String
actual_palette e pal parents c =
    if same pal ""
    then (if same c.mode "neighbor" && not (same (palette_at c.parent parents "") "")
        then palette_at c.parent parents ""
        else colour_for e c.seed)
    else pal

pub record Plan : Type 0 where
  pub style : String
  pub colour : String
  pub recipes : List Recipe

module _ {S J : Type 0} (sv : Services S J) where
  abbrev pub complete_all : String → (Candidate → String) → List Candidate → Result (List Recipe)
  complete_all artwork palette [] = ok []
  complete_all artwork palette (c ∷ rest) =
      let more = complete_all artwork palette rest in
      do r ← sv.complete artwork c.seed (palette c) c.traits; recipes ← more; ok (r ∷ recipes)

  unfoldable pub plan : Result ℕ → List String → Bool → OpenExploration → Result Plan
  plan entropy selected different x = do
    parents ← parents_of different x.view.samples selected
    chosen ← pins x.view.artwork x.view.style x.view.colour
    let d =
        direct selected x.view.samples
          (record { pins = chosen.0; pal = chosen.1; style = x.view.style; colour = x.view.colour })
    space ← sv.space x.view.artwork
    seed ← entropy
    candidates ←
        sv.public space d.pins (map (λ p. p.0) parents) seed x.round (map seed_of x.view.samples)
    recipes ←
        complete_all x.view.artwork (actual_palette (get x.view.artwork) d.pal parents) candidates
    ok (record { style = d.style; colour = d.colour; recipes = recipes })
