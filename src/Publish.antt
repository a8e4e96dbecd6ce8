-- ===== src/Publish.antt =====
-- internal/publish/catalog.go: the art forms that the public service offers.
use go_graphics.Common.{
  String, Bool, false, ◌||◌, Option, none, some, List, [], ◌∷◌, if◌then◌else◌, same,
}
use go_graphics.Common.Dict.{Dict, insert, merge}
use go_graphics.RenderJob.Model.{Result, ok, err, failure}
use go_graphics.RenderJob.Protocol.{Rendition, ◌>>=◌}

pub record Choice : Type 0 where
  pub id : String
  pub name : String
  pub description : String
  pub pins : Dict String

pub record Colour : Type 0 where
  pub id : String
  pub name : String

pub record Entry : Type 0 where
  pub id : String
  pub name : String
  pub description : String
  pub styles : List Choice
  pub colours : List Colour

abbrev pub colours : List Colour
colours =
    record { id = "diebenkorn-seawall"; name = "Tide" }
    ∷ record { id = "tchelitchew-hide-and-seek"; name = "Earth" }
    ∷ record { id = "hopper-night-windows"; name = "After dark" }
    ∷ record { id = "cezanne-bathers"; name = "Meadow" }
    ∷ []

abbrev choice : String → String → String → Dict String → Choice
choice id name description pins = record {
  id = id;
  name = name;
  description = description;
  pins = pins;
}

abbrev pools_entry : Entry
pools_entry = record {
  id = "pools";
  name = "Pools";
  description = "Transparent circles drift and overlap like pigment on paper.";
  styles =
      choice "spacious" "Spacious circles" "Air and quiet between the circles."
        (("fill", "open") ∷ ("arrange", "scatter") ∷ [])
      ∷ choice "flowing" "Flowing strands" "Circles follow a wandering current."
          (("fill", "busy") ∷ ("arrange", "orbital") ∷ [])
      ∷ choice "gathered" "Gathered colour" "A fuller sheet of overlapping pools."
          (("fill", "packed") ∷ [])
      ∷ [];
  colours = colours;
}

abbrev foam_entry : Entry
foam_entry = record {
  id = "foam";
  name = "Foam";
  description = "A field of inked cells, each carrying a different trace of colour.";
  styles =
      choice "ink" "Ink and paper" "Fine lines and drawn marks."
        (("fills", "drawn") ∷ ("line", "fine") ∷ [])
      ∷ choice "painted" "Painted cells" "Soft pigment settles inside each cell."
          (("fills", "watercolour") ∷ ("line", "fine") ∷ [])
      ∷ choice "airy" "Open cells" "Quiet paper between passages of colour."
          (("fills", "airy") ∷ ("density", "open") ∷ [])
      ∷ [];
  colours = colours;
}

abbrev iris_entry : Entry
iris_entry = record {
  id = "iris";
  name = "Iris";
  description = "Fine fibres gather around a dark centre, winding out into light.";
  styles =
      choice "fine" "Fine fibres" "Long threads radiate from the centre."
        (("structure", "fiber") ∷ ("grain", "fine") ∷ ("weave", "radial") ∷ [])
      ∷ choice "winding" "Winding fibres" "Threads turn softly around the pupil."
          (("structure", "fiber") ∷ ("weave", "swirl") ∷ [])
      ∷ choice "layered" "Layered rings" "Bands of colour reveal a terraced iris."
          (("structure", "strata") ∷ [])
      ∷ [];
  colours = colours;
}

abbrev pub all : List Entry
all = pools_entry ∷ foam_entry ∷ iris_entry ∷ []

abbrev pub entry_in : String → List Entry → Option Entry
entry_in id [] = none
entry_in id (e ∷ rest) = if same e.id id then some e else entry_in id rest

-- `Get`
unfoldable pub get : String → Option Entry
get id = entry_in id all

abbrev pub has_style : String → List Choice → Bool
has_style style [] = false
has_style style (c ∷ rest) = same c.id style || has_style style rest

abbrev pub has_colour : String → List Colour → Bool
has_colour colour [] = false
has_colour colour (c ∷ rest) = same c.id colour || has_colour colour rest

-- The loop that copies the pins of the styles of this name.
abbrev pub style_pins : String → List Choice → Dict String → Dict String
style_pins style [] pins = pins
style_pins style (c ∷ rest) pins =
    style_pins style rest (if same c.id style then merge c.pins pins else pins)

abbrev pin_style : Entry → String → Result (Dict String)
pin_style e style =
    if same style ""
    then ok []
    else if has_style style e.styles
    then ok (style_pins style e.styles [])
    else err (failure "unknown style")

abbrev pin_colour : Entry → String → String → Dict String → Result (Dict String × String)
pin_colour e id colour pins =
    if same colour ""
    then ok (pins, colour)
    else if has_colour colour e.colours
    then ok (if same id "iris" then pins else insert "colourway" colour pins, colour)
    else err (failure "unknown colour")

-- `Pins`
unfoldable pub pins : String → String → String → Result (Dict String × String)
unfolding get
pins id style colour = elim (get id) [
  | none ↦ err (failure "artwork unavailable")
  | some e ↦ do set ← pin_style e style; pin_colour e id colour set
]

-- `Tier`
unfoldable pub tier : String → String → Result Rendition
tier id name = elim (get id) [
  | none ↦ err (failure "artwork unavailable")
  | some e ↦
      if same name "download"
      then ok (record { width = 1200; height = 1200; aa = 1; format = "png" })
      else if same name "preview"
      then ok (record { width = 600; height = 600; aa = 1; format = "png" })
      else err (failure "rendition unavailable")
]
