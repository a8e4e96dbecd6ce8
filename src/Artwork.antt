-- ===== src/Artwork.antt =====
-- internal/artwork/recipe.go: the recipe of an image. The sketches' configurations stay outside.
use go_graphics.Common.{String}
use go_graphics.Common.Dict.{Dict}

-- The record is immutable; `canonical` is its JSON text, which `Bytes` copies.
pub record Recipe : Type 0 where
  pub canonical : String
  pub id : String
  pub seed : String
  pub pal : String
  pub traits : Dict String
