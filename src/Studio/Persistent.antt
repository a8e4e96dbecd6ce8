-- ===== src/Studio/Persistent.antt =====
-- internal/studio/persistent.go: the saved form of a workspace, and the transaction around a handler.
pub mod RoundTrip
use go_graphics.Common.{
  ℕ, suc, ◌+◌, String, Bool, true, false, not, Option, none, some, List, [], ◌∷◌, ◌++◌, map, length,
  if◌then◌else◌, same, ◌==◌,
}
use go_graphics.Common.Dict.{Dict, insert}
use go_graphics.Artwork.{Recipe}
use go_graphics.RenderJob.Model.{Result, ok, err, failure}
use go_graphics.RenderJob.Protocol.{◌>>=◌}
use go_graphics.Studio.Model.{
  Sample, Action, EntryAction, Exploration, OpenExploration, OpenWorkspace,
}

pub record SavedEntry : Type 0 where
  pub id : String
  pub artwork : String
  pub style : String
  pub colour : String
  pub exploration : String

pub record SavedAction : Type 0 where
  pub id : String
  pub digest : String
  pub batch : String

pub record SavedExploration : Type 0 where
  pub view : Exploration
  pub actions : List SavedAction
  pub round : ℕ
  pub recipes : List String

pub record SavedWorkspace : Type 0 where
  pub explorations : List SavedExploration
  pub entries : List SavedEntry

-- `encoding/json` on a saved workspace, and `artwork.Decode`.
pub record Codec : Type 0 where
  pub marshal : SavedWorkspace → Result String
  pub unmarshal : String → Result SavedWorkspace
  pub decode_recipe : String → Result Recipe

abbrev pub save_entry : EntryAction → SavedEntry
save_entry e = record {
  id = e.id;
  artwork = e.artwork;
  style = e.style;
  colour = e.colour;
  exploration = e.exploration;
}

abbrev pub save_action : Action → SavedAction
save_action a = record { id = a.id; digest = a.digest; batch = a.batch }

abbrev pub save_exploration : OpenExploration → SavedExploration
save_exploration x = record {
  view = record x.view { favourites = [] };
  actions = map save_action x.actions;
  round = x.round;
  recipes = map (λ a. a.recipe.canonical) x.view.samples;
}

abbrev pub save_all : Dict OpenExploration → List SavedExploration
save_all [] = []
save_all ((i, x) ∷ rest) = save_exploration x ∷ save_all rest

abbrev pub saved : OpenWorkspace → SavedWorkspace
saved w = record { explorations = save_all w.explorations; entries = map save_entry w.entries }

unfoldable pub encode_workspace : Codec → OpenWorkspace → Result String
encode_workspace c w = c.marshal (saved w)

abbrev pub load_entry : SavedEntry → EntryAction
load_entry e = record {
  id = e.id;
  artwork = e.artwork;
  style = e.style;
  colour = e.colour;
  exploration = e.exploration;
}

abbrev pub load_action : SavedAction → Action
load_action a = record { id = a.id; digest = a.digest; batch = a.batch }

-- The loop over the recipes; their number is that of the samples.
abbrev pub load_samples : Codec → List String → List Sample → Result (List Sample)
load_samples c [] samples = ok samples
load_samples c (raw ∷ raws) [] = ok []
load_samples c (raw ∷ raws) (a ∷ samples) =
    let more = load_samples c raws samples in
    do r ← c.decode_recipe raw; rest ← more; ok (record a { recipe = r } ∷ rest)

abbrev pub load_exploration : Codec → SavedExploration → Result OpenExploration
load_exploration c s =
    if not (length s.recipes == length s.view.samples)
    then err (failure "invalid persisted recipes")
    else do
      samples ← load_samples c s.recipes s.view.samples
      ok (record {
        view = record s.view { samples = samples };
        actions = map load_action s.actions;
        round = s.round;
      })

-- The loop over the explorations writes each under its own name.
abbrev pub load_all :
    Codec → List SavedExploration → Dict OpenExploration → Result (Dict OpenExploration)
load_all c [] xs = ok xs
load_all c (s ∷ rest) xs = load_exploration c s >>= λ x. load_all c rest (insert x.view.id x xs)

-- The bytes of a row; an empty row leaves the workspace as it is.
unfoldable pub decode_workspace : Codec → String → OpenWorkspace → Result OpenWorkspace
decode_workspace c text w = if same text "" then ok w else do
  v ← c.unmarshal text
  xs ← load_all c v.explorations w.explorations
  ok (record w { explorations = xs; entries = w.entries ++ map load_entry v.entries })
