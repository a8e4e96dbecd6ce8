-- ===== src/Studio/Sound.antt =====
-- The limits of internal/studio/studio.go: a thousand workspaces, in each of them four explorations,
-- eight remembered entries and 24 favourites, in each exploration eight batches and eight remembered
-- actions, and 32 MiB of recipes.
pub mod Keeping
pub mod Saving
pub mod Visiting
pub mod Opening
pub mod Planning
pub mod Extending
pub mod Generating
pub mod Choosing
pub mod Entering
pub mod Restoring
pub mod Reading
use go_graphics.Common.{ℕ, ◌+◌, ◌*◌, ◌^◌, ◌≤◌, String, length, ◌≡◌, some}
use go_graphics.Common.Dict.{lookup, Distinct}
use go_graphics.Common.Each.{Each}
use go_graphics.Studio.Model.{OpenExploration, OpenWorkspace, Store, Sample}
use go_graphics.Studio.Generation.{recipe_bytes}
use go_graphics.Studio.Choosing.{kept_count}

abbrev pub IsShort : String → OpenExploration → Type 0
IsShort id x = (length x.view.batches ≤ 8) × (length x.actions ≤ 8)

abbrev pub IsModest : String → OpenWorkspace → Type 0
IsModest token w =
    (length w.explorations ≤ 4)
    × (length w.entries ≤ 8)
    × (kept_count w ≤ 24)
    × Each IsShort w.explorations
    × Distinct w.explorations

unfoldable pub IsBounded : {J : Type 0} → Store J → Type 0
IsBounded s =
    (length s.workspaces ≤ 1000)
    × Each IsModest s.workspaces
    × (recipe_bytes s ≤ 32 * 2 ^ 20)
    × Distinct s.workspaces

-- The store holds the exploration under these keys.
abbrev pub Holds : {J : Type 0} → String → String → Store J → OpenExploration → Type 0
Holds token id s x =
    (w : OpenWorkspace) × (lookup token s.workspaces ≡ some w) × (lookup id w.explorations ≡ some x)
