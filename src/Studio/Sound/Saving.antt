-- ===== src/Studio/Sound/Saving.antt =====
-- What the writes of the studio keep.
use go_graphics.Common.{
  ◌+◌, ◌*◌, ◌^◌, ◌≤◌, String, ◌≡◌, some, arith, Option-cases, suc, length, inl, inr, Option,
}
use go_graphics.Common.Dict.{lookup, insert, sum_of-insert, insert-Distinct, Distinct}
use go_graphics.Common.Each.{Each-insert, Each-lookup, length-insert_present, length-insert-le}
use go_graphics.Studio.Model.{OpenExploration, OpenWorkspace, Store, save, on_workspace}
use go_graphics.Studio.Generation.{recipe_bytes, workspace_size, exploration_size}
use go_graphics.Studio.Choosing.{kept_count, exploration_kept}
use go_graphics.Studio.Sound.{IsShort, IsModest, IsBounded, Holds}

-- Another value under the key of an exploration.
abbrev with_exploration : String → OpenExploration → OpenWorkspace → OpenWorkspace
with_exploration id y w = record w { explorations = insert id y w.explorations }

pub with_exploration-IsModest :
    (token id : String) (x y : OpenExploration) (w : OpenWorkspace)
    → IsModest token w
    → lookup id w.explorations ≡ some x
    → IsShort id y
    → kept_count w + exploration_kept y ≤ 24 + exploration_kept x
    → IsModest token (with_exploration id y w)
with_exploration-IsModest token id x y w modest found short few = (
  ground (arith, length-insert_present id y x w.explorations found),
  modest.1,
  ground (arith, sum_of-insert exploration_kept id y w.explorations),
  Each-insert IsShort id y w.explorations modest.3 short,
  insert-Distinct id y w.explorations modest.4,
)

module _ {J : Type 0} where
  pub IsBounded-light : (s : Store J) → IsBounded s → recipe_bytes s ≤ 32 * 2 ^ 20
  unfolding IsBounded
  IsBounded-light s inv = inv.2

  pub with_queue-IsBounded :
      (jobs : Option J) (s : Store J) → IsBounded s → IsBounded (record s { jobs = jobs })
  unfolding IsBounded
  with_queue-IsBounded jobs s inv = inv

  pub Holds-Distinct :
      (token : String) (w : OpenWorkspace) (s : Store J)
      → IsBounded s
      → lookup token s.workspaces ≡ some w
      → Distinct w.explorations
  unfolding IsBounded
  Holds-Distinct token w s inv here = (Each-lookup IsModest token w s.workspaces inv.1 here).4

  pub Holds-IsModest :
      (token : String) (w : OpenWorkspace) (s : Store J)
      → IsBounded s
      → lookup token s.workspaces ≡ some w
      → IsModest token w
  unfolding IsBounded
  Holds-IsModest token w s inv here = Each-lookup IsModest token w s.workspaces inv.1 here

  pub Holds_few :
      (token id : String) (x : OpenExploration) (w : OpenWorkspace) (s : Store J)
      → IsBounded s
      → lookup token s.workspaces ≡ some w
      → kept_count w ≤ 24
  unfolding IsBounded
  Holds_few token id x w s inv here = (Each-lookup IsModest token w s.workspaces inv.1 here).2

  pub Holds-IsShort :
      (token id : String) (x : OpenExploration) (s : Store J)
      → IsBounded s
      → Holds token id s x
      → IsShort id x
  unfolding IsBounded
  Holds-IsShort token id x s inv (w, here, found) =
      let modest = Each-lookup IsModest token w s.workspaces inv.1 here in
      Each-lookup IsShort id x w.explorations modest.3 found

  pub insert-IsBounded :
      (token : String) (v w : OpenWorkspace) (s : Store J)
      → IsBounded s
      → lookup token s.workspaces ≡ some w
      → IsModest token v
      → recipe_bytes s + workspace_size v ≤ 32 * 2 ^ 20 + workspace_size w
      → IsBounded (record s { workspaces = insert token v s.workspaces })
  unfolding IsBounded
  insert-IsBounded token v w s inv found modest light = (
    ground (arith, length-insert_present token v w s.workspaces found),
    Each-insert IsModest token v s.workspaces inv.1 modest,
    ground (arith, sum_of-insert workspace_size token v s.workspaces),
    insert-Distinct token v s.workspaces inv.3,
  )

  pub on_workspace-IsBounded :
      (token : String) (f : OpenWorkspace → OpenWorkspace) (w : OpenWorkspace) (s : Store J)
      → IsBounded s
      → lookup token s.workspaces ≡ some w
      → IsModest token (f w)
      → recipe_bytes s + workspace_size (f w) ≤ 32 * 2 ^ 20 + workspace_size w
      → IsBounded (on_workspace token f s)
  on_workspace-IsBounded token f w s inv found modest light =
      rw (on_workspace, found) (insert-IsBounded token (f w) w s inv found modest light)

  -- A change that is harmless to every workspace.
  pub on_workspace-IsBounded_all :
      (token : String) (f : OpenWorkspace → OpenWorkspace) (s : Store J)
      → IsBounded s
      → ((w : OpenWorkspace) → IsModest token w → IsModest token (f w))
      → ((w : OpenWorkspace) → workspace_size (f w) ≤ workspace_size w)
      → IsBounded (on_workspace token f s)
  unfolding IsBounded
  on_workspace-IsBounded_all token f s inv modest light =
      elim (Option-cases (lookup token s.workspaces)) [
        | inl absent ↦ rw (on_workspace, absent) inv
        | inr (w, found) ↦
            on_workspace-IsBounded token f w s inv found
              (modest w (Each-lookup IsModest token w s.workspaces inv.1 found))
              (omega (arith, inv.2, light w))
      ]

  -- One more exploration, which is empty.
  pub save-IsBounded_new :
      (token id : String) (w : OpenWorkspace) (y : OpenExploration) (s : Store J)
      → IsBounded s
      → lookup token s.workspaces ≡ some w
      → suc (length w.explorations) ≤ 4
      → IsShort id y
      → exploration_kept y ≡ 0
      → exploration_size y ≡ 0
      → IsBounded (save token id y s)
  unfolding IsBounded
  save-IsBounded_new token id w y s inv found room short none_kept no_size =
      let modest = Each-lookup IsModest token w s.workspaces inv.1 found in
      on_workspace-IsBounded token (with_exploration id y) w s inv found
        (
          omega (arith, length-insert-le id y w.explorations),
          modest.1,
          omega (arith, modest.2, sum_of-insert exploration_kept id y w.explorations),
          Each-insert IsShort id y w.explorations modest.3 short,
          insert-Distinct id y w.explorations modest.4,
        )
        (omega (arith, inv.2, sum_of-insert exploration_size id y w.explorations))

  pub save-IsBounded :
      (token id : String) (w : OpenWorkspace) (x y : OpenExploration) (s : Store J)
      → IsBounded s
      → lookup token s.workspaces ≡ some w
      → lookup id w.explorations ≡ some x
      → IsShort id y
      → kept_count w + exploration_kept y ≤ 24 + exploration_kept x
      → recipe_bytes s + exploration_size y ≤ 32 * 2 ^ 20 + exploration_size x
      → IsBounded (save token id y s)
  unfolding IsBounded
  save-IsBounded token id w x y s inv here found short few light =
      on_workspace-IsBounded token (with_exploration id y) w s inv here
        (with_exploration-IsModest token id x y w
          (Each-lookup IsModest token w s.workspaces inv.1 here) found short few)
        (ground (arith, sum_of-insert exploration_size id y w.explorations))

  -- A value with as many favourites and no more recipes.
  pub save-IsBounded_light :
      (token id : String) (w : OpenWorkspace) (x y : OpenExploration) (s : Store J)
      → IsBounded s
      → lookup token s.workspaces ≡ some w
      → lookup id w.explorations ≡ some x
      → IsShort id y
      → exploration_kept y ≤ exploration_kept x
      → exploration_size y ≤ exploration_size x
      → IsBounded (save token id y s)
  unfolding IsBounded
  save-IsBounded_light token id w x y s inv here found short few light =
      save-IsBounded token id w x y s inv here found short
        (omega (arith, (Each-lookup IsModest token w s.workspaces inv.1 here).2))
        (omega (arith, inv.2))
