-- ===== src/Studio/Sound/Opening.antt =====
-- The limits, kept by `Create`, `Start`, `Clear` and the handlers that only read.
use go_graphics.Common.{refl, String, length, ◌≡◌, some, arith, Bool-cases, inl, inr, leb}
use go_graphics.Common.Dict.{lookup, sum_of-insert, insert-Distinct}
use go_graphics.Common.Each.{Each-insert, length-insert-le}
use go_graphics.Publish.{pins}
use go_graphics.Studio.Model.{Store, Jobs, Ambient, OpenWorkspace}
use go_graphics.Studio.Visits.{
  create, add_workspace, new_workspace, new_session, new_exploration, start, open_exploration,
  clear, prune, workspace, touch,
}
use go_graphics.Studio.Generation.{workspace_size}
use go_graphics.Studio.Sound.{IsBounded, IsModest}
use go_graphics.Studio.Sound.Saving.{on_workspace-IsBounded_all, save-IsBounded_new}
use go_graphics.Studio.Sound.Visiting.{prune-IsBounded, workspace-IsBounded, workspace_found}
use go_graphics.Studio.Sound.Keeping.{continue_keeps, after_check_keeps}
use go_graphics.Studio.Sound.Keeping.{continue_keeps, Leaves}

module _ {J : Type 0} (queue : Jobs J) (h : Ambient) where
  add_workspace-IsBounded : (s : Store J) → IsBounded s → Leaves IsBounded (add_workspace queue h s)
  unfolding Leaves IsBounded
  add_workspace-IsBounded s inv = elim (Bool-cases (leb 1000 (length s.workspaces))) [
    | inl full ↦ rw (add_workspace, full) inv
    | inr room ↦
        let w = new_workspace h (new_session h) in
        rw (add_workspace, room)
          (
            ground (arith, length-insert-le (h.token 0) w s.workspaces),
            Each-insert IsModest (h.token 0) w s.workspaces inv.1 (ground arith),
            ground (arith, sum_of-insert workspace_size (h.token 0) w s.workspaces),
            insert-Distinct (h.token 0) w s.workspaces inv.3,
          )
  ]

  pub create-IsBounded : (s : Store J) → IsBounded s → Leaves IsBounded (create queue h s)
  unfolding create
  create-IsBounded s inv =
      add_workspace-IsBounded (prune queue h.now s) (prune-IsBounded queue h.now s inv)

  open_exploration-IsBounded :
      (token id style colour : String) (w : OpenWorkspace) (s : Store J)
      → IsBounded s
      → lookup token s.workspaces ≡ some w
      → Leaves IsBounded (open_exploration queue h token id style colour w s)
  unfolding Leaves
  open_exploration-IsBounded token id style colour w s inv found =
      elim (Bool-cases (leb 4 (length w.explorations))) [
        | inl full ↦ rw (open_exploration, full) inv
        | inr room ↦
            rw (open_exploration, room)
              (save-IsBounded_new token (h.token 0) w (new_exploration (h.token 0) id style colour)
                s inv found (ground arith) (ground arith) refl refl)
      ]

  pub start-IsBounded :
      (token id style colour : String) (s : Store J)
      → IsBounded s
      → Leaves IsBounded (start queue h token id style colour s)
  unfolding start
  start-IsBounded token id style colour s inv =
      after_check_keeps IsBounded (pins id style colour) _ s inv (
        continue_keeps IsBounded (λ w t. lookup token t.workspaces ≡ some w)
          (open_exploration queue h token id style colour) (workspace queue h token s)
          (workspace-IsBounded queue h token s inv) (workspace_found queue h token s)
          (open_exploration-IsBounded token id style colour))

  pub clear-IsBounded :
      (token : String) (s : Store J) → IsBounded s → IsBounded (clear queue h token s)
  unfolding clear
  clear-IsBounded token s inv =
      prune-IsBounded queue h.now _
        (on_workspace-IsBounded_all token (touch 0) s inv (λ w m. m) (λ w. omega arith))
