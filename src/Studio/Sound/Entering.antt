-- ===== src/Studio/Sound/Entering.antt =====
-- The limits, kept by `Enter`.
use go_graphics.Common.{
  refl, ℕ, ◌≤◌, String, Bool, true, false, [], ◌∷◌, ◌≡◌, some, none, arith, Bool-cases,
  Option-cases, inl, inr, length, leb, if_both,
}
use go_graphics.Common.Dict.{
  Dict, lookup, insert, delete, sum_of, Distinct, sum_of-insert, delete-Distinct,
}
use go_graphics.Common.Each.{Each-lookup, length-delete-le, Each-delete}
use go_graphics.RenderJob.Model.{Result, ok, err, err_conflict}
use go_graphics.Studio.Model.{
  Store, Services, Ambient, OpenWorkspace, OpenExploration, EntryAction, save, later_tokens,
}
use go_graphics.Studio.Visits.{workspace}
use go_graphics.Studio.Entering.{
  fill, enter, conclude, form_in, enter_form, enter_workspace, entry_of,
}
use go_graphics.Studio.Sound.{IsBounded, IsModest, IsShort}
use go_graphics.Studio.Sound.Keeping.{after_check_keeps, continue_keeps, if_keeps, leaves, Leaves}
use go_graphics.Studio.Generation.{workspace_size, exploration_size}
use go_graphics.Studio.Sound.Saving.{
  with_exploration-IsModest, on_workspace-IsBounded_all, save-IsBounded_new, save-IsBounded_light,
  Holds-Distinct, Holds-IsShort,
}
use go_graphics.Studio.Choosing.{restyled, exploration_kept}
use go_graphics.Studio.Sound.Planning.{IsCompact}
use go_graphics.Studio.Sound.Generating.{generate-IsBounded}
use go_graphics.Studio.Sound.Extending.{length-last_eight-le}
use go_graphics.Common.Int.{pos}
use go_graphics.Publish.{pins}
use go_graphics.Studio.Sound.Visiting.{workspace-IsBounded, workspace_found}

sum_of-delete-le :
    {V : Type 0} (f : V → ℕ) (k : String) (m : Dict V) → sum_of f (delete k m) ≤ sum_of f m
unfolding delete
sum_of-delete-le f k [] = omega arith
sum_of-delete-le f k ((j, w) ∷ m) = ground (arith, sum_of-delete-le f k m)

forget-IsModest :
    (token id : String) (w : OpenWorkspace)
    → IsModest token w
    → IsModest token (record w { explorations = delete id w.explorations })
forget-IsModest token id w modest = (
  omega (arith, modest.0, length-delete-le id w.explorations),
  modest.1,
  omega (arith, modest.2, sum_of-delete-le exploration_kept id w.explorations),
  Each-delete IsShort id w.explorations modest.3,
  delete-Distinct id w.explorations modest.4,
)

-- `restyle` in one workspace.
abbrev restyled_in : String → String → String → OpenWorkspace → OpenWorkspace
restyled_in id style colour w = elim (lookup id w.explorations) [
  | none ↦ w
  | some x ↦ record w { explorations = insert id (restyled style colour x) w.explorations }
]

restyled-IsModest :
    (token id style colour : String) (w : OpenWorkspace)
    → IsModest token w
    → IsModest token (restyled_in id style colour w)
restyled-IsModest token id style colour w modest = elim (Option-cases (lookup id w.explorations)) [
  | inl absent ↦ rw (restyled_in, absent) modest
  | inr (x, found) ↦
      rw (restyled_in, found)
        (with_exploration-IsModest token id x (restyled style colour x) w modest found
          (Each-lookup IsShort id x w.explorations modest.3 found) (omega (arith, modest.2)))
]

restyled_size :
    (id style colour : String) (w : OpenWorkspace)
    → workspace_size (restyled_in id style colour w) ≡ workspace_size w
restyled_size id style colour w = elim (Option-cases (lookup id w.explorations)) [
  | inl absent ↦ rw (restyled_in, absent) refl
  | inr (x, found) ↦
      rw (restyled_in, found)
        (ground (arith, sum_of-insert exploration_size id (restyled style colour x) w.explorations))
]

module _ {J : Type 0} where
  conclude-IsBounded :
      (token key : String) (fresh : Bool) (a : EntryAction) (x : OpenExploration)
      (r : Result String × Store J)
      → Leaves IsBounded r
      → Leaves IsBounded (conclude token key fresh a x r)
  unfolding Leaves
  conclude-IsBounded token key fresh a x (ok b, s) inv =
      on_workspace-IsBounded_all token _ s inv
        (λ w modest.
          (modest.0, length-last_eight-le w.entries a modest.1, modest.2, modest.3, modest.4))
        (λ w. omega arith)
  conclude-IsBounded token key fresh a x (err e, s) inv =
      let undone =
        on_workspace-IsBounded_all token (restyled_in key x.view.style x.view.colour) s inv
          (restyled-IsModest token key x.view.style x.view.colour)
          (λ w. omega (arith, restyled_size key x.view.style x.view.colour w)) in
      if_both IsBounded fresh _ _
        (on_workspace-IsBounded_all token _ _ undone (forget-IsModest token x.view.id)
          (λ w. sum_of-delete-le exploration_size x.view.id w.explorations))
        undone

module _ {S J : Type 0} (sv : Services S J) where
  fill-IsBounded :
      (h : Ambient) (fresh : Bool) (token key artwork style colour action_id : String)
      (x : OpenExploration) (s : Store J)
      → IsCompact sv
      → IsBounded (save token key (restyled style colour x) s)
      → Leaves IsBounded (fill sv h fresh token key artwork style colour action_id x s)
  fill-IsBounded h fresh token key artwork style colour action_id x s law inv =
      conclude-IsBounded token key fresh _ x _
        (generate-IsBounded sv h token x.view.id (pos x.view.revision) action_id [] false _ law inv)

  -- The exploration of the art form is in the workspace.
  pub form_in_found :
      (artwork key : String) (x : OpenExploration) (xs : Dict OpenExploration)
      → Distinct xs
      → form_in artwork xs ≡ some (key, x)
      → lookup key xs ≡ some x
  unfolding lookup
  form_in_found artwork key x [] d e = absurd (ground arith)
  form_in_found artwork key x ((i, y) ∷ xs) d e = ground (arith, form_in_found artwork key x xs d.1)

  enter_form-IsBounded :
      (h : Ambient) (token artwork style colour action_id : String) (w : OpenWorkspace)
      (s : Store J)
      → IsCompact sv
      → IsBounded s
      → lookup token s.workspaces ≡ some w
      → Leaves IsBounded (enter_form sv h token artwork style colour action_id w s)
  enter_form-IsBounded h token artwork style colour action_id w s law inv here =
      elim (Option-cases (form_in artwork w.explorations)) [
        | inl absent ↦ elim (Bool-cases (leb 4 (length w.explorations))) [
          | inl full ↦ rw (enter_form, absent, full) (leaves IsBounded _ s inv)
          | inr room ↦
              rw (enter_form, absent, room)
                (fill-IsBounded (later_tokens 1 h) true token (h.token 0) artwork style colour
                  action_id _ s law
                  (save-IsBounded_new token (h.token 0) w _ s inv here (ground arith) (ground arith)
                    refl refl))
        ]
        | inr ((key, x), found) ↦
            rw (enter_form, found)
              (fill-IsBounded h false token key artwork style colour action_id x s law (
                save-IsBounded_light token key w x (restyled style colour x) s inv here
                  (form_in_found artwork key x w.explorations (Holds-Distinct token w s inv here)
                    found)
                  (Holds-IsShort token key x s inv (
                    w,
                    here,
                    form_in_found artwork key x w.explorations (Holds-Distinct token w s inv here)
                        found,
                  ))
                  (omega arith) (omega arith)))
      ]

  enter_workspace-IsBounded :
      (h : Ambient) (token artwork style colour action_id : String) (w : OpenWorkspace)
      (s : Store J)
      → IsCompact sv
      → IsBounded s
      → lookup token s.workspaces ≡ some w
      → Leaves IsBounded (enter_workspace sv h token artwork style colour action_id w s)
  enter_workspace-IsBounded h token artwork style colour action_id w s law inv here =
      elim (Option-cases (entry_of action_id w.entries)) [
        | inl new ↦
            rw (enter_workspace, new)
              (enter_form-IsBounded h token artwork style colour action_id w s law inv here)
        | inr (a, old) ↦
            rw (enter_workspace, old)
              (if_keeps IsBounded _ _ _ (leaves IsBounded (ok a.exploration) s inv)
                (leaves IsBounded (err err_conflict) s inv))
      ]

  pub enter-IsBounded :
      (h : Ambient) (token artwork style colour action_id : String) (s : Store J)
      → IsCompact sv
      → IsBounded s
      → Leaves IsBounded (enter sv h token artwork style colour action_id s)
  unfolding enter
  enter-IsBounded h token artwork style colour action_id s law inv =
      after_check_keeps IsBounded (pins artwork style colour) _ s inv (
        continue_keeps IsBounded (λ w t. lookup token t.workspaces ≡ some w)
          (enter_workspace sv h token artwork style colour action_id) (workspace sv.queue h token s)
          (workspace-IsBounded sv.queue h token s inv) (workspace_found sv.queue h token s)
          (λ w t. enter_workspace-IsBounded h token artwork style colour action_id w t law))
