-- ===== src/Studio/Visits/Finding.antt =====
-- What `find` finds is what the store held before.
use go_graphics.Common.{
  refl, ◌≡◌, String, Bool, Option, some, none, arith, ap, ℕ, Option-cases, inl, inr, not, sym, ◌∙◌,
  if_both, subst, some_inj,
}
use go_graphics.Common.Dict.{lookup, Distinct, lookup-retain, kept}
use go_graphics.RenderJob.Model.{ok, err_expired}
use go_graphics.RenderJob.Protocol.{ok_inj}
use go_graphics.Studio.Model.{Store, Jobs, Ambient, OpenWorkspace, OpenExploration}
use go_graphics.Studio.Visits.{prune, swept, is_lapsed, enter_store, workspace, find, touch, pick}
use go_graphics.Studio.Succeeding.{continue_answer, or_fail_answer}
use go_graphics.Studio.Sound.{Holds}

kept_some :
    {V : Type 0} (keep : V → Bool) (o : Option V) (v : V) → kept keep o ≡ some v → o ≡ some v
kept_some keep none v e = absurd (ground arith)
kept_some keep (some w) v e = ground arith

module _ {J : Type 0} (queue : Jobs J) where
  pub lookup-prune :
      (now : ℕ) (token : String) (s : Store J) (w : OpenWorkspace)
      → Distinct s.workspaces
      → lookup token (prune queue now s).workspaces ≡ some w
      → lookup token s.workspaces ≡ some w
  unfolding prune
  lookup-prune now token s w d =
      if_both (λ u. lookup token u.workspaces ≡ some w → lookup token s.workspaces ≡ some w)
        s.persistent s (swept queue now s) (λ e. e)
        (λ e.
          let keep = λ (w : OpenWorkspace). not (is_lapsed now w) in
          kept_some keep (lookup token s.workspaces) w
            (sym (lookup-retain keep token s.workspaces d) ∙ e))

  enter_store_was :
      (now : ℕ) (token : String) (s : Store J) (w : OpenWorkspace)
      → (enter_store queue now token s).0 ≡ ok w
      → (v : OpenWorkspace) × (lookup token s.workspaces ≡ some v) × (w ≡ touch now v)
  enter_store_was now token s w = elim (Option-cases (lookup token s.workspaces)) [
    | inl absent ↦ rw (enter_store, absent) (λ e. absurd (ground arith))
    | inr (v, found) ↦ rw (enter_store, found) (λ e. (v, refl, sym (ok_inj e)))
  ]

  -- The exploration that `find` returns is the one that the store held.
  pub find_was :
      (h : Ambient) (token id : String) (s : Store J) (x : OpenExploration)
      → Distinct s.workspaces
      → (find queue h token id s).0 ≡ ok x
      → Holds token id s x
  unfolding find workspace
  find_was h token id s x d e =
      let (w, e1, e2) =
        continue_answer (pick queue id) (enter_store queue h.now token (prune queue h.now s)) x e in
      let (v, here, touched) = enter_store_was h.now token (prune queue h.now s) w e1 in
      let (y, found, same_y) = or_fail_answer err_expired (lookup id w.explorations) _ _ x e2 in
      (
        v,
        lookup-prune h.now token s v d here,
        subst (λ z. lookup id z.explorations ≡ some x) touched (found ∙ ap some (ok_inj same_y)),
      )

pub Holds-same :
    {J : Type 0} (token id : String) (s : Store J) (x y : OpenExploration)
    → Holds token id s x
    → Holds token id s y
    → x ≡ y
Holds-same token id s x y (w, here, found) (v, here1, found1) =
    let same_w = some_inj (sym here ∙ here1) in
    some_inj (sym found ∙ subst (λ z. lookup id z.explorations ≡ some y) (sym same_w) found1)
