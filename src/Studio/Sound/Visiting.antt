-- ===== src/Studio/Sound/Visiting.antt =====
-- The limits, kept by the operations that come and go.
use go_graphics.Common.{refl, ℕ, String, ◌≡◌, some, arith, Option-cases, if_both, not, inl, inr}
use go_graphics.Common.Dict.{lookup, sum_of-retain-le, lookup-insert_self, retain-Distinct}
use go_graphics.Common.Each.{Each-lookup, Each-retain, length-retain-le}
use go_graphics.RenderJob.Model.{Result, ok, err}
use go_graphics.Studio.Model.{
  OpenExploration, OpenWorkspace, Store, Jobs, Ambient, Operation, continue,
}
use go_graphics.Studio.Visits.{prune, swept, is_lapsed, workspace, enter_store, pick, find, touch}
use go_graphics.Studio.Generation.{workspace_size}
use go_graphics.Studio.Sound.{IsModest, IsBounded, Holds}
use go_graphics.Studio.Sound.Saving.{insert-IsBounded}
use go_graphics.Studio.Sound.Keeping.{Leaves, continue_keeps, as_left}

module _ {J : Type 0} (queue : Jobs J) where
  swept-IsBounded : (now : ℕ) (s : Store J) → IsBounded s → IsBounded (swept queue now s)
  unfolding IsBounded
  swept-IsBounded now s inv =
      let keep = λ (w : OpenWorkspace). not (is_lapsed now w) in
      (
        omega (arith, inv.0, length-retain-le keep s.workspaces),
        Each-retain IsModest keep s.workspaces inv.1,
        omega (arith, inv.2, sum_of-retain-le workspace_size keep s.workspaces),
        retain-Distinct keep s.workspaces inv.3,
      )

  pub prune-IsBounded : (now : ℕ) (s : Store J) → IsBounded s → IsBounded (prune queue now s)
  unfolding prune
  prune-IsBounded now s inv =
      if_both IsBounded s.persistent s (swept queue now s) inv (swept-IsBounded now s inv)

  enter_store-IsBounded :
      (now : ℕ) (token : String) (s : Store J)
      → IsBounded s
      → Leaves IsBounded (enter_store queue now token s)
  unfolding Leaves IsBounded
  enter_store-IsBounded now token s inv = elim (Option-cases (lookup token s.workspaces)) [
    | inl absent ↦ rw (enter_store, absent) inv
    | inr (w, found) ↦
        rw (enter_store, found)
          (insert-IsBounded token (touch now w) w s inv found
            (Each-lookup IsModest token w s.workspaces inv.1 found) (omega (arith, inv.2)))
  ]

  -- The workspace that a call has found is in the store.
  enter_store_found :
      (now : ℕ) (token : String) (s : Store J) (w : OpenWorkspace)
      → (enter_store queue now token s).0 ≡ ok w
      → lookup token (enter_store queue now token s).1.workspaces ≡ some w
  enter_store_found now token s w = elim (Option-cases (lookup token s.workspaces)) [
    | inl absent ↦ rw (enter_store, absent) (λ e. absurd (ground arith))
    | inr (v, found) ↦
        rw (enter_store, found)
          (λ e. ground (arith, lookup-insert_self token (touch now v) s.workspaces))
  ]

  pub workspace-IsBounded :
      (h : Ambient) (token : String) (s : Store J)
      → IsBounded s
      → Leaves IsBounded (workspace queue h token s)
  unfolding workspace
  workspace-IsBounded h token s inv =
      enter_store-IsBounded h.now token (prune queue h.now s) (prune-IsBounded h.now s inv)

  pub workspace_found :
      (h : Ambient) (token : String) (s : Store J) (w : OpenWorkspace)
      → (workspace queue h token s).0 ≡ ok w
      → lookup token (workspace queue h token s).1.workspaces ≡ some w
  unfolding workspace
  workspace_found h token s w e = enter_store_found h.now token (prune queue h.now s) w e

  pick-Holds :
      (token id : String) (w : OpenWorkspace) (x : OpenExploration) (s : Store J)
      → lookup token s.workspaces ≡ some w
      → (pick queue id w s).0 ≡ ok x
      → Holds token id (pick queue id w s).1 x
  pick-Holds token id w x s here = elim (Option-cases (lookup id w.explorations)) [
    | inl absent ↦ rw (pick, absent) (λ e. absurd (ground arith))
    | inr (y, found) ↦ rw (pick, found) (λ e. (w, here, ground arith))
  ]

  pick_state : (id : String) (w : OpenWorkspace) (s : Store J) → (pick queue id w s).1 ≡ s
  pick_state id w s = elim (Option-cases (lookup id w.explorations)) [
    | inl absent ↦ rw (pick, absent) refl
    | inr (y, found) ↦ rw (pick, found) refl
  ]

  pub find-IsBounded :
      (h : Ambient) (token id : String) (s : Store J)
      → IsBounded s
      → Leaves IsBounded (find queue h token id s)
  unfolding find
  find-IsBounded h token id s inv =
      continue_keeps IsBounded (λ w s. Unit) (pick queue id) (workspace queue h token s)
        (workspace-IsBounded h token s inv) (λ w e. tt)
        (λ w t p q. as_left IsBounded (pick queue id w t) (rw (pick_state id w t) p))

  continue-Holds :
      (token id : String) (x : OpenExploration) (r : Result OpenWorkspace × Store J)
      → ((w : OpenWorkspace) → r.0 ≡ ok w → lookup token r.1.workspaces ≡ some w)
      → (continue (pick queue id) r).0 ≡ ok x
      → Holds token id (continue (pick queue id) r).1 x
  continue-Holds token id x (err e, s) here f = absurd (ground arith)
  continue-Holds token id x (ok w, s) here f = pick-Holds token id w x s (here w refl) f

  pub find-Holds :
      (h : Ambient) (token id : String) (s : Store J) (x : OpenExploration)
      → (find queue h token id s).0 ≡ ok x
      → Holds token id (find queue h token id s).1 x
  unfolding find
  find-Holds h token id s x =
      continue-Holds token id x (workspace queue h token s) (workspace_found h token s)

  -- What a handler does with the exploration it has found keeps the limits.
  pub find_keeps :
      {A : Type 0} (h : Ambient) (token id : String) (next : OpenExploration → Operation J A)
      (s : Store J)
      → IsBounded s
      → ((x : OpenExploration) (t : Store J)
          → IsBounded t
          → Holds token id t x
          → Leaves IsBounded (next x t))
      → Leaves IsBounded (continue next (find queue h token id s))
  find_keeps h token id next s inv step =
      continue_keeps IsBounded (λ x t. Holds token id t x) next (find queue h token id s)
        (find-IsBounded h token id s inv) (find-Holds h token id s) step
