-- ===== src/Studio/Sound/Generating.antt =====
-- The limits, kept by `Generate`.
use go_graphics.Common.{
  refl, String, Bool, List, ◌≡◌, some, none, arith, Bool-cases, inl, inr, All, Option, false, same,
  not,
}
use go_graphics.Common.Each.{Each-lookup}
use go_graphics.Common.Int.{ℤ}
use go_graphics.RenderJob.Model.{Result, ok, err, busy, err_conflict, failure}
use go_graphics.Studio.Model.{
  Store, Services, Ambient, OpenExploration, Action, Operation, is_revision,
}
use go_graphics.Studio.Sound.Extending.{extend_size}
use go_graphics.Studio.Generation.{
  generate, generate_new, generate_in, is_heavy, run_plan, action_in, admit_plan, record_batch,
  with_jobs, new_batch, new_samples, answer,
}
use go_graphics.Studio.Generation.Planning.{Plan, check_selection, plan}
use go_graphics.Studio.Sound.{IsBounded, IsModest, IsShort, Holds}
use go_graphics.Studio.Sound.Planning.{IsCompact, IsSmall, plan-IsSmall}
use go_graphics.Studio.Sound.Visiting.{find_keeps}
use go_graphics.Studio.Sound.Keeping.{
  after_check_keeps, or_fail_keeps, if_keeps, leaves, fail_keeps,
}
use go_graphics.Studio.Sound.Saving.{save-IsBounded}
use go_graphics.Studio.Sound.Extending.{extend-IsShort, extend_kept, extend_size}
use go_graphics.Studio.Sound.Keeping.{Leaves, after_check_keeps, leaves}
use go_graphics.Studio.View.{snapshot}

module _ {S J : Type 0} (sv : Services S J) (h : Ambient) where
  record_batch-IsBounded :
      (token id action_id digest : String) (selected : List String) (x : OpenExploration) (p : Plan)
      (r : Result (List String) × J) (s : Store J)
      → IsBounded s
      → Holds token id s x
      → All IsSmall p.recipes
      → is_heavy sv h p s ≡ false
      → Leaves IsBounded (record_batch sv h token id action_id digest selected x p r s)
  unfolding Leaves IsBounded
  record_batch-IsBounded token id action_id digest selected x p (err e, j) s inv held small light =
      inv
  record_batch-IsBounded token id action_id digest selected x p (ok jobs, j) s inv (w, here, found)
        small light =
      let modest = Each-lookup IsModest token w s.workspaces inv.1 here in
      save-IsBounded token id w x _ (with_jobs sv h s j) inv here found
        (extend-IsShort h p jobs _ action_id digest x id
          (Each-lookup IsShort id x w.explorations modest.3 found))
        (omega (
          arith,
          modest.2,
          extend_kept h p jobs (new_batch h selected (new_samples h p 1 p.recipes jobs)) action_id
              digest x,
        ))
        (ground (
          arith,
          extend_size h p jobs (new_batch h selected (new_samples h p 1 p.recipes jobs)) action_id
              digest x small,
        ))

  run_plan-IsBounded :
      (token id action_id digest : String) (selected : List String) (x : OpenExploration) (j : J)
      (r : Result Plan) (s : Store J)
      → IsBounded s
      → Holds token id s x
      → ((p : Plan) → r ≡ ok p → All IsSmall p.recipes)
      → Leaves IsBounded (run_plan sv h token id action_id digest selected x j r s)
  run_plan-IsBounded token id action_id digest selected x j (err e) s inv held small =
      leaves IsBounded _ s inv
  run_plan-IsBounded token id action_id digest selected x j (ok p) s inv held small =
      elim (Bool-cases (is_heavy sv h p s)) [
        | inl heavy ↦ rw (admit_plan, heavy) (leaves IsBounded _ s inv)
        | inr light ↦
            rw (admit_plan, light)
              (record_batch-IsBounded token id action_id digest selected x p _ s inv held
                (small p refl) light)
      ]

  generate_new-IsBounded :
      (token id : String) (revision : ℤ) (action_id digest : String) (selected : List String)
      (different : Bool) (x : OpenExploration) (s : Store J)
      → IsCompact sv
      → IsBounded s
      → Holds token id s x
      → Leaves IsBounded
          (generate_new sv h token id revision action_id digest selected different x s)
  unfolding generate_new
  generate_new-IsBounded token id revision action_id digest selected different x s law inv held =
      fail_keeps IsBounded (not (is_revision revision x.view.revision)) err_conflict s _ inv (
        fail_keeps IsBounded (snapshot sv.queue s.jobs token x).active
          (failure "your current samples are still being made") s _ inv
          (or_fail_keeps IsBounded busy s.jobs
            (λ j t.
              run_plan sv h token id action_id digest selected x j
                (plan sv h.entropy selected different x) t)
            s inv
            (λ j e.
              run_plan-IsBounded token id action_id digest selected x j _ s inv held
                (λ p. plan-IsSmall sv h.entropy selected different x p law))))

  answer_keeps :
      (digest : String) (o : Option Action) (next : Operation J String) (s : Store J)
      → IsBounded s
      → Leaves IsBounded (next s)
      → Leaves IsBounded (answer sv h digest o next s)
  answer_keeps digest none next s inv new = new
  answer_keeps digest (some a) next s inv new =
      if_keeps IsBounded (same a.digest digest) (ok a.batch, s) (err err_conflict, s)
        (leaves IsBounded _ s inv) (leaves IsBounded _ s inv)

  generate_in-IsBounded :
      (token id : String) (revision : ℤ) (action_id : String) (selected : List String)
      (different : Bool) (x : OpenExploration) (s : Store J)
      → IsCompact sv
      → IsBounded s
      → Holds token id s x
      → Leaves IsBounded (generate_in sv h token id revision action_id selected different x s)
  unfolding generate_in
  generate_in-IsBounded token id revision action_id selected different x s law inv held =
      answer_keeps _ (action_in action_id x.actions) _ s inv
        (generate_new-IsBounded token id revision action_id _ selected different x s law inv held)

  pub generate-IsBounded :
      (token id : String) (revision : ℤ) (action_id : String) (selected : List String)
      (different : Bool) (s : Store J)
      → IsCompact sv
      → IsBounded s
      → Leaves IsBounded (generate sv h token id revision action_id selected different s)
  unfolding generate
  generate-IsBounded token id revision action_id selected different s law inv =
      after_check_keeps IsBounded (check_selection action_id selected) _ s inv (
        find_keeps sv.queue h token id _ s inv
          (λ x t. generate_in-IsBounded token id revision action_id selected different x t law))
