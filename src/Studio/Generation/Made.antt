-- ===== src/Studio/Generation/Made.antt =====
-- What a successful generation has done.
use go_graphics.Common.{◌≡◌, String, Bool, List, arith, ap, not, sym}
use go_graphics.Common.Int.{ℤ}
use go_graphics.RenderJob.Model.{Result, ok, err, err_conflict, busy, failure}
use go_graphics.Studio.Model.{Store, Services, Ambient, OpenExploration, Batch, save}
use go_graphics.Studio.Generation.{
  generate_new, run_plan, record_batch, extend, with_jobs, new_samples, new_batch, is_heavy,
  is_revision, snapshot,
}
use go_graphics.Studio.Generation.Planning.{Plan, plan}
use go_graphics.Studio.Succeeding.{fail_ok, or_fail_ok}
use go_graphics.RenderJob.Protocol.{ok_inj}

module _ {S J : Type 0} (sv : Services S J) (h : Ambient) where
  -- The handler has admitted a plan and extended the exploration `x` by a new batch.
  pub record Made (token id action_id digest : String) (x : OpenExploration) (s t : Store J)
      (b : String) : Type 0 where
    pub plan : Plan
    pub jobs : List String
    pub queue : J
    pub batch : Batch
    pub named : b ≡ batch.id
    pub written :
        t
        ≡ save token id
            (extend plan (new_samples h plan 1 plan.recipes jobs) batch action_id digest x)
            (with_jobs sv h s queue)

  record_batch-Made :
      (token id action_id digest : String) (selected : List String) (x : OpenExploration) (p : Plan)
      (r : Result (List String) × J) (s : Store J) (b : String) (t : Store J)
      → record_batch sv h token id action_id digest selected x p r s ≡ (ok b, t)
      → Made token id action_id digest x s t b
  record_batch-Made token id action_id digest selected x p (err e, j) s b t f =
      absurd (ground arith)
  record_batch-Made token id action_id digest selected x p (ok jobs, j) s b t f = record {
    plan = p;
    jobs = jobs;
    queue = j;
    batch = new_batch h selected (new_samples h p 1 p.recipes jobs);
    named = sym (ok_inj (ap (λ r. r.0) f));
    written = sym (ap (λ r. r.1) f);
  }

  run_plan-Made :
      (token id action_id digest : String) (selected : List String) (x : OpenExploration) (j : J)
      (r : Result Plan) (s : Store J) (b : String) (t : Store J)
      → run_plan sv h token id action_id digest selected x j r s ≡ (ok b, t)
      → Made token id action_id digest x s t b
  run_plan-Made token id action_id digest selected x j (err e) s b t f = absurd (ground arith)
  run_plan-Made token id action_id digest selected x j (ok p) s b t f =
      record_batch-Made token id action_id digest selected x p _ s b t
        (fail_ok (is_heavy sv h p s) busy s _ b t f).1

  pub generate_new-Made :
      (token id : String) (revision : ℤ) (action_id digest : String) (selected : List String)
      (different : Bool) (x : OpenExploration) (s : Store J) (b : String) (t : Store J)
      → generate_new sv h token id revision action_id digest selected different x s ≡ (ok b, t)
      → Made token id action_id digest x s t b
  unfolding generate_new
  generate_new-Made token id revision action_id digest selected different x s b t f =
      let current = fail_ok (not (is_revision revision x.view.revision)) err_conflict s _ b t f in
      let idle =
        fail_ok (snapshot sv.queue s.jobs token x).active
          (failure "your current samples are still being made") s _ b t current.1 in
      let (j, here, g) =
        or_fail_ok busy s.jobs
          (λ j t.
            run_plan sv h token id action_id digest selected x j
              (plan sv h.entropy selected different x) t)
          s b t idle.1 in
      run_plan-Made token id action_id digest selected x j _ s b t g
