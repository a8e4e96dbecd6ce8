-- ===== src/Studio/Generation.antt =====
-- internal/studio/studio.go: `Generate`, `generate` and `recipeBytes`.
pub mod Planning
pub mod Made
pub mod Replay
pub mod Effect
use go_graphics.Common.{
  ℕ, suc, ◌+◌, ◌*◌, ◌^◌, String, Bool, true, false, ◌||◌, not, Option, none, some, List, [], ◌∷◌,
  ◌++◌, map, select, length, total, if◌then◌else◌, same, ltb,
}
use go_graphics.Common.Dict.{Dict, sum_of}
use go_graphics.Common.Int.{ℤ, pos}
use go_graphics.Common.Names.{contains}
use go_graphics.Common.Texts.{byte_len}
use go_graphics.Artwork.{Recipe}
use go_graphics.RenderJob.Model.{Result, ok, err, busy, err_conflict, failure, Request}
use go_graphics.Studio.Model.{
  Sample, Batch, Action, OpenExploration, OpenWorkspace, Exploration, Store, Services, Ambient,
  Operation, ◌>>=◌, continue, is_revision, save, after_check, or_fail,
}
use go_graphics.Studio.Visits.{find}
use go_graphics.Studio.View.{snapshot}
use go_graphics.Studio.Generation.Planning.{Plan, plan, check_selection}

abbrev pub recipe_size : Sample → ℕ
recipe_size a = byte_len a.recipe.canonical

abbrev pub exploration_size : OpenExploration → ℕ
exploration_size x = total recipe_size x.view.samples

abbrev pub workspace_size : OpenWorkspace → ℕ
workspace_size w = sum_of exploration_size w.explorations

-- `recipeBytes`
abbrev pub recipe_bytes : {J : Type 0} → Store J → ℕ
recipe_bytes s = sum_of workspace_size s.workspaces

abbrev pub action_in : String → List Action → Option Action
action_in id [] = none
action_in id (a ∷ rest) = if same a.id id then some a else action_in id rest

-- `if len(xs) > 8 { xs = xs[1:] }`
abbrev pub drop_first : {A : Type 0} → List A → List A
drop_first [] = []
drop_first (x ∷ rest) = rest

abbrev pub last_eight : {A : Type 0} → List A → List A
last_eight xs = if ltb 8 (length xs) then drop_first xs else xs

abbrev pub request : String → Recipe → Request
request build r = record { version = pos 1; build = build; recipe = r.canonical; tier = "preview" }

abbrev pub new_sample : Plan → String → Recipe → String → Sample
new_sample p id r job = record {
  id = id;
  style = p.style;
  colour = p.colour;
  recipe = r;
  job = job;
  download = "";
  favourite = false;
  cancelled = false;
  status = none;
  download_status = none;
}

-- The queue answers with one job for each request; Go panics on fewer.
abbrev pub new_samples : Ambient → Plan → ℕ → List Recipe → List String → List Sample
new_samples h p n [] jobs = []
new_samples h p n (r ∷ rest) [] = []
new_samples h p n (r ∷ rest) (job ∷ jobs) =
    new_sample p (h.token n) r job ∷ new_samples h p (suc n) rest jobs

abbrev pub parent_of : List String → String
parent_of (id ∷ []) = id
parent_of _ = ""

abbrev pub new_batch : Ambient → List String → List Sample → Batch
new_batch h selected samples = record {
  id = h.token 0;
  parent = parent_of selected;
  samples = map (λ a. a.id) samples;
}

-- The map `keep`, as the names it holds.
abbrev pub kept_names : List Batch → List String
kept_names [] = []
kept_names (b ∷ rest) = (b.parent ∷ b.samples) ++ kept_names rest

abbrev pub is_kept : List Batch → Sample → Bool
is_kept batches a = a.favourite || contains a.id (kept_names batches)

abbrev pub trimmed : List Batch → List Sample → List Sample
trimmed batches samples = select (is_kept batches) samples

-- The exploration after an admission.
unfoldable pub extend :
    Plan → List Sample → Batch → String → String → OpenExploration → OpenExploration
extend p added b action_id digest x = record {
  view = record x.view {
    batches = last_eight (x.view.batches ++ (b ∷ []));
    samples = trimmed (last_eight (x.view.batches ++ (b ∷ []))) (x.view.samples ++ added);
    style = p.style;
    colour = p.colour;
    revision = suc x.view.revision;
  };
  actions =
      last_eight (x.actions ++ (record { id = action_id; digest = digest; batch = b.id } ∷ []));
  round = suc x.round;
}

module _ {S J : Type 0} (sv : Services S J) (h : Ambient) where
  abbrev pub with_jobs : Store J → J → Store J
  with_jobs s j = record s { jobs = some j }

  -- The statements behind `s.jobs.Admit`.
  abbrev pub record_batch :
      String
      → String
      → String
      → String
      → List String
      → OpenExploration
      → Plan
      → Result (List String) × J
      → Operation J String
  record_batch token id action_id digest selected x p (err e, j) s = (err e, with_jobs s j)
  record_batch token id action_id digest selected x p (ok jobs, j) s =
      let added = new_samples h p 1 p.recipes jobs in
      let b = new_batch h selected added in
      (ok b.id, save token id (extend p added b action_id digest x) (with_jobs s j))

  abbrev pub is_heavy : Plan → Store J → Bool
  is_heavy p s = ltb (32 * 2 ^ 20) (recipe_bytes s + length p.recipes * 16384)

  abbrev pub admit_plan :
      String
      → String
      → String
      → String
      → List String
      → OpenExploration
      → J
      → Plan
      → Operation J String
  admit_plan token id action_id digest selected x j p s =
      if is_heavy p s
      then (err busy, s)
      else record_batch token id action_id digest selected x p
          (sv.queue.admit token (map (request s.build) p.recipes) j) s

  abbrev pub run_plan :
      String
      → String
      → String
      → String
      → List String
      → OpenExploration
      → J
      → Result Plan
      → Operation J String
  run_plan token id action_id digest selected x j (err e) s = (err e, s)
  run_plan token id action_id digest selected x j (ok p) s =
      admit_plan token id action_id digest selected x j p s

  unfoldable pub generate_new :
      String
      → String
      → ℤ
      → String
      → String
      → List String
      → Bool
      → OpenExploration
      → Operation J String
  generate_new token id revision action_id digest selected different x s =
      if not (is_revision revision x.view.revision)
      then (err err_conflict, s)
      else if (snapshot sv.queue s.jobs token x).active
      then (err (failure "your current samples are still being made"), s)
      else or_fail busy s.jobs
          (λ j t.
            run_plan token id action_id digest selected x j (plan sv h.entropy selected different x)
              t)
          s

  -- An action that was carried out is answered, not repeated.
  abbrev pub replay : String → Action → Operation J String
  replay digest a s = if same a.digest digest then (ok a.batch, s) else (err err_conflict, s)

  abbrev pub answer : String → Option Action → Operation J String → Operation J String
  answer digest (some a) new s = replay digest a s
  answer digest none new s = new s

  unfoldable pub generate_in :
      String → String → ℤ → String → List String → Bool → OpenExploration → Operation J String
  generate_in token id revision action_id selected different x =
      let digest = sv.selection_digest revision selected different in
      answer digest (action_in action_id x.actions)
        (generate_new token id revision action_id digest selected different x)

  -- `Generate` takes the lock around `generate`.
  unfoldable pub generate : String → String → ℤ → String → List String → Bool → Operation J String
  generate token id revision action_id selected different =
      after_check (check_selection action_id selected)
        (find sv.queue h token id >>= generate_in token id revision action_id selected different)
