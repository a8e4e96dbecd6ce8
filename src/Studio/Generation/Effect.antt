-- ===== src/Studio/Generation/Effect.antt =====
-- What the visitor has kept outlives a generation.
use go_graphics.Common.{
  refl, ◌≡◌, String, Bool, List, [], ◌∷◌, ◌++◌, Option, some, none, arith, ap, sym, ◌∙◌, subst,
  select, ℕ, suc, Bool-cases, inl, inr, same, if_true, if_false,
}
use go_graphics.Common.Int.{ℤ}
use go_graphics.Artwork.{Recipe}
use go_graphics.RenderJob.Model.{ok}
use go_graphics.Studio.Model.{Store, Services, Ambient, OpenExploration, Action, Sample, Batch}
use go_graphics.Studio.Generation.{
  generate, generate_in, action_in, trimmed, new_samples, with_jobs, extend, answer, find,
  generate_new, check_selection,
}
use go_graphics.Studio.Generation.Planning.{Plan}
use go_graphics.Studio.Sound.{Holds}
use go_graphics.Studio.Succeeding.{after_check_ok, continue_with}
use go_graphics.Studio.Generation.Made.{generate_new-Made, Made}
use go_graphics.Studio.Sound.Visiting.{find-Holds}
use go_graphics.Studio.Generation.Replay.{save-Holds}

abbrev pub favourites_of : List Sample → List Sample
favourites_of xs = select (λ a. a.favourite) xs

favourites_append :
    (xs ys : List Sample) → favourites_of (xs ++ ys) ≡ favourites_of xs ++ favourites_of ys
favourites_append [] ys = refl
favourites_append (x ∷ xs) ys = ground (arith, favourites_append xs ys)

favourites_trimmed :
    (bs : List Batch) (xs : List Sample) → favourites_of (trimmed bs xs) ≡ favourites_of xs
favourites_trimmed bs [] = refl
favourites_trimmed bs (x ∷ xs) = ground (arith, favourites_trimmed bs xs)

favourites_new :
    (h : Ambient) (p : Plan) (n : ℕ) (rs : List Recipe) (jobs : List String)
    → favourites_of (new_samples h p n rs jobs) ≡ []
favourites_new h p n [] jobs = refl
favourites_new h p n (r ∷ rs) [] = refl
favourites_new h p n (r ∷ rs) (job ∷ jobs) = favourites_new h p (suc n) rs jobs

append_nothing : (xs : List Sample) → xs ++ [] ≡ xs
append_nothing [] = refl
append_nothing (x ∷ xs) = ap (λ ys. x ∷ ys) (append_nothing xs)

module _ {S J : Type 0} (sv : Services S J) where
  Keeps : String → String → OpenExploration → Store J → Type 0
  Keeps token id x t =
      (y : OpenExploration) × (Holds token id t y
        × (favourites_of y.view.samples ≡ favourites_of x.view.samples))

  extend-Keeps :
      (h : Ambient) (token id action_id digest : String) (x : OpenExploration) (s t : Store J)
      (b : String)
      → Made sv h token id action_id digest x s t b
      → Holds token id s x
      → Keeps token id x t
  unfolding extend Keeps
  extend-Keeps h token id action_id digest x s t b m held =
      let added = new_samples h m.plan 1 m.plan.recipes m.jobs in
      let y = extend m.plan added m.batch action_id digest x in
      (
        y,
        (
          subst (λ u. Holds token id u y) (sym m.written)
              (save-Holds token id (with_jobs sv h s m.queue) x y held),
          favourites_trimmed _ (x.view.samples ++ added)
              ∙ favourites_append x.view.samples added
              ∙ ap (λ ys. favourites_of x.view.samples ++ ys)
                  (favourites_new h m.plan 1 m.plan.recipes m.jobs)
              ∙ append_nothing (favourites_of x.view.samples),
        ),
      )

  answer-Keeps_favourites :
      (h : Ambient) (token id : String) (revision : ℤ) (action_id digest : String)
      (selected : List String) (different : Bool) (x : OpenExploration) (s : Store J) (b : String)
      (t : Store J) (o : Option Action)
      → Holds token id s x
      → answer sv h digest o
          (generate_new sv h token id revision action_id digest selected different x)
          s
        ≡ (ok b, t)
      → Keeps token id x t
  unfolding Keeps
  answer-Keeps_favourites h token id revision action_id digest selected different x s b t none held
        f =
      extend-Keeps h token id action_id digest x s t b
        (generate_new-Made sv h token id revision action_id digest selected different x s b t f)
        held
  answer-Keeps_favourites h token id revision action_id digest selected different x s b t (some a)
        held f =
      elim (Bool-cases (same a.digest digest)) [
        | inl equal ↦ (
          x,
          (subst (λ u. Holds token id u x) (ap (λ z. z.1) (if_true _ _ _ _ equal f)) held, refl),
        )
        | inr other ↦ absurd (ground (arith, ap (λ z. z.0) (if_false _ _ _ _ other f)))
      ]

  -- If a call of `Generate` succeeds for the exploration that it finds, then the store holds this
  -- exploration afterwards, with exactly the favourites it had, in their order and unchanged, however
  -- many old batches have been dropped.
  pub generate_keeps_favourites :
      (h : Ambient) (token id : String) (revision : ℤ) (action_id : String) (selected : List String)
      (different : Bool) (s : Store J) (b : String) (t : Store J) (x : OpenExploration)
      → generate sv h token id revision action_id selected different s ≡ (ok b, t)
      → (find sv.queue h token id s).0 ≡ ok x
      → (y : OpenExploration) × (Holds token id t y
          × (favourites_of y.view.samples ≡ favourites_of x.view.samples))
  unfolding generate generate_in Keeps
  generate_keeps_favourites h token id revision action_id selected different s b t x f found =
      let (u, checked, g) = after_check_ok (check_selection action_id selected) _ s b t f in
      let held = find-Holds sv.queue h token id s x found in
      answer-Keeps_favourites h token id revision action_id _ selected different x _ b t
        (action_in action_id x.actions) held
        (sym (continue_with _ (find sv.queue h token id s) x found) ∙ g)
