-- ===== src/Studio/Sound/Planning.antt =====
-- The recipes of a plan are small.
use go_graphics.Common.{ℕ, ◌≤◌, String, Bool, List, [], ◌∷◌, All, ◌≡◌, arith, subst}
use go_graphics.Common.Texts.{byte_len}
use go_graphics.Artwork.{Recipe}
use go_graphics.Explore.{Candidate}
use go_graphics.Publish.{pins}
use go_graphics.RenderJob.Model.{Result, ok}
use go_graphics.RenderJob.Protocol.{bind_ok, ok_inj}
use go_graphics.Studio.Model.{Services, OpenExploration}
use go_graphics.Studio.Generation.Planning.{Plan, plan, complete_all, parents_of}

-- `artwork.Decode`, through which `publish.Complete` and `publish.Validate` make recipes, refuses more
-- than 16384 bytes.
abbrev pub IsSmall : Recipe → Type 0
IsSmall r = byte_len r.canonical ≤ 16384

module _ {S J : Type 0} (sv : Services S J) where
  abbrev pub IsCompact : Type 0
  IsCompact =
      ((id : String) (seed : ℕ) (pal : String) (traits : _) (r : Recipe)
        → sv.complete id seed pal traits ≡ ok r
        → IsSmall r)
      × ((raw : String) (r : Recipe) → sv.validate raw ≡ ok r → IsSmall r)

  complete_all-IsSmall :
      (artwork : String) (palette : Candidate → String) (cs : List Candidate) (rs : List Recipe)
      → IsCompact
      → complete_all sv artwork palette cs ≡ ok rs
      → All IsSmall rs
  complete_all-IsSmall artwork palette [] [] law e = tt
  complete_all-IsSmall artwork palette [] (r ∷ rs) law e = absurd (ground arith)
  complete_all-IsSmall artwork palette (c ∷ cs) rs law e =
      let (r, made, then) = bind_ok (sv.complete artwork c.seed (palette c) c.traits) _ rs e in
      let (more, rest, over) = bind_ok (complete_all sv artwork palette cs) _ rs then in
      subst (All IsSmall) (ok_inj over) (
        law.0 artwork c.seed (palette c) c.traits r made,
        complete_all-IsSmall artwork palette cs more law rest,
      )

  pub plan-IsSmall :
      (entropy : Result ℕ) (selected : List String) (different : Bool) (x : OpenExploration)
      (p : Plan)
      → IsCompact
      → plan sv entropy selected different x ≡ ok p
      → All IsSmall p.recipes
  unfolding plan
  plan-IsSmall entropy selected different x p law e =
      let (parents, chosen, e1) = bind_ok (parents_of different x.view.samples selected) _ p e in
      let (pal, pinned, e2) = bind_ok (pins x.view.artwork x.view.style x.view.colour) _ p e1 in
      let (space, spaced, e3) = bind_ok (sv.space x.view.artwork) _ p e2 in
      let (seed, drawn, e4) = bind_ok entropy _ p e3 in
      let (candidates, proposed, e5) = bind_ok (sv.public space _ _ seed x.round _) _ p e4 in
      let (recipes, completed, e6) = bind_ok (complete_all sv x.view.artwork _ candidates) _ p e5 in
      subst (λ q. All IsSmall q.recipes) (ok_inj e6)
        (complete_all-IsSmall x.view.artwork _ candidates recipes law completed)
