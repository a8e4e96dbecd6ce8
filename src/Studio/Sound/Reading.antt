-- ===== src/Studio/Sound/Reading.antt =====
-- The limits, kept by the handlers that only look.
use go_graphics.Common.{String, List}
use go_graphics.RenderJob.Model.{ok}
use go_graphics.Studio.Model.{Store, Jobs, Ambient, Favourite}
use go_graphics.Studio.Visits.{session, workspace}
use go_graphics.Studio.View.{get_exploration, favourites, recovery, snapshot}
use go_graphics.Studio.Sound.{IsBounded}
use go_graphics.Studio.Sound.Keeping.{continue_keeps, leaves, Leaves}
use go_graphics.Studio.Sound.Visiting.{workspace-IsBounded, find_keeps}

module _ {J : Type 0} (queue : Jobs J) (h : Ambient) (token : String) (s : Store J)
    (inv : IsBounded s) where
  pub session-IsBounded : Leaves IsBounded (session queue h token s)
  unfolding session
  session-IsBounded =
      continue_keeps IsBounded (λ w t. Unit) _ (workspace queue h token s)
        (workspace-IsBounded queue h token s inv) (λ w e. tt)
        (λ w t p q. leaves IsBounded (ok w.workspace) t p)

  pub get_exploration-IsBounded :
      (id : String) → Leaves IsBounded (get_exploration queue h token id s)
  unfolding get_exploration
  get_exploration-IsBounded id =
      find_keeps queue h token id _ s inv
        (λ x t p held. leaves IsBounded (ok (snapshot queue t.jobs token x)) t p)

  pub favourites-IsBounded :
      (sort : List Favourite → List Favourite) → Leaves IsBounded (favourites queue sort h token s)
  unfolding favourites
  favourites-IsBounded sort =
      continue_keeps IsBounded (λ w t. Unit) _ (workspace queue h token s)
        (workspace-IsBounded queue h token s inv) (λ w e. tt) (λ w t p q. leaves IsBounded _ t p)

  pub recovery-IsBounded : Leaves IsBounded (recovery queue h token s)
  unfolding recovery
  recovery-IsBounded =
      continue_keeps IsBounded (λ w t. Unit) _ (workspace queue h token s)
        (workspace-IsBounded queue h token s inv) (λ w e. tt) (λ w t p q. leaves IsBounded _ t p)
