-- ===== src/Studio/Tests.antt =====
-- The studio at concrete inputs.
mod Saved
use go_graphics.Studio.Refusing.{perform, keeping, generate_refused, perform_refused}
use go_graphics.Studio.Sound.{IsBounded, Holds}
use go_graphics.Studio.View.{snapshot, shown}
use go_graphics.Common.Names.{contains}
use go_graphics.Common.Texts.{is_hex, parse_uint, byte_len}
use go_graphics.Studio.Generation.Planning.{check_selection, plan}
use go_graphics.Studio.Entering.{enter}
use go_graphics.Studio.Visits.{
  create, prune, workspace, find, start, new_exploration, clear, is_lapsed,
}
use go_graphics.Common.{
  refl, ◌≡◌, ℕ, some, String-discrete, arith, false, [], subst, ◌≢◌, ◌⊎◌, ◌*◌, not, same_refl, same,
  String, ap, true, none,
}
use go_graphics.Common.Int.{◌-ℤ◌, pos}
use go_graphics.RenderJob.Model.{ok, Result, err, minute, err_conflict, err_expired}
use go_graphics.Studio.Model.{Store, OpenExploration}
use go_graphics.Studio.System.{Step, Reach}
use go_graphics.Studio.Samples.{test_services, test_ambient, test_action, empty_store, test_recipe}
use go_graphics.Common.Dict.{retain, insert, lookup, merge, kept}
use go_graphics.Publish.{pins, get}
use go_graphics.Studio.Generation.{generate, generate_in, generate_new, extend}
use go_graphics.Studio.Sound.Planning.{IsCompact, IsSmall}
use go_graphics.Studio.Sound.Restoring.{OffersForms, IsOffered}
use go_graphics.Studio.System.Invariant.{Reach-IsBounded}
use go_graphics.RenderJob.Protocol.{ok_inj}
use go_graphics.Studio.Generation.Replay.{generate_once}
use go_graphics.Studio.Choosing.{set_favourite}
use go_graphics.Studio.Generation.Effect.{favourites_of, generate_keeps_favourites}
use go_graphics.Studio.Visits.Leaving.{clear_lem}

abbrev opened : Store ℕ
opened = (create test_services.queue (test_ambient 100) empty_store).1

abbrev entered : Store ℕ
entered = (enter test_services (test_ambient 101) "first" "pools" "" "" test_action opened).1

abbrev entered_Reach : Reach test_services entered
entered_Reach =
    Reach.steps _ _
      (Reach.steps _ _ (Reach.begins (some 0) "build")
        (Step.create_step (test_ambient 100) empty_store))
      (Step.enter_step (test_ambient 101) "first" "pools" "" "" test_action opened)

entered_once :
    (enter test_services (test_ambient 101) "first" "pools" "" "" test_action opened).0 ≡ ok "first"
unfolding create prune retain insert lookup enter pins get merge workspace generate find
    check_selection is_hex contains generate_in generate_new plan snapshot shown extend parse_uint
    byte_len ◌-ℤ◌ String-discrete
entered_once = refl

-- Everything that the tests of one file compute with.
test_IsSmall : IsSmall test_recipe
unfolding byte_len
test_IsSmall = ground arith

test_IsCompact : IsCompact test_services
test_IsCompact = (
  (λ id seed pal traits r e. subst IsSmall (ok_inj e) test_IsSmall),
  (λ raw r e. subst IsSmall (ok_inj e) test_IsSmall),
)

test_IsOffered : IsOffered test_recipe
unfolding contains String-discrete
test_IsOffered = refl

test_OffersForms : OffersForms test_services
test_OffersForms raw r e = subst IsOffered (ok_inj e) test_IsOffered

Reach-IsBounded_example : IsBounded entered
Reach-IsBounded_example =
    Reach-IsBounded test_services entered test_IsCompact test_OffersForms entered_Reach

abbrev begun : Store ℕ
begun = (start test_services.queue (test_ambient 100) "first" "pools" "" "" opened).1

abbrev made : Store ℕ
made =
    (generate test_services (test_ambient 101) "first" "first" (pos 0) test_action [] false begun).1

abbrev exploration_or : OpenExploration → Result OpenExploration → OpenExploration
exploration_or x (ok y) = y
exploration_or x (err e) = x

abbrev found_in : ℕ → Store ℕ → OpenExploration
found_in n s =
    exploration_or (new_exploration "" "" "" "")
      (find test_services.queue (test_ambient n) "first" "first" s).0

begun-IsBounded : IsBounded begun
begun-IsBounded = Reach-IsBounded test_services begun test_IsCompact test_OffersForms (
    Reach.steps _ _
      (Reach.steps _ _ (Reach.begins (some 0) "build")
        (Step.create_step (test_ambient 100) empty_store))
      (Step.start_step (test_ambient 100) "first" "pools" "" "" opened))

generate_once_example :
    generate test_services (test_ambient 102) "first" "first" (pos 0) test_action [] false made
    ≡ (ok "first", (find test_services.queue (test_ambient 102) "first" "first" made).1)
unfolding create start prune retain insert lookup pins get merge workspace generate find
    check_selection is_hex contains generate_in generate_new plan snapshot shown extend parse_uint
    byte_len ◌-ℤ◌ String-discrete
generate_once_example =
    generate_once test_services (test_ambient 101) (test_ambient 102) "first" "first" (pos 0)
      test_action [] false begun "first" made (found_in 102 made) test_IsCompact begun-IsBounded
      refl refl

abbrev other_token : String
other_token = "other"

abbrev first_token : String
first_token = "first"

apart : first_token ≢ other_token
unfolding String-discrete
apart p = absurd (ground (arith, same_refl other_token, ap (λ s. same s other_token) p))

-- A favourite is kept, and a second generation follows.
abbrev liked : Store ℕ
liked =
    (set_favourite test_services.queue (test_ambient 103) "first" "first" "second" (pos 1) true
      made).1

abbrev other_action : String
other_action = "fedcba9876543210fedcba9876543210fedcba9876543210"

abbrev remade : Store ℕ
remade =
    (generate test_services (test_ambient 104) "first" "first" (pos 2) other_action [] false
      liked).1

generate_keeps_favourites_example :
    (y : OpenExploration) × (Holds "first" "first" remade y
      × (favourites_of y.view.samples ≡ favourites_of (found_in 104 liked).view.samples))
unfolding create start prune retain insert lookup pins get merge workspace generate find
    check_selection is_hex contains generate_in generate_new plan snapshot shown extend parse_uint
    byte_len ◌-ℤ◌ String-discrete set_favourite
generate_keeps_favourites_example =
    generate_keeps_favourites test_services (test_ambient 104) "first" "first" (pos 2) other_action
      [] false liked "first" remade (found_in 104 liked) refl refl

generate_refused_example :
    ((generate test_services
        (test_ambient 104)
        "first"
        "first"
        (pos 1)
        other_action
        []
        false
        liked).1.workspaces
      ≡ liked.workspaces)
    ⊎ ((generate test_services
          (test_ambient 104)
          "first"
          "first"
          (pos 1)
          other_action
          []
          false
          liked).1.workspaces
        ≡ (find test_services.queue (test_ambient 104) "first" "first" liked).1.workspaces)
unfolding create start prune retain insert lookup pins get merge workspace generate find
    check_selection is_hex contains generate_in generate_new plan snapshot shown extend parse_uint
    byte_len ◌-ℤ◌ String-discrete set_favourite
generate_refused_example =
    generate_refused test_services (test_ambient 104) "first" "first" (pos 1) other_action [] false
      liked err_conflict refl

perform_refused_example :
    (perform test_services.queue
      (test_ambient 104)
      "first"
      "first"
      (keeping "fourth" (pos 2) true)
      liked).1.workspaces
    ≡ (find test_services.queue (test_ambient 104) "first" "first" liked).1.workspaces
unfolding create start prune retain insert lookup pins get merge workspace generate find
    check_selection is_hex contains generate_in generate_new plan snapshot shown extend parse_uint
    byte_len ◌-ℤ◌ String-discrete set_favourite
perform_refused_example =
    perform_refused test_services.queue (test_ambient 104) "first" "first"
      (keeping "fourth" (pos 2) true) liked err_expired refl

clear_lem_example :
    (lookup "first" (clear test_services.queue (test_ambient 101) "first" begun).workspaces ≡ none)
    × (lookup "other" (clear test_services.queue (test_ambient 101) "first" begun).workspaces
        ≡ kept (λ w. not (is_lapsed (101 * minute) w)) (lookup "other" begun.workspaces))
unfolding create start prune retain insert lookup pins get workspace String-discrete IsBounded
clear_lem_example =
    clear_lem test_services.queue (test_ambient 101) "first" "other" begun refl begun-IsBounded.3
      (ground arith) apart
