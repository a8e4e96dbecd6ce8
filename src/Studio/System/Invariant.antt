-- ===== src/Studio/System/Invariant.antt =====
-- The limits hold whatever the visitors do.
use go_graphics.Studio.Sound.Keeping.{left}
use go_graphics.Studio.Sound.Choosing.{
  retry-IsBounded, set_favourite-IsBounded, cancel_batch-IsBounded, download-IsBounded,
}
use go_graphics.Common.{arith}
use go_graphics.Studio.Model.{Store, Services}
use go_graphics.Studio.System.{Step, Reach}
use go_graphics.Studio.Sound.{IsBounded}
use go_graphics.Studio.Sound.Planning.{IsCompact}
use go_graphics.Studio.Sound.Restoring.{OffersForms, restore-IsBounded}
use go_graphics.Studio.Sound.Opening.{create-IsBounded, start-IsBounded, clear-IsBounded}
use go_graphics.Studio.Sound.Reading.{
  session-IsBounded, get_exploration-IsBounded, favourites-IsBounded, recovery-IsBounded,
}
use go_graphics.Studio.Sound.Entering.{enter-IsBounded}
use go_graphics.Studio.Sound.Choosing.{choices-IsBounded}
use go_graphics.Studio.Sound.Generating.{generate-IsBounded}
use go_graphics.Studio.Sound.Saving.{with_queue-IsBounded}

module _ {S J : Type 0} (sv : Services S J) where
  Step-IsBounded :
      (s t : Store J) → IsCompact sv → OffersForms sv → Step sv s t → IsBounded s → IsBounded t
  Step-IsBounded _ _ law offers (Step.create_step h s) inv =
      left IsBounded _ (create-IsBounded sv.queue h s inv)
  Step-IsBounded _ _ law offers (Step.session_step h token s) inv =
      left IsBounded _ (session-IsBounded sv.queue h token s inv)
  Step-IsBounded _ _ law offers (Step.start_step h token id style colour s) inv =
      left IsBounded _ (start-IsBounded sv.queue h token id style colour s inv)
  Step-IsBounded _ _ law offers (Step.get_step h token id s) inv =
      left IsBounded _ (get_exploration-IsBounded sv.queue h token s inv id)
  Step-IsBounded _ _ law offers (Step.enter_step h token artwork style colour action_id s) inv =
      left IsBounded _ (enter-IsBounded sv h token artwork style colour action_id s law inv)
  Step-IsBounded _ _ law offers (Step.favourites_step sort h token s) inv =
      left IsBounded _ (favourites-IsBounded sv.queue h token s inv sort)
  Step-IsBounded _ _ law offers (Step.choices_step h token id revision style colour s) inv =
      left IsBounded _ (choices-IsBounded sv.queue h token id revision style colour s inv)
  Step-IsBounded _ _ law offers (Step.retry_step h token id revision action_id batch s) inv =
      left IsBounded _ (retry-IsBounded sv h token id revision action_id batch s law inv)
  Step-IsBounded _ _ law offers
        (Step.generate_step h token id revision action_id selected different s) inv =
      left IsBounded _
        (generate-IsBounded sv h token id revision action_id selected different s law inv)
  Step-IsBounded _ _ law offers (Step.favourite_step h token id sample revision on s) inv =
      left IsBounded _ (set_favourite-IsBounded sv.queue h token id sample revision on s inv)
  Step-IsBounded _ _ law offers (Step.cancel_step h token id revision batch s) inv =
      left IsBounded _ (cancel_batch-IsBounded sv.queue h token id revision batch s inv)
  Step-IsBounded _ _ law offers (Step.download_step h token id sample s) inv =
      left IsBounded _ (download-IsBounded sv.queue h token id sample s inv)
  Step-IsBounded _ _ law offers (Step.recovery_step h token s) inv =
      left IsBounded _ (recovery-IsBounded sv.queue h token s inv)
  Step-IsBounded _ _ law offers (Step.restore_step h token records s) inv =
      left IsBounded _ (restore-IsBounded sv h token records s law offers inv)
  Step-IsBounded _ _ law offers (Step.clear_step h token s) inv =
      clear-IsBounded sv.queue h token s inv
  Step-IsBounded _ _ law offers (Step.queue_step j s) inv = with_queue-IsBounded _ s inv

  -- If completed and validated recipes have at most 16384 bytes and validated ones belong to the
  -- offered art forms, then after any sequence of calls from any visitors there are at most 1000
  -- workspaces and 32 MiB of recipes, and in each workspace at most four explorations, eight remembered
  -- entries and 24 favourites, in each exploration at most eight batches and eight remembered actions.
  pub Reach-IsBounded : (s : Store J) → IsCompact sv → OffersForms sv → Reach sv s → IsBounded s
  unfolding IsBounded
  Reach-IsBounded _ law offers (Reach.begins jobs build) = (omega arith, tt, omega arith, tt)
  Reach-IsBounded _ law offers (Reach.steps s t before step) =
      Step-IsBounded s t law offers step (Reach-IsBounded s law offers before)
