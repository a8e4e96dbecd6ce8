-- ===== src/Studio/System.antt =====
-- internal/studio/studio.go: the store as a whole. Every handler holds the lock, so any order of calls is
-- a sequence of these steps. The queue moves on by itself between them.
pub mod Invariant
use go_graphics.Common.{refl, ℕ, String, Bool, List, [], Option, some, none, ◌≡◌, arith, false}
use go_graphics.Common.Int.{ℤ}
use go_graphics.Studio.Model.{Store, Services, Ambient, Favourite}
use go_graphics.Studio.Visits.{create, session, start, clear}
use go_graphics.Studio.View.{get_exploration, favourites, recovery}
use go_graphics.Studio.Generation.{generate}
use go_graphics.Studio.Choosing.{choices, set_favourite, cancel_batch, download, retry}
use go_graphics.Studio.Entering.{enter, restore}

-- The method `New`.
abbrev pub new_store : {J : Type 0} → Option J → String → Store J
new_store jobs build = record { workspaces = []; jobs = jobs; build = build; persistent = false }

module _ {S J : Type 0} (sv : Services S J) where
  pub data Step : Store J → Store J → Type 0 where
    create_step : (h : Ambient) (s : Store J) → Step s (create sv.queue h s).1
    session_step :
        (h : Ambient) (token : String) (s : Store J) → Step s (session sv.queue h token s).1
    start_step :
        (h : Ambient) (token id style colour : String) (s : Store J)
        → Step s (start sv.queue h token id style colour s).1
    get_step :
        (h : Ambient) (token id : String) (s : Store J)
        → Step s (get_exploration sv.queue h token id s).1
    enter_step :
        (h : Ambient) (token artwork style colour action_id : String) (s : Store J)
        → Step s (enter sv h token artwork style colour action_id s).1
    favourites_step :
        (sort : List Favourite → List Favourite) (h : Ambient) (token : String) (s : Store J)
        → Step s (favourites sv.queue sort h token s).1
    choices_step :
        (h : Ambient) (token id : String) (revision : ℤ) (style colour : String) (s : Store J)
        → Step s (choices sv.queue h token id revision style colour s).1
    retry_step :
        (h : Ambient) (token id : String) (revision : ℤ) (action_id batch : String) (s : Store J)
        → Step s (retry sv h token id revision action_id batch s).1
    generate_step :
        (h : Ambient) (token id : String) (revision : ℤ) (action_id : String)
        (selected : List String) (different : Bool) (s : Store J)
        → Step s (generate sv h token id revision action_id selected different s).1
    favourite_step :
        (h : Ambient) (token id sample : String) (revision : ℤ) (on : Bool) (s : Store J)
        → Step s (set_favourite sv.queue h token id sample revision on s).1
    cancel_step :
        (h : Ambient) (token id : String) (revision : ℤ) (batch : String) (s : Store J)
        → Step s (cancel_batch sv.queue h token id revision batch s).1
    download_step :
        (h : Ambient) (token id sample : String) (s : Store J)
        → Step s (download sv.queue h token id sample s).1
    recovery_step :
        (h : Ambient) (token : String) (s : Store J) → Step s (recovery sv.queue h token s).1
    restore_step :
        (h : Ambient) (token : String) (records : List String) (s : Store J)
        → Step s (restore sv h token records s).1
    clear_step : (h : Ambient) (token : String) (s : Store J) → Step s (clear sv.queue h token s)
    queue_step : (j : J) (s : Store J) → Step s (record s { jobs = some j })

  -- The stores that calls lead to from `New`.
  pub data Reach : Store J → Type 0 where
    begins : (jobs : Option J) (build : String) → Reach (new_store jobs build)
    steps : (s t : Store J) → Reach s → Step s t → Reach t
