-- ===== src/Studio/Visits.antt =====
-- internal/studio/studio.go: `Create`, `prune`, `workspace`, `Session`, `Start`, `find` and `Clear`.
pub mod Finding
pub mod Leaving
use go_graphics.Common.{
  ℕ, ◌*◌, String, Bool, false, ◌||◌, not, Option, none, some, List, [], ◌∷◌, length, if◌then◌else◌,
  leb,
}
use go_graphics.Common.Dict.{Dict, lookup, insert, retain}
use go_graphics.RenderJob.Model.{ok, err, busy, err_expired, failure, older, minute}
use go_graphics.Publish.{pins}
use go_graphics.Studio.Model.{
  Workspace, Sample, OpenExploration, OpenWorkspace, Exploration, Store, Jobs, Ambient, Operation,
  ◌>>=◌, on_workspace, save, after_check, or_fail,
}

abbrev pub is_lapsed : ℕ → OpenWorkspace → Bool
is_lapsed now w = older now w.touched (30 * minute) || older now w.created (24 * 60 * minute)

abbrev pub new_workspace : Ambient → Workspace → OpenWorkspace
new_workspace h w = record {
  workspace = w;
  created = h.now;
  touched = h.now;
  explorations = [];
  entries = [];
}

abbrev pub new_session : Ambient → Workspace
new_session h = record { token = h.token 0; csrf = h.token 1 }

abbrev pub touch : ℕ → OpenWorkspace → OpenWorkspace
touch now w = record w { touched = now }

abbrev pub new_exploration : String → String → String → String → OpenExploration
new_exploration id artwork style colour = record {
  view = record {
    id = id;
    artwork = artwork;
    style = style;
    colour = colour;
    revision = 0;
    batches = [];
    samples = [];
    favourites = [];
    active = false;
  };
  actions = [];
  round = 0;
}

module _ {J : Type 0} (queue : Jobs J) where
  abbrev pub cancel_samples : String → List Sample → J → J
  cancel_samples key [] j = j
  cancel_samples key (a ∷ rest) j =
      cancel_samples key rest (queue.cancel key a.download (queue.cancel key a.job j))

  abbrev pub cancel_explorations : String → Dict OpenExploration → J → J
  cancel_explorations key [] j = j
  cancel_explorations key ((i, x) ∷ rest) j =
      cancel_explorations key rest (cancel_samples key x.view.samples j)

  -- The loop over the workspaces, as far as it calls the queue.
  abbrev pub cancel_lapsed : ℕ → Dict OpenWorkspace → J → J
  cancel_lapsed now [] j = j
  cancel_lapsed now ((key, w) ∷ rest) j =
      cancel_lapsed now rest
        (if is_lapsed now w then cancel_explorations key w.explorations j else j)

  abbrev pub on_queue : (J → J) → Option J → Option J
  on_queue f none = none
  on_queue f (some j) = some (f j)

  abbrev pub swept : ℕ → Store J → Store J
  swept now s = record s {
    workspaces = retain (λ w. not (is_lapsed now w)) s.workspaces;
    jobs = on_queue (cancel_lapsed now s.workspaces) s.jobs;
  }

  unfoldable pub prune : ℕ → Store J → Store J
  prune now s = if s.persistent then s else swept now s

  abbrev pub add_workspace : Ambient → Operation J Workspace
  add_workspace h s = if leb 1000 (length s.workspaces) then (err busy, s) else (
    ok (new_session h),
    record s { workspaces = insert (h.token 0) (new_workspace h (new_session h)) s.workspaces },
  )

  unfoldable pub create : Ambient → Operation J Workspace
  create h s = add_workspace h (prune h.now s)

  abbrev pub enter_store : ℕ → String → Operation J OpenWorkspace
  enter_store now token s = elim (lookup token s.workspaces) [
    | none ↦ (err err_expired, s)
    | some w ↦ (ok (touch now w), record s { workspaces = insert token (touch now w) s.workspaces })
  ]

  unfoldable pub workspace : Ambient → String → Operation J OpenWorkspace
  workspace h token s = enter_store h.now token (prune h.now s)

  unfoldable pub session : Ambient → String → Operation J Workspace
  session h token = do w ← workspace h token; λ s. (ok w.workspace, s)

  abbrev pub open_exploration :
      Ambient → String → String → String → String → OpenWorkspace → Operation J Exploration
  open_exploration h token id style colour w s =
      if leb 4 (length w.explorations)
      then (err (failure "you have four explorations open; clear this session to begin again"), s)
      else (
        ok (new_exploration (h.token 0) id style colour).view,
        save token (h.token 0) (new_exploration (h.token 0) id style colour) s,
      )

  unfoldable pub start : Ambient → String → String → String → String → Operation J Exploration
  start h token id style colour =
      after_check (pins id style colour)
        (workspace h token >>= open_exploration h token id style colour)

  abbrev pub pick : String → OpenWorkspace → Operation J OpenExploration
  pick id w = or_fail err_expired (lookup id w.explorations) (λ x s. (ok x, s))

  unfoldable pub find : Ambient → String → String → Operation J OpenExploration
  find h token id = do w ← workspace h token; pick id w

  -- `touched = time.Time{}` puts the last visit far into the past.
  unfoldable pub clear : Ambient → String → Store J → Store J
  clear h token s = prune h.now (on_workspace token (touch 0) s)
