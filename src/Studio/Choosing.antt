-- ===== src/Studio/Choosing.antt =====
-- internal/studio/studio.go: `Choices`, `Favourite`, `Cancel`, `Download` and `Retry`.
use go_graphics.Common.{
  ℕ, suc, String, Bool, true, false, ◌||◌, ◌&&◌, not, Option, none, some, List, [], ◌∷◌, total, bit,
  if◌then◌else◌, same, leb,
}
use go_graphics.Common.Dict.{lookup, sum_of}
use go_graphics.Common.Int.{ℤ, pos}
use go_graphics.Common.Names.{contains}
use go_graphics.Artwork.{Recipe}
use go_graphics.Publish.{pins}
use go_graphics.RenderJob.Model.{
  Result, ok, err, busy, err_conflict, err_expired, failure, Request, Status, is_ready, is_live,
}
use go_graphics.Studio.Model.{
  Sample, Batch, OpenExploration, OpenWorkspace, Store, Services, Jobs, Ambient, Operation, ◌>>=◌,
  is_revision, save, has, after_check, Action, or_fail,
}
use go_graphics.Studio.Visits.{find}
use go_graphics.Studio.View.{snapshot}
use go_graphics.Studio.Generation.{generate, action_in}

abbrev pub restyled : String → String → OpenExploration → OpenExploration
restyled style colour x = record x { view = record x.view { style = style; colour = colour } }

abbrev pub revised : OpenExploration → OpenExploration
revised x = record x { view = record x.view { revision = suc x.view.revision } }

abbrev pub with_samples : List Sample → OpenExploration → OpenExploration
with_samples samples x = record x { view = record x.view { samples = samples } }

-- The first sample of this name.
abbrev pub sample_in : String → List Sample → Option Sample
sample_in id [] = none
sample_in id (a ∷ rest) = if same a.id id then some a else sample_in id rest

-- A write to the first sample of this name.
abbrev pub replace : String → (Sample → Sample) → List Sample → List Sample
replace id f [] = []
replace id f (a ∷ rest) =
    let more = replace id f rest in if same a.id id then f a ∷ rest else a ∷ more

abbrev pub exploration_kept : OpenExploration → ℕ
exploration_kept x = total (λ a. bit a.favourite) x.view.samples

-- The count of the favourites of a workspace.
abbrev pub kept_count : OpenWorkspace → ℕ
kept_count w = sum_of exploration_kept w.explorations

abbrev pub count_at : Option OpenWorkspace → ℕ
count_at none = 0
count_at (some w) = kept_count w

abbrev pub mark : Bool → Sample → Sample
mark on a = record a { favourite = on }

abbrev pub last_batch : List Batch → Option Batch
last_batch [] = none
last_batch (b ∷ []) = some b
last_batch (b ∷ c ∷ rest) = last_batch (c ∷ rest)

abbrev pub is_last : String → Option Batch → Bool
is_last id none = false
is_last id (some b) = same b.id id

abbrev pub members : Option Batch → List String
members none = []
members (some b) = b.samples

abbrev pub batch_in : String → List Batch → Option Batch
batch_in id [] = none
batch_in id (b ∷ rest) = if same b.id id then some b else batch_in id rest

abbrev pub parents_named : Batch → List String
parents_named b = if same b.parent "" then [] else b.parent ∷ []

module _ {J : Type 0} (queue : Jobs J) (h : Ambient) where
  abbrev pub choose :
      String → String → ℤ → String → String → OpenExploration → Operation J (Unit {0})
  choose token id revision style colour x s =
      if not (is_revision revision x.view.revision)
      then (err err_conflict, s)
      else after_check (pins x.view.artwork style colour)
          (λ t. (ok tt, save token id (revised (restyled style colour x)) t)) s

  unfoldable pub choices : String → String → ℤ → String → String → Operation J (Unit {0})
  choices token id revision style colour = do
    x ← find queue h token id
    choose token id revision style colour x

  abbrev pub keep_sample :
      String → String → String → Bool → OpenExploration → Sample → Operation J (Unit {0})
  keep_sample token id sample on x a s =
      if on && (not a.favourite && leb 24 (count_at (lookup token s.workspaces)))
      then (err (failure "24 favourites kept; remove one before adding another"), s)
      else (
        ok tt,
        save token id (revised (with_samples (replace sample (mark on) x.view.samples) x)) s,
      )

  abbrev pub keep : String → String → String → ℤ → Bool → OpenExploration → Operation J (Unit {0})
  keep token id sample revision on x s =
      if not (is_revision revision x.view.revision)
      then (err err_conflict, s)
      else or_fail err_expired (sample_in sample x.view.samples) (keep_sample token id sample on x)
          s

  -- The method `Favourite`.
  unfoldable pub set_favourite : String → String → String → ℤ → Bool → Operation J (Unit {0})
  set_favourite token id sample revision on = do
    x ← find queue h token id
    keep token id sample revision on x

  -- The loop over the samples: it leaves the unfinished jobs of the members.
  abbrev pub leave : String → List String → List Sample → J → List Sample × J
  leave token names [] j = ([], j)
  leave token names (a ∷ rest) j =
      if contains a.id names && is_live (queue.status j token a.job).state
      then (
        record a { cancelled = true } ∷ (leave token names rest (queue.cancel token a.job j)).0,
        (leave token names rest (queue.cancel token a.job j)).1,
      )
      else (a ∷ (leave token names rest j).0, (leave token names rest j).1)

  abbrev pub leave_all :
      String → String → List String → OpenExploration → Option J → Store J → Store J
  leave_all token id names x none s = save token id (revised x) s
  leave_all token id names x (some j) s =
      let left = leave token names x.view.samples j in
      save token id (revised (with_samples left.0 x)) (record s { jobs = some left.1 })

  abbrev pub stop : String → String → ℤ → String → OpenExploration → Operation J (Unit {0})
  stop token id revision batch x s =
      if not (is_revision revision x.view.revision)
        || not (is_last batch (last_batch x.view.batches))
      then (err err_conflict, s)
      else (ok tt, leave_all token id (members (last_batch x.view.batches)) x s.jobs s)

  -- The method `Cancel`.
  unfoldable pub cancel_batch : String → String → ℤ → String → Operation J (Unit {0})
  cancel_batch token id revision batch = do
    x ← find queue h token id
    stop token id revision batch x

  abbrev pub is_served : Status → Bool
  is_served t = is_live t.state || is_ready t.state

  abbrev pub has_download : J → String → Sample → Bool
  has_download j token a = not (same a.download "") && is_served (queue.status j token a.download)

  abbrev pub download_request : String → Recipe → Request
  download_request build r = record {
    version = pos 1;
    build = build;
    recipe = r.canonical;
    tier = "download";
  }

  abbrev pub with_download : List String → Sample → Sample
  with_download [] a = a
  with_download (job ∷ rest) a = record a { download = job }

  -- The queue answers one request with one job; Go panics on none.
  abbrev pub record_download :
      String → String → String → OpenExploration → Result (List String) × J → Operation J (Unit {0})
  record_download token id sample x (err e, j) s = (err e, record s { jobs = some j })
  record_download token id sample x (ok jobs, j) s = (
    ok tt,
    save token id (with_samples (replace sample (with_download jobs) x.view.samples) x)
        (record s { jobs = some j }),
  )

  abbrev pub order_from :
      String → String → String → OpenExploration → Sample → J → Operation J (Unit {0})
  order_from token id sample x a j s =
      if has_download j token a
      then (ok tt, s)
      else record_download token id sample x
          (queue.admit token (download_request s.build a.recipe ∷ []) j) s

  abbrev pub order : String → String → String → OpenExploration → Sample → Operation J (Unit {0})
  order token id sample x a s = or_fail busy s.jobs (order_from token id sample x a) s

  abbrev pub order_in : String → String → String → OpenExploration → Operation J (Unit {0})
  order_in token id sample x =
      or_fail err_expired (sample_in sample x.view.samples) (order token id sample x)

  unfoldable pub download : String → String → String → Operation J (Unit {0})
  download token id sample = do x ← find queue h token id; order_in token id sample x

abbrev pub is_done : Option Action → Bool
is_done none = false
is_done (some a) = true

-- A sample of the batch that is ready or under way.
abbrev pub is_available : List String → List Sample → Bool
is_available names [] = false
is_available names (a ∷ rest) =
    (contains a.id names && (has is_ready a.status || has is_live a.status))
    || is_available names rest

module _ {S J : Type 0} (sv : Services S J) (h : Ambient) where
  abbrev pub retry_batch :
      String → String → ℤ → String → OpenExploration → Batch → Operation J String
  retry_batch token id revision action_id x b s =
      let again = generate sv h token id revision action_id (parents_named b) false s in
      if is_done (action_in action_id x.actions)
      then again
      else if not (is_revision revision x.view.revision)
          || not (is_last b.id (last_batch x.view.batches))
      then (err err_conflict, s)
      else if is_available b.samples (snapshot sv.queue s.jobs token x).samples
      then (err (failure "these images are still available or being made"), s)
      else again

  abbrev pub retry_in : String → String → ℤ → String → String → OpenExploration → Operation J String
  retry_in token id revision action_id batch x =
      or_fail err_expired (batch_in batch x.view.batches)
        (retry_batch token id revision action_id x)

  unfoldable pub retry : String → String → ℤ → String → String → Operation J String
  retry token id revision action_id batch = do
    x ← find sv.queue h token id
    retry_in token id revision action_id batch x
