-- ===== src/Studio/View.antt =====
-- internal/studio/studio.go: `snapshot`, `Get`, `Favourites` and `Recovery`.
use go_graphics.Common.{
  String, Bool, false, ◌||◌, ◌&&◌, not, Option, none, some, List, [], ◌∷◌, ◌++◌, map, select,
  if◌then◌else◌, same,
}
use go_graphics.Common.Dict.{Dict}
use go_graphics.RenderJob.Model.{ok, Status, expired, cancelled, is_ready, is_live}
use go_graphics.Publish.{get, Entry}
use go_graphics.Studio.Model.{
  Sample, OpenExploration, Exploration, Favourite, Jobs, Ambient, Operation, ◌>>=◌, has,
}
use go_graphics.Studio.Visits.{find, workspace}

abbrev gone_status : Status
gone_status = record { id = ""; state = expired; message = "" }

module _ {J : Type 0} (queue : Jobs J) where
  abbrev pub ask_download : J → String → Sample → Option Status
  ask_download j token a =
      if same a.download "" then a.download_status else some (queue.status j token a.download)

  abbrev pub ask : Option J → String → Sample → Sample
  ask none token a = record a { status = some gone_status }
  ask (some j) token a = record a {
    status = some (queue.status j token a.job);
    download_status = ask_download j token a;
  }

  -- A finished download stands in for a preview that is not there.
  abbrev pub prefer_download : Sample → Sample
  prefer_download a =
      if not (has is_ready a.status) && has is_ready a.download_status
      then record a { status = a.download_status; job = a.download }
      else a

  abbrev pub cancel_status : Option Status → Option Status
  cancel_status none = none
  cancel_status (some t) = some (record t { state = cancelled })

  abbrev pub show_cancelled : Sample → Sample
  show_cancelled a =
      if a.cancelled && not (has is_ready a.status)
      then record a { status = cancel_status a.status }
      else a

  unfoldable pub shown : Option J → String → Sample → Sample
  shown jobs token a = show_cancelled (prefer_download (ask jobs token a))

  abbrev pub is_busy : Sample → Bool
  is_busy a = has is_live a.status || has is_live a.download_status

  abbrev pub any_busy : List Sample → Bool
  any_busy [] = false
  any_busy (a ∷ rest) = is_busy a || any_busy rest

  unfoldable pub snapshot : Option J → String → OpenExploration → Exploration
  snapshot jobs token x = record x.view {
    samples = map (shown jobs token) x.view.samples;
    favourites = select (λ a. a.favourite) (map (shown jobs token) x.view.samples);
    active = any_busy (map (shown jobs token) x.view.samples);
  }

  -- The method `Get`.
  unfoldable pub get_exploration : Ambient → String → String → Operation J Exploration
  get_exploration h token id = do x ← find queue h token id; λ s. (ok (snapshot s.jobs token x), s)

  abbrev entry_name : Option Entry → String
  entry_name none = ""
  entry_name (some e) = e.name

  abbrev pub kept_images : Option J → String → OpenExploration → List Favourite
  kept_images jobs token x =
      map
        (λ a. record {
          sample = a;
          exploration_id = x.view.id;
          artwork_name = entry_name (get x.view.artwork);
          revision = x.view.revision;
        })
        (snapshot jobs token x).favourites

  abbrev pub all_kept : Option J → String → Dict OpenExploration → List Favourite
  all_kept jobs token [] = []
  all_kept jobs token ((i, x) ∷ rest) = kept_images jobs token x ++ all_kept jobs token rest

  -- `sort` orders by the samples' ids, as `sort.Slice` does.
  unfoldable pub favourites :
      (List Favourite → List Favourite) → Ambient → String → Operation J (List Favourite)
  favourites sort h token = do
    w ← workspace queue h token
    λ s. (ok (sort (all_kept s.jobs token w.explorations)), s)

  abbrev pub kept_records : List Sample → List String
  kept_records samples = map (λ a. a.recipe.canonical) (select (λ a. a.favourite) samples)

  abbrev pub all_records : Dict OpenExploration → List String
  all_records [] = []
  all_records ((i, x) ∷ rest) = kept_records x.view.samples ++ all_records rest

  unfoldable pub recovery : Ambient → String → Operation J (List String)
  recovery h token = do w ← workspace queue h token; λ s. (ok (all_records w.explorations), s)
