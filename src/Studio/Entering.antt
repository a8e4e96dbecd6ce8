-- ===== src/Studio/Entering.antt =====
-- internal/studio/studio.go: `Enter` and `Restore`.
use go_graphics.Common.{
  ℕ, suc, ◌+◌, ◌*◌, ◌^◌, String, Bool, true, false, ◌||◌, not, Option, none, some, List, [], ◌∷◌,
  ◌++◌, length, if◌then◌else◌, same, leb, ltb,
}
use go_graphics.Common.Dict.{Dict, lookup, insert, delete}
use go_graphics.Common.Int.{pos}
use go_graphics.Common.Names.{contains}
use go_graphics.Artwork.{Recipe}
use go_graphics.Publish.{pins}
use go_graphics.RenderJob.Model.{Result, ok, err, busy, err_conflict, failure}
use go_graphics.RenderJob.Protocol.{◌>>=◌ as and_then}
use go_graphics.Studio.Model.{
  Sample, EntryAction, OpenExploration, OpenWorkspace, Store, Services, Ambient, Operation, ◌>>=◌,
  save, on_workspace, later_tokens, after_check,
}
use go_graphics.Studio.Visits.{workspace, new_exploration}
use go_graphics.Studio.Generation.{generate, last_eight, recipe_bytes}
use go_graphics.Studio.Choosing.{restyled}

abbrev pub entry_of : String → List EntryAction → Option EntryAction
entry_of id [] = none
entry_of id (a ∷ rest) = if same a.id id then some a else entry_of id rest

abbrev pub is_same_entry : String → String → String → EntryAction → Bool
is_same_entry artwork style colour a =
    not (not (same a.artwork artwork) || (not (same a.style style) || not (same a.colour colour)))

-- The first exploration of this art form, with its key.
abbrev pub form_in : String → Dict OpenExploration → Option (String × OpenExploration)
form_in artwork [] = none
form_in artwork ((i, x) ∷ rest) =
    if same x.view.artwork artwork then some (i, x) else form_in artwork rest

module _ {J : Type 0} where
  -- A write to the style and the colour through the pointer that `Enter` holds.
  abbrev pub restyle : String → String → String → String → Store J → Store J
  restyle token id style colour s =
      on_workspace token
        (λ w. elim (lookup id w.explorations) [
          | none ↦ w
          | some x ↦ record w { explorations = insert id (restyled style colour x) w.explorations }
        ])
        s

  abbrev pub forget : String → String → Store J → Store J
  forget token id s =
      on_workspace token (λ w. record w { explorations = delete id w.explorations }) s

  abbrev pub note_entry : String → EntryAction → Store J → Store J
  note_entry token a s =
      on_workspace token (λ w. record w { entries = last_eight (w.entries ++ (a ∷ [])) }) s

  -- What follows the call of `generate`: on an error everything is put back.
  abbrev pub conclude :
      String
      → String
      → Bool
      → EntryAction
      → OpenExploration
      → Result String × Store J
      → Result String × Store J
  conclude token key fresh a x (err e, s) =
      let undone = restyle token key x.view.style x.view.colour s in
      (err e, if fresh then forget token x.view.id undone else undone)
  conclude token key fresh a x (ok _, s) = (ok x.view.id, note_entry token a s)

module _ {S J : Type 0} (sv : Services S J) where
  abbrev pub new_entry : String → String → String → String → OpenExploration → EntryAction
  new_entry artwork style colour action_id x = record {
    id = action_id;
    artwork = artwork;
    style = style;
    colour = colour;
    exploration = x.view.id;
  }

  abbrev pub fill :
      Ambient
      → Bool
      → String
      → String
      → String
      → String
      → String
      → String
      → OpenExploration
      → Operation J String
  fill h fresh token key artwork style colour action_id x s =
      conclude token key fresh (new_entry artwork style colour action_id x) x (
        generate sv h token x.view.id (pos x.view.revision) action_id [] false
          (save token key (restyled style colour x) s))

  abbrev pub enter_form :
      Ambient → String → String → String → String → String → OpenWorkspace → Operation J String
  enter_form h token artwork style colour action_id w s = elim (form_in artwork w.explorations) [
    | some (key, x) ↦ fill h false token key artwork style colour action_id x s
    | none ↦
        if leb 4 (length w.explorations)
        then (err busy, s)
        else fill (later_tokens 1 h) true token (h.token 0) artwork style colour action_id
            (new_exploration (h.token 0) artwork "" "") s
  ]

  abbrev pub enter_workspace :
      Ambient → String → String → String → String → String → OpenWorkspace → Operation J String
  enter_workspace h token artwork style colour action_id w s = elim (entry_of action_id w.entries) [
    | some a ↦
        if is_same_entry artwork style colour a
        then (ok a.exploration, s)
        else (err err_conflict, s)
    | none ↦ enter_form h token artwork style colour action_id w s
  ]

  unfoldable pub enter : Ambient → String → String → String → String → String → Operation J String
  enter h token artwork style colour action_id =
      after_check (pins artwork style colour)
        (workspace sv.queue h token >>= enter_workspace h token artwork style colour action_id)

  -- The loop in front of the lock; `seen` holds the digests.
  abbrev pub read_records : List String → List String → Result (List Recipe)
  read_records seen [] = ok []
  read_records seen (raw ∷ rest) = and_then (sv.validate raw) λ r.
      if contains (sv.recipe_digest r.canonical) seen
      then read_records seen rest
      else and_then (read_records (sv.recipe_digest r.canonical ∷ seen) rest)
          λ recipes. ok (r ∷ recipes)

  abbrev pub restored_sample : String → Recipe → Sample
  restored_sample id r = record {
    id = id;
    style = "";
    colour = "";
    recipe = r;
    job = "";
    download = "";
    favourite = true;
    cancelled = false;
    status = none;
    download_status = none;
  }

  abbrev pub add_sample : Sample → OpenExploration → OpenExploration
  add_sample a x = record x { view = record x.view { samples = x.view.samples ++ (a ∷ []) } }

  -- One round of the loop: `n` tokens are used, and `byArt` is the exploration of the art form, since
  -- all explorations of the workspace stem from this loop.
  abbrev pub restore_all : Ambient → ℕ → List Recipe → Dict OpenExploration → Dict OpenExploration
  restore_all h n [] xs = xs
  restore_all h n (r ∷ rest) xs = elim (form_in r.id xs) [
    | some (key, x) ↦
        restore_all h (suc n) rest (insert key (add_sample (restored_sample (h.token n) r) x) xs)
    | none ↦ restore_all h (suc (suc n)) rest (
        insert (h.token n)
          (add_sample (restored_sample (h.token (suc n)) r)
            (new_exploration (h.token n) r.id "" ""))
          xs)
  ]

  -- The exploration of the first recipe takes the first token.
  abbrev pub first_id : Ambient → List Recipe → String
  first_id h [] = ""
  first_id h (r ∷ rest) = h.token 0

  abbrev pub restore_workspace : Ambient → String → List Recipe → OpenWorkspace → Operation J String
  restore_workspace h token recipes w s =
      if not (leb (length w.explorations) 0)
      then (err (failure "restore into a fresh session to preserve your current choices"), s)
      else if ltb (32 * 2 ^ 20) (recipe_bytes s + length recipes * 16384)
      then (err busy, s)
      else (
        ok (first_id h recipes),
        on_workspace token (λ w. record w { explorations = restore_all h 0 recipes w.explorations })
            s,
      )

  abbrev pub restore_recipes : Ambient → String → Result (List Recipe) → Operation J String
  restore_recipes h token (err e) s = (err e, s)
  restore_recipes h token (ok recipes) s =
      (workspace sv.queue h token >>= restore_workspace h token recipes) s

  unfoldable pub restore : Ambient → String → List String → Operation J String
  restore h token records s =
      if ltb 24 (length records)
      then (err (failure "too many favourites"), s)
      else restore_recipes h token (read_records [] records) s
