-- ===== src/Studio/Persistent/RoundTrip.antt =====
-- What is saved comes back.
use go_graphics.Common.{
  refl, ◌≡◌, String, List, [], ◌∷◌, ◌++◌, map, length, length-map, none, arith, ap, sym, ◌∙◌, subst,
  same, false, true, All, ◌==◌,
}
use go_graphics.Common.Dict.{Dict, lookup, insert, Distinct}
use go_graphics.Common.Each.{Each}
use go_graphics.Artwork.{Recipe}
use go_graphics.RenderJob.Model.{ok}
use go_graphics.Studio.Model.{Sample, OpenExploration, OpenWorkspace, Action, EntryAction}
use go_graphics.Studio.Persistent.{
  Codec, SavedWorkspace, SavedExploration, saved, encode_workspace, decode_workspace,
  save_exploration, load_exploration, load_samples, load_all, save_all, load_entry, load_action,
  save_entry, save_action,
}

-- JSON drops the private fields of a recipe, so a sample loses its recipe.
abbrev pub blank_recipe : Recipe
blank_recipe = record { canonical = ""; id = ""; seed = ""; pal = ""; traits = [] }

abbrev pub bare : Sample → Sample
bare a = record a { recipe = blank_recipe }

abbrev pub bare_exploration : SavedExploration → SavedExploration
bare_exploration s = record s { view = record s.view { samples = map bare s.view.samples } }

abbrev pub as_json : SavedWorkspace → SavedWorkspace
as_json v = record v { explorations = map bare_exploration v.explorations }

-- The recipes of the samples are decoded recipes, and the favourites are left to the snapshots.
abbrev pub IsStorable : Codec → String → OpenExploration → Type 0
IsStorable c id x =
    (x.view.id ≡ id)
    × (x.view.favourites ≡ [])
    × All (λ a. c.decode_recipe a.recipe.canonical ≡ ok a.recipe) x.view.samples

load-save_actions : (xs : List Action) → map load_action (map save_action xs) ≡ xs
load-save_actions [] = refl
load-save_actions (a ∷ xs) = ap (λ ys. a ∷ ys) (load-save_actions xs)

load-save_entries : (xs : List EntryAction) → map load_entry (map save_entry xs) ≡ xs
load-save_entries [] = refl
load-save_entries (a ∷ xs) = ap (λ ys. a ∷ ys) (load-save_entries xs)

other_key :
    (i j : String) (x : OpenExploration) (xs ys : Dict OpenExploration)
    → lookup j (ys ++ ((i, x) ∷ xs)) ≡ none
    → same j i ≡ false
unfolding lookup
other_key i j x xs [] e = ground arith
other_key i j x xs ((k, y) ∷ ys) e = ground (arith, other_key i j x xs ys)

-- A key that comes later is written at the end.
insert_append :
    (i : String) (x : OpenExploration) (xs ys : Dict OpenExploration)
    → Distinct (ys ++ ((i, x) ∷ xs))
    → insert i x ys ≡ ys ++ ((i, x) ∷ [])
unfolding insert
insert_append i x xs [] d = refl
insert_append i x xs ((j, y) ∷ ys) d =
    rw (other_key i j x xs ys d.0) (ap (λ m. (j, y) ∷ m) (insert_append i x xs ys d.1))

append_step : {A : Type 0} (x : A) (xs ys : List A) → (ys ++ (x ∷ [])) ++ xs ≡ ys ++ (x ∷ xs)
append_step x xs [] = refl
append_step x xs (y ∷ ys) = ap (λ m. y ∷ m) (append_step x xs ys)

append_nil : {A : Type 0} (xs : List A) → xs ++ [] ≡ xs
append_nil [] = refl
append_nil (x ∷ xs) = ap (λ m. x ∷ m) (append_nil xs)

as_many :
    (xs : List Sample) → (length (map (λ a. a.recipe.canonical) xs) == length (map bare xs)) ≡ true
as_many xs = ground (arith, length-map (λ (a : Sample). a.recipe.canonical) xs, length-map bare xs)

module _ (c : Codec) where
  load-save_samples :
      (xs : List Sample)
      → All (λ a. c.decode_recipe a.recipe.canonical ≡ ok a.recipe) xs
      → load_samples c (map (λ a. a.recipe.canonical) xs) (map bare xs) ≡ ok xs
  load-save_samples [] fine = refl
  load-save_samples (a ∷ xs) fine = rw (fine.0, load-save_samples xs fine.1) refl

  load-save_exploration :
      (id : String) (x : OpenExploration)
      → IsStorable c id x
      → load_exploration c (bare_exploration (save_exploration x)) ≡ ok x
  load-save_exploration id x fine =
      rw
        (
          as_many x.view.samples,
          load-save_samples x.view.samples fine.2,
          load-save_actions x.actions,
        )
        (ap (λ f. ok (record x { view = record x.view { favourites = f } })) (sym fine.1))

  load-save_all :
      (xs ys : Dict OpenExploration)
      → Each (IsStorable c) xs
      → Distinct (ys ++ xs)
      → load_all c (map bare_exploration (save_all xs)) ys ≡ ok (ys ++ xs)
  load-save_all [] ys fine d = ap ok (sym (append_nil ys))
  load-save_all ((i, x) ∷ xs) ys fine d = rw (load-save_exploration i x fine.0) (
      ap (load_all c (map bare_exploration (save_all xs)))
        (ap (λ k. insert k x ys) fine.0.0 ∙ insert_append i x xs ys d)
      ∙ load-save_all xs (ys ++ ((i, x) ∷ [])) fine.1
          (subst Distinct (sym (append_step (i, x) xs ys)) d)
      ∙ ap ok (append_step (i, x) xs ys))

  -- If JSON gives back what it was given, but for the recipes of the samples, if the explorations stand
  -- under their own distinct names and their samples have recipes that `artwork.Decode` reads back, then
  -- loading a saved workspace into a new one restores all its explorations and remembered entries.
  pub decode-encode :
      (w fresh : OpenWorkspace) (text : String)
      → encode_workspace c w ≡ ok text
      → c.unmarshal text ≡ ok (as_json (saved w))
      → same text "" ≡ false
      → Each (IsStorable c) w.explorations
      → Distinct w.explorations
      → fresh.explorations ≡ []
      → fresh.entries ≡ []
      → decode_workspace c text fresh
        ≡ ok (record fresh { explorations = w.explorations; entries = w.entries })
  unfolding decode_workspace
  decode-encode w fresh text encoded decoded full fine d e1 e2 =
      rw
        (full, decoded, e1, e2, load-save_all w.explorations [] fine d, load-save_entries w.entries)
        refl
