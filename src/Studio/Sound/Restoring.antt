-- ===== src/Studio/Sound/Restoring.antt =====
-- The limits, kept by `Restore`: its loop makes one exploration for each art form.
use go_graphics.Common.{
  refl, ℕ, suc, ◌+◌, ◌*◌, ◌^◌, ◌≤◌, String, true, false, List, [], ◌∷◌, ◌≡◌, some, none, arith,
  Bool-cases, Option-cases, inl, inr, length, leb, All, map, same, subst, bit, if_true, if_false,
  ltb,
}
use go_graphics.Common.Dict.{Dict, lookup, insert, sum_of, Distinct, sum_of-insert, insert-Distinct}
use go_graphics.Common.Each.{Each, Each-insert, Each-lookup}
use go_graphics.Common.Names.{contains, discard, length-discard-le, contains-discard}
use go_graphics.Artwork.{Recipe}
use go_graphics.Publish.{all}
use go_graphics.RenderJob.Model.{Result, ok, err}
use go_graphics.RenderJob.Protocol.{ok_inj, bind_ok}
use go_graphics.Studio.Model.{Store, Services, Ambient, OpenWorkspace, OpenExploration}
use go_graphics.Studio.Visits.{workspace, new_exploration}
use go_graphics.Studio.Entering.{
  restore, restore_all, form_in, read_records, add_sample, restored_sample, restore_workspace,
  restore_recipes,
}
use go_graphics.Studio.Generation.Planning.{has_twice}
use go_graphics.Studio.Sound.{IsBounded, IsShort, IsModest}
use go_graphics.Studio.Sound.Planning.{IsSmall, IsCompact}
use go_graphics.Studio.Choosing.{exploration_kept}
use go_graphics.Studio.Generation.{exploration_size, recipe_size, recipe_bytes}
use go_graphics.Studio.Sound.Entering.{form_in_found}
use go_graphics.Studio.Visits.{new_exploration}
use go_graphics.Studio.Sound.Extending.{total-append}
use go_graphics.Studio.Sound.Keeping.{Leaves, leaves, continue_keeps}
use go_graphics.Studio.Sound.Visiting.{workspace-IsBounded, workspace_found}
use go_graphics.Studio.Sound.Saving.{Holds-IsModest, on_workspace-IsBounded}

abbrev pub forms : List String
forms = map (λ e. e.id) all

abbrev artworks : Dict OpenExploration → List String
artworks [] = []
artworks ((i, x) ∷ rest) = x.view.artwork ∷ artworks rest

-- `publish.Validate` looks the art form up in the catalogue.
abbrev pub IsOffered : Recipe → Type 0
IsOffered r = contains r.id forms ≡ true

length-discard-lt :
    (k : String) (xs : List String) → contains k xs ≡ true → suc (length (discard k xs)) ≤ length xs
unfolding contains discard
length-discard-lt k [] e = absurd (ground arith)
length-discard-lt k (x ∷ xs) e = ground (arith, length-discard-lt k xs, length-discard-le k xs)

inside_discard :
    (k : String) (xs ys : List String)
    → contains k xs ≡ false
    → All (λ x. contains x ys ≡ true) xs
    → All (λ x. contains x (discard k ys) ≡ true) xs
unfolding contains
inside_discard k [] ys absent inside = tt
inside_discard k (x ∷ xs) ys absent inside = (
  ground (arith, contains-discard k x ys, inside.0),
  inside_discard k xs ys (ground arith) inside.1,
)

-- A list without repetition is no longer than a list that has all its members.
fits_in :
    (xs ys : List String)
    → has_twice xs ≡ false
    → All (λ x. contains x ys ≡ true) xs
    → length xs ≤ length ys
fits_in [] ys once inside = omega arith
fits_in (x ∷ xs) ys once inside =
    let rest =
      fits_in xs (discard x ys) (ground arith) (inside_discard x xs ys (ground arith) inside.1) in
    omega (arith, rest, length-discard-lt x ys inside.0)

artworks-form_in :
    (a : String) (xs : Dict OpenExploration)
    → form_in a xs ≡ none
    → contains a (artworks xs) ≡ false
unfolding contains
artworks-form_in a [] e = refl
artworks-form_in a ((i, x) ∷ xs) e = ground (arith, artworks-form_in a xs)

artworks_kept :
    (k : String) (x y : OpenExploration) (xs : Dict OpenExploration)
    → lookup k xs ≡ some x
    → y.view.artwork ≡ x.view.artwork
    → artworks (insert k y xs) ≡ artworks xs
unfolding lookup insert
artworks_kept k x y [] e same_art = absurd (ground arith)
artworks_kept k x y ((i, z) ∷ xs) e same_art = ground (arith, artworks_kept k x y xs)

artworks_new :
    (k a : String) (y : OpenExploration) (xs : Dict OpenExploration)
    → contains a (artworks xs) ≡ false
    → same y.view.artwork a ≡ false
    → contains a (artworks (insert k y xs)) ≡ false
unfolding contains insert
artworks_new k a y [] e other = ground arith
artworks_new k a y ((i, z) ∷ xs) e other = ground (arith, artworks_new k a y xs)

once_new :
    (k : String) (y : OpenExploration) (xs : Dict OpenExploration)
    → contains y.view.artwork (artworks xs) ≡ false
    → has_twice (artworks xs) ≡ false
    → has_twice (artworks (insert k y xs)) ≡ false
unfolding contains insert
once_new k y [] e once = ground arith
once_new k y ((i, z) ∷ xs) e once =
    ground (arith, once_new k y xs, artworks_new k z.view.artwork y xs)

inside_new :
    (P : String → Type 0) (k : String) (y : OpenExploration) (xs : Dict OpenExploration)
    → All P (artworks xs)
    → P y.view.artwork
    → All P (artworks (insert k y xs))
unfolding insert
inside_new P k y [] p q = (q, tt)
inside_new P k y ((i, z) ∷ xs) p q = ground (arith, inside_new P k y xs p.1 q)

length-artworks : (xs : Dict OpenExploration) → length xs ≡ length (artworks xs)
length-artworks [] = refl
length-artworks ((i, x) ∷ xs) = omega (arith, length-artworks xs)

module _ {S J : Type 0} (sv : Services S J) where
  -- The explorations after `n` recipes.
  IsRestored : ℕ → Dict OpenExploration → Type 0
  IsRestored n xs =
      Each IsShort xs
      × Distinct xs
      × (sum_of exploration_kept xs ≤ n)
      × (sum_of exploration_size xs ≤ n * 16384)
      × (has_twice (artworks xs) ≡ false)
      × All (λ a. contains a forms ≡ true) (artworks xs)

  add_sample-IsRestored :
      (n : ℕ) (key id : String) (r : Recipe) (x : OpenExploration) (xs : Dict OpenExploration)
      → IsRestored n xs
      → IsSmall r
      → form_in r.id xs ≡ some (key, x)
      → IsRestored (suc n) (insert key (add_sample sv (restored_sample sv id r) x) xs)
  unfolding IsRestored
  add_sample-IsRestored n key id r x xs inv small found =
      let there = form_in_found sv r.id key x xs inv.1 found in
      let y = add_sample sv (restored_sample sv id r) x in
      let art = artworks_kept key x y xs there refl in
      (
        Each-insert IsShort key y xs inv.0 (Each-lookup IsShort key x xs inv.0 there),
        insert-Distinct key y xs inv.1,
        ground (
          arith,
          inv.2,
          sum_of-insert exploration_kept key y xs,
          total-append (λ a. bit a.favourite) x.view.samples (restored_sample sv id r ∷ []),
        ),
        ground (
          arith,
          inv.3,
          sum_of-insert exploration_size key y xs,
          total-append recipe_size x.view.samples (restored_sample sv id r ∷ []),
        ),
        rw art inv.4,
        rw art inv.5,
      )

  new_form-IsRestored :
      (n : ℕ) (key id : String) (r : Recipe) (xs : Dict OpenExploration)
      → IsRestored n xs
      → IsSmall r
      → IsOffered r
      → form_in r.id xs ≡ none
      → IsRestored
          (suc n)
          (insert key (add_sample sv (restored_sample sv id r) (new_exploration key r.id "" "")) xs)
  unfolding IsRestored
  new_form-IsRestored n key id r xs inv small offered absent =
      let y = add_sample sv (restored_sample sv id r) (new_exploration key r.id "" "") in
      (
        Each-insert IsShort key y xs inv.0 (ground arith),
        insert-Distinct key y xs inv.1,
        ground (arith, inv.2, sum_of-insert exploration_kept key y xs),
        ground (arith, inv.3, small, sum_of-insert exploration_size key y xs),
        once_new key y xs (artworks-form_in r.id xs absent) inv.4,
        inside_new _ key y xs inv.5 offered,
      )

  restore_all-IsRestored :
      (h : Ambient) (n t m : ℕ) (rs : List Recipe) (xs : Dict OpenExploration)
      → IsRestored n xs
      → All (λ r. IsSmall r × IsOffered r) rs
      → length rs + n ≡ m
      → IsRestored m (restore_all sv h t rs xs)
  restore_all-IsRestored h n t m [] xs inv fine e =
      subst (λ k. IsRestored k xs) (omega (arith, e)) inv
  restore_all-IsRestored h n t m (r ∷ rs) xs inv fine e = elim (Option-cases (form_in r.id xs)) [
    | inl absent ↦
        rw (restore_all, absent)
          (restore_all-IsRestored h (suc n) (suc (suc t)) m rs _
            (new_form-IsRestored n (h.token t) (h.token (suc t)) r xs inv fine.0.0 fine.0.1 absent)
            fine.1 (omega (arith, e)))
    | inr ((key, x), found) ↦
        rw (restore_all, found)
          (restore_all-IsRestored h (suc n) (suc t) m rs _
            (add_sample-IsRestored n key (h.token t) r x xs inv fine.0.0 found) fine.1
            (omega (arith, e)))
  ]

  restored-IsModest :
      (h : Ambient) (token : String) (rs : List Recipe) (w : OpenWorkspace)
      → All (λ r. IsSmall r × IsOffered r) rs
      → length rs ≤ 24
      → IsModest token w
      → length w.explorations ≤ 0
      → IsModest token (record w { explorations = restore_all sv h 0 rs w.explorations })
        × (sum_of exploration_size (restore_all sv h 0 rs w.explorations) ≤ length rs * 16384)
  unfolding IsRestored
  restored-IsModest h token rs w fine few modest empty =
      let done =
        restore_all-IsRestored h 0 0 (length rs) rs w.explorations (blank_all w.explorations empty)
          fine (omega arith) in
      (
        (
          omega (
            arith,
            length-artworks (restore_all sv h 0 rs w.explorations),
            fits_in (artworks (restore_all sv h 0 rs w.explorations)) forms done.4 done.5,
          ),
          modest.1,
          omega (arith, done.2),
          done.0,
          done.1,
        ),
        omega (arith, done.3),
      )
    where
      blank_all : (xs : Dict OpenExploration) → length xs ≤ 0 → IsRestored 0 xs
      blank_all [] e = (tt, tt, omega arith, omega arith, refl, tt)
      blank_all (x ∷ xs) e = absurd (omega arith)

  abbrev pub OffersForms : Type 0
  OffersForms = (raw : String) (r : Recipe) → sv.validate raw ≡ ok r → IsOffered r

  read_records_fine :
      (seen raws : List String) (rs : List Recipe)
      → IsCompact sv
      → OffersForms
      → read_records sv seen raws ≡ ok rs
      → All (λ r. IsSmall r × IsOffered r) rs × (length rs ≤ length raws)
  read_records_fine seen [] rs law offers e =
      subst (λ rs. All (λ r. IsSmall r × IsOffered r) rs × (length rs ≤ 0)) (ok_inj e)
        (tt, omega arith)
  read_records_fine seen (raw ∷ raws) rs law offers e =
      let (r, valid, e1) = bind_ok (sv.validate raw) _ rs e in
      elim (Bool-cases (contains (sv.recipe_digest r.canonical) seen)) [
        | inl old ↦
            let rest = read_records_fine seen raws rs law offers (if_true _ _ _ _ old e1) in
            (rest.0, omega (arith, rest.1))
        | inr new ↦
            let (more, read, e2) =
              bind_ok (read_records sv (sv.recipe_digest r.canonical ∷ seen) raws) _ rs
                (if_false _ _ _ _ new e1) in
            let rest =
              read_records_fine (sv.recipe_digest r.canonical ∷ seen) raws more law offers read in
            subst (λ rs. All (λ r. IsSmall r × IsOffered r) rs × (length rs ≤ suc (length raws)))
              (ok_inj e2) (((law.1 raw r valid, offers raw r valid), rest.0), omega (arith, rest.1))
      ]

  restore_workspace-IsBounded :
      (h : Ambient) (token : String) (rs : List Recipe) (w : OpenWorkspace) (s : Store J)
      → All (λ r. IsSmall r × IsOffered r) rs
      → length rs ≤ 24
      → IsBounded s
      → lookup token s.workspaces ≡ some w
      → Leaves IsBounded (restore_workspace sv h token rs w s)
  restore_workspace-IsBounded h token rs w s fine few inv here =
      elim (Bool-cases (leb (length w.explorations) 0)) [
        | inr used ↦ rw (restore_workspace, used) (leaves IsBounded _ s inv)
        | inl empty ↦ elim (Bool-cases (ltb (32 * 2 ^ 20) (recipe_bytes s + length rs * 16384))) [
          | inl heavy ↦ rw (restore_workspace, empty, heavy) (leaves IsBounded _ s inv)
          | inr light ↦
              let done =
                restored-IsModest h token rs w fine few (Holds-IsModest token w s inv here)
                  (ground arith) in
              rw (restore_workspace, empty, light)
                (leaves IsBounded _ _
                  (on_workspace-IsBounded token _ w s inv here done.0 (ground (arith, done.1))))
        ]
      ]

  pub restore-IsBounded :
      (h : Ambient) (token : String) (records : List String) (s : Store J)
      → IsCompact sv
      → OffersForms
      → IsBounded s
      → Leaves IsBounded (restore sv h token records s)
  unfolding restore
  restore-IsBounded h token records s law offers inv = elim (Bool-cases (ltb 24 (length records))) [
    | inl many ↦ rw many (leaves IsBounded _ s inv)
    | inr few ↦ rw few (restored (read_records sv [] records) refl (ground arith))
  ]
    where
      restored :
          (r : Result (List Recipe))
          → read_records sv [] records ≡ r
          → length records ≤ 24
          → Leaves IsBounded (restore_recipes sv h token r s)
      restored (err e) f few = leaves IsBounded _ s inv
      restored (ok rs) f few =
          let fine = read_records_fine [] records rs law offers f in
          continue_keeps IsBounded (λ w t. lookup token t.workspaces ≡ some w)
            (restore_workspace sv h token rs) (workspace sv.queue h token s)
            (workspace-IsBounded sv.queue h token s inv) (workspace_found sv.queue h token s)
            (λ w t. restore_workspace-IsBounded h token rs w t fine.0 (omega (arith, fine.1, few)))
