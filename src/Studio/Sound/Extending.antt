-- ===== src/Studio/Sound/Extending.antt =====
-- What an admission does to the limits of its exploration.
use go_graphics.Common.{
  refl, ℕ, suc, ◌+◌, ◌*◌, ◌≤◌, String, List, [], ◌∷◌, ◌++◌, All, ◌≡◌, arith, length, length-append,
  total, bit, select, Bool,
}
use go_graphics.Artwork.{Recipe}
use go_graphics.Studio.Model.{Sample, Batch, Ambient, OpenExploration}
use go_graphics.Studio.Generation.{
  last_eight, new_samples, extend, exploration_size, recipe_size, is_kept,
}
use go_graphics.Studio.Generation.Planning.{Plan}
use go_graphics.Studio.Choosing.{exploration_kept}
use go_graphics.Studio.Sound.{IsShort}
use go_graphics.Studio.Sound.Planning.{IsSmall}

pub length-last_eight-le :
    {A : Type 0} (xs : List A) (x : A) → length xs ≤ 8 → length (last_eight (xs ++ (x ∷ []))) ≤ 8
length-last_eight-le [] x h = ground arith
length-last_eight-le (y ∷ ys) x h = ground (arith, length-append ys (x ∷ []))

module _ {A : Type 0} (f : A → ℕ) where
  pub total-append : (xs ys : List A) → total f (xs ++ ys) ≡ total f xs + total f ys
  total-append [] ys = omega arith
  total-append (x ∷ xs) ys = omega (arith, total-append xs ys)

  pub total-select-le : (keep : A → Bool) (xs : List A) → total f (select keep xs) ≤ total f xs
  total-select-le keep [] = omega arith
  total-select-le keep (x ∷ xs) = ground (arith, total-select-le keep xs)

new_samples_kept :
    (h : Ambient) (p : Plan) (n : ℕ) (rs : List Recipe) (jobs : List String)
    → total (λ a. bit a.favourite) (new_samples h p n rs jobs) ≡ 0
new_samples_kept h p n [] jobs = refl
new_samples_kept h p n (r ∷ rs) [] = refl
new_samples_kept h p n (r ∷ rs) (job ∷ jobs) = omega (arith, new_samples_kept h p (suc n) rs jobs)

new_samples_size :
    (h : Ambient) (p : Plan) (n : ℕ) (rs : List Recipe) (jobs : List String)
    → All IsSmall rs
    → total recipe_size (new_samples h p n rs jobs) ≤ length rs * 16384
new_samples_size h p n [] jobs small = omega arith
new_samples_size h p n (r ∷ rs) [] small = omega arith
new_samples_size h p n (r ∷ rs) (job ∷ jobs) small =
    omega (arith, small.0, new_samples_size h p (suc n) rs jobs small.1)

module _ (h : Ambient) (p : Plan) (jobs : List String) (b : Batch) (action_id digest : String)
    (x : OpenExploration) where
  abbrev added : List Sample
  added = new_samples h p 1 p.recipes jobs

  abbrev batches : List Batch
  batches = last_eight (x.view.batches ++ (b ∷ []))

  abbrev grown : OpenExploration
  grown = extend p added b action_id digest x

  pub extend-IsShort : (id : String) → IsShort id x → IsShort id grown
  unfolding extend
  extend-IsShort id short =
      (length-last_eight-le x.view.batches b short.0, length-last_eight-le x.actions _ short.1)

  pub extend_kept : exploration_kept grown ≤ exploration_kept x
  unfolding extend
  extend_kept = omega (
    arith,
    total-select-le (λ a. bit a.favourite) (is_kept batches) (x.view.samples ++ added),
    total-append (λ a. bit a.favourite) x.view.samples added,
    new_samples_kept h p 1 p.recipes jobs,
  )

  pub extend_size :
      All IsSmall p.recipes → exploration_size grown ≤ exploration_size x + length p.recipes * 16384
  unfolding extend
  extend_size small = omega (
    arith,
    total-select-le recipe_size (is_kept batches) (x.view.samples ++ added),
    total-append recipe_size x.view.samples added,
    new_samples_size h p 1 p.recipes jobs small,
  )
