-- ===== src/Explore/Breeding.antt =====
-- `LocalBreed` of internal/explore/explore.go: the candidates of the command line.
use go_graphics.Common.{
  refl, ◌≡◌, ◌≤◌, ◌<◌, ◌-◌, ℕ, Option, none, some, List, [], ◌∷◌, ◌++◌, map, length, length-append,
  if◌then◌else◌, leb, ltb, suc, ◌%◌, ◌+◌, ◌/◌, arith, ◌||◌, false, ◌∙◌, ◌*◌, zero,
}
use go_graphics.Trait.{Float, Schema, Set, derive, boost}
use go_graphics.Explore.{Candidate, plus_64, nth_parent, neighbor_stride}

-- The seed of the `i`th neighbor; `uint64` wraps.
abbrev pub neighbor_of : ℕ → Candidate → Candidate
neighbor_of i p = record {
  seed = plus_64 p.seed ((i + 1) * neighbor_stride);
  traits = p.traits;
  mode = "neighbor";
  parent = p.seed;
}

-- The second loop, from `i` on, with `n` rounds before its end.
unfoldable pub neighbors_from : List Candidate → ℕ → ℕ → List Candidate → Option (List Candidate)
neighbors_from parents i zero out = some out
neighbors_from parents i (suc n) out = elim (nth_parent (i % length parents) parents) [
  | none ↦ none
  | some p ↦ neighbors_from parents (suc i) n (out ++ (neighbor_of i p ∷ []))
]

abbrev pub bred : ℕ → Set → Candidate
bred n set = record { seed = n; traits = set; mode = "boosted"; parent = 0 }

module _ {F : Type 0} (fl : Float F) (uniforms : ℕ → ℕ → F) where
  -- The first loop.
  unfoldable pub boosted_list : Schema F → ℕ → ℕ → ℕ → List Candidate → Option (List Candidate)
  boosted_list boosted seed i zero out = some out
  boosted_list boosted seed i (suc n) out = elim (derive fl (uniforms (plus_64 seed i)) boosted) [
    | none ↦ none
    | some set ↦ boosted_list boosted seed (suc i) n (out ++ (bred (plus_64 seed i) set ∷ []))
  ]

  abbrev pub breed_rest : List Candidate → ℕ → Option (List Candidate) → Option (List Candidate)
  breed_rest parents n none = none
  breed_rest parents n (some out) = neighbors_from parents 0 n out

  -- `LocalBreed`: `nil` is the empty list, a panic is `none`.
  unfoldable pub local_breed : Schema F → List Candidate → ℕ → ℕ → F → Option (List Candidate)
  local_breed s parents count seed strength =
      if leb (length parents) 0 || (ltb count 1 || ltb 120 count)
      then some []
      else breed_rest parents (count - count / 2)
          (boosted_list (boost fl (map (λ p. p.traits) parents) strength s) seed 0 (count / 2) [])

nth_parent_works :
    (n : ℕ) (parents : List Candidate)
    → n < length parents
    → (p : Candidate) × (nth_parent n parents ≡ some p)
nth_parent_works n [] less = absurd (omega (arith, less))
nth_parent_works zero (p ∷ rest) less = (p, refl)
nth_parent_works (suc n) (p ∷ rest) less = nth_parent_works n rest (omega (arith, less))

neighbors_next :
    (parents out : List Candidate) (i n : ℕ) (p : Candidate)
    → nth_parent (i % length parents) parents ≡ some p
    → neighbors_from parents i (suc n) out
      ≡ neighbors_from parents (suc i) n (out ++ (neighbor_of i p ∷ []))
unfolding neighbors_from
neighbors_next parents out i n p e = rw (neighbors_from, e) refl

neighbors_from-length :
    (parents : List Candidate) (i n : ℕ) (out : List Candidate)
    → 0 < length parents
    → (res : List Candidate) × (neighbors_from parents i n out ≡ some res)
      × (length res ≡ length out + n)
unfolding neighbors_from
neighbors_from-length parents i zero out some_parent = (out, refl, omega arith)
neighbors_from-length parents i (suc n) out some_parent =
    let (p, there) = nth_parent_works (i % length parents) parents (omega (arith, some_parent)) in
    let (res, found, long) =
      neighbors_from-length parents (suc i) n (out ++ (neighbor_of i p ∷ [])) some_parent in
    (
      res,
      neighbors_next parents out i n p there ∙ found,
      omega (arith, long, length-append out (neighbor_of i p ∷ [])),
    )

module _ {F : Type 0} (fl : Float F) (uniforms : ℕ → ℕ → F) where
  boosted_next :
      (boosted : Schema F) (seed i n : ℕ) (out : List Candidate) (set : Set)
      → derive fl (uniforms (plus_64 seed i)) boosted ≡ some set
      → boosted_list fl uniforms boosted seed i (suc n) out
        ≡ boosted_list fl uniforms boosted seed (suc i) n (out ++ (bred (plus_64 seed i) set ∷ []))
  unfolding boosted_list
  boosted_next boosted seed i n out set e = rw (boosted_list, e) refl

  boosted_list-length :
      (boosted : Schema F) (seed i n : ℕ) (out : List Candidate)
      → ((k : ℕ) → (set : Set) × (derive fl (uniforms k) boosted ≡ some set))
      → (res : List Candidate) × (boosted_list fl uniforms boosted seed i n out ≡ some res)
        × (length res ≡ length out + n)
  unfolding boosted_list
  boosted_list-length boosted seed i zero out draws = (out, refl, omega arith)
  boosted_list-length boosted seed i (suc n) out draws =
      let (set, drawn) = draws (plus_64 seed i) in
      let (res, found, long) =
        boosted_list-length boosted seed (suc i) n (out ++ (bred (plus_64 seed i) set ∷ []))
          draws in
      (
        res,
        boosted_next boosted seed i n out set drawn ∙ found,
        omega (arith, long, length-append out (bred (plus_64 seed i) set ∷ [])),
      )

  -- With at least one parent, a count from 1 to 120, and a boosted schema from which every seed draws,
  -- `LocalBreed` returns exactly that many candidates: it always finds the parent of a neighbor.
  pub local_breed_lem :
      (s : Schema F) (parents : List Candidate) (count seed : ℕ) (strength : F)
      → 0 < length parents
      → 1 ≤ count
      → count ≤ 120
      → ((k : ℕ)
          → (set : Set) × (derive fl
                (uniforms k)
                (boost fl (map (λ p. p.traits) parents) strength s)
              ≡ some set))
      → (out : List Candidate) × (local_breed fl uniforms s parents count seed strength ≡ some out)
        × (length out ≡ count)
  unfolding local_breed
  local_breed_lem s parents count seed strength some_parent low high draws =
      let boosted = boost fl (map (λ p. p.traits) parents) strength s in
      let (first, made, many) = boosted_list-length boosted seed 0 (count / 2) [] draws in
      let (out, found, all) =
        neighbors_from-length parents 0 (count - count / 2) first some_parent in
      let valid : (leb (length parents) 0 || (ltb count 1 || ltb 120 count)) ≡ false =
        ground (arith, some_parent, low, high) in
      (out, rw (valid, made, found) refl, omega (arith, all, many))
