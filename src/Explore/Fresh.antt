-- ===== src/Explore/Fresh.antt =====
-- The search for new seeds ends with four candidates, all of them new.
use go_graphics.Common.{
  refl, ◌≡◌, ℕ, suc, zero, ◌+◌, ◌≤◌, ◌<◌, true, false, Option, some, List, [], ◌∷◌, ◌++◌, arith,
  ◌∙◌, length, leb, Bool-cases, inl, inr, if◌then◌else◌, ◌==◌, length-append, none,
}
use go_graphics.Explore.{Candidate, is_seen, plus_64, search_from}

drop_seed : ℕ → List ℕ → List ℕ
drop_seed n [] = []
drop_seed n (m ∷ rest) = let more = drop_seed n rest in if m == n then more else m ∷ more

is_seen-drop_seed :
    (n k : ℕ) (xs : List ℕ) → (n == k) ≡ false → is_seen k (drop_seed n xs) ≡ is_seen k xs
unfolding is_seen drop_seed
is_seen-drop_seed n k [] e = refl
is_seen-drop_seed n k (m ∷ xs) e = ground (arith, is_seen-drop_seed n k xs)

length-drop_seed-le : (n : ℕ) (xs : List ℕ) → length (drop_seed n xs) ≤ length xs
unfolding drop_seed
length-drop_seed-le n [] = omega arith
length-drop_seed-le n (m ∷ xs) = ground (arith, length-drop_seed-le n xs)

length-drop_seed-lt :
    (n : ℕ) (xs : List ℕ) → is_seen n xs ≡ true → suc (length (drop_seed n xs)) ≤ length xs
unfolding is_seen drop_seed
length-drop_seed-lt n [] e = absurd (ground arith)
length-drop_seed-lt n (m ∷ xs) e =
    ground (arith, length-drop_seed-lt n xs, length-drop_seed-le n xs)

-- The seeds of a search do not come round again.
seeds_differ : (seed i j : ℕ) → i < j → j < 128 → (plus_64 seed i == plus_64 seed j) ≡ false
seeds_differ seed i j lt small = ground arith

-- Only seeds of `pool` can still be met.
abbrev IsAhead : ℕ → ℕ → List ℕ → List ℕ → Type 0
IsAhead seed attempt seen pool =
    (i : ℕ)
    → attempt ≤ i
    → i < 128
    → is_seen (plus_64 seed i) seen ≡ true
    → is_seen (plus_64 seed i) pool ≡ true

-- One round of the loop.
module _ (make : ℕ → ℕ → Option Candidate) (seed fuel attempt : ℕ) (seen : List ℕ)
    (out : List Candidate) where
  pub search_full :
      leb 4 (length out) ≡ true → search_from make seed (suc fuel) attempt seen out ≡ some out
  unfolding search_from
  search_full e = rw (search_from, e) refl

  pub search_skip :
      leb 4 (length out) ≡ false
      → is_seen (plus_64 seed attempt) seen ≡ true
      → search_from make seed (suc fuel) attempt seen out
        ≡ search_from make seed fuel (suc attempt) seen out
  unfolding search_from
  search_skip e f = rw (search_from, e, f) refl

  pub search_take :
      (c : Candidate)
      → leb 4 (length out) ≡ false
      → is_seen (plus_64 seed attempt) seen ≡ false
      → make (length out) (plus_64 seed attempt) ≡ some c
      → search_from make seed (suc fuel) attempt seen out
        ≡ search_from make seed fuel (suc attempt) (plus_64 seed attempt ∷ seen) (out ++ (c ∷ []))
  unfolding search_from
  search_take c e f g = rw (search_from, e, f, g) refl

-- A panic ends the search.
pub search_none :
    (make : ℕ → ℕ → Option Candidate) (seed fuel attempt : ℕ) (seen : List ℕ) (out : List Candidate)
    → leb 4 (length out) ≡ false
    → is_seen (plus_64 seed attempt) seen ≡ false
    → make (length out) (plus_64 seed attempt) ≡ none
    → search_from make seed (suc fuel) attempt seen out ≡ none
unfolding search_from
search_none make seed fuel attempt seen out e f g = rw (search_from, e, f, g) refl

module _ (make : ℕ → ℕ → Option Candidate) (seed : ℕ) where
  abbrev pub FindsFour : ℕ → ℕ → List ℕ → List Candidate → Type 0
  FindsFour fuel attempt seen out =
      (res : List Candidate) × (search_from make seed fuel attempt seen out ≡ some res)
      × (length res ≡ 4)

  skipped-IsAhead :
      (attempt : ℕ) (seen pool : List ℕ)
      → attempt < 128
      → IsAhead seed attempt seen pool
      → IsAhead seed (suc attempt) seen (drop_seed (plus_64 seed attempt) pool)
  skipped-IsAhead attempt seen pool small ahead i later less met =
      is_seen-drop_seed (plus_64 seed attempt) (plus_64 seed i) pool
        (seeds_differ seed attempt i (omega (arith, later)) less)
      ∙ ahead i (omega (arith, later)) less met

  taken-IsAhead :
      (attempt : ℕ) (seen pool : List ℕ)
      → IsAhead seed attempt seen pool
      → IsAhead seed (suc attempt) (plus_64 seed attempt ∷ seen) pool
  unfolding is_seen
  taken-IsAhead attempt seen pool ahead i later less met =
      let differ = seeds_differ seed attempt i (omega (arith, later)) less in
      ahead i (omega (arith, later)) less (ground (arith, differ, met))

  pub search_four :
      (fuel attempt : ℕ) (seen pool : List ℕ) (out : List Candidate)
      → ((i n : ℕ) → (c : Candidate) × (make i n ≡ some c))
      → IsAhead seed attempt seen pool
      → length out ≤ 4
      → attempt + fuel ≤ 128
      → 4 + length pool ≤ length out + fuel
      → FindsFour fuel attempt seen out
  unfolding search_from
  search_four zero attempt seen pool out works ahead few room enough =
      (out, refl, omega (arith, few, enough))
  search_four (suc fuel) attempt seen pool out works ahead few room enough =
      elim (Bool-cases (leb 4 (length out))) [
        | inl full ↦
            (out, search_full make seed fuel attempt seen out full, ground (arith, full, few))
        | inr more ↦ elim (Bool-cases (is_seen (plus_64 seed attempt) seen)) [
          | inl old ↦
              let less =
                length-drop_seed-lt (plus_64 seed attempt) pool
                  (ahead attempt (omega arith) (omega (arith, room)) old) in
              let (res, e, four) =
                search_four fuel (suc attempt) seen (drop_seed (plus_64 seed attempt) pool) out
                  works (skipped-IsAhead attempt seen pool (omega (arith, room)) ahead) few
                  (omega (arith, room)) (omega (arith, enough, less)) in
              (res, search_skip make seed fuel attempt seen out more old ∙ e, four)
          | inr new ↦
              let (c, made) = works (length out) (plus_64 seed attempt) in
              let longer = length-append out (c ∷ []) in
              let (res, e, four) =
                search_four fuel (suc attempt) (plus_64 seed attempt ∷ seen) pool (out ++ (c ∷ []))
                  works (taken-IsAhead attempt seen pool ahead) (ground (arith, longer, more))
                  (omega (arith, room)) (omega (arith, enough, longer)) in
              (res, search_take make seed fuel attempt seen out c more new made ∙ e, four)
        ]
      ]
