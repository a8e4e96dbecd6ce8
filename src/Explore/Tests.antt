-- ===== src/Explore/Tests.antt =====
-- The search for candidates at concrete inputs.
use go_graphics.Common.Int.{pos}
use go_graphics.Explore.Breeding.{local_breed, local_breed_lem}
use go_graphics.Common.{
  refl, ◌≡◌, ◌≤◌, ℕ, false, List, [], ◌∷◌, length, arith, All, String-discrete, some,
}
use go_graphics.Common.Dict.{lookup, insert, merge}
use go_graphics.RenderJob.Model.{ok}
use go_graphics.Trait.{Schema, Set, draw, derive_from, boost}
use go_graphics.Trait.Tests.{naturals, ground_dim}
use go_graphics.Explore.{Candidate, public, propose, search_from, is_seen}
use go_graphics.Explore.Public.{public_lem, public_four, IsPinned, repeats, seeds}

abbrev one_dim : Schema ℕ
one_dim = ground_dim ∷ []

abbrev zeros : ℕ → ℕ → ℕ
zeros n i = 0

abbrev wild : Set
wild = ("ground", "wild") ∷ []

abbrev found : ℕ → Candidate
found n = record { seed = n; traits = wild; mode = "explore"; parent = 0 }

abbrev all_found : List Candidate
all_found = found 7 ∷ found 9 ∷ found 10 ∷ found 11 ∷ []

public_lem_example :
    (length all_found ≤ 4)
    × All (λ c. is_seen c.seed (8 ∷ []) ≡ false) all_found
    × (repeats (seeds all_found) ≡ false)
    × All (IsPinned naturals zeros 3 wild) all_found
unfolding public propose search_from is_seen draw derive_from boost merge lookup insert
    String-discrete
public_lem_example =
    public_lem naturals zeros 3 one_dim wild [] 7 (pos 0) (8 ∷ []) all_found (refl, tt) refl

public_four_example :
    (out : List Candidate) × (public naturals zeros 3 one_dim wild [] 7 (pos 0) (8 ∷ []) ≡ ok out)
    × (length out ≡ 4)
unfolding public propose search_from is_seen draw derive_from boost merge lookup insert
    String-discrete
public_four_example =
    public_four naturals zeros 3 one_dim wild [] 7 0 (8 ∷ []) (omega arith) (omega arith) refl refl
      (λ i n. (found n, refl))

local_breed_lem_example :
    (out : List Candidate) × (local_breed naturals zeros one_dim (found 7 ∷ found 8 ∷ []) 5 20 2
      ≡ some out)
    × (length out ≡ 5)
unfolding draw derive_from boost lookup insert String-discrete
local_breed_lem_example =
    local_breed_lem naturals zeros one_dim (found 7 ∷ found 8 ∷ []) 5 20 2 (omega arith)
      (omega arith) (omega arith) (λ k. (("ground", "plain") ∷ [], refl))
