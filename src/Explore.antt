-- ===== src/Explore.antt =====
-- internal/explore/explore.go: candidates for the next images.
pub mod Breeding
pub mod Fresh
pub mod Public
mod Tests
use go_graphics.Common.Int.{ℤ, pos, pos_part, ltb_ℤ}
use go_graphics.Common.{
  ℕ, suc, zero, ◌+◌, ◌*◌, ◌%◌, ◌^◌, ◌/◌, ◌-◌, String, Bool, true, false, ◌||◌, ◌&&◌, not, Option,
  none, some, List, [], ◌∷◌, ◌++◌, map, length, if◌then◌else◌, same, leb, ltb, ◌==◌,
}
use go_graphics.Common.Dict.{Dict, lookup, insert, merge}
use go_graphics.RenderJob.Model.{Result, ok, err, failure}
use go_graphics.Trait.{Float, Dim, Schema, Set, has_value, dim_in, weight_of, derive, boost}

pub record Candidate : Type 0 where
  pub seed : ℕ
  pub traits : Dict String
  pub mode : String
  pub parent : ℕ

-- The keys of the map `seen` are the decimal texts of the seeds.
unfoldable pub is_seen : ℕ → List ℕ → Bool
is_seen n [] = false
is_seen n (m ∷ rest) = (m == n) || is_seen n rest

-- Go's `uint64` addition.
abbrev pub plus_64 : ℕ → ℕ → ℕ
plus_64 a b = (a + b) % 2 ^ 64

abbrev pub nth_parent : ℕ → List Candidate → Option Candidate
nth_parent n [] = none
nth_parent zero (p ∷ rest) = some p
nth_parent (suc n) (p ∷ rest) = nth_parent n rest

abbrev pub is_pinned_to : Set → String → String → Bool
is_pinned_to pins k v = elim (lookup k pins) [ none ↦ same v "" | some w ↦ same w v ]

-- The loop, `fuel` attempts before its end. `make` proposes a candidate for a place and a seed; a
-- panic is `none`.
unfoldable pub search_from :
    (ℕ → ℕ → Option Candidate) → ℕ → ℕ → ℕ → List ℕ → List Candidate → Option (List Candidate)
search_from make seed zero attempt seen out = some out
search_from make seed (suc fuel) attempt seen out =
    if leb 4 (length out) then some out else elim (is_seen (plus_64 seed attempt) seen) [
      | true ↦ search_from make seed fuel (suc attempt) seen out
      | false ↦ elim (make (length out) (plus_64 seed attempt)) [
        | none ↦ none
        | some c ↦
            search_from make seed fuel (suc attempt) (plus_64 seed attempt ∷ seen) (out ++ (c ∷ []))
      ]
    ]

-- `uniforms n` is the stream of `rand.New(rand.NewPCG(n, 2))`.
module _ {F : Type 0} (fl : Float F) (uniforms : ℕ → ℕ → F) (three : F) where
  abbrev pub is_allowed : Schema F → String → String → Bool
  is_allowed s k v = elim (dim_in k s) [ none ↦ false | some d ↦ has_value d v ]

  -- `valid`
  abbrev pub is_valid : Schema F → Set → Bool
  is_valid s [] = true
  is_valid s ((k, v) ∷ rest) = is_allowed s k v && is_valid s rest

  abbrev pub all_parents_valid : Schema F → List Candidate → Bool
  all_parents_valid s [] = true
  all_parents_valid s (p ∷ rest) =
      (is_valid s p.traits && (length p.traits == length s)) && all_parents_valid s rest

  abbrev pub has_weight : Schema F → String → String → Bool
  has_weight s k v = elim (dim_in k s) [ none ↦ false | some d ↦ fl.is_positive (weight_of fl d v) ]

  -- The loop that copies the traits of a parent which can be drawn or are pinned.
  abbrev pub inherit : Schema F → Set → Set → Set → Set
  inherit s pins [] traits = traits
  inherit s pins ((k, v) ∷ rest) traits =
      inherit s pins rest
        (if has_weight s k v || is_pinned_to pins k v then insert k v traits else traits)

  -- The candidate at the place `i`, before the pins.
  abbrev pub drawn : ℕ → Option Set → Option Candidate
  drawn n none = none
  drawn n (some set) = some (record { seed = n; traits = set; mode = "explore"; parent = 0 })

  abbrev pub neighbor : Schema F → Set → Candidate → Candidate → Candidate
  neighbor s pins p c = record c {
    traits = inherit s pins p.traits c.traits;
    mode = "neighbor";
    parent = p.seed;
  }

  abbrev pub boosted_from : Candidate → Option Set → Option Candidate
  boosted_from c none = none
  boosted_from c (some set) = some (record c { traits = set; mode = "boosted" })

  abbrev pub neighbor_from : Schema F → Set → Candidate → Option Candidate → Option Candidate
  neighbor_from s pins c none = none
  neighbor_from s pins c (some p) = some (neighbor s pins p c)

  -- `((round%len(parents))*2+i)%len(parents)`; it is in range.
  abbrev pub parent_at : ℕ → ℕ → List Candidate → Option Candidate
  parent_at round i parents =
      nth_parent (((round % length parents) * 2 + i) % length parents) parents

  abbrev pub guided :
      Schema F → Schema F → Set → List Candidate → ℕ → ℕ → Candidate → Option Candidate
  guided s boosted pins parents round i c =
      if ltb 0 (length parents) && ltb i 2
      then neighbor_from s pins c (parent_at round i parents)
      else if ltb 0 (length parents) && (i == 2)
      then boosted_from c (derive fl (uniforms c.seed) boosted)
      else some c

  abbrev pub with_pins : Set → Option Candidate → Option Candidate
  with_pins pins none = none
  with_pins pins (some c) = some (record c { traits = merge pins c.traits })

  abbrev pub guide :
      Schema F → Schema F → Set → List Candidate → ℕ → ℕ → Option Candidate → Option Candidate
  guide s boosted pins parents round i none = none
  guide s boosted pins parents round i (some c) = guided s boosted pins parents round i c

  unfoldable pub propose : Schema F → Schema F → Set → List Candidate → ℕ → ℕ → ℕ → Option Candidate
  propose s boosted pins parents round i n =
      with_pins pins (guide s boosted pins parents round i (drawn n (derive fl (uniforms n) s)))

  abbrev pub as_result : Option (List Candidate) → Result (List Candidate)
  as_result none = err (failure "panic")
  as_result (some out) = ok out

  -- `Public`
  unfoldable pub public : Schema F → Set → List Candidate → ℕ → ℤ → List ℕ → Result (List Candidate)
  public s pins parents seed round recent =
      if ltb 4 (length parents) || (ltb 128 (length recent) || ltb_ℤ round (pos 0))
      then err (failure "exploration limit")
      else if not (is_valid s pins)
      then err (failure "invalid pin")
      else if not (all_parents_valid s parents)
      then err (failure "invalid parent")
      else as_result (
          search_from
            (propose s (boost fl (map (λ p. p.traits) parents) three s) pins parents
              (pos_part round))
            seed 128 0 recent [])

-- `LocalBreed`'s second half.
abbrev pub neighbor_stride : ℕ
neighbor_stride = 100003
