-- ===== src/Studio/Model.antt =====
-- internal/studio/studio.go: the data, and what the studio calls. A Go pointer into the store is the
-- pair of keys under which the store holds the value.
use go_graphics.Common.{ℕ, ◌+◌, String, Bool, false, Option, none, some, List, ◌==◌}
use go_graphics.Common.Dict.{Dict, lookup, insert}
use go_graphics.Common.Int.{ℤ, pos, negsuc}
use go_graphics.Artwork.{Recipe}
use go_graphics.Explore.{Candidate}
use go_graphics.RenderJob.Model.{Result, ok, err, Request, Status, State, Error}

pub record Workspace : Type 0 where
  pub token : String
  pub csrf : String

-- `none` is the zero value of a status.
pub record Sample : Type 0 where
  pub id : String
  pub style : String
  pub colour : String
  pub recipe : Recipe
  pub job : String
  pub download : String
  pub favourite : Bool
  pub cancelled : Bool
  pub status : Option Status
  pub download_status : Option Status

pub record Batch : Type 0 where
  pub id : String
  pub parent : String
  pub samples : List String

pub record Exploration : Type 0 where
  pub id : String
  pub artwork : String
  pub style : String
  pub colour : String
  pub revision : ℕ
  pub batches : List Batch
  pub samples : List Sample
  pub favourites : List Sample
  pub active : Bool

pub record Action : Type 0 where
  pub id : String
  pub digest : String
  pub batch : String

pub record EntryAction : Type 0 where
  pub id : String
  pub artwork : String
  pub style : String
  pub colour : String
  pub exploration : String

pub record Favourite : Type 0 where
  pub sample : Sample
  pub exploration_id : String
  pub artwork_name : String
  pub revision : ℕ

-- The private types `exploration` and `workspace`.
pub record OpenExploration : Type 0 where
  pub view : Exploration
  pub actions : List Action
  pub round : ℕ

pub record OpenWorkspace : Type 0 where
  pub workspace : Workspace
  pub created : ℕ
  pub touched : ℕ
  pub explorations : Dict OpenExploration
  pub entries : List EntryAction

-- `J` is the state behind the interface `Jobs`; `none` is a nil interface.
pub record Store (J : Type 0) : Type 0 where
  pub workspaces : Dict OpenWorkspace
  pub jobs : Option J
  pub build : String
  pub persistent : Bool

-- The interface `Jobs`.
pub record Jobs (J : Type 0) : Type 0 where
  pub admit : String → List Request → J → Result (List String) × J
  pub status : J → String → String → Status
  pub cancel : String → String → J → J

-- What the studio calls: the queue, `publish.Space`, `publish.Complete`, `publish.Validate`,
-- `explore.Public`, and SHA-256 of the JSON text of a selection and of a recipe. `S` is the type of
-- schemas.
pub record Services (S J : Type 0) : Type 0 where
  pub queue : Jobs J
  pub space : String → Result S
  pub complete : String → ℕ → String → Dict String → Result Recipe
  pub validate : String → Result Recipe
  pub public : S → Dict String → List Candidate → ℕ → ℕ → List ℕ → Result (List Candidate)
  pub selection_digest : ℤ → List String → Bool → String
  pub recipe_digest : String → String

-- What one call reads: the clock, its fresh tokens in order, and eight random bytes.
pub record Ambient : Type 0 where
  pub now : ℕ
  pub token : ℕ → String
  pub entropy : Result ℕ

abbrev pub later_tokens : ℕ → Ambient → Ambient
later_tokens n h = record h { token = λ i. h.token (n + i) }

-- A handler under the lock: it may change the store before it fails.
abbrev pub Operation : Type 0 → Type 0 → Type 0
Operation J A = Store J → Result A × Store J

module _ {A B J : Type 0} where
  abbrev pub continue : (A → Operation J B) → Result A × Store J → Result B × Store J
  continue next (err e, s) = (err e, s)
  continue next (ok a, s) = next a s

  infixl 5 ◌>>=◌
  abbrev pub ◌>>=◌ : Operation J A → (A → Operation J B) → Operation J B
  (first >>= next) s = continue next (first s)

-- `if err != nil { return err }` behind a call that has nothing to do with the store.
abbrev pub after_check : {A B J : Type 0} → Result A → Operation J B → Operation J B
after_check (err e) next s = (err e, s)
after_check (ok _) next s = next s

-- `if x == nil { return err }`.
abbrev pub or_fail : {A B J : Type 0} → Error → Option A → (A → Operation J B) → Operation J B
or_fail e none next s = (err e, s)
or_fail e (some a) next s = next a s

abbrev pub is_revision : ℤ → ℕ → Bool
is_revision (pos n) m = n == m
is_revision (negsuc n) m = false

abbrev pub has : (State → Bool) → Option Status → Bool
has is none = false
has is (some s) = is s.state

module _ {J : Type 0} where
  abbrev pub on_workspace : String → (OpenWorkspace → OpenWorkspace) → Store J → Store J
  on_workspace token f s = elim (lookup token s.workspaces) [
    | none ↦ s
    | some w ↦ record s { workspaces = insert token (f w) s.workspaces }
  ]

  -- A write through a pointer to an exploration that the store holds.
  abbrev pub save : String → String → OpenExploration → Store J → Store J
  save token id x s =
      on_workspace token (λ w. record w { explorations = insert id x w.explorations }) s
