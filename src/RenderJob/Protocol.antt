-- ===== src/RenderJob/Protocol.antt =====
-- internal/renderjob/protocol.go: requests, and what their checks use of internal/publish and
-- internal/artwork.
use go_graphics.Common.{refl, ℕ, String, Bool, ◌||◌, not, if◌then◌else◌, same, ◌≡◌, arith}
use go_graphics.Common.Int.{pos, ◌-ℤ◌}
use go_graphics.RenderJob.Model.{Request, Result, ok, err, failure, is_zero}

-- What a manager reads of an `artwork.Recipe`.
pub record Recipe : Type 0 where
  pub id : String
  pub canonical : String

pub record Rendition : Type 0 where
  pub width : ℕ
  pub height : ℕ
  pub aa : ℕ
  pub format : String

-- `publish.Validate`, `publish.Tier` and `Recipe.Key`.
pub record Publisher : Type 0 where
  pub validate : String → Result Recipe
  pub tier : String → String → Result Rendition
  pub key : Recipe → Rendition → String → String

-- `if err != nil { return nil, err }` behind each call.
infixl 5 ◌>>=◌
abbrev pub ◌>>=◌ {ℓ κ} : {X : Type ℓ} {Y : Type κ} → Result X → (X → Result Y) → Result Y
err e >>= next = err e
ok x >>= next = next x

infixl 5 ◌>>◌
abbrev pub ◌>>◌ {κ} : {Y : Type κ} → Result (Unit {0}) → Result Y → Result Y
first >> second = first >>= λ _. second

-- `q.Version != 1 || q.Build != build || build == ""`
abbrev is_mismatch : String → Request → Bool
is_mismatch build q =
    not (is_zero (q.version -ℤ pos 1)) || not (same q.build build) || same build ""

-- `Request.Validate`
unfoldable pub validate_request : Publisher → String → Request → Result (Unit {0})
unfolding ◌-ℤ◌
validate_request p build q =
    if is_mismatch build q
    then err (failure "renderer release mismatch")
    else do r ← p.validate q.recipe; _ ← p.tier r.id q.tier; ok tt

-- A chain that ends well has a first result that is one.
pub bind_ok {ℓ κ} :
    {A : Type ℓ} {B : Type κ} (r : Result A) (f : A → Result B) (b : B)
    → (r >>= f) ≡ ok b
    → (a : A) × (r ≡ ok a) × (f a ≡ ok b)
bind_ok (ok a) f b e = (a, refl, e)
bind_ok (err x) f b e = absurd (ground arith)

pub ok_inj {ℓ} : {A : Type ℓ} {a b : A} → ok a ≡ ok b → a ≡ b
ok_inj e = cc
