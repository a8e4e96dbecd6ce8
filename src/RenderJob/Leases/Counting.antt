-- ===== src/RenderJob/Leases/Counting.antt =====
-- The reference counts of `Open` and `Lease.Close` against a list of the open leases.
use go_graphics.Common.{
  ℕ, ◌+◌, ◌≤◌, ◌<◌, ◌≡◌, String, true, false, some, List, [], ◌∷◌, arith, length, if◌then◌else◌,
  same, bit, Option-cases, inl, inr,
}
use go_graphics.Common.Dict.{lookup, lookup-insert}
use go_graphics.Common.Int.{pos, ◌≤ℤ◌}
use go_graphics.RenderJob.Model.{Manager, Host, Lease, ok, artifact_at}
use go_graphics.RenderJob.Cache.{present}
use go_graphics.RenderJob.Leases.{open_image, release, unreserved, reserve, Artifact, reserved}

-- `held` lists the ids of the leases that are not closed.
unfoldable pub count : String → List String → ℕ
count id [] = 0
count id (x ∷ xs) = bit (same x id) + count id xs

pub remove_one : String → List String → List String
remove_one id [] = []
remove_one id (x ∷ xs) = if same x id then xs else x ∷ remove_one id xs

pub count-remove_one :
    (id j : String) (held : List String)
    → 0 < count id held
    → count j (remove_one id held) + bit (same id j) ≡ count j held
unfolding count remove_one
count-remove_one id j [] h = absurd (omega arith)
count-remove_one id j (x ∷ xs) h = ground (arith, count-remove_one id j xs)

pub length-remove_one :
    (id : String) (held : List String)
    → 0 < count id held
    → length (remove_one id held) + 1 ≡ length held
unfolding count remove_one
length-remove_one id [] h = absurd (omega arith)
length-remove_one id (x ∷ xs) h = ground (arith, length-remove_one id xs)

pub count-le-length : (id : String) (held : List String) → count id held ≤ length held
unfolding count
count-le-length id [] = omega arith
count-le-length id (x ∷ xs) = ground (arith, count-le-length id xs)

abbrev pub IsCounted : Manager → List String → String → Type 0
IsCounted m held id =
    ((artifact_at id m).refs ≡ pos (count id held))
    × (0 < count id held → present (lookup id m.artifacts) ≡ true)

pub record Holds (m : Manager) (held : List String) : Type 0 where
  pub counted : (id : String) → IsCounted m held id
  pub opened : m.opened ≡ pos (length held)

pub reserve-Holds :
    (id : String) (a : Artifact) (m : Manager) (held : List String)
    → Holds m held
    → lookup id m.artifacts ≡ some a
    → Holds (reserve m id a) (id ∷ held)
unfolding reserve count
reserve-Holds id a m held h e = record {
  counted =
      λ j. ground (arith, h.counted id, h.counted j, lookup-insert id j (reserved a) m.artifacts);
  opened = ground (arith, h.opened);
}

pub release-Holds :
    (id : String) (m : Manager) (held : List String)
    → Holds m held
    → 0 < count id held
    → Holds (release id m) (remove_one id held)
unfolding release
release-Holds id m held h e = record {
  counted = λ j. ground (
    arith,
    h.counted id,
    h.counted j,
    lookup-insert id j (unreserved (artifact_at id m)) m.artifacts,
    count-remove_one id j held e,
  );
  opened = ground (arith, length-remove_one id held e);
}

pub record Opens (now : ℕ) (m : Manager) (id : String) (l : Lease) (d : String) (a : Artifact)
    : Type 0 where
  pub entry : lookup id m.artifacts ≡ some a
  pub fresh : now ≤ a.created + m.cfg.max_age
  pub file : lookup id m.disk ≡ some l.content
  pub named : l.id ≡ id
  pub active : l.released ≡ false
  pub digest : d ≡ a.digest
  pub few : a.refs ≤ℤ pos 31
  pub few_open : m.opened ≤ℤ pos 63

pub open_image_succeeds :
    (host : Host) (now : ℕ) (id : String) (m : Manager) (l : Lease) (d : String)
    → (open_image host now id m).1 ≡ ok (l, d)
    → (a : Artifact) × Opens now m id l d a × ((open_image host now id m).0 ≡ reserve m id a)
open_image_succeeds host now id m l d e = elim (Option-cases (lookup id m.artifacts)) [
  | inl none_there ↦ absurd (unfold open_image in ground arith)
  | inr (a, there) ↦ (a, unfold open_image in ground arith, unfold open_image in ground arith)
]
