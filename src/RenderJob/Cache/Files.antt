-- ===== src/RenderJob/Cache/Files.antt =====
-- The entries of the cache and the files that they describe; entries that a lease holds.
use go_graphics.Common.{
  ℕ, ◌≡◌, ◌≢◌, String, true, some, List, arith, length, Bool-cases, same, inl, inr,
}
use go_graphics.Common.Dict.{lookup, lookup-delete, lookup-insert}
use go_graphics.RenderJob.Model.{Manager, Host, Artifact, is_positive}
use go_graphics.RenderJob.Cache.{
  drop_artifact, remove, forget_jobs, prune, store, publish, new_artifact,
}
use go_graphics.RenderJob.Cache.Induction.{remove-cases, prune-keeps, publish-keeps}

abbrev pub Describes : (List ℕ → String) → Manager → String → Artifact → Type 0
Describes sha m id a =
    (b : List ℕ) × (lookup id m.disk ≡ some b) × (a.size ≡ length b) × (a.digest ≡ sha b)

-- Every entry gives the size and the digest of its file.
abbrev pub IsStored : (List ℕ → String) → Manager → Type 0
IsStored sha m =
    (id : String) (a : Artifact) → lookup id m.artifacts ≡ some a → Describes sha m id a

drop_artifact-IsStored :
    (sha : List ℕ → String) (id : String) (m : Manager)
    → IsStored sha m
    → IsStored sha (drop_artifact id m)
unfolding drop_artifact
drop_artifact-IsStored sha id m s j a e =
    let (b, f, n, d) = s j a (ground (arith, lookup-delete id j m.artifacts)) in
    (b, ground (arith, lookup-delete id j m.artifacts, lookup-delete id j m.disk), n, d)

remove-IsStored :
    (sha : List ℕ → String) (host : Host) (id : String) (m : Manager)
    → IsStored sha m
    → IsStored sha (remove host id m).0
remove-IsStored sha host id m s =
    remove-cases (IsStored sha) host id m s (λ _. drop_artifact-IsStored sha id m s)

store-IsStored :
    (host : Host) (now : ℕ) (id : String) (b : List ℕ) (m : Manager)
    → IsStored host.sha256_hex m
    → IsStored host.sha256_hex (store host now id b m)
unfolding store
store-IsStored host now id b m s j a e = elim (Bool-cases (same id j)) [
  | inl here ↦ (
    b,
    ground (arith, lookup-insert id j b m.disk),
    ground (arith, lookup-insert id j (new_artifact host now b) m.artifacts),
    ground (arith, lookup-insert id j (new_artifact host now b) m.artifacts),
  )
  | inr there ↦
      let (c, f, n, d) =
        s j a (ground (arith, lookup-insert id j (new_artifact host now b) m.artifacts)) in
      (c, ground (arith, lookup-insert id j b m.disk), n, d)
]

-- If each entry gives the size and the digest of its file, each does so after a publication,
-- whatever that prunes, evicts and writes, and whether it succeeds or fails.
pub publish-IsStored :
    (host : Host) (now : ℕ) (id : String) (b : List ℕ) (m : Manager)
    → IsStored host.sha256_hex m
    → IsStored host.sha256_hex (publish host now id b m).0
unfolding forget_jobs
publish-IsStored host now id b =
    publish-keeps host (IsStored host.sha256_hex) (remove-IsStored host.sha256_hex host) now
      (λ m s. s) id b (store-IsStored host now id b)

pub prune-IsStored :
    (sha : List ℕ → String) (host : Host) (now : ℕ) (m : Manager)
    → IsStored sha m
    → IsStored sha (prune host now m)
unfolding forget_jobs
prune-IsStored sha host now =
    prune-keeps host (IsStored sha) (remove-IsStored sha host) now (λ m s. s)

module _ (host : Host) (j : String) (a : Artifact) (held : is_positive a.refs ≡ true) where
  HasEntry : Manager → Type 0
  HasEntry m = lookup j m.artifacts ≡ some a

  remove-HasEntry : (id : String) (m : Manager) → HasEntry m → HasEntry (remove host id m).0
  unfolding HasEntry drop_artifact
  remove-HasEntry id m h =
      remove-cases HasEntry host id m h (λ free. ground (arith, lookup-delete id j m.artifacts))

  pub prune_spares :
      (now : ℕ) (m : Manager)
      → lookup j m.artifacts ≡ some a
      → lookup j (prune host now m).artifacts ≡ some a
  unfolding HasEntry forget_jobs
  prune_spares now = prune-keeps host HasEntry remove-HasEntry now (λ m h. h)

  -- While a lease holds an entry, the publication of an image with another id leaves that entry as
  -- it is.
  pub publish_spares :
      (now : ℕ) (id : String) (b : List ℕ) (m : Manager)
      → id ≢ j
      → lookup j m.artifacts ≡ some a
      → lookup j (publish host now id b m).0.artifacts ≡ some a
  unfolding HasEntry forget_jobs store
  publish_spares now id b m n =
      publish-keeps host HasEntry remove-HasEntry now (λ k h. h) id b
        (λ k h. ground (arith, lookup-insert id j (new_artifact host now b) k.artifacts)) m
