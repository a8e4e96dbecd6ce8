-- ===== src/RenderJob/System/Kept.antt =====
-- The invariant of the cache and its leases, under every change of the cache.
use go_graphics.Common.{List, String, ◌<◌, ℕ, ◌≢◌, Option-cases, arith, none, ◌≡◌, inl, length, inr}
use go_graphics.RenderJob.Cache.{
  store, forget_jobs, drop_artifact, publish, write_image, prune, remove, make_room,
}
use go_graphics.RenderJob.Model.{Manager, Host}
use go_graphics.RenderJob.Cache.Induction.{
  publish-keeps, prune-keeps, remove-cases, make_room-keeps,
}
use go_graphics.RenderJob.Cache.Bounds.{IsWithin}
use go_graphics.RenderJob.Cache.Consistent.{
  IsConsistent, forget_jobs-IsConsistent, drop_artifact-IsConsistent, size_of, publish-IsConsistent,
}
use go_graphics.RenderJob.Cache.Files.{prune-IsStored, IsStored, publish-IsStored}
use go_graphics.RenderJob.Leases.Counting.{count, Holds}
use go_graphics.Common.Dict.{sum_of-delete, weight-le-sum_of, length-sum_of, delete}
use go_graphics.RenderJob.Leases.Lifecycle.{prune-Holds, publish-Holds}
use go_graphics.RenderJob.Cache.Publication.{publish-IsWithin}

pub record IsKept (sha : List ℕ → String) (held : List String) (m : Manager) : Type 0 where
  pub settings : 0 < m.cfg.cache_count
  pub consistent : IsConsistent m
  pub within : IsWithin m
  pub stored : IsStored sha m
  pub holds : Holds m held

-- What concerns only the books.
record IsInBooks (m : Manager) : Type 0 where
  pub settings : 0 < m.cfg.cache_count
  pub consistent : IsConsistent m
  pub within : IsWithin m

drop_artifact-IsWithin :
    (id : String) (m : Manager) → IsConsistent m → IsWithin m → IsWithin (drop_artifact id m)
unfolding drop_artifact
drop_artifact-IsWithin id m c w = ground (
  arith,
  c.counted,
  sum_of-delete size_of id m.artifacts c.distinct,
  weight-le-sum_of size_of id m.artifacts,
  length-sum_of m.artifacts,
  length-sum_of (delete id m.artifacts),
  sum_of-delete (λ _. 1) id m.artifacts c.distinct,
)

remove-IsInBooks :
    (host : Host) (id : String) (m : Manager) → IsInBooks m → IsInBooks (remove host id m).0
unfolding drop_artifact
remove-IsInBooks host id m b = remove-cases IsInBooks host id m b λ free. record {
  settings = b.settings;
  consistent = drop_artifact-IsConsistent id m b.consistent;
  within = drop_artifact-IsWithin id m b.consistent b.within;
}

forget_jobs-IsInBooks : (now : ℕ) (m : Manager) → IsInBooks m → IsInBooks (forget_jobs now m)
unfolding forget_jobs
forget_jobs-IsInBooks now m b = record {
  settings = b.settings;
  consistent = forget_jobs-IsConsistent now m b.consistent;
  within = b.within;
}

prune-IsInBooks : (host : Host) (now : ℕ) (m : Manager) → IsInBooks m → IsInBooks (prune host now m)
prune-IsInBooks host now =
    prune-keeps host IsInBooks (remove-IsInBooks host) now (forget_jobs-IsInBooks now)

books : {sha : List ℕ → String} {held : List String} {m : Manager} → IsKept sha held m → IsInBooks m
books k = record { settings = k.settings; consistent = k.consistent; within = k.within }

pub prune-IsKept :
    (sha : List ℕ → String) (held : List String) (host : Host) (now : ℕ) (m : Manager)
    → IsKept sha held m
    → IsKept sha held (prune host now m)
prune-IsKept sha held host now m k =
    let b = prune-IsInBooks host now m (books k) in
    record {
      settings = b.settings;
      consistent = b.consistent;
      within = b.within;
      stored = prune-IsStored sha host now m k.stored;
      holds = prune-Holds held host now m k.holds;
    }

-- A publication that fails has pruned and evicted, and no more.
publish_fails {ℓ} :
    (P : Manager → Type ℓ) (host : Host) (now : ℕ) (id : String) (b : List ℕ) (m : Manager)
    → ((i : String) (k : Manager) → P k → P (remove host i k).0)
    → ((k : Manager) → P k → P (forget_jobs now k))
    → P m
    → (publish host now id b m).1 ≢ none
    → P (publish host now id b m).0
unfolding publish write_image
publish_fails P host now id b m removed forgot p e =
    let m1 = prune host now m in
    let q = prune-keeps host P removed now forgot m p in
    let m2 = (make_room (length m1.artifacts) host (length b) m1).0 in
    let r : P m2 = make_room-keeps host P removed (length m1.artifacts) (length b) m1 q in
    ground arith

publish_settings :
    (host : Host) (now : ℕ) (id : String) (b : List ℕ) (m : Manager)
    → 0 < m.cfg.cache_count
    → 0 < (publish host now id b m).0.cfg.cache_count
unfolding store
publish_settings host now id b =
    publish-keeps host (λ k. 0 < k.cfg.cache_count)
      (λ i k p.
        remove-cases (λ k. 0 < k.cfg.cache_count) host i k p (λ _. unfold drop_artifact in p))
      now (λ k p. unfold forget_jobs in p) id b (λ k p. p)

publish-IsWithin_kept :
    (host : Host) (now : ℕ) (id : String) (b : List ℕ) (m : Manager)
    → IsInBooks m
    → IsWithin (publish host now id b m).0
publish-IsWithin_kept host now id b m k = elim (Option-cases (publish host now id b m).1) [
  | inl fine ↦ (publish-IsWithin host now id b m k.consistent k.settings fine).0
  | inr (e, failed) ↦
      (publish_fails IsInBooks host now id b m (remove-IsInBooks host) (forget_jobs-IsInBooks now) k
        (λ n. ground (arith, n, failed))).within
]

pub publish-IsKept :
    (held : List String) (host : Host) (now : ℕ) (id : String) (b : List ℕ) (m : Manager)
    → id ≢ ""
    → count id held ≡ 0
    → IsKept host.sha256_hex held m
    → IsKept host.sha256_hex held (publish host now id b m).0
publish-IsKept held host now id b m n z k = record {
  settings = publish_settings host now id b m k.settings;
  consistent = publish-IsConsistent host now id b m n k.consistent;
  within = publish-IsWithin_kept host now id b m (books k);
  stored = publish-IsStored host now id b m k.stored;
  holds = publish-Holds held host now id b m z k.holds;
}
