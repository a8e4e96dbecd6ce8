-- ===== src/RenderJob/Leases/Lifecycle.antt =====
-- A lease from `Open` to `Close`, and the cache meanwhile.
use go_graphics.Common.{ℕ, ◌≤◌, ◌<◌, ◌≡◌, String, false, List, ◌∷◌, arith, length}
use go_graphics.Common.Dict.{lookup-insert, lookup-delete}
use go_graphics.RenderJob.Model.{Manager, Host, Lease, ok}
use go_graphics.RenderJob.Cache.{
  remove, drop_artifact, prune, publish, store, forget_jobs, new_artifact,
}
use go_graphics.RenderJob.Cache.Induction.{remove-cases, prune-keeps, publish-keeps}
use go_graphics.RenderJob.Cache.Files.{IsStored}
use go_graphics.RenderJob.Leases.{open_image, close}
use go_graphics.RenderJob.Leases.Counting.{
  Holds, count, remove_one, reserve-Holds, release-Holds, open_image_succeeds,
}

-- If the counts are those of the open leases and the entries describe their files, a lease that
-- `Open` gives out is counted, is the 32nd of its image and the 64th of all at most, and comes
-- with the digest of the bytes that it reads.
pub open_image-Holds :
    (host : Host) (now : ℕ) (id : String) (m : Manager) (held : List String) (l : Lease)
    (d : String)
    → Holds m held
    → IsStored host.sha256_hex m
    → (open_image host now id m).1 ≡ ok (l, d)
    → Holds (open_image host now id m).0 (id ∷ held)
      × (count id (id ∷ held) ≤ 32)
      × (length (id ∷ held) ≤ 64)
      × (d ≡ host.sha256_hex l.content)
unfolding count
open_image-Holds host now id m held l d h s e =
    let (a, o, r) = open_image_succeeds host now id m l d e in
    let (b, f, _, g) = s id a o.entry in
    (
      rw r (reserve-Holds id a m held h o.entry),
      ground (arith, h.counted id, o.entry, o.few),
      ground (arith, h.opened, o.few_open),
      ground (arith, o.file, o.digest),
    )

-- If the counts are those of the open leases, the first `Close` of one of them takes it off the
-- counts, and any further `Close` of it changes nothing in whatever state.
pub close-Holds :
    (l : Lease) (m : Manager) (held : List String)
    → Holds m held
    → l.released ≡ false
    → 0 < count l.id held
    → Holds (close l m).0 (remove_one l.id held)
      × ((n : Manager) → close (close l m).1 n ≡ (n, (close l m).1))
unfolding close
close-Holds l m held h open_now e =
    (rw (open_now, close) (release-Holds l.id m held h e), λ n. ground arith)

remove-Holds :
    (held : List String) (host : Host) (id : String) (m : Manager)
    → Holds m held
    → Holds (remove host id m).0 held
unfolding drop_artifact
remove-Holds held host id m h =
    remove-cases (λ k. Holds k held) host id m h
      λ free. record {
        counted = λ j. ground (arith, h.counted id, h.counted j, lookup-delete id j m.artifacts);
        opened = h.opened;
      }

pub prune-Holds :
    (held : List String) (host : Host) (now : ℕ) (m : Manager)
    → Holds m held
    → Holds (prune host now m) held
unfolding forget_jobs
prune-Holds held host now =
    prune-keeps host (λ k. Holds k held) (remove-Holds held host) now
      (λ k h. record { counted = h.counted; opened = h.opened })

-- If the counts are those of the open leases, they are so after the publication of an image that
-- no lease holds, whatever it evicts.
pub publish-Holds :
    (held : List String) (host : Host) (now : ℕ) (id : String) (b : List ℕ) (m : Manager)
    → count id held ≡ 0
    → Holds m held
    → Holds (publish host now id b m).0 held
unfolding forget_jobs store
publish-Holds held host now id b m z =
    publish-keeps host (λ k. Holds k held) (remove-Holds held host) now
      (λ k h. record { counted = h.counted; opened = h.opened }) id b
      (λ k h. record {
        counted = λ j.
            ground
              (arith, h.counted j, z, lookup-insert id j (new_artifact host now b) k.artifacts);
        opened = h.opened;
      })
      m
