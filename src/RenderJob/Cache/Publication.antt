-- ===== src/RenderJob/Cache/Publication.antt =====
-- `publish` as a whole, when it succeeds.
use go_graphics.Common.{
  ℕ, ◌<◌, ◌≡◌, refl, String, none, some, List, arith, length, Option, subst, sym, false, ◌∙◌, ◌⊎◌,
}
use go_graphics.Common.Dict.{lookup, lookup-insert_self}
use go_graphics.Common.Int.{pos}
use go_graphics.RenderJob.Model.{Config, Manager, Host}
use go_graphics.RenderJob.Cache.{
  publish, prune, make_room, write_image, store, forget_jobs, drop_artifact, remove, Error, is_full,
  new_artifact,
}
use go_graphics.RenderJob.Cache.Induction.{remove-cases, make_room-keeps, prune-keeps}
use go_graphics.RenderJob.Cache.Consistent.{
  IsConsistent, make_room-IsConsistent, prune-IsConsistent,
}
use go_graphics.RenderJob.Cache.Bounds.{IsWithin, write_image-IsWithin, make_room-exits}

module _ (host : Host) (c : Config) where
  HasConfig : Manager → Type 0
  HasConfig m = m.cfg ≡ c

  remove-HasConfig : (id : String) (m : Manager) → HasConfig m → HasConfig (remove host id m).0
  unfolding HasConfig drop_artifact
  remove-HasConfig id m h = remove-cases HasConfig host id m h (λ _. h)

  pub prune-cfg : (now : ℕ) (m : Manager) → m.cfg ≡ c → (prune host now m).cfg ≡ c
  unfolding HasConfig forget_jobs
  prune-cfg now m h = prune-keeps host HasConfig remove-HasConfig now (λ k p. p) m h

  pub make_room-cfg : (fuel n : ℕ) (m : Manager) → m.cfg ≡ c → (make_room fuel host n m).0.cfg ≡ c
  unfolding HasConfig
  make_room-cfg fuel n m h = make_room-keeps host HasConfig remove-HasConfig fuel n m h

module _ (host : Host) (now : ℕ) (id : String) (b : List ℕ) (m : Manager) where
  room : Manager × Option Error
  room = make_room (length (prune host now m).artifacts) host (length b) (prune host now m)

  publish_succeeds :
      (publish host now id b m).1 ≡ none
      → (room.1 ≡ none) × (publish host now id b m ≡ write_image host now id b room.0)
  unfolding publish room
  publish_succeeds e = ground arith

  room-IsConsistent : IsConsistent m → IsConsistent room.0
  unfolding room
  room-IsConsistent c = make_room-IsConsistent _ (length b) host _ (prune-IsConsistent host now m c)

  room-cfg : room.0.cfg ≡ m.cfg
  unfolding room
  room-cfg = make_room-cfg host m.cfg _ (length b) _ (prune-cfg host m.cfg now m refl)

  room_made :
      IsConsistent m
      → room.1 ≡ none
      → (is_full (length b) room.0 ≡ false) ⊎ (length room.0.artifacts ≡ 0)
  unfolding room
  room_made c e =
      make_room-exits _ host (length b) _ (prune-IsConsistent host now m c) (omega arith) e

-- If the books of the cache are consistent and it may hold a file at all, a publication that
-- succeeds leaves it within both limits, with the image's bytes on disk and an entry of their size
-- and digest that no lease holds.
pub publish-IsWithin :
    (host : Host) (now : ℕ) (id : String) (b : List ℕ) (m : Manager)
    → IsConsistent m
    → 0 < m.cfg.cache_count
    → (publish host now id b m).1 ≡ none
    → let n = (publish host now id b m).0 in
      IsWithin n
      × (lookup id n.disk ≡ some b)
      × (lookup id n.artifacts
          ≡ some
              (record { size = length b; created = now; digest = host.sha256_hex b; refs = pos 0 }))
unfolding store
publish-IsWithin host now id b m c h e =
    let p = publish_succeeds host now id b m e in
    let k = (room host now id b m).0 in
    let count = subst (λ g. 0 < g.cache_count) (sym (room-cfg host now id b m)) h in
    let w =
      write_image-IsWithin host now id b k (room-IsConsistent host now id b m c) count
        (room_made host now id b m c p.0) (subst (λ r. r.1 ≡ none) p.1 e) in
    rw (p.1 ∙ w.0) (w.1, lookup-insert_self id b k.disk, lookup-insert_self id _ k.artifacts)

pub publish_stores :
    (host : Host) (now : ℕ) (id : String) (b : List ℕ) (m : Manager)
    → (publish host now id b m).1 ≡ none
    → let n = (publish host now id b m).0 in
      (lookup id n.disk ≡ some b) × (lookup id n.artifacts ≡ some (new_artifact host now b))
unfolding write_image store
publish_stores host now id b m e =
    let p = publish_succeeds host now id b m e in
    let k = (room host now id b m).0 in
    let w : (write_image host now id b k).1 ≡ none = subst (λ r. r.1 ≡ none) p.1 e in
    rw p.1 (
      ground (arith, w, lookup-insert_self id b k.disk),
      ground (arith, w, lookup-insert_self id (new_artifact host now b) k.artifacts),
    )
