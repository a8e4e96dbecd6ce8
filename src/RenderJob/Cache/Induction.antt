-- ===== src/RenderJob/Cache/Induction.antt =====
-- What every removal, the forgetting of old jobs and the entry of a new image keep, `prune` and
-- `publish` keep.
use go_graphics.Common.{
  ℕ, zero, suc, String, List, [], ◌∷◌, arith, length, ◌≡◌, false, Bool-cases, inl, inr,
}
use go_graphics.Common.Dict.{Dict}
use go_graphics.RenderJob.Model.{Manager, Host, Artifact}
use go_graphics.RenderJob.Cache.{
  remove, evict_oldest, oldest_from, shrink, expire_artifacts, forget_jobs, prune, make_room, store,
  write_image, publish, is_positive, artifact_at, drop_artifact, removable,
}

-- `remove` drops an entry that no lease holds, or changes nothing.
pub remove-cases {ℓ} :
    (P : Manager → Type ℓ) (host : Host) (id : String) (m : Manager)
    → P m
    → (is_positive (artifact_at id m).refs ≡ false → P (drop_artifact id m))
    → P (remove host id m).0
unfolding remove
remove-cases P host id m p q = elim (Bool-cases (is_positive (artifact_at id m).refs)) [
  | inl held ↦ rw (held, remove) p
  | inr free ↦ elim (Bool-cases (removable host id m)) [
    | inl can ↦ rw (free, can, remove) (q free)
    | inr cannot ↦ rw (free, cannot, remove) p
  ]
]

module _ {ℓ} (host : Host) (P : Manager → Type ℓ)
    (removed : (id : String) (m : Manager) → P m → P (remove host id m).0) where
  pub evict_oldest-keeps : (m : Manager) → P m → P (evict_oldest host m).0
  unfolding evict_oldest
  evict_oldest-keeps m p = ground (arith, removed (oldest_from m.artifacts "" 0) m p)

  pub shrink-keeps : (fuel : ℕ) (m : Manager) → P m → P (shrink fuel host m)
  unfolding shrink
  shrink-keeps zero m p = p
  shrink-keeps (suc fuel) m p =
      let e = evict_oldest-keeps m p in ground (arith, shrink-keeps fuel (evict_oldest host m).0 e)

  pub expire_artifacts-keeps :
      (now : ℕ) (l : Dict Artifact) (m : Manager) → P m → P (expire_artifacts host now l m)
  unfolding expire_artifacts
  expire_artifacts-keeps now [] m p = p
  expire_artifacts-keeps now ((id, a) ∷ rest) m p =
      expire_artifacts-keeps now rest _ (ground (arith, removed id m p))

  pub make_room-keeps : (fuel n : ℕ) (m : Manager) → P m → P (make_room fuel host n m).0
  unfolding make_room
  make_room-keeps zero n m p = p
  make_room-keeps (suc fuel) n m p =
      let e = evict_oldest-keeps m p in
      ground (arith, make_room-keeps fuel n (evict_oldest host m).0 e)

  module _ (now : ℕ) (forgot : (m : Manager) → P m → P (forget_jobs now m)) where
    pub prune-keeps : (m : Manager) → P m → P (prune host now m)
    unfolding prune
    prune-keeps m p = shrink-keeps _ _ (forgot _ (expire_artifacts-keeps now m.artifacts m p))

    pub publish-keeps :
        (id : String) (b : List ℕ)
        → ((m : Manager) → P m → P (store host now id b m))
        → (m : Manager) → P m
        → P (publish host now id b m).0
    unfolding publish write_image
    publish-keeps id b stored m p =
        let m1 = prune host now m in
        let q = prune-keeps m p in
        let m2 = (make_room (length m1.artifacts) host (length b) m1).0 in
        let r : P m2 = make_room-keeps (length m1.artifacts) (length b) m1 q in
        ground (arith, stored m2 r)
