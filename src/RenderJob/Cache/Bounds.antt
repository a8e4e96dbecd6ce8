-- ===== src/RenderJob/Cache/Bounds.antt =====
-- `prune` and the loop of `publish` against the limits of the cache.
use go_graphics.Common.{
  ℕ, zero, suc, ◌≤◌, ◌≡◌, ◌⊎◌, inl, inr, true, false, none, arith, length, Bool-cases, Option-cases,
  subst, sym, some, String, List, ◌<◌, ◌+◌, refl,
}
use go_graphics.RenderJob.Model.{Manager, Host}
use go_graphics.RenderJob.Cache.{
  evict_oldest, shrink, make_room, is_over, is_full, present, Error, write_image, store,
  forget_jobs, prune, expire_artifacts, new_artifact,
}
use go_graphics.RenderJob.Cache.Consistent.{
  IsConsistent, evict_oldest-IsConsistent, forget_jobs-IsConsistent, remove-IsConsistent,
  prune-IsConsistent, size_of,
}
use go_graphics.RenderJob.Cache.Eviction.{
  evict_oldest-shrinks, evict_oldest_failed, EvictionOutcome, AllHeld, evict_oldest_lem,
}
use go_graphics.Common.Int.{◌≤ℤ◌, pos}
use go_graphics.RenderJob.Cache.Induction.{expire_artifacts-keeps}
use go_graphics.Common.Dict.{sum_of-insert, length-sum_of, insert, sum_of, weight-le-sum_of}

-- Where the last loop of `prune` ends.
abbrev pub IsSettled : Host → Manager → Type 0
IsSettled host m = (is_over m ≡ false) ⊎ (present (evict_oldest host m).1 ≡ true)

module _ (fuel : ℕ) (host : Host) (m : Manager) where
  shrink_done : is_over m ≡ false → shrink (suc fuel) host m ≡ m
  unfolding shrink
  shrink_done h = rw (h, shrink)

  shrink_next :
      is_over m ≡ true
      → (evict_oldest host m).1 ≡ none
      → shrink (suc fuel) host m ≡ shrink fuel host (evict_oldest host m).0
  unfolding shrink
  shrink_next h e = rw (h, e, shrink)

  shrink_stuck :
      (x : Error)
      → is_over m ≡ true
      → (evict_oldest host m).1 ≡ some x
      → shrink (suc fuel) host m ≡ m
  unfolding shrink
  shrink_stuck x h e = rw (h, e, shrink) (evict_oldest_failed host m x e)

shrink-exits :
    (fuel : ℕ) (host : Host) (m : Manager)
    → IsConsistent m
    → length m.artifacts ≤ fuel
    → IsSettled host (shrink fuel host m)
shrink-exits zero host m c h = elim (Option-cases (evict_oldest host m).1) [
  | inl e ↦ absurd (omega (arith, evict_oldest-shrinks host m c e))
  | inr (x, e) ↦ inr (unfold shrink in rw e)
]
shrink-exits (suc fuel) host m c h = elim (Bool-cases (is_over m)) [
  | inr fits ↦ subst (IsSettled host) (sym (shrink_done fuel host m fits)) (inl fits)
  | inl over ↦ elim (Option-cases (evict_oldest host m).1) [
    | inl e ↦ subst (IsSettled host) (sym (shrink_next fuel host m over e)) (
        shrink-exits fuel host (evict_oldest host m).0 (evict_oldest-IsConsistent host m c)
          (omega (arith, evict_oldest-shrinks host m c e)))
    | inr (x, e) ↦ subst (IsSettled host) (sym (shrink_stuck fuel host m x over e)) (inr (rw e))
  ]
]

pub make_room-exits :
    (fuel : ℕ) (host : Host) (n : ℕ) (m : Manager)
    → IsConsistent m
    → length m.artifacts ≤ fuel
    → (make_room fuel host n m).1 ≡ none
    → (is_full n (make_room fuel host n m).0 ≡ false)
      ⊎ (length (make_room fuel host n m).0.artifacts ≡ 0)
unfolding make_room
make_room-exits zero host n m c h e = inr (omega arith)
make_room-exits (suc fuel) host n m c h e =
    let k = evict_oldest-IsConsistent host m c in
    ground
      (arith, evict_oldest-shrinks host m c, make_room-exits fuel host n (evict_oldest host m).0 k)

pruned : Host → ℕ → Manager → Manager
pruned host now m = forget_jobs now (expire_artifacts host now m.artifacts m)

pruned-IsConsistent :
    (host : Host) (now : ℕ) (m : Manager) → IsConsistent m → IsConsistent (pruned host now m)
unfolding pruned
pruned-IsConsistent host now m c =
    forget_jobs-IsConsistent now _
      (expire_artifacts-keeps host IsConsistent (remove-IsConsistent host) now m.artifacts m c)

prune-IsSettled :
    (host : Host) (now : ℕ) (m : Manager) → IsConsistent m → IsSettled host (prune host now m)
unfolding prune pruned
prune-IsSettled host now m c =
    shrink-exits _ host (pruned host now m) (pruned-IsConsistent host now m c) (omega arith)

settled_cases :
    (host : Host) (n : Manager)
    → ((id : String) → host.unlink id ≡ true)
    → EvictionOutcome host n (evict_oldest host n)
    → present (evict_oldest host n).1 ≡ true
    → AllHeld n
settled_cases host n u (inl (held, _)) p = held
settled_cases host n u (inr (key, a, _, inl (stays, _))) p = ground (arith, u key)
settled_cases host n u (inr (key, a, _, inr (e, _))) p = ground arith

-- If the books of the cache are consistent and every file can be removed, `prune` brings the cache
-- within both limits, unless leases hold every entry that is left.
pub prune_within :
    (host : Host) (now : ℕ) (m : Manager)
    → IsConsistent m
    → ((id : String) → host.unlink id ≡ true)
    → ((prune host now m).bytes ≤ℤ pos (prune host now m).cfg.cache_bytes)
        × (length (prune host now m).artifacts ≤ (prune host now m).cfg.cache_count)
      ⊎ AllHeld (prune host now m)
prune_within host now m c u = go (prune-IsSettled host now m c)
  where
    n : Manager
    n = prune host now m

    go :
        IsSettled host n
        → ((n.bytes ≤ℤ pos n.cfg.cache_bytes) × (length n.artifacts ≤ n.cfg.cache_count))
          ⊎ AllHeld n
    go (inl fits) = inl (ground arith)
    go (inr p) =
        inr (settled_cases host n u (evict_oldest_lem host n (prune-IsConsistent host now m c)) p)

abbrev pub IsWithin : Manager → Type 0
IsWithin m = (m.bytes ≤ℤ pos m.cfg.cache_bytes) × (length m.artifacts ≤ m.cfg.cache_count)

store-cfg :
    (host : Host) (now : ℕ) (id : String) (b : List ℕ) (m : Manager)
    → (store host now id b m).cfg ≡ m.cfg
unfolding store
store-cfg host now id b m = refl

store_count :
    (host : Host) (now : ℕ) (id : String) (b : List ℕ) (m : Manager)
    → length (store host now id b m).artifacts ≤ length m.artifacts + 1
unfolding store
store_count host now id b m =
    let a = new_artifact host now b in
    omega (
      arith,
      length-sum_of m.artifacts,
      length-sum_of (insert id a m.artifacts),
      sum_of-insert (λ _. 1) id a m.artifacts,
    )

store_bytes :
    (host : Host) (now : ℕ) (id : String) (b : List ℕ) (m : Manager)
    → IsConsistent m
    → (store host now id b m).bytes ≤ℤ pos (sum_of size_of m.artifacts + length b)
unfolding store
store_bytes host now id b m c = ground (arith, weight-le-sum_of size_of id m.artifacts)

pub write_image-IsWithin :
    (host : Host) (now : ℕ) (id : String) (b : List ℕ) (m : Manager)
    → IsConsistent m
    → 0 < m.cfg.cache_count
    → (is_full (length b) m ≡ false) ⊎ (length m.artifacts ≡ 0)
    → (write_image host now id b m).1 ≡ none
    → (write_image host now id b m ≡ (store host now id b m, none))
      × IsWithin (store host now id b m)
unfolding write_image
write_image-IsWithin host now id b m c h full e =
    ground
      (arith, store_count host now id b m, store_bytes host now id b m c, store-cfg host now id b m)
