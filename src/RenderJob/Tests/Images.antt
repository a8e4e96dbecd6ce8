-- ===== src/RenderJob/Tests/Images.antt =====
-- The cache and the leases at concrete inputs.
use go_graphics.Common.{
  String-discrete, refl, [], ◌∷◌, ℕ, String, true, false, List, some, none, length, ◌≢◌, same, ◌≡◌,
  ◌<◌, arith, ◌≤◌, ◌⊎◌, subst, same_refl,
}
use go_graphics.RenderJob.Samples.{
  host, sha, busy_manager, held_image, busy-IsStored, busy-Holds, busy-IsConsistent,
}
use go_graphics.RenderJob.Model.{Lease, ok, Manager}
use go_graphics.RenderJob.Cache.Consistent.{IsConsistent, publish-IsConsistent}
use go_graphics.RenderJob.Cache.{
  publish, prune, expire_artifacts, forget_jobs, evict_oldest, shrink, make_room, oldest_from,
  remove, drop_artifact, write_image, store,
}
use go_graphics.RenderJob.Leases.Counting.{count, Holds, remove_one}
use go_graphics.RenderJob.Leases.{open_image, close}
use go_graphics.Common.Dict.{lookup, retain, insert, delete}
use go_graphics.RenderJob.Cache.Eviction.{EvictionOutcome, evict_oldest_lem, AllHeld}
use go_graphics.RenderJob.Cache.Files.{IsStored, publish-IsStored, publish_spares}
use go_graphics.RenderJob.Leases.Lifecycle.{publish-Holds, open_image-Holds, close-Holds}
use go_graphics.Common.Int.{◌≤ℤ◌, pos, ◌+ℤ◌, ◌-ℤ◌}
use go_graphics.RenderJob.Cache.Bounds.{IsWithin, prune_within}
use go_graphics.RenderJob.Cache.Publication.{publish-IsWithin}

published : (publish host 11 "k2" (1 ∷ 2 ∷ 3 ∷ []) busy_manager).1 ≡ none
unfolding publish prune expire_artifacts forget_jobs retain shrink make_room evict_oldest
    oldest_from remove drop_artifact write_image lookup insert delete String-discrete ◌+ℤ◌ ◌-ℤ◌
    store
published = refl

publish-IsWithin_example :
    let n = (publish host 11 "k2" (1 ∷ 2 ∷ 3 ∷ []) busy_manager).0 in
    IsWithin n
    × (lookup "k2" n.disk ≡ some (1 ∷ 2 ∷ 3 ∷ []))
    × (lookup "k2" n.artifacts
        ≡ some (record { size = 3; created = 11; digest = "long"; refs = pos 0 }))
publish-IsWithin_example =
    publish-IsWithin host 11 "k2" (1 ∷ 2 ∷ 3 ∷ []) busy_manager busy-IsConsistent (omega arith)
      published

prune_within_example :
    ((prune host 11 busy_manager).bytes ≤ℤ pos (prune host 11 busy_manager).cfg.cache_bytes)
      × (length (prune host 11 busy_manager).artifacts
          ≤ (prune host 11 busy_manager).cfg.cache_count)
    ⊎ AllHeld (prune host 11 busy_manager)
prune_within_example = prune_within host 11 busy_manager busy-IsConsistent (λ id. refl)

evict_oldest_lem_example : EvictionOutcome host busy_manager (evict_oldest host busy_manager)
evict_oldest_lem_example = evict_oldest_lem host busy_manager busy-IsConsistent

not_empty : ◌≢◌ {A = String} "k2" ""
not_empty e = cc

publish-IsConsistent_example : IsConsistent (publish host 11 "k2" (1 ∷ 2 ∷ 3 ∷ []) busy_manager).0
publish-IsConsistent_example =
    publish-IsConsistent host 11 "k2" (1 ∷ 2 ∷ 3 ∷ []) busy_manager not_empty busy-IsConsistent

publish-IsStored_example : IsStored sha (publish host 11 "k2" (1 ∷ 2 ∷ 3 ∷ []) busy_manager).0
publish-IsStored_example = publish-IsStored host 11 "k2" (1 ∷ 2 ∷ 3 ∷ []) busy_manager busy-IsStored

held_there : lookup "a2" busy_manager.artifacts ≡ some held_image
unfolding lookup String-discrete
held_there = refl

names_differ : same "k2" "a2" ≡ false
unfolding String-discrete
names_differ = refl

other_name : ◌≢◌ {A = String} "k2" "a2"
other_name e = ground (arith, names_differ, subst (λ s. same "k2" s ≡ true) e (same_refl "k2"))

publish_spares_example :
    lookup "a2" (publish host 11 "k2" (1 ∷ 2 ∷ 3 ∷ []) busy_manager).0.artifacts ≡ some held_image
publish_spares_example =
    publish_spares host "a2" held_image refl 11 "k2" (1 ∷ 2 ∷ 3 ∷ []) busy_manager other_name
      held_there

opened :
    (open_image host 10 "a1" busy_manager).1
    ≡ ok (record { id = "a1"; content = 7 ∷ 8 ∷ 9 ∷ []; released = false }, "long")
unfolding open_image lookup String-discrete
opened = refl

abbrev sample_lease : String → List ℕ → Lease
sample_lease id b = record { id = id; content = b; released = false }

open_image-Holds_example :
    Holds (open_image host 10 "a1" busy_manager).0 ("a1" ∷ "a2" ∷ [])
    × (count "a1" ("a1" ∷ "a2" ∷ []) ≤ 32)
    × (length {A = String} ("a1" ∷ "a2" ∷ []) ≤ 64)
    × ("long" ≡ sha (7 ∷ 8 ∷ 9 ∷ []))
open_image-Holds_example =
    open_image-Holds host 10 "a1" busy_manager ("a2" ∷ []) (sample_lease "a1" (7 ∷ 8 ∷ 9 ∷ []))
      "long" busy-Holds busy-IsStored opened

one_held : 0 < count "a2" ("a2" ∷ [])
unfolding count String-discrete
one_held = omega arith

close-Holds_example :
    Holds (close (sample_lease "a2" (1 ∷ 2 ∷ [])) busy_manager).0 (remove_one "a2" ("a2" ∷ []))
    × ((n : Manager)
        → close (close (sample_lease "a2" (1 ∷ 2 ∷ [])) busy_manager).1 n
          ≡ (n, (close (sample_lease "a2" (1 ∷ 2 ∷ [])) busy_manager).1))
close-Holds_example =
    close-Holds (sample_lease "a2" (1 ∷ 2 ∷ [])) busy_manager ("a2" ∷ []) busy-Holds refl one_held

not_held : count "k2" ("a2" ∷ []) ≡ 0
unfolding count String-discrete
not_held = refl

publish-Holds_example : Holds (publish host 11 "k2" (1 ∷ 2 ∷ 3 ∷ []) busy_manager).0 ("a2" ∷ [])
publish-Holds_example =
    publish-Holds ("a2" ∷ []) host 11 "k2" (1 ∷ 2 ∷ 3 ∷ []) busy_manager not_held busy-Holds
