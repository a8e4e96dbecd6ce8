-- ===== src/RenderJob/Cache.antt =====
-- internal/renderjob/manager.go: the image cache. `remove`, `evictOldest`, `prune` and `publish`.
pub mod Induction
pub mod Consistent
pub mod Eviction
pub mod Bounds
pub mod Publication
pub mod Files
use go_graphics.Common.{
  ℕ, zero, suc, ◌+◌, ◌*◌, ◌%◌, ◌^◌, String, Bool, true, false, not, ◌&&◌, ◌||◌, Option, none, some,
  List, [], ◌∷◌, length, if◌then◌else◌, ltb, leb, same,
}
use go_graphics.Common.Dict.{Dict, lookup, insert, delete, retain}
use go_graphics.Common.Int.{ℤ, pos, ◌+ℤ◌, ◌-ℤ◌, ltb_ℤ}
use go_graphics.RenderJob.Model.{
  Manager, Host, Artifact, Job, Error, busy, failure, artifact_at, is_positive, is_zero, is_live,
  older, minute, mib64,
}

abbrev pub present {ℓ} : {A : Type ℓ} → Option A → Bool
present none = false
present (some _) = true

-- `os.Remove` succeeds, or finds no file.
abbrev pub removable : Host → String → Manager → Bool
removable host id m = if present (lookup id m.disk) then host.unlink id else true

-- The last lines of `remove`.
unfoldable pub drop_artifact : String → Manager → Manager
unfolding ◌-ℤ◌
drop_artifact id m = record m {
  bytes = m.bytes -ℤ pos (artifact_at id m).size;
  artifacts = delete id m.artifacts;
  disk = delete id m.disk;
}

unfoldable pub remove : Host → String → Manager → Manager × Option Error
remove host id m =
    if is_positive (artifact_at id m).refs
    then (m, some busy)
    else if removable host id m
    then (drop_artifact id m, none)
    else (m, some (failure "remove"))

-- The loop of `evictOldest`, from `key` and `oldest`.
unfoldable pub oldest_from : Dict Artifact → String → ℕ → String
oldest_from [] key oldest = key
oldest_from ((id, a) ∷ rest) key oldest =
    let better = is_zero a.refs && (same key "" || ltb a.created oldest) in
    oldest_from rest (if better then id else key) (if better then a.created else oldest)

unfoldable pub evict_oldest : Host → Manager → Manager × Option Error
evict_oldest host m =
    let key = oldest_from m.artifacts "" 0 in
    if same key "" then (m, some busy) else remove host key m

-- `m.bytes > m.cfg.CacheBytes || len(m.artifacts) > m.cfg.CacheCount`
abbrev pub is_over : Manager → Bool
is_over m = ltb_ℤ (pos m.cfg.cache_bytes) m.bytes || ltb m.cfg.cache_count (length m.artifacts)

-- The last loop of `prune`; each round but the last removes an artifact, so the fuel is their number.
unfoldable pub shrink : ℕ → Host → Manager → Manager
shrink zero host m = m
shrink (suc fuel) host m = elim (is_over m) [
  | false ↦ m
  | true ↦ elim (evict_oldest host m).1 [
    | some _ ↦ (evict_oldest host m).0
    | none ↦ shrink fuel host (evict_oldest host m).0
  ]
]

-- The first loop of `prune`, over the entries that it meets.
unfoldable pub expire_artifacts : Host → ℕ → Dict Artifact → Manager → Manager
expire_artifacts host now [] m = m
expire_artifacts host now ((id, a) ∷ rest) m =
    expire_artifacts host now rest
      (if is_zero a.refs && older now a.created m.cfg.max_age then (remove host id m).0 else m)

-- The second loop of `prune` deletes the jobs that fail this test.
abbrev pub is_remembered : ℕ → Job → Bool
is_remembered now j = is_live j.state || not (older now j.created (30 * minute))

unfoldable pub forget_jobs : ℕ → Manager → Manager
forget_jobs now m = record m { jobs = retain (is_remembered now) m.jobs }

unfoldable pub prune : Host → ℕ → Manager → Manager
unfolding forget_jobs
prune host now m =
    let m1 = expire_artifacts host now m.artifacts m in
    let m2 = forget_jobs now m1 in shrink (length m2.artifacts) host m2

-- `m.bytes+int64(len(b)) > m.cfg.CacheBytes || len(m.artifacts) >= m.cfg.CacheCount`
abbrev pub is_full : ℕ → Manager → Bool
is_full n m =
    ltb_ℤ (pos m.cfg.cache_bytes) (m.bytes +ℤ pos n) || leb m.cfg.cache_count (length m.artifacts)

-- The loop of `publish` that makes room for `n` bytes.
unfoldable pub make_room : ℕ → Host → ℕ → Manager → Manager × Option Error
make_room zero host n m = (m, none)
make_room (suc fuel) host n m = elim (is_full n m && ltb 0 (length m.artifacts)) [
  | false ↦ (m, none)
  | true ↦ elim (evict_oldest host m).1 [
    | some e ↦ ((evict_oldest host m).0, some e)
    | none ↦ make_room fuel host n (evict_oldest host m).0
  ]
]

abbrev pub new_artifact : Host → ℕ → List ℕ → Artifact
new_artifact host now b = record {
  size = length b;
  created = now;
  digest = host.sha256_hex b;
  refs = pos 0;
}

-- The bytes and the entry of a finished image.
unfoldable pub store : Host → ℕ → String → List ℕ → Manager → Manager
unfolding ◌+ℤ◌ ◌-ℤ◌
store host now id b m =
    let old : ℕ = elim (lookup id m.artifacts) [ none ↦ 0 | some a ↦ a.size ] in
    record m {
      bytes = m.bytes -ℤ pos old +ℤ pos (length b);
      artifacts = insert id (new_artifact host now b) m.artifacts;
      disk = insert id b m.disk;
    }

-- `uint64` arithmetic wraps.
abbrev pub is_disk_low : ℕ × ℕ → ℕ → Bool
is_disk_low (bavail, bsize) n = ltb ((bavail * bsize) % 2 ^ 64) ((n + mib64) % 2 ^ 64)

-- `publish` behind the loop.
unfoldable pub write_image : Host → ℕ → String → List ℕ → Manager → Manager × Option Error
unfolding ◌+ℤ◌
write_image host now id b m =
    if ltb_ℤ (pos m.cfg.cache_bytes) (m.bytes +ℤ pos (length b))
    then (m, some busy)
    else if host.saved
    then (store host now id b m, none)
    else (m, some (failure "write"))

unfoldable pub publish : Host → ℕ → String → List ℕ → Manager → Manager × Option Error
publish host now id b m =
    let m1 = prune host now m in
    elim host.statfs [
      | none ↦ (m1, some (failure "statfs"))
      | some fs ↦
          if is_disk_low fs (length b)
          then (m1, some (failure "disk capacity low"))
          else let r = make_room (length m1.artifacts) host (length b) m1 in
            elim r.1 [ some e ↦ (r.0, some e) | none ↦ write_image host now id b r.0 ]
    ]
