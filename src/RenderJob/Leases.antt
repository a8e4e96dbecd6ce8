-- ===== src/RenderJob/Leases.antt =====
-- internal/renderjob/manager.go: `Open` and `Lease.Close`.
pub mod Counting
pub mod Lifecycle
use go_graphics.Common.{
  ℕ, ◌&&◌, ◌||◌, String, Bool, true, false, Option, none, some, List, if◌then◌else◌, leb,
}
use go_graphics.Common.Dict.{lookup, insert}
use go_graphics.Common.Int.{ℤ, pos, ◌+ℤ◌, ◌-ℤ◌, ltb_ℤ}
use go_graphics.RenderJob.Model.{
  Manager, Host, Artifact, Lease, Result, ok, err, Error, busy, not_exist, failure, artifact_at,
  older,
}

-- `os.Open`: the bytes of the file, if it is there and can be read.
abbrev pub open_file : Host → String → Manager → Option (List ℕ)
open_file host id m = if host.readable id then lookup id m.disk else none

-- `a >= b`
abbrev at_least : ℤ → ℤ → Bool
at_least a b = if ltb_ℤ a b then false else true

abbrev pub reserved : Artifact → Artifact
reserved a = record a { refs = a.refs +ℤ pos 1 }

abbrev pub unreserved : Artifact → Artifact
unreserved a = record a { refs = a.refs -ℤ pos 1 }

unfoldable pub reserve : Manager → String → Artifact → Manager
unfolding ◌+ℤ◌
reserve m id a = record m {
  artifacts = insert id (reserved a) m.artifacts;
  opened = m.opened +ℤ pos 1;
}

serve : Manager → String → Artifact → List ℕ → Manager × Result (Lease × String)
unfolding reserve
serve m id a content =
    if at_least a.refs (pos 32) || at_least m.opened (pos 64)
    then (m, err busy)
    else (reserve m id a, ok (record { id = id; content = content; released = false }, a.digest))

unfoldable pub open_image : Host → ℕ → String → Manager → Manager × Result (Lease × String)
unfolding serve
open_image host now id m = elim (lookup id m.artifacts) [
  | none ↦ (m, err not_exist)
  | some a ↦
      if older now a.created m.cfg.max_age then (m, err not_exist) else elim (open_file host id m) [
        | none ↦ (m, err (failure "open"))
        | some content ↦ serve m id a content
      ]
]

-- The closure that `Open` puts into the lease.
unfoldable pub release : String → Manager → Manager
unfolding ◌-ℤ◌
release id m = record m {
  artifacts = insert id (unreserved (artifact_at id m)) m.artifacts;
  opened = m.opened -ℤ pos 1;
}

unfoldable pub close : Lease → Manager → Manager × Lease
close l m = if l.released then (m, l) else (release l.id m, record l { released = true })
