-- ===== src/RenderJob/Cache/Consistent.antt =====
-- The cache's books: its byte count and the sizes of its entries.
use go_graphics.Common.{ℕ, ◌≡◌, ◌≢◌, none, String, List, arith}
use go_graphics.Common.Dict.{
  Distinct, sum_of, delete-Distinct, insert-Distinct, sum_of-delete, sum_of-insert,
  weight-le-sum_of, lookup, lookup-insert, lookup-delete,
}
use go_graphics.Common.Int.{pos}
use go_graphics.RenderJob.Model.{Manager, Host, Artifact}
use go_graphics.RenderJob.Cache.Induction.{
  evict_oldest-keeps, make_room-keeps, prune-keeps, publish-keeps, remove-cases,
}
use go_graphics.RenderJob.Cache.{
  remove, evict_oldest, forget_jobs, prune, make_room, store, publish, drop_artifact, new_artifact,
}

abbrev pub size_of : Artifact → ℕ
size_of a = a.size

pub record IsConsistent (m : Manager) : Type 0 where
  pub distinct : Distinct m.artifacts
  pub named : lookup "" m.artifacts ≡ none
  pub counted : m.bytes ≡ pos (sum_of size_of m.artifacts)

pub drop_artifact-IsConsistent :
    (id : String) (m : Manager) → IsConsistent m → IsConsistent (drop_artifact id m)
unfolding drop_artifact
drop_artifact-IsConsistent id m c = ground (
  arith,
  sum_of-delete size_of id m.artifacts c.distinct,
  delete-Distinct id m.artifacts c.distinct,
  lookup-delete id "" m.artifacts,
)

pub remove-IsConsistent :
    (host : Host) (id : String) (m : Manager) → IsConsistent m → IsConsistent (remove host id m).0
remove-IsConsistent host id m c =
    remove-cases IsConsistent host id m c (λ _. drop_artifact-IsConsistent id m c)

pub store-IsConsistent :
    (host : Host) (now : ℕ) (id : String) (b : List ℕ) (m : Manager)
    → id ≢ ""
    → IsConsistent m
    → IsConsistent (store host now id b m)
unfolding store
store-IsConsistent host now id b m n c =
    let a = new_artifact host now b in
    ground (
      arith,
      sum_of-insert size_of id a m.artifacts,
      weight-le-sum_of size_of id m.artifacts,
      insert-Distinct id a m.artifacts c.distinct,
      lookup-insert id "" a m.artifacts,
    )

pub evict_oldest-IsConsistent :
    (host : Host) (m : Manager) → IsConsistent m → IsConsistent (evict_oldest host m).0
evict_oldest-IsConsistent host = evict_oldest-keeps host IsConsistent (remove-IsConsistent host)

pub make_room-IsConsistent :
    (fuel n : ℕ) (host : Host) (m : Manager)
    → IsConsistent m
    → IsConsistent (make_room fuel host n m).0
make_room-IsConsistent fuel n host =
    make_room-keeps host IsConsistent (remove-IsConsistent host) fuel n

pub forget_jobs-IsConsistent :
    (now : ℕ) (m : Manager) → IsConsistent m → IsConsistent (forget_jobs now m)
unfolding forget_jobs
forget_jobs-IsConsistent now m c = record {
  distinct = c.distinct;
  named = c.named;
  counted = c.counted;
}

-- Pruning keeps the books.
pub prune-IsConsistent :
    (host : Host) (now : ℕ) (m : Manager) → IsConsistent m → IsConsistent (prune host now m)
prune-IsConsistent host now =
    prune-keeps host IsConsistent (remove-IsConsistent host) now (forget_jobs-IsConsistent now)

-- If the byte count is the sum of the entries' sizes, one entry for each id and none for the empty
-- one, it is so after a publication under an id that is not empty, whether it succeeds or fails.
pub publish-IsConsistent :
    (host : Host) (now : ℕ) (id : String) (b : List ℕ) (m : Manager)
    → id ≢ ""
    → IsConsistent m
    → IsConsistent (publish host now id b m).0
publish-IsConsistent host now id b m n =
    publish-keeps host IsConsistent (remove-IsConsistent host) now (forget_jobs-IsConsistent now) id
      b (λ k. store-IsConsistent host now id b k n) m
