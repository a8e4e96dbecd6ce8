-- ===== src/RenderJob/Sound/Pruning.antt =====
-- The invariants of the jobs under `prune` and `publish`.
use go_graphics.Common.{ℕ, ◌≡◌, String, Bool, some, List, arith, same}
use go_graphics.Common.Dict.{
  lookup, lookup-delete, lookup-insert, lookup-retain, retain, retain-Distinct, sum_of-retain-le,
  length-sum_of,
}
use go_graphics.RenderJob.Model.{Manager, Host, Job}
use go_graphics.RenderJob.Cache.{
  remove, drop_artifact, forget_jobs, is_remembered, prune, publish, store, new_artifact,
}
use go_graphics.RenderJob.Cache.Induction.{remove-cases, prune-keeps, publish-keeps}
use go_graphics.RenderJob.Sound.{IsSound, IsBounded}

remove-IsSound :
    (except : String → Bool) (host : Host) (id : String) (m : Manager)
    → IsSound except m
    → IsSound except (remove host id m).0
unfolding drop_artifact
remove-IsSound except host id m s = remove-cases (IsSound except) host id m s λ free. record {
  distinct = s.distinct;
  uncached = λ i j e l x. ground (arith, lookup-delete id i m.artifacts, s.uncached i j e l x);
  few = s.few;
  waiting = s.waiting;
  allocated = s.allocated;
}

forgotten :
    (now : ℕ) (m : Manager) (except : String → Bool) (id : String) (j : Job)
    → IsSound except m
    → lookup id (retain (is_remembered now) m.jobs) ≡ some j
    → lookup id m.jobs ≡ some j
forgotten now m except id j s e =
    ground (arith, lookup-retain (is_remembered now) id m.jobs s.distinct)

forget_jobs-IsSound :
    (except : String → Bool) (now : ℕ) (m : Manager)
    → IsSound except m
    → IsSound except (forget_jobs now m)
unfolding forget_jobs
forget_jobs-IsSound except now m s = record {
  distinct = retain-Distinct (is_remembered now) m.jobs s.distinct;
  uncached = λ i j e. s.uncached i j (forgotten now m except i j s e);
  few = λ i j e. s.few i j (forgotten now m except i j s e);
  waiting = λ i j e. s.waiting i j (forgotten now m except i j s e);
  allocated = λ i j e. s.allocated i j (forgotten now m except i j s e);
}

pub prune-IsSound :
    (except : String → Bool) (host : Host) (now : ℕ) (m : Manager)
    → IsSound except m
    → IsSound except (prune host now m)
prune-IsSound except host now =
    prune-keeps host (IsSound except) (remove-IsSound except host) now
      (forget_jobs-IsSound except now)

store-IsSound :
    (host : Host) (now : ℕ) (id : String) (b : List ℕ) (m : Manager)
    → IsSound (same id) m
    → IsSound (same id) (store host now id b m)
unfolding store
store-IsSound host now id b m s = record {
  distinct = s.distinct;
  uncached = λ i j e l x.
      ground
        (arith, lookup-insert id i (new_artifact host now b) m.artifacts, s.uncached i j e l x, x);
  few = s.few;
  waiting = s.waiting;
  allocated = s.allocated;
}

pub publish-IsSound :
    (host : Host) (now : ℕ) (id : String) (b : List ℕ) (m : Manager)
    → IsSound (same id) m
    → IsSound (same id) (publish host now id b m).0
publish-IsSound host now id b =
    publish-keeps host (IsSound (same id)) (remove-IsSound (same id) host) now
      (forget_jobs-IsSound (same id) now) id b (store-IsSound host now id b)

remove-IsBounded :
    (host : Host) (id : String) (m : Manager) → IsBounded m → IsBounded (remove host id m).0
unfolding drop_artifact
remove-IsBounded host id m b =
    remove-cases IsBounded host id m b
      (λ _. record { queued = b.queued; owned = b.owned; jobs = b.jobs })

forget_jobs-IsBounded : (now : ℕ) (m : Manager) → IsBounded m → IsBounded (forget_jobs now m)
unfolding forget_jobs
forget_jobs-IsBounded now m b = record {
  queued = omega (arith, b.queued, sum_of-retain-le _ (is_remembered now) m.jobs);
  owned = λ o. omega (arith, b.owned o, sum_of-retain-le _ (is_remembered now) m.jobs);
  jobs = omega (
    arith,
    b.jobs,
    length-sum_of m.jobs,
    length-sum_of (retain (is_remembered now) m.jobs),
    sum_of-retain-le (λ _. 1) (is_remembered now) m.jobs,
  );
}

pub prune-IsBounded :
    (host : Host) (now : ℕ) (m : Manager) → IsBounded m → IsBounded (prune host now m)
prune-IsBounded host now =
    prune-keeps host IsBounded (remove-IsBounded host) now (forget_jobs-IsBounded now)

pub publish-IsBounded :
    (host : Host) (now : ℕ) (id : String) (b : List ℕ) (m : Manager)
    → IsBounded m
    → IsBounded (publish host now id b m).0
unfolding store
publish-IsBounded host now id b =
    publish-keeps host IsBounded (remove-IsBounded host) now (forget_jobs-IsBounded now) id b
      (λ k p. record { queued = p.queued; owned = p.owned; jobs = p.jobs })
