-- ===== src/RenderJob/Sound.antt =====
-- The invariant of the jobs, and how it follows a change to one of them.
pub mod Pruning
pub mod Placement
pub mod Enrollment
pub mod Queueing
pub mod Working
pub mod Running
pub mod Serving
pub mod Finishing
pub mod Leaving
use go_graphics.Common.{
  ℕ, ◌+◌, ◌≤◌, ◌<◌, ◌≡◌, String, Bool, true, false, none, some, List, arith, length, same, bit,
  if◌then◌else◌,
}
use go_graphics.Common.Dict.{
  lookup, insert, Distinct, insert-Distinct, lookup-insert, sum_of, sum_of-insert, weight,
  length-sum_of,
}
use go_graphics.Common.Names.{contains}
use go_graphics.RenderJob.Model.{Manager, Job, is_queued, is_live, is_running}
use go_graphics.RenderJob.Admission.{queued_jobs, owned_jobs, is_owned}
use go_graphics.RenderJob.Worker.{set_job}

-- Every live job waits for an image that is not in the cache (but for the ids of `except`), has at most
-- 24 subscribers, and stands in the queue while it is queued. Addresses are given out once.
pub record IsSound (except : String → Bool) (m : Manager) : Type 0 where
  pub distinct : Distinct m.jobs
  pub uncached :
      (id : String) (j : Job)
      → lookup id m.jobs ≡ some j
      → is_live j.state ≡ true
      → except id ≡ false
      → lookup id m.artifacts ≡ none
  pub few : (id : String) (j : Job) → lookup id m.jobs ≡ some j → length j.subscribers ≤ 24
  pub waiting :
      (id : String) (j : Job)
      → lookup id m.jobs ≡ some j
      → is_queued j.state ≡ true
      → contains id m.queue ≡ true
  pub allocated : (id : String) (j : Job) → lookup id m.jobs ≡ some j → j.ref < m.next

-- The limits on work.
pub record IsBounded (m : Manager) : Type 0 where
  pub queued : queued_jobs m ≤ m.cfg.queue
  pub owned : (o : String) → owned_jobs o m ≤ 4
  pub jobs : length m.jobs ≤ 5000

-- `x` may take the place of `j`: it is no more alive, and has no new subscriber beyond the limit.
pub record IsLater (j x : Job) : Type 0 where
  pub live : is_live x.state ≡ true → is_live j.state ≡ true
  pub queued : is_queued x.state ≡ true → is_queued j.state ≡ true
  pub few : length x.subscribers ≤ 24
  pub ref : x.ref ≡ j.ref

pub set_job-IsSound :
    (except : String → Bool) (id : String) (j x : Job) (m : Manager)
    → IsSound except m
    → lookup id m.jobs ≡ some j
    → IsLater j x
    → IsSound except (set_job id x m)
set_job-IsSound except id j x m s e l = record {
  distinct = insert-Distinct id x m.jobs s.distinct;
  uncached = λ i y f live ex.
      ground (arith, lookup-insert id i x m.jobs, l.live, s.uncached i y, s.uncached id j, ex);
  few = λ i y f. ground (arith, lookup-insert id i x m.jobs, l.few, s.few i y);
  waiting = λ i y f q.
      ground (arith, lookup-insert id i x m.jobs, l.queued, s.waiting i y, s.waiting id j);
  allocated = λ i y f.
      ground (arith, lookup-insert id i x m.jobs, l.ref, s.allocated i y, s.allocated id j);
}

-- Nobody's work grows.
abbrev pub IsLighter : Job → Job → Type 0
IsLighter j x =
    (bit (is_queued x.state) ≤ bit (is_queued j.state))
    × ((o : String) → bit (is_owned o x) ≤ bit (is_owned o j))

pub set_job-IsBounded :
    (id : String) (j x : Job) (m : Manager)
    → IsBounded m
    → lookup id m.jobs ≡ some j
    → IsLighter j x
    → IsBounded (set_job id x m)
set_job-IsBounded id j x m b e l = record {
  queued = ground (arith, b.queued, l.0, sum_of-insert (λ y. bit (is_queued y.state)) id x m.jobs);
  owned =
      λ o. ground (arith, b.owned o, l.1 o, sum_of-insert (λ y. bit (is_owned o y)) id x m.jobs);
  jobs = ground (
    arith,
    b.jobs,
    sum_of-insert (λ _. 1) id x m.jobs,
    length-sum_of m.jobs,
    length-sum_of (insert id x m.jobs),
  );
}
