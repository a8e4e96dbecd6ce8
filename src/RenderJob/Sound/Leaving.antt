-- ===== src/RenderJob/Sound/Leaving.antt =====
-- The invariants of the jobs under `Cancel`.
use go_graphics.Common.{
  refl, String, if◌then◌else◌, length, arith, Option-cases, ◌≤◌, ◌≡◌, none, some, inl, inr,
  Bool-cases,
}
use go_graphics.RenderJob.Visitors.{cancel, is_abandoned, unsubscribed}
use go_graphics.RenderJob.Model.{Job, Manager, cancelled}
use go_graphics.RenderJob.Sound.{
  IsLighter, IsSound, IsBounded, IsLater, set_job, set_job-IsBounded, set_job-IsSound,
}
use go_graphics.Common.Dict.{lookup}
use go_graphics.RenderJob.Sound.Enrollment.{none_excepted}
use go_graphics.Common.Names.{contains-discard, length-discard-le}

-- What `Cancel` makes of the job.
abbrev pub left_by : String → Job → Job
left_by owner j =
    if is_abandoned (unsubscribed owner j)
    then (record (unsubscribed owner j) { state = cancelled })
    else unsubscribed owner j

pub cancel_leaves :
    (owner id : String) (m : Manager) (j : Job)
    → lookup id m.jobs ≡ some j
    → (cancel owner id m).0 ≡ set_job id (left_by owner j) m
unfolding cancel
cancel_leaves owner id m j e = elim (Bool-cases (is_abandoned (unsubscribed owner j))) [
  | inl empty ↦ rw (e, cancel, empty) refl
  | inr other ↦ rw (e, cancel, other) refl
]

pub cancel_misses :
    (owner id : String) (m : Manager) → lookup id m.jobs ≡ none → (cancel owner id m).0 ≡ m
unfolding cancel
cancel_misses owner id m e = rw (e, cancel) refl

left_by-IsLater :
    (owner : String) (j : Job) → length j.subscribers ≤ 24 → IsLater j (left_by owner j)
left_by-IsLater owner j few = record {
  live = λ l. ground arith;
  queued = λ l. ground arith;
  few = ground (arith, length-discard-le owner j.subscribers);
  ref = ground arith;
}

left_by-IsLighter : (owner : String) (j : Job) → IsLighter j (left_by owner j)
left_by-IsLighter owner j =
    (ground arith, λ o. ground (arith, contains-discard owner o j.subscribers))

pub cancel-IsSound :
    (owner id : String) (m : Manager)
    → IsSound none_excepted m
    → IsSound none_excepted (cancel owner id m).0
cancel-IsSound owner id m s = elim (Option-cases (lookup id m.jobs)) [
  | inl gone ↦ rw (cancel_misses owner id m gone) s
  | inr (j, there) ↦ rw (cancel_leaves owner id m j there) (
      set_job-IsSound none_excepted id j (left_by owner j) m s there
        (left_by-IsLater owner j (s.few id j there)))
]

pub cancel-IsBounded :
    (owner id : String) (m : Manager) → IsBounded m → IsBounded (cancel owner id m).0
cancel-IsBounded owner id m b = elim (Option-cases (lookup id m.jobs)) [
  | inl gone ↦ rw (cancel_misses owner id m gone) b
  | inr (j, there) ↦
      rw (cancel_leaves owner id m j there)
        (set_job-IsBounded id j (left_by owner j) m b there (left_by-IsLighter owner j))
]
