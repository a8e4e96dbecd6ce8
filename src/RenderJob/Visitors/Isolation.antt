-- ===== src/RenderJob/Visitors/Isolation.antt =====
-- What one visitor's `Cancel` means for the worker and for the other visitors.
use go_graphics.RenderJob.Sound.Leaving.{cancel_misses, cancel_leaves, left_by}
use go_graphics.Common.{
  if◌then◌else◌, refl, [], ◌∷◌, ℕ, String, List, same, length, ◌≡◌, false, Bool, Option-cases,
  arith, inl, some, inr, true, Bool-cases, ◌⊎◌, subst, same_eq, none,
}
use go_graphics.Common.Names.{contains, discard, contains-discard}
use go_graphics.RenderJob.Visitors.{cancel, status, Manager, lookup}
use go_graphics.RenderJob.Worker.{finish, Run, set_job}
use go_graphics.RenderJob.Model.{Host, Result, Job, is_live, is_running}
use go_graphics.RenderJob.Sound.Leaving.{cancel_misses, cancel_leaves}
use go_graphics.Common.Dict.{Dict, insert, lookup-insert_self, lookup-insert}

empty-contains :
    (owner other : String) (xs : List String)
    → length (discard owner xs) ≡ 0
    → same owner other ≡ false
    → contains other xs ≡ false
unfolding contains discard
empty-contains owner other [] e n = refl
empty-contains owner other (x ∷ xs) e n = ground (arith, empty-contains owner other xs)

left_by-others :
    (owner other : String) (j : Job)
    → same owner other ≡ false
    → (contains other (left_by owner j).subscribers ≡ contains other j.subscribers)
      × ((contains other j.subscribers ≡ false) ⊎ ((left_by owner j).state ≡ j.state))
left_by-others owner other j n = (
  ground (arith, contains-discard owner other j.subscribers),
  ground (arith, empty-contains owner other j.subscribers),
)

shown_as :
    (now : ℕ) (other i : String) (m : Manager) (j x : Job) (jobs : Dict Job)
    → lookup i m.jobs ≡ some j
    → lookup i jobs ≡ some x
    → contains other x.subscribers ≡ contains other j.subscribers
    → (contains other j.subscribers ≡ false) ⊎ (x.state ≡ j.state)
    → status now (record m { jobs = jobs }) other i ≡ status now m other i
unfolding status
shown_as now other i m j x jobs e f c (inl out) = ground (arith, e, f, c, out)
shown_as now other i m j x jobs e f c (inr s) = ground (arith, e, f, c, s)

shown_there :
    (now : ℕ) (other i : String) (m : Manager) (jobs : Dict Job)
    → lookup i jobs ≡ lookup i m.jobs
    → status now (record m { jobs = jobs }) other i ≡ status now m other i
unfolding status
shown_there now other i m jobs e = rw (status, e) refl

-- `Cancel` by one visitor changes nothing that `Status` shows another, whatever job it names.
pub cancel_isolated :
    (now : ℕ) (owner other id i : String) (m : Manager)
    → same owner other ≡ false
    → status now (cancel owner id m).0 other i ≡ status now m other i
cancel_isolated now owner other id i m n = elim (Option-cases (lookup id m.jobs)) [
  | inl gone ↦ rw (cancel_misses owner id m gone) refl
  | inr (j, there) ↦ rw (cancel_leaves owner id m j there) (elim (Bool-cases (same id i)) [
    | inl here ↦
        let (c, t) = left_by-others owner other j n in
        shown_as now other i m j (left_by owner j) (insert id (left_by owner j) m.jobs)
          (subst (λ k. lookup k m.jobs ≡ some j) (same_eq id i here) there)
          (ground (arith, lookup-insert id i (left_by owner j) m.jobs, here)) c t
    | inr there' ↦
        shown_there now other i m (insert id (left_by owner j) m.jobs)
          (ground (arith, lookup-insert id i (left_by owner j) m.jobs, there'))
  ])
]

cancel_interrupts :
    (owner id : String) (m : Manager) (j : Job)
    → lookup id m.jobs ≡ some j
    → is_live j.state ≡ true
    → length (discard owner j.subscribers) ≡ 0
    → (cancel owner id m).1 ≡ (if j.cancel then some j.ref else none)
unfolding cancel
cancel_interrupts owner id m j e l z = ground (arith, e, l, z)

left_by_cancelled :
    (owner : String) (j : Job)
    → is_live j.state ≡ true
    → length (discard owner j.subscribers) ≡ 0
    → is_running (left_by owner j).state ≡ false
left_by_cancelled owner j l z = ground (arith, l, z)

finish_cancelled :
    (host : Host) (now : ℕ) (run : Run) (r : Result (List ℕ)) (late : Bool) (m : Manager) (x : Job)
    → is_running x.state ≡ false
    → finish host now run r late (set_job run.id x m) ≡ set_job run.id x m
unfolding finish
finish_cancelled host now run r late m x s = ground (arith, lookup-insert_self run.id x m.jobs, s)

-- When the last subscriber of a live job leaves, the context of the job is cancelled if the worker
-- has made one, and whatever the renderer then returns is dropped: the worker's second section
-- leaves the state as `Cancel` left it.
pub cancel_stops :
    (owner : String) (host : Host) (now : ℕ) (run : Run) (r : Result (List ℕ)) (late : Bool)
    (m : Manager) (j : Job)
    → lookup run.id m.jobs ≡ some j
    → is_live j.state ≡ true
    → length (discard owner j.subscribers) ≡ 0
    → ((cancel owner run.id m).1 ≡ (if j.cancel then some j.ref else none))
      × (finish host now run r late (cancel owner run.id m).0 ≡ (cancel owner run.id m).0)
cancel_stops owner host now run r late m j e l z = (
  cancel_interrupts owner run.id m j e l z,
  rw (cancel_leaves owner run.id m j e)
      (finish_cancelled host now run r late m (left_by owner j) (left_by_cancelled owner j l z)),
)
