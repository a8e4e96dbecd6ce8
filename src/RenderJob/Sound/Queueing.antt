-- ===== src/RenderJob/Sound/Queueing.antt =====
-- The invariants of the jobs under the worker's first section.
use go_graphics.Common.{
  zero, suc, refl, [], ◌∷◌, ℕ, String, length, List, ◌≤◌, Option, ◌≡◌, some, arith, same, false,
  true, suc, inl, none, inr, subst, sym, ◌∙◌, Bool-cases,
}
use go_graphics.RenderJob.Worker.{start_job, get_elem?, scan, with_state, erase_idx, started, begin}
use go_graphics.RenderJob.Model.{Job, Manager, expired, is_queued}
use go_graphics.Common.Names.{contains}
use go_graphics.RenderJob.Sound.{
  IsSound, IsLater, IsBounded, set_job-IsBounded, lookup, set_job-IsSound, insert-Distinct,
  lookup-insert,
}
use go_graphics.RenderJob.Sound.Enrollment.{none_excepted}
use go_graphics.RenderJob.Worker.Scan.{scan-keeps}
use go_graphics.RenderJob.Worker.Begin.{begin_cases, scan-Scanned, scan-IsFit, fit-queued}

expired-IsLater : (j : Job) → length j.subscribers ≤ 24 → IsLater j (with_state expired j)
expired-IsLater j few = record {
  live = λ e. absurd (ground arith);
  queued = λ e. absurd (ground arith);
  few = few;
  ref = refl;
}

scan-IsSound :
    (now : ℕ) (m : Manager) (l : List String) (i : ℕ) (index : Option ℕ)
    → IsSound none_excepted m
    → IsSound none_excepted (scan now m l i index).0
scan-IsSound now = scan-keeps (IsSound none_excepted) now (λ k id j o q c s.
    set_job-IsSound none_excepted id j (with_state expired j) k s o
      (expired-IsLater j (s.few id j o)))

scan-IsBounded :
    (now : ℕ) (m : Manager) (l : List String) (i : ℕ) (index : Option ℕ)
    → IsBounded m
    → IsBounded (scan now m l i index).0
scan-IsBounded now = scan-keeps IsBounded now (λ k id j o q c b.
    set_job-IsBounded id j (with_state expired j) k b o (omega arith, λ o'. omega arith))

contains-erase_idx :
    (x id : String) (q : List String) (i : ℕ)
    → get_elem? q i ≡ some id
    → same id x ≡ false
    → contains x (erase_idx q i) ≡ contains x q
unfolding contains
contains-erase_idx x id [] i e n = refl
contains-erase_idx x id (y ∷ q) zero e n = ground arith
contains-erase_idx x id (y ∷ q) (suc i) e n = ground (arith, contains-erase_idx x id q i e n)

start_job-IsSound :
    (id : String) (i : ℕ) (j : Job) (m : Manager)
    → IsSound none_excepted m
    → get_elem? m.queue i ≡ some id
    → lookup id m.jobs ≡ some j
    → is_queued j.state ≡ true
    → IsSound none_excepted (start_job id i j m).0
unfolding start_job
start_job-IsSound id i j m s e f q = record {
  distinct = insert-Distinct id (started j) m.jobs s.distinct;
  uncached = λ x y g live ex.
      ground (arith, lookup-insert id x (started j) m.jobs, s.uncached x y, s.uncached id j);
  few = λ x y g. ground (arith, lookup-insert id x (started j) m.jobs, s.few x y, s.few id j);
  waiting = λ x y g w. ground (
    arith,
    lookup-insert id x (started j) m.jobs,
    s.waiting x y,
    contains-erase_idx x id m.queue i e,
  );
  allocated = λ x y g.
      ground (arith, lookup-insert id x (started j) m.jobs, s.allocated x y, s.allocated id j);
}

true-false : true ≡ false → ⊥
true-false e = cc

start_job-IsBounded :
    (id : String) (i : ℕ) (j : Job) (m : Manager)
    → IsBounded m
    → lookup id m.jobs ≡ some j
    → is_queued j.state ≡ true
    → IsBounded (start_job id i j m).0
unfolding start_job
start_job-IsBounded id i j m b f q =
    let c = set_job-IsBounded id j (started j) m b f (omega arith, λ o. ground arith) in
    record { queued = c.queued; owned = c.owned; jobs = c.jobs }

pub begin-IsSound :
    (now : ℕ) (m : Manager) → IsSound none_excepted m → IsSound none_excepted (begin now m).0
begin-IsSound now m s = elim (begin_cases now m) [
  | inl t ↦
      let k = (scan now m m.queue 0 none).0 in
      rw t.outcome (
        start_job-IsSound t.id t.index t.job k (scan-IsSound now m m.queue 0 none s)
          (rw (scan-Scanned now m m.queue 0 none).queue t.place)
          (scan-IsFit now m m.queue 0 none t.id t.job t.fits).0
          (fit-queued now m t.id t.job t.fits))
  | inr (o, idle) ↦
      let k = (scan now m m.queue 0 none).0 in
      let s' = scan-IsSound now m m.queue 0 none s in
      rw o (record {
        distinct = s'.distinct;
        uncached = s'.uncached;
        few = s'.few;
        waiting = λ x y f q.
            let c =
              subst (λ l. contains x l ≡ true) (scan-Scanned now m m.queue 0 none).queue
                (s'.waiting x y f q) in
            absurd (true-false (sym q ∙ idle x c y f));
        allocated = s'.allocated;
      })
]

pub begin-IsBounded : (now : ℕ) (m : Manager) → IsBounded m → IsBounded (begin now m).0
begin-IsBounded now m b = elim (begin_cases now m) [
  | inl t ↦ rw t.outcome (
      start_job-IsBounded t.id t.index t.job (scan now m m.queue 0 none).0
        (scan-IsBounded now m m.queue 0 none b)
        (scan-IsFit now m m.queue 0 none t.id t.job t.fits).0 (fit-queued now m t.id t.job t.fits))
  | inr (o, idle) ↦
      let c = scan-IsBounded now m m.queue 0 none b in
      rw o (record { queued = c.queued; owned = c.owned; jobs = c.jobs })
]

rests_empty : (now : ℕ) (m : Manager) → (begin now m).1 ≡ none → (begin now m).0.queue ≡ []
unfolding start_job
rests_empty now m e = elim (begin_cases now m) [
  | inl t ↦ absurd (ground (arith, t.outcome, e))
  | inr (o, idle) ↦ rw o refl
]

no_member : (x : String) → contains x [] ≡ true → ⊥
unfolding contains
no_member x w = cc

-- If the invariant of the jobs holds and the worker finds nothing to do, no job at all is left
-- queued.
pub begin_idle :
    (now : ℕ) (m : Manager)
    → IsSound none_excepted m
    → (begin now m).1 ≡ none
    → (x : String) (y : Job) → lookup x (begin now m).0.jobs ≡ some y
    → is_queued y.state ≡ false
begin_idle now m s e x y f = elim (Bool-cases (is_queued y.state)) [
  | inl waits ↦
      let w = (begin-IsSound now m s).waiting x y f waits in
      absurd (no_member x (subst (λ q. contains x q ≡ true) (rests_empty now m e) w))
  | inr rests ↦ rests
]
