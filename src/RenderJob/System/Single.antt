-- ===== src/RenderJob/System/Single.antt =====
-- `Counts`: the number of running jobs.
use go_graphics.Common.{
  refl, [], ◌∷◌, String, Option, ℕ, List, ◌≡◌, if◌then◌else◌, ◌≤◌, some, same_refl, arith, none,
  Bool-cases, true, subst, same, inl, sym, same_eq, inr,
}
use go_graphics.RenderJob.Model.{Job, Manager, is_running}
use go_graphics.RenderJob.Visitors.{counts}
use go_graphics.Common.Dict.{lookup, weight, Dict, Distinct, sum_of}
use go_graphics.RenderJob.Worker.{Run}
use go_graphics.RenderJob.System.{System, IsServed, Inv}

abbrev run_bit : Job → ℕ
run_bit j = if is_running j.state then 1 else 0

abbrev RunsOnlyAt : String → Dict Job → Type 0
RunsOnlyAt r d =
    (id : String) (j : Job) → lookup id d ≡ some j → is_running j.state ≡ true → same id r ≡ true

lookup-rest :
    (k id : String) (v j : Job) (d : Dict Job)
    → lookup k d ≡ none
    → lookup id d ≡ some j
    → lookup id ((k, v) ∷ d) ≡ some j
unfolding lookup
lookup-rest k id v j d n e = elim (Bool-cases (same k id)) [
  | inl here ↦
      absurd (ground (arith, n, subst (λ i. lookup i d ≡ some j) (sym (same_eq k id here)) e))
  | inr other ↦ rw (lookup, other) e
]

lookup-first : (k : String) (v : Job) (d : Dict Job) → lookup k ((k, v) ∷ d) ≡ some v
unfolding lookup
lookup-first k v d = rw (lookup, same_refl k) refl

running-weight :
    (r : String) (d : Dict Job)
    → Distinct d
    → RunsOnlyAt r d
    → sum_of run_bit d ≡ weight run_bit (lookup r d)
unfolding lookup
running-weight r [] d h = refl
running-weight r ((k, v) ∷ rest) (n, d) h = elim (Bool-cases (same k r)) [
  | inl here ↦
      let gone : lookup r rest ≡ none = subst (λ i. lookup i rest ≡ none) (same_eq k r here) n in
      ground (
        arith,
        here,
        gone,
        running-weight r rest d (λ id j e. h id j (lookup-rest k id v j rest n e)),
      )
  | inr other ↦ elim (Bool-cases (is_running v.state)) [
    | inl runs ↦ absurd (ground (arith, other, h k v (lookup-first k v rest) runs))
    | inr rests ↦ ground (
      arith,
      other,
      rests,
      running-weight r rest d (λ id j e. h id j (lookup-rest k id v j rest n e)),
    )
  ]
]

weight-le : (o : Option Job) → weight run_bit o ≤ 1
weight-le none = omega arith
weight-le (some j) = ground arith

runs_at : Option Run → String
runs_at none = ""
runs_at (some r) = r.id

served-RunsOnlyAt :
    (run : Option Run) (m : Manager) → IsServed run m → RunsOnlyAt (runs_at run) m.jobs
unfolding runs_at
served-RunsOnlyAt run m s id j e f =
    let (r, p, q, _) = s.runs id j e f in
    subst (λ o. same id (runs_at o) ≡ true) (sym p)
      (subst (λ i. same id i ≡ true) (sym q) (same_refl id))

-- In a state with the invariant, `Counts` reports at most one running job, and at most as many queued
-- jobs and files as the configuration allows.
pub counts_lem :
    (sha : List ℕ → String) (s : System)
    → Inv sha s
    → let (waiting, working, files, _) = counts s.manager in
      (waiting ≤ s.manager.cfg.queue) × (working ≤ 1) × (files ≤ s.manager.cfg.cache_count)
unfolding counts
counts_lem sha s i =
    let w =
      running-weight (runs_at s.run) s.manager.jobs i.served.distinct
        (served-RunsOnlyAt s.run s.manager i.served) in
    (
      i.bounded.queued,
      omega (arith, w, weight-le (lookup (runs_at s.run) s.manager.jobs)),
      i.kept.within.1,
    )
