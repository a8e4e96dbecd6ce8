-- ===== src/RenderJob/Sound/Running.antt =====
-- The running job and the ids: an invariant, under changes of one job and of the cache, and under
-- `Cancel`.
use go_graphics.Common.{
  Option, String, ℕ, ◌≡◌, some, true, same, List, none, Option-cases, false, Bool-cases, arith, ◌∙◌,
  inl, subst, same_eq, inr,
}
use go_graphics.RenderJob.Model.{Job, is_running, Manager, Host}
use go_graphics.RenderJob.Cache.{
  store, drop_artifact, forget_jobs, remove, prune, publish, is_remembered,
}
use go_graphics.RenderJob.Worker.{Run, set_job}
use go_graphics.RenderJob.Visitors.{cancel}
use go_graphics.Common.Dict.{
  Distinct, retain-Distinct, lookup, insert-Distinct, lookup-retain, lookup-insert,
}
use go_graphics.RenderJob.Cache.Induction.{remove-cases, prune-keeps, publish-keeps}
use go_graphics.RenderJob.Sound.Leaving.{cancel_misses, cancel_leaves, left_by}

abbrev pub Runs : Option Run → String → Job → Type 0
Runs run id j = (r : Run) × (run ≡ some r) × (r.id ≡ id) × (j.ref ≡ r.ref)

-- `run` is the worker's work in hand.
pub record IsServed (run : Option Run) (m : Manager) : Type 0 where
  pub distinct : Distinct m.jobs
  pub named : lookup "" m.jobs ≡ none
  pub runs :
      (id : String) (j : Job)
      → lookup id m.jobs ≡ some j
      → is_running j.state ≡ true
      → Runs run id j

-- `x` may take the place of what is there.
abbrev pub MayRun : Option Run → String → Job → Manager → Type 0
MayRun run id x m = is_running x.state ≡ true → Runs run id x

pub set_job-IsServed :
    (run : Option Run) (id : String) (x : Job) (m : Manager)
    → IsServed run m
    → same id "" ≡ false
    → MayRun run id x m
    → IsServed run (set_job id x m)
set_job-IsServed run id x m s n may = record {
  distinct = insert-Distinct id x m.jobs s.distinct;
  named = ground (arith, lookup-insert id "" x m.jobs, s.named);
  runs = λ i y e f. elim (Bool-cases (same id i)) [
    | inl here ↦
        let same_job : x ≡ y = ground (arith, lookup-insert id i x m.jobs) in
        subst (λ z. Runs run i z) same_job
          (subst (λ k. Runs run k x) (same_eq id i here) (may (rw same_job f)))
    | inr there ↦ s.runs i y (ground (arith, lookup-insert id i x m.jobs)) f
  ];
}

pub there_named :
    (run : Option Run) (id : String) (j : Job) (m : Manager)
    → IsServed run m
    → lookup id m.jobs ≡ some j
    → same id "" ≡ false
there_named run id j m s e = elim (Bool-cases (same id "")) [
  | inl empty ↦
      absurd
        (ground (arith, s.named, subst (λ k. lookup k m.jobs ≡ some j) (same_eq id "" empty) e))
  | inr other ↦ other
]

-- `x` runs only if `j` does, under the same address.
abbrev pub RunsAs : Job → Job → Type 0
RunsAs j x = is_running x.state ≡ true → (is_running j.state ≡ true) × (x.ref ≡ j.ref)

pub change-IsServed :
    (run : Option Run) (id : String) (j x : Job) (m : Manager)
    → IsServed run m
    → lookup id m.jobs ≡ some j
    → RunsAs j x
    → IsServed run (set_job id x m)
change-IsServed run id j x m s e ra =
    set_job-IsServed run id x m s (there_named run id j m s e)
      (λ f. let (r, p, q, t) = s.runs id j e (ra f).0 in (r, p, q, (ra f).1 ∙ t))

remove-IsServed :
    (run : Option Run) (host : Host) (id : String) (m : Manager)
    → IsServed run m
    → IsServed run (remove host id m).0
unfolding drop_artifact
remove-IsServed run host id m s =
    remove-cases (IsServed run) host id m s
      (λ _. record { distinct = s.distinct; named = s.named; runs = s.runs })

forget_jobs-IsServed :
    (run : Option Run) (now : ℕ) (m : Manager) → IsServed run m → IsServed run (forget_jobs now m)
unfolding forget_jobs
forget_jobs-IsServed run now m s = record {
  distinct = retain-Distinct (is_remembered now) m.jobs s.distinct;
  named = ground (arith, lookup-retain (is_remembered now) "" m.jobs s.distinct, s.named);
  runs = λ i y e f.
      s.runs i y (ground (arith, lookup-retain (is_remembered now) i m.jobs s.distinct)) f;
}

pub prune-IsServed :
    (run : Option Run) (host : Host) (now : ℕ) (m : Manager)
    → IsServed run m
    → IsServed run (prune host now m)
prune-IsServed run host now =
    prune-keeps host (IsServed run) (remove-IsServed run host) now (forget_jobs-IsServed run now)

pub publish-IsServed :
    (run : Option Run) (host : Host) (now : ℕ) (id : String) (b : List ℕ) (m : Manager)
    → IsServed run m
    → IsServed run (publish host now id b m).0
unfolding store
publish-IsServed run host now id b =
    publish-keeps host (IsServed run) (remove-IsServed run host) now (forget_jobs-IsServed run now)
      id b (λ k s. record { distinct = s.distinct; named = s.named; runs = s.runs })

pub cancel-IsServed :
    (run : Option Run) (owner id : String) (m : Manager)
    → IsServed run m
    → IsServed run (cancel owner id m).0
cancel-IsServed run owner id m s = elim (Option-cases (lookup id m.jobs)) [
  | inl gone ↦ rw (cancel_misses owner id m gone) s
  | inr (j, there) ↦ rw (cancel_leaves owner id m j there) (
      change-IsServed run id j (left_by owner j) m s there (λ f. (ground (arith, f), ground arith)))
]
