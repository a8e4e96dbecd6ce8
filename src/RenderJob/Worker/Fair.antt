-- ===== src/RenderJob/Worker/Fair.antt =====
-- The scan of the worker's first section: what it passes over.
use mathlib.Core.Path.{◌≡◌, refl}
use go_graphics.Common.{
  [], ◌∷◌, ℕ, ◌+◌, List, String, Option, some, true, none, same, arith, false, ◌∷◌, inl, inr,
  Bool-cases, subst, same_eq,
}
use go_graphics.Common.Names.{contains}
use go_graphics.RenderJob.Model.{Manager, Job, expired}
use go_graphics.RenderJob.Worker.{scan, lookup, candidate, with_state, fit, stale, first_index}
use go_graphics.RenderJob.Worker.Choice.{Finds, scan-Finds, expire_at, later, earlier, IsFit-after}
use go_graphics.RenderJob.Worker.Scan.{
  IsIdle, IsFit, scan-keeps, look, scan_skipped, scan_stale, scan_again, scan_other,
}
use go_graphics.Common.Dict.{lookup-insert}

scan_hits :
    (now : ℕ) (m : Manager) (l : List String) (i k : ℕ) → (scan now m l i (some k)).1 ≡ none → ⊥
scan_hits now m l i k e = elim (scan-Finds now m l i (some k)) [
  | inl f ↦ absurd (ground arith)
  | inr f ↦ absurd (ground (arith, f.result))
]

expired-IsIdle :
    (x id : String) (j : Job) (m : Manager)
    → IsIdle (lookup x m.jobs)
    → IsIdle (lookup x (expire_at id j m).jobs)
expired-IsIdle x id j m idle k e =
    ground (arith, lookup-insert id x (with_state expired j) m.jobs, idle k)

scan-IsIdle :
    (now : ℕ) (x : String) (m : Manager) (l : List String) (i : ℕ) (index : Option ℕ)
    → IsIdle (lookup x m.jobs)
    → IsIdle (lookup x (scan now m l i index).0.jobs)
scan-IsIdle now x =
    scan-keeps (λ k. IsIdle (lookup x k.jobs)) now
      (λ k id j o q s idle. expired-IsIdle x id j k idle)

-- Without an answer, no job of `l` is queued.
abbrev pub Misses : List String → Manager × Option ℕ → Type 0
Misses l r = r.1 ≡ none → (x : String) → contains x l ≡ true → IsIdle (lookup x r.0.jobs)

Misses-head :
    (id : String) (rest : List String) (r : Manager × Option ℕ)
    → (r.1 ≡ none → IsIdle (lookup id r.0.jobs))
    → Misses rest r
    → Misses (id ∷ rest) r
unfolding contains
Misses-head id rest r head tail e x c = elim (Bool-cases (same id x)) [
  | inl here ↦ subst (λ y. IsIdle (lookup y r.0.jobs)) (same_eq id x here) (head e)
  | inr there ↦ tail e x (ground arith)
]

pub scan-Misses : (now : ℕ) (m : Manager) (l : List String) (i : ℕ) → Misses l (scan now m l i none)
unfolding contains
scan-Misses now m [] i = λ e x c. absurd (ground arith)
scan-Misses now m (id ∷ rest) i = elim (look now (lookup id m.jobs)) [
  | inl (s, idle) ↦ rw (scan_skipped now m id rest i none s) (
      Misses-head id rest (scan now m rest (i + 1) none)
        (λ _. scan-IsIdle now id m rest (i + 1) none idle) (scan-Misses now m rest (i + 1)))
  | inr (inl (j, o, q, s)) ↦ rw (scan_stale now m id rest i none j s) (
      Misses-head id rest (scan now (expire_at id j m) rest (i + 1) none)
        (λ _. scan-IsIdle now id (expire_at id j m) rest (i + 1) none (expired_here j))
        (scan-Misses now (expire_at id j m) rest (i + 1)))
  | inr (inr (j, o, q, s)) ↦ elim (Bool-cases (same j.owner m.last)) [
    | inl again ↦
        rw (scan_again now m id rest i none j s again)
          (λ e. absurd (scan_hits now m rest (i + 1) i e))
    | inr other ↦ rw (scan_other now m id rest i none j s other) (λ e. absurd (ground arith))
  ]
]
  where
    expired_here : (j : Job) → IsIdle (lookup id (expire_at id j m).jobs)
    expired_here j k e = ground (arith, lookup-insert id id (with_state expired j) m.jobs)

-- The scan has found a job of an owner that was not served last.
abbrev pub FindsOther : ℕ → Manager → List String → ℕ → Option ℕ → Type 0
FindsOther now m l i r = (f : Finds now m l i r) × (same f.job.owner m.last ≡ false)

pub scan_fair :
    (now : ℕ) (m : Manager) (l : List String) (i : ℕ) (index : Option ℕ) (x : String) (y : Job)
    → contains x l ≡ true
    → IsFit now m x y
    → same y.owner m.last ≡ false
    → FindsOther now m l i (scan now m l i index).1
unfolding contains
scan_fair now m [] i index x y c fits other = absurd (ground arith)
scan_fair now m (id ∷ rest) i index x y c fits new = elim (look now (lookup id m.jobs)) [
  | inl (s, idle) ↦ rw (scan_skipped now m id rest i index s) (
      on_rest (scan_fair now m rest (i + 1) index x y (ground (arith, fits.0, fits.1, s)) fits new))
  | inr (inl (j, o, q, s)) ↦ rw (scan_stale now m id rest i index j s) (
      on_stale j o s (
        scan_fair now (expire_at id j m) rest (i + 1) index x y (ground (arith, fits.0, fits.1, s))
          (IsFit-after now m id x j y s fits) new))
  | inr (inr (j, o, q, s)) ↦ elim (Bool-cases (same j.owner m.last)) [
    | inl again ↦ rw (scan_again now m id rest i index j s again) (
        on_rest (
          scan_fair now m rest (i + 1) (first_index index i) x y
            (ground (arith, fits.0, fits.1, s, o)) fits new))
    | inr other ↦ rw (scan_other now m id rest i index j s other) (here j o s other)
  ]
]
  where
    here :
        (j : Job)
        → lookup id m.jobs ≡ some j
        → candidate now (lookup id m.jobs) ≡ fit j
        → same j.owner m.last ≡ false
        → FindsOther now m (id ∷ rest) i (some i)
    here j o e other = (
      record {
        n = 0;
        id = id;
        job = j;
        place = refl;
        fits = (o, subst (λ x. candidate now x ≡ fit j) o e);
        result = ground arith;
      },
      other,
    )

    on_rest : {r : Option ℕ} → FindsOther now m rest (i + 1) r → FindsOther now m (id ∷ rest) i r
    on_rest {r} (f, o) = (later now m id rest i r f, o)

    on_stale :
        {r : Option ℕ} (j : Job)
        → lookup id m.jobs ≡ some j
        → candidate now (lookup id m.jobs) ≡ stale j
        → FindsOther now (expire_at id j m) rest (i + 1) r
        → FindsOther now m (id ∷ rest) i r
    on_stale {r} j o c (f, other) =
        (later now m id rest i r (earlier now m id j rest (i + 1) r o c f), other)
